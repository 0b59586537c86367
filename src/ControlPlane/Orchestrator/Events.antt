-- ===== src/ControlPlane/Orchestrator/Events.antt =====
-- What happens to the state of control-plane/orchestrator.ts, one piece of code that runs without a
-- break after another, in any order.
use micro_agent_protocol.Base.{ℕ, String, Option, List, [], ◌∷◌, ok, err}
use micro_agent_protocol.Core.Types.{PolicyDocument}
use micro_agent_protocol.Security.Trust.{TrustAnchor}
use micro_agent_protocol.ControlPlane.Agents.{AgentDescriptor}
use micro_agent_protocol.ControlPlane.Registry.{DescriptorChecks, register}
use micro_agent_protocol.ControlPlane.AsyncQueue.Steps.{Step, step}
use micro_agent_protocol.ControlPlane.Orchestrator.State.{
  Services, Moment, Ticket, Runtime, set_policy,
}
use micro_agent_protocol.ControlPlane.Orchestrator.Answers.{CoreAnswer}
use micro_agent_protocol.ControlPlane.Orchestrator.Plan.{DispatchRequest}
use micro_agent_protocol.ControlPlane.Orchestrator.Dispatch.{dispatch, settle, on_dead_letter}
use micro_agent_protocol.ControlPlane.Orchestrator.Approval.{Approved, settle_approval}
use micro_agent_protocol.ControlPlane.Orchestrator.Cancel.{cancel_task}

-- `approve` changes nothing up to its await, and a call that waits changes nothing at all. A policy is
-- set, an agent registered and the queue steps on without a call of the orchestrator's other code.
pub data Event : Type 0 where
  dispatches : DispatchRequest → Event
  settles : Ticket → CoreAnswer → Event
  dead_letters : Ticket → String → Event
  settles_approval : Approved → CoreAnswer → Event
  cancels : String → Option String → Event
  sets_policy : PolicyDocument → Event
  registers : List TrustAnchor → DescriptorChecks → AgentDescriptor → Event
  queue_steps : ℕ → Step → Event

unfoldable pub happen : Services → Moment → Runtime → Event → Runtime
unfolding dispatch settle on_dead_letter settle_approval cancel_task register step
happen s m r (dispatches q) = (dispatch s m q r).1
happen s m r (settles t x) = (settle s m t x r).1
happen s m r (dead_letters t error) = (on_dead_letter s m t error r).1
happen s m r (settles_approval a x) = (settle_approval s m a x r).1
happen s m r (cancels task_id tenant_id) = (cancel_task s m task_id tenant_id r).1
happen s m r (sets_policy p) = set_policy p r
happen s m r (registers anchors c d) = record r {
  registry = elim (register anchors c r.registry d) [ ok agents ↦ agents | err e ↦ r.registry ];
}
happen s m r (queue_steps now x) = record r { async_queue = step s.limits now r.async_queue x }

-- Events, each with what its code finds.
unfoldable pub happen_all : Services → Runtime → List (Moment × Event) → Runtime
unfolding happen
happen_all s r [] = r
happen_all s r ((m, e) ∷ events) = happen_all s (happen s m r e) events
