-- ===== src/ControlPlane/Orchestrator/Approval.antt =====
-- control-plane/orchestrator.ts: `approve`, up to the await of the executor and after it.
use micro_agent_protocol.Base.{
  String, Option, none, some, not, ◌||◌, Result, ok, err, str_eq, truthy, ◌>>=◌, ◌>>◌, throw_if,
}
use micro_agent_protocol.Base.Json.{Value, undefined, null, text, lookup}
use micro_agent_protocol.Protocol.{awaiting_approval, status_eq, InvocationNegotiation, TaskRecord}
use micro_agent_protocol.Core.Types.{Intent}
use micro_agent_protocol.Integration.Envelope.{TaskEnvelope}
use micro_agent_protocol.Integration.EcpBridge.{map_envelope_to_intent}
use micro_agent_protocol.ControlPlane.Agents.{AgentDescriptor}
use micro_agent_protocol.ControlPlane.Registry.{get_capability_descriptor}
use micro_agent_protocol.ControlPlane.TaskStore.{get}
use micro_agent_protocol.ControlPlane.Orchestrator.State.{
  Services, Moment, Runtime, InvokeResult, Failure, invalid_envelope, approval_task_mismatch,
  approval_not_found, not_awaiting_approval, capability_mismatch, target_mismatch,
  invalid_reference, Action,
}
use micro_agent_protocol.ControlPlane.Orchestrator.Negotiation.{
  InvocationNegotiationRequest, negotiate_invocation,
}
use micro_agent_protocol.ControlPlane.Orchestrator.Answers.{CoreAnswer, normalize_core_result}
use micro_agent_protocol.ControlPlane.Orchestrator.Plan.{resolve_descriptor}
use micro_agent_protocol.ControlPlane.Orchestrator.Dispatch.{record_outcome}

pub record ApprovalRequest : Type 0 where
  pub task_id : String
  pub approval_reference : String
  pub capability : String
  pub envelope : TaskEnvelope
  pub requested_schema_version : Option String
  pub negotiation : Option InvocationNegotiationRequest

-- What the code after the await has in scope.
pub record Approved : Type 0 where
  pub envelope : TaskEnvelope
  pub capability : String
  pub approval_reference : String
  pub negotiation : InvocationNegotiation
  pub intent : Intent

-- `String(v ?? "")`.
abbrev pub as_string : Services → Value → String
as_string s undefined = ""
as_string s null = ""
as_string s (text t) = t
as_string s v = s.show v

-- The reference that the stored result gives.
unfoldable pub expected_reference : Services → TaskRecord → String
unfolding lookup
expected_reference s q = elim q.result [
  | none ↦ ""
  | some p ↦ as_string s (lookup "approval_reference" p.structured_output)
]

-- The guards on the task that waits.
unfoldable pub check_pending :
    Services → ApprovalRequest → AgentDescriptor → TaskRecord → Result Failure (Unit {0})
unfolding expected_reference
check_pending s a d q = do
  throw_if (not (status_eq q.status awaiting_approval)) (not_awaiting_approval a.task_id)
  throw_if (not (str_eq q.capability a.capability)) (capability_mismatch a.task_id)
  throw_if (not (str_eq q.target_agent d.agent_id)) (target_mismatch a.task_id)
  throw_if
      (not (truthy (expected_reference s q))
        || not (str_eq (expected_reference s q) a.approval_reference))
      (invalid_reference a.task_id)

unfoldable pub find_pending : Runtime → String → Result Failure TaskRecord
unfolding get
find_pending r task_id = elim (get r.task_store task_id none) [
  | none ↦ err (approval_not_found task_id)
  | some q ↦ ok q
]

-- `approve` behind the validation of its envelope, up to the await; it changes nothing.
unfoldable pub approve_valid : Services → Runtime → ApprovalRequest → Result Failure Approved
unfolding resolve_descriptor negotiate_invocation get_capability_descriptor find_pending
    check_pending map_envelope_to_intent
approve_valid s r a = do
  throw_if (not (str_eq a.task_id a.envelope.task_id)) approval_task_mismatch
  d ← resolve_descriptor r.registry a.envelope.target_agent a.capability
  negotiation ←
      negotiate_invocation d.visibility_modes
        (get_capability_descriptor r.registry a.envelope.target_agent a.capability) a.envelope
        a.capability a.requested_schema_version a.negotiation
  q ← find_pending r a.task_id
  check_pending s a d q
  ok (record {
    envelope = a.envelope;
    capability = a.capability;
    approval_reference = a.approval_reference;
    negotiation = negotiation;
    intent = map_envelope_to_intent s.parse a.envelope a.capability;
  })

-- The request with its envelope as validation leaves it.
abbrev pub with_valid : ApprovalRequest → TaskEnvelope → ApprovalRequest
with_valid a e = record a { envelope = e }

unfoldable pub approve : Services → Runtime → ApprovalRequest → Result Failure Approved
unfolding approve_valid
approve s r a = elim (s.validate_envelope a.envelope) [
  | none ↦ err invalid_envelope
  | some e ↦ approve_valid s r (with_valid a e)
]

-- The receipt is signed before the reference is written into it.
unfoldable pub approved_result : Services → Moment → Approved → CoreAnswer → InvokeResult
unfolding normalize_core_result
approved_result s m a x =
    let made = normalize_core_result s m x a.envelope a.capability a.negotiation in
    record made { receipt = record made.receipt { approval_used = some a.approval_reference } }

-- `approve` after the await.
unfoldable pub settle_approval : Services → Moment → Approved → CoreAnswer → Action InvokeResult
unfolding record_outcome approved_result
settle_approval s m a x = record_outcome m a.envelope (approved_result s m a x)
