-- ===== src/ControlPlane/Orchestrator/Approvals.antt =====
-- Which approvals control-plane/orchestrator.ts lets through to the executor.
use micro_agent_protocol.Base.{
  ◌≡◌, ◌↔◌, refl, String, some, inl, inr, Option-cases, Bool, true, false, not, ok, throw_if,
  >>=-eq-ok, throw_if-eq-ok, arith, str_eq, str_eq_iff, truthy,
}
use micro_agent_protocol.Base.Dict.{get as map_get}
use micro_agent_protocol.Protocol.{awaiting_approval, TaskRecord, InvocationNegotiation}
use micro_agent_protocol.ControlPlane.Agents.{AgentDescriptor}
use micro_agent_protocol.ControlPlane.Registry.{get_capability_descriptor}
use micro_agent_protocol.ControlPlane.TaskStore.{get}
use micro_agent_protocol.ControlPlane.TaskStore.Transitions.{status_eq→eq}
use micro_agent_protocol.Integration.Envelope.{TaskEnvelope}
use micro_agent_protocol.Integration.EcpBridge.{map_envelope_to_intent}
use micro_agent_protocol.ControlPlane.Orchestrator.State.{Services, Runtime, approval_task_mismatch}
use micro_agent_protocol.ControlPlane.Orchestrator.Negotiation.{negotiate_invocation}
use micro_agent_protocol.ControlPlane.Orchestrator.Plan.{resolve_descriptor}
use micro_agent_protocol.ControlPlane.Orchestrator.Approval.{
  ApprovalRequest, Approved, expected_reference, check_pending, find_pending, approve_valid,
  with_valid, approve,
}

-- The task waits for this approval: same capability and agent, and the reference that its stored
-- result gives, which is not empty.
pub record IsAwaited (s : Services) (a : ApprovalRequest) (d : AgentDescriptor) (q : TaskRecord)
    : Type 0 where
  pub waits : q.status ≡ awaiting_approval
  pub same_capability : q.capability ≡ a.capability
  pub same_agent : q.target_agent ≡ d.agent_id
  pub same_reference : expected_reference s q ≡ a.approval_reference
  pub named : truthy (expected_reference s q) ≡ true

check_pending-exact :
    (s : Services) (a : ApprovalRequest) (d : AgentDescriptor) (q : TaskRecord)
    → (check_pending s a d q ≡ ok tt) ↔ IsAwaited s a d q
unfolding check_pending
check_pending-exact s a d q =
    let capability = str_eq_iff q.capability a.capability in
    let agent = str_eq_iff q.target_agent d.agent_id in
    let reference = str_eq_iff (expected_reference s q) a.approval_reference in
    (
      λ h. record {
        waits = ground (arith, status_eq→eq q.status awaiting_approval);
        same_capability = ground arith;
        same_agent = ground arith;
        same_reference = ground arith;
        named = ground arith;
      },
      λ w. ground (arith, w.waits, w.same_capability, w.same_agent, w.same_reference, w.named),
    )

-- What an approval that is let through has passed.
pub record IsApprovable (s : Services) (r : Runtime) (a : ApprovalRequest) : Type 0 where
  pub same_task : a.task_id ≡ a.envelope.task_id
  pub agent : AgentDescriptor
  pub resolved : resolve_descriptor r.registry a.envelope.target_agent a.capability ≡ ok agent
  pub negotiation : InvocationNegotiation
  pub negotiated :
      negotiate_invocation agent.visibility_modes
        (get_capability_descriptor r.registry a.envelope.target_agent a.capability)
        a.envelope
        a.capability
        a.requested_schema_version
        a.negotiation
      ≡ ok negotiation
  pub task : TaskRecord
  pub stored : map_get a.task_id r.task_store.tasks ≡ some task
  pub awaited : IsAwaited s a agent task

-- What the code after the await has in scope.
abbrev pub approved_with : Services → ApprovalRequest → InvocationNegotiation → Approved
approved_with s a n = record {
  envelope = a.envelope;
  capability = a.capability;
  approval_reference = a.approval_reference;
  negotiation = n;
  intent = map_envelope_to_intent s.parse a.envelope a.capability;
}

not-false : (b : Bool) → not b ≡ false → b ≡ true
not-false true h = refl
not-false false h = cc

find_pending-exact :
    (r : Runtime) (task_id : String) (q : TaskRecord)
    → (find_pending r task_id ≡ ok q) ↔ (map_get task_id r.task_store.tasks ≡ some q)
unfolding find_pending get
find_pending-exact r task_id q = (λ h. ground arith, λ h. ground arith)

module _ (s : Services) (r : Runtime) (a : ApprovalRequest) where
  approve-passed : (x : Approved) → approve_valid s r a ≡ ok x → IsApprovable s r a
  unfolding approve_valid
  approve-passed x h =
      let (v, same, h2) =
        >>=-eq-ok (throw_if (not (str_eq a.task_id a.envelope.task_id)) approval_task_mismatch) _
          h in
      let (d, resolved, h3) =
        >>=-eq-ok (resolve_descriptor r.registry a.envelope.target_agent a.capability) _ h2 in
      let (n, negotiated, h4) =
        >>=-eq-ok
          (negotiate_invocation d.visibility_modes
            (get_capability_descriptor r.registry a.envelope.target_agent a.capability) a.envelope
            a.capability a.requested_schema_version a.negotiation)
          _ h3 in
      let (q, found, h5) = >>=-eq-ok (find_pending r a.task_id) _ h4 in
      let (w, awaited, h6) = >>=-eq-ok (check_pending s a d q) _ h5 in
      record {
        same_task =
            (str_eq_iff a.task_id a.envelope.task_id).0 (not-false _ (throw_if-eq-ok _ _ same));
        agent = d;
        resolved = resolved;
        negotiation = n;
        negotiated = negotiated;
        task = q;
        stored = (find_pending-exact r a.task_id q).0 found;
        awaited = (check_pending-exact s a d q).0 awaited;
      }

  approve-passes :
      (c : IsApprovable s r a) → approve_valid s r a ≡ ok (approved_with s a c.negotiation)
  unfolding approve_valid
  approve-passes c =
      rw ((str_eq_iff a.task_id a.envelope.task_id).1 c.same_task, approve_valid)
        (rw c.resolved (
          rw c.negotiated (
            rw ((find_pending-exact r a.task_id c.task).1 c.stored)
              (rw ((check_pending-exact s a c.agent c.task).1 c.awaited) refl))))

-- An approval goes on to the executor exactly if its envelope is valid, and as validation leaves it is
-- of the task that the approval names, the agent has the capability and negotiates the invocation,
-- and the task waits for approval, with this capability and agent and with this reference, which is
-- not empty.
pub approve_exact :
    (s : Services) (r : Runtime) (a : ApprovalRequest)
    → ((x : Approved) × (approve s r a ≡ ok x)) ↔ (
        (e : TaskEnvelope) × (s.validate_envelope a.envelope ≡ some e)
        × IsApprovable s r (with_valid a e))
unfolding approve
approve_exact s r a = (
  λ (x, h). elim (Option-cases (s.validate_envelope a.envelope)) [
    | inl bad ↦ absurd (ground arith)
    | inr (e, good) ↦ (e, good, approve-passed s r (with_valid a e) x (rw (good, approve) at h))
  ],
  λ (e, good, c). (
    approved_with s (with_valid a e) c.negotiation,
    rw (good, approve) (approve-passes s r (with_valid a e) c),
  ),
)
