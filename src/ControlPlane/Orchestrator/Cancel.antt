-- ===== src/ControlPlane/Orchestrator/Cancel.antt =====
-- control-plane/orchestrator.ts: `cancelTask`.
use micro_agent_protocol.Base.{
  String, Option, none, some, false, List, [], ◌∷◌, any, err, if◌then◌else◌, truthy,
  resolve_tenant_id,
}
use Prim.Native.String.{◌++◌ as ◌⧺◌}
use micro_agent_protocol.Base.Json.{text, fields_of}
use micro_agent_protocol.Protocol.{
  TaskStatus, accepted, proposed, awaiting_approval, running, revoked, status_eq, status_text,
  ResultPackage, ExecutionReceipt, TaskRecord,
}
use micro_agent_protocol.Protocol
use micro_agent_protocol.ControlPlane.TaskStore.{get, get_by_tenant}
use micro_agent_protocol.ControlPlane.Orchestrator.State.{
  Services, Moment, Runtime, InvokeResult, task_not_found, not_cancellable, Action, return, ◌>>◌,
  update_task,
}
use micro_agent_protocol.ControlPlane.Orchestrator.Outputs.{signed}
use micro_agent_protocol.ControlPlane.Orchestrator.Dispatch.{outcome}

abbrev pub cancellable_states : List TaskStatus
cancellable_states = accepted ∷ proposed ∷ awaiting_approval ∷ running ∷ []

-- A tenant that is not given, or empty, is not looked at.
unfoldable pub find_task : Runtime → String → Option String → Option TaskRecord
unfolding get get_by_tenant
find_task r task_id none = get r.task_store task_id none
find_task r task_id (some tenant_id) =
    if truthy tenant_id
    then get_by_tenant r.task_store task_id tenant_id none
    else get r.task_store task_id none

-- A property of the stored result, if there is one.
abbrev from_result : (ResultPackage → Option String) → TaskRecord → Option String
from_result key q = elim q.result [ none ↦ none | some p ↦ key p ]

unfoldable pub cancel_result : String → TaskRecord → ResultPackage
unfolding status_text
cancel_result task_id q = record {
  task_id = task_id;
  context_id = none;
  status = revoked;
  summary = some "Task was cancelled by the requester.";
  structured_output = fields_of (
      ("target_agent", text q.target_agent)
      ∷ ("capability", text q.capability)
      ∷ ("previous_status", text (status_text q.status))
      ∷ []);
  negotiated_schema_version = from_result (λ p. p.negotiated_schema_version) q;
  requested_schema_version = from_result (λ p. p.requested_schema_version) q;
  executed_schema_version = from_result (λ p. p.executed_schema_version) q;
  negotiation = none;
  redactions_applied = "internal_reasoning" ∷ [];
  followup_required = false;
  escalation_reason = none;
  extensions = none;
}

unfoldable pub cancel_receipt : Services → Moment → String → TaskRecord → ExecutionReceipt
unfolding resolve_tenant_id
cancel_receipt s m task_id q = signed s (record {
  receipt_id = "receipt:" ⧺ (task_id ⧺ ":cancel");
  intent_id = task_id;
  capability = q.capability;
  action = Protocol.ReceiptAction.denied;
  timestamp = m.timestamp;
  status = Protocol.ExecutionStatus.error;
  signature = none;
  task_id = some task_id;
  order_id = none;
  tenant_id = some (resolve_tenant_id q.requester_identity.tenant_id);
  request_id = elim q.receipt [ none ↦ none | some receipt ↦ receipt.request_id ];
  agent_id = q.target_agent;
  resource_touched = some q.target_agent;
  policy_checks = some ("cancellation_requested" ∷ []);
  approval_used = none;
  result_hash = some ("sha256:" ⧺ (task_id ⧺ ":cancel"));
  requested_schema_version = none;
  executed_schema_version = none;
  negotiation = none;
  extensions = none;
})

-- A task that was found and may be cancelled.
unfoldable pub revoke_task : Services → Moment → String → TaskRecord → Action InvokeResult
unfolding cancel_result cancel_receipt update_task
revoke_task s m task_id q = do
  let result = cancel_result task_id q
  let receipt = cancel_receipt s m task_id q
  update_task task_id (outcome revoked result receipt) m.stored_at
  return (record { result = result; receipt = receipt })

unfoldable pub cancel_task : Services → Moment → String → Option String → Action InvokeResult
unfolding find_task revoke_task
cancel_task s m task_id tenant_id r = elim (find_task r task_id tenant_id) [
  | none ↦ (err (task_not_found task_id), r)
  | some q ↦
      if any (status_eq q.status) cancellable_states
      then revoke_task s m task_id q r
      else (err (not_cancellable q.status), r)
]
