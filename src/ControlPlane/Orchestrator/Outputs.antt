-- ===== src/ControlPlane/Orchestrator/Outputs.antt =====
-- control-plane/orchestrator.ts: the results and the receipts that it builds.
use micro_agent_protocol.Base.{
  ℕ, String, Option, none, some, Bool, true, false, ◌&&◌, ◌||◌, ◌==◌, List, [], ◌∷◌, if◌then◌else◌,
  truthy, codes, resolve_tenant_id,
}
use Prim.Native.String.{◌++◌ as ◌⧺◌}
use micro_agent_protocol.Base.Json.{Value, text, fields_of, lookup}
use micro_agent_protocol.Protocol.{
  TaskStatus, awaiting_approval, accepted, running, denied, completed, failed, revoked, status_text,
  ResultPackage, ReceiptAction, executed, approval_required, action_text, ExecutionStatus,
  execution_status_text, ExecutionReceipt, InvocationNegotiation, TaskRecord,
}
use micro_agent_protocol.Protocol
use micro_agent_protocol.Integration.Envelope.{TaskEnvelope, metadata_value, as_text}
use micro_agent_protocol.ControlPlane.Orchestrator.State.{Services, Moment, Ticket}

-- `haystack.includes(needle)` on texts.
is_prefix : List ℕ → List ℕ → Bool
is_prefix [] s = true
is_prefix (c ∷ cs) [] = false
is_prefix (c ∷ cs) (d ∷ ds) = c == d && is_prefix cs ds

unfoldable pub occurs : List ℕ → List ℕ → Bool
unfolding is_prefix
occurs needle [] = is_prefix needle []
occurs needle (c ∷ cs) = is_prefix needle (c ∷ cs) || occurs needle cs

abbrev pub redactions : List String
redactions = "credentials" ∷ "internal_reasoning" ∷ []

abbrev pub request_id_of : TaskEnvelope → Option String
unfolding lookup
request_id_of e = as_text (metadata_value e "request_id")

-- `coreAction` of the text of an action.
unfoldable pub core_action : String → ReceiptAction
unfolding occurs
core_action action_taken =
    if occurs (codes "approval_required") (codes action_taken)
    then approval_required
    else if occurs (codes "denied") (codes action_taken)
        || occurs (codes "cancelled") (codes action_taken)
    then Protocol.ReceiptAction.denied
    else executed

abbrev pub core_status : ReceiptAction → ExecutionStatus
core_status executed = Protocol.ExecutionStatus.ok
core_status _ = Protocol.ExecutionStatus.error

-- `receipt:${task_id}:${Date.now()}:${randomUUID()}`.
abbrev pub new_receipt_id : Moment → TaskEnvelope → String
new_receipt_id m e = "receipt:" ⧺ (e.task_id ⧺ (":" ⧺ (m.now ⧺ (":" ⧺ m.receipt_id))))

-- `buildUnsignedReceipt`, for an action such as `capability.running`. No decision that is passed to it
-- has an approval reference.
unfoldable pub build_unsigned_receipt : Moment → Ticket → String → ExecutionReceipt
unfolding core_action
build_unsigned_receipt m t action =
    let action_taken = t.capability ⧺ ("." ⧺ action) in
    let core = core_action action_taken in
    record {
      receipt_id = new_receipt_id m t.envelope;
      intent_id = t.envelope.task_id;
      capability = t.capability;
      action = core;
      timestamp = m.timestamp;
      status = core_status core;
      signature = none;
      task_id = some t.envelope.task_id;
      order_id = none;
      tenant_id = some (resolve_tenant_id t.envelope.requester_identity.tenant_id);
      request_id = request_id_of t.envelope;
      agent_id = t.descriptor.agent_id;
      resource_touched = some t.descriptor.domain;
      policy_checks = some t.decision.policy_checks;
      approval_used = none;
      result_hash = some ("sha256:" ⧺ (t.envelope.task_id ⧺ (":" ⧺ action_taken)));
      requested_schema_version = none;
      executed_schema_version = none;
      negotiation = none;
      extensions = none;
    }

-- `{ ...receipt, signature: signReceipt(receipt) }`.
abbrev pub signed : Services → ExecutionReceipt → ExecutionReceipt
signed s receipt = record receipt { signature = some (s.sign_receipt receipt) }

unfoldable pub build_receipt : Services → Moment → Ticket → String → ExecutionReceipt
unfolding build_unsigned_receipt
build_receipt s m t action = signed s (build_unsigned_receipt m t action)

-- What the results that `dispatch` stores have in common.
unfoldable pub ticket_result :
    Ticket → TaskStatus → String → List (String × Value) → Bool → Option String → ResultPackage
ticket_result t status summary output followup reason = record {
  task_id = t.envelope.task_id;
  context_id = some t.context_id;
  status = status;
  summary = some summary;
  structured_output = fields_of output;
  negotiated_schema_version = t.negotiation.selected.schema_version;
  requested_schema_version = t.negotiation.requested.schema_version;
  executed_schema_version = t.negotiation.selected.schema_version;
  negotiation = some t.negotiation;
  redactions_applied = redactions;
  followup_required = followup;
  escalation_reason = reason;
  extensions = t.envelope.extensions;
}

abbrev pub approval_reference_of : TaskEnvelope → String
approval_reference_of e = "approval:" ⧺ e.task_id

-- `decision.reason ? … : …`; an empty reason counts as none.
approval_summary : Option String → String
approval_summary none = "Task will require approval before execution."
approval_summary (some reason) =
    if truthy reason
    then reason ⧺ " - task will require approval before execution."
    else "Task will require approval before execution."

unfoldable pub approval_result : Ticket → ResultPackage
unfolding approval_summary ticket_result
approval_result t =
    ticket_result t awaiting_approval (approval_summary t.decision.reason)
      (("capability", text t.capability)
        ∷ ("target_agent", text t.descriptor.agent_id)
        ∷ ("approval_reference", text (approval_reference_of t.envelope))
        ∷ [])
      true t.decision.reason

unfoldable pub running_result : Ticket → ResultPackage
unfolding ticket_result
running_result t =
    ticket_result t running "Task accepted and running asynchronously."
      (("capability", text t.capability)
        ∷ ("target_agent", text t.descriptor.agent_id)
        ∷ ("poll_path", text ("/tasks/" ⧺ t.envelope.task_id))
        ∷ [])
      true none

unfoldable pub pending_result : Ticket → ResultPackage
unfolding ticket_result
pending_result t =
    ticket_result t accepted "Task accepted for synchronous execution."
      (("capability", text t.capability) ∷ ("target_agent", text t.descriptor.agent_id) ∷ []) false
      none

-- The dead letter's result names the negotiation, but none of the versions.
unfoldable pub dead_letter_result : Ticket → String → ResultPackage
unfolding ticket_result
dead_letter_result t error =
    record (ticket_result t failed error
      (("capability", text t.capability) ∷ ("target_agent", text t.descriptor.agent_id) ∷ []) false
      none) {
        negotiated_schema_version = none;
        requested_schema_version = none;
        executed_schema_version = none;
      }
