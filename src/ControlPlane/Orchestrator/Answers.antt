-- ===== src/ControlPlane/Orchestrator/Answers.antt =====
-- control-plane/orchestrator.ts: `normalizeCoreResult`, which makes the answer of the executor a result
-- and a receipt of the task.
use micro_agent_protocol.Base.{String, Option, none, some, Bool, true, false, [], ◌∷◌, or_else}
use Prim.Native.String.{◌++◌ as ◌⧺◌}
use micro_agent_protocol.Base.Json.{Value, undefined, text, Fields, fields_of, lookup}
use micro_agent_protocol.Protocol.{
  TaskStatus, awaiting_approval, completed, failed, status_text, ResultPackage, ReceiptAction,
  executed, approval_required, action_text, ExecutionStatus, execution_status_text,
  ExecutionReceipt, InvocationNegotiation,
}
use micro_agent_protocol.Protocol
use micro_agent_protocol.Core.Executor
use micro_agent_protocol.Integration.Envelope.{TaskEnvelope, as_object}
use micro_agent_protocol.Integration.EcpBridge.{assign}
use micro_agent_protocol.ControlPlane.Orchestrator.State.{Services, Moment, InvokeResult}
use micro_agent_protocol.ControlPlane.Orchestrator.Outputs.{
  redactions, request_id_of, new_receipt_id, signed,
}

-- What `enrichStructuredOutput` adds for a key, if the constraints have it.
enriched : String → Value → Fields → Fields
unfolding assign
enriched key undefined fs = fs
enriched key v fs = assign key v fs

unfoldable pub enrich_structured_output : Fields → TaskEnvelope → Fields
unfolding enriched lookup
enrich_structured_output output e =
    let common = as_object (lookup "common" e.constraints) in
    let domain = as_object (lookup "domain" e.constraints) in
    enriched "service" (lookup "service" domain) (
      enriched "dataset" (lookup "dataset" domain)
        (enriched "environment" (lookup "environment" common) output))

-- What the executor answers: an adapter's result, or a receipt of the core.
pub record ExecutionResult : Type 0 where
  pub intent_id : String
  pub capability : String
  pub status : ExecutionStatus
  pub output : Fields
  pub summary : String

pub data CoreAnswer : Type 0 where
  result_of : ExecutionResult → CoreAnswer
  receipt_of : Executor.ExecutionReceipt → CoreAnswer

abbrev pub status_of_action : ReceiptAction → TaskStatus
status_of_action approval_required = awaiting_approval
status_of_action executed = completed
status_of_action _ = Protocol.TaskStatus.denied

abbrev pub status_of_result : ExecutionStatus → TaskStatus
status_of_result Protocol.ExecutionStatus.ok = completed
status_of_result Protocol.ExecutionStatus.error = failed

abbrev pub asks_approval : ReceiptAction → Bool
asks_approval approval_required = true
asks_approval _ = false

-- What the two branches have in common: the result, and the receipt before it is signed.
abbrev answered :
    TaskEnvelope
    → InvocationNegotiation
    → Option String
    → TaskStatus
    → String
    → Fields
    → Bool
    → ResultPackage
answered e n context status summary output followup = record {
  task_id = e.task_id;
  context_id = context;
  status = status;
  summary = some summary;
  structured_output = output;
  negotiated_schema_version = n.selected.schema_version;
  requested_schema_version = n.requested.schema_version;
  executed_schema_version = n.selected.schema_version;
  negotiation = some n;
  redactions_applied = redactions;
  followup_required = followup;
  escalation_reason = none;
  extensions = none;
}

abbrev answer_receipt :
    TaskEnvelope
    → String
    → InvocationNegotiation
    → String
    → ReceiptAction
    → ExecutionStatus
    → String
    → String
    → ExecutionReceipt
answer_receipt e capability n receipt_id action status timestamp outcome = record {
  receipt_id = receipt_id;
  intent_id = e.task_id;
  capability = capability;
  action = action;
  timestamp = timestamp;
  status = status;
  signature = none;
  task_id = some e.task_id;
  order_id = none;
  tenant_id = e.requester_identity.tenant_id;
  request_id = request_id_of e;
  agent_id = e.target_agent;
  resource_touched = some e.target_agent;
  policy_checks = some ("core_executed" ∷ []);
  approval_used = none;
  result_hash = some ("sha256:" ⧺ (e.task_id ⧺ (":" ⧺ outcome)));
  requested_schema_version = n.requested.schema_version;
  executed_schema_version = n.selected.schema_version;
  negotiation = some n;
  extensions = none;
}

-- The action and the status of the receipt for an adapter's result.
abbrev result_action : ExecutionStatus → ReceiptAction
result_action Protocol.ExecutionStatus.ok = executed
result_action Protocol.ExecutionStatus.error = Protocol.ReceiptAction.denied

unfoldable pub normalize_core_result :
    Services → Moment → CoreAnswer → TaskEnvelope → String → InvocationNegotiation → InvokeResult
unfolding action_text execution_status_text status_text enrich_structured_output lookup
normalize_core_result s m (receipt_of x) e capability n = record {
  result =
      answered e n e.context_id (status_of_action x.action)
        ("Execution " ⧺ (action_text x.action ⧺ (": " ⧺ execution_status_text x.status)))
        (fields_of (("capability", text capability) ∷ [])) (asks_approval x.action);
  receipt = signed s (
      answer_receipt e capability n (x.receipt_id ⧺ (":" ⧺ m.receipt_id)) x.action x.status
        x.timestamp (action_text x.action));
}
normalize_core_result s m (result_of x) e capability n = record {
  result =
      answered e n (some (or_else e.context_id x.intent_id)) (status_of_result x.status) x.summary
        (enrich_structured_output x.output e) false;
  receipt = signed s (
      answer_receipt e capability n (new_receipt_id m e) (result_action x.status) x.status
        m.timestamp (status_text (status_of_result x.status)));
}
