-- ===== src/ControlPlane/Orchestrator/Fixtures.antt =====
-- Concrete runtimes and requests for the tests of the orchestrator.
use micro_agent_protocol.Base.{
  if◌then◌else◌, String, Option, none, some, true, [], ◌∷◌, or_else, truthy,
}
use micro_agent_protocol.Base.Json.{text, end, fields_of, Fields}
use micro_agent_protocol.Protocol.{service, summary}
use micro_agent_protocol.Core.Types.{
  PolicyAction, allow, require_approval, deny, always, PolicyRule, PolicyDocument,
}
use micro_agent_protocol.Integration.Envelope.{TaskEnvelope}
use micro_agent_protocol.ControlPlane.Agents.{AgentDescriptor}
use micro_agent_protocol.ControlPlane.TaskStore.{TaskStore}
use micro_agent_protocol.ControlPlane.TaskStore
use micro_agent_protocol.ControlPlane.ReceiptStore
use micro_agent_protocol.ControlPlane.AsyncQueue.State.{limits_of, new_queue}
use micro_agent_protocol.ControlPlane.Orchestrator.State.{Services, Moment, Runtime}
use micro_agent_protocol.ControlPlane.Orchestrator.Plan.{DispatchRequest}
use micro_agent_protocol.ControlPlane.Orchestrator.Approval.{ApprovalRequest}

-- A signature that shows the reference of an approval, or else the receipt's id.
abbrev pub services : Services
services = record {
  validate_envelope = λ e. if truthy e.task_id then some (record e { extensions = none }) else none;
  is_valid_result = λ p. true;
  is_valid_intent = λ i. true;
  sign_receipt = λ x. or_else x.approval_used x.receipt_id;
  parse = λ s. none;
  show = λ v. "";
  limits = limits_of none none none none none;
}

abbrev pub at : String → Moment
at now = record {
  context_id = "c";
  receipt_id = now;
  now = now;
  timestamp = now;
  stored_at = now;
  core = record { to_lower = λ s. s; new_id = "i"; now = now; timestamp = now };
}

abbrev pub payer : AgentDescriptor
payer = record {
  agent_id = "payer";
  domain = "payments";
  capabilities = "payment.send" ∷ "payment.large" ∷ "payment.steal" ∷ [];
  visibility_modes = summary ∷ [];
  capability_descriptors = none;
  registry_status = none;
  descriptor_signature = none;
  descriptor_key_id = none;
  descriptor_signature_alg = none;
  extensions = none;
  rest = end;
}

abbrev pub rule : String → PolicyAction → PolicyRule
rule capability action = record {
  id = capability;
  capability = capability;
  condition = always;
  action = action;
}

abbrev pub policy : PolicyDocument
policy = record {
  rules = rule "payment.send" allow ∷ rule "payment.large" require_approval ∷ [];
  default_action = some deny;
}

unfoldable pub new_runtime : Runtime
unfolding TaskStore.empty ReceiptStore.empty new_queue
new_runtime = record {
  registry = ("payer", payer) ∷ [];
  task_store = TaskStore.empty;
  receipt_store = ReceiptStore.empty;
  async_queue = new_queue services.limits [];
  jobs = [];
  core_executor = record { policy = policy; adapters = []; sign_receipt = none };
  policy = policy;
  notices = [];
  approval_notices = [];
}

abbrev pub envelope_with : String → Option Fields → TaskEnvelope
envelope_with task_id metadata = record {
  task_id = task_id;
  order_id = none;
  context_id = none;
  requester_identity = record { type = service; id = "svc"; tenant_id = some "acme" };
  target_agent = "payer";
  intent = "pay";
  constraints = end;
  risk_class = "low";
  requested_output_mode = summary;
  metadata = metadata;
  idempotency_token = none;
  extensions = none;
}

abbrev pub keyed : Option Fields
keyed = some (fields_of (("idempotency_key", text "k1") ∷ []))

abbrev pub request : String → String → Option Fields → DispatchRequest
request task_id capability metadata = record {
  envelope = envelope_with task_id metadata;
  capability = capability;
  requested_schema_version = none;
  negotiation = none;
}

abbrev pub approval : String → ApprovalRequest
approval reference = record {
  task_id = "t1";
  approval_reference = reference;
  capability = "payment.large";
  envelope = envelope_with "t1" none;
  requested_schema_version = none;
  negotiation = none;
}
