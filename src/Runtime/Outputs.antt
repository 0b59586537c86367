-- ===== src/Runtime/Outputs.antt =====
-- runtime/micro-agent.ts: the result and the receipt that a micro agent builds for a task.
pub mod Accepted
use micro_agent_protocol.Base.{
  ℕ, String, Option, none, some, Bool, true, false, not, ◌&&◌, ◌||◌, List, [], ◌∷◌, ◌++◌, any,
  filter, leb, ◌==◌, if◌then◌else◌, is_some, or_else, str_eq, codes, truthy, is_blank,
  resolve_tenant_id, Result, ok, err, ◌>>=◌, ◌>>◌, throw_if,
}
use Prim.Native.String.{◌++◌ as ◌⧺◌}
use micro_agent_protocol.Base.Dict.{Dict, get, set}
use micro_agent_protocol.Base.Json.{
  Value, undefined, array, object, Items, nil, cons, Fields, end, field, stringify, quote,
}
use micro_agent_protocol.Protocol.{
  TaskStatus, RequesterType, user, service, agent, RequesterIdentity, VisibilityMode, DeliveryMode,
  sync, async, NegotiationSide, InvocationNegotiation, ResultPackage, ReceiptAction, executed,
  denied, approval_required, ExecutionStatus, ExecutionReceipt,
}
use micro_agent_protocol.Protocol
use micro_agent_protocol.Runtime.Envelope.{
  TokenConstraints, DelegationToken, PartialSide, PartialNegotiation, Metadata, TaskEnvelope, meta,
}

-- `s.includes(part)`.
starts_with : List ℕ → List ℕ → Bool
starts_with [] s = true
starts_with (x ∷ p) [] = false
starts_with (x ∷ p) (c ∷ s) = x == c && starts_with p s

pub contains : List ℕ → List ℕ → Bool
unfolding starts_with
contains [] p = starts_with p []
contains (c ∷ s) p = starts_with p (c ∷ s) || contains s p

abbrev includes_text : String → String → Bool
unfolding contains
includes_text s part = contains (codes s) (codes part)

pub core_action : String → ReceiptAction
unfolding contains
core_action action =
    if includes_text action "approval_required"
    then approval_required
    else if includes_text action "denied" || includes_text action "cancelled"
    then denied
    else executed

abbrev pub core_status : ReceiptAction → ExecutionStatus
core_status executed = Protocol.ExecutionStatus.ok
core_status _ = Protocol.ExecutionStatus.error

-- `executed_schema_version`, or `schema_version` where it is missing.
abbrev pub executed_version : TaskEnvelope → Option String
executed_version e = elim (meta Metadata.executed_schema_version e) [
  | none ↦ meta Metadata.schema_version e
  | some v ↦ some v
]

abbrev side_of : (PartialNegotiation → Option PartialSide) → TaskEnvelope → Option PartialSide
side_of side e = elim e.metadata [
  | none ↦ none
  | some m ↦ elim m.negotiation [ none ↦ none | some n ↦ side n ]
]

abbrev is_async : Option PartialSide → Bool
is_async none = false
is_async (some s) = elim s.delivery_mode [ none ↦ false | some sync ↦ false | some async ↦ true ]

abbrev mode_of : Option PartialSide → Option VisibilityMode
mode_of none = none
mode_of (some s) = s.output_mode

abbrev actions_of : TaskEnvelope → Option (List String)
actions_of e = elim e.metadata [
  | none ↦ none
  | some m ↦ elim m.negotiation [ none ↦ none | some n ↦ n.provider_actions ]
]

unfoldable pub resolve_negotiation : TaskEnvelope → InvocationNegotiation
resolve_negotiation e =
    let requested_mode =
      if is_async (side_of PartialNegotiation.requested e) then async else sync in
    let selected = side_of PartialNegotiation.selected e in
    record {
      requested = record {
        schema_version = meta Metadata.requested_schema_version e;
        output_mode = e.requested_output_mode;
        delivery_mode = requested_mode;
      };
      selected = record {
        schema_version = executed_version e;
        output_mode = or_else (mode_of selected) e.requested_output_mode;
        delivery_mode = if is_async selected then async else requested_mode;
      };
      provider_actions = actions_of e;
    }

-- A tenant that is given and not blank.
abbrev pub tenant_if_named : Option String → Option String
tenant_if_named none = none
tenant_if_named (some t) = if is_blank t then none else some t

-- `buildReceipt` up to the signature, with the time.
unfoldable pub unsigned_receipt :
    String
    → String
    → TaskEnvelope
    → String
    → String
    → List String
    → Option String
    → ExecutionReceipt
unfolding core_action is_blank resolve_negotiation
unsigned_receipt agent_id now e action resource_touched policy_checks approval_used = record {
  receipt_id = "receipt:" ⧺ e.task_id;
  intent_id = e.task_id;
  capability = or_else (meta Metadata.capability e) e.intent;
  action = core_action action;
  timestamp = now;
  status = core_status (core_action action);
  signature = none;
  task_id = some e.task_id;
  order_id = none;
  tenant_id = tenant_if_named e.requester_identity.tenant_id;
  request_id = meta Metadata.request_id e;
  agent_id = agent_id;
  resource_touched = some resource_touched;
  policy_checks = some policy_checks;
  approval_used = approval_used;
  result_hash = some ("sha256:" ⧺ e.task_id);
  requested_schema_version = meta Metadata.requested_schema_version e;
  executed_schema_version = executed_version e;
  negotiation = some (resolve_negotiation e);
  extensions = none;
}

-- `buildReceipt`; `sign` signs what has no signature yet.
unfoldable pub build_receipt :
    (ExecutionReceipt → String)
    → String
    → String
    → TaskEnvelope
    → String
    → String
    → List String
    → Option String
    → ExecutionReceipt
unfolding unsigned_receipt
build_receipt sign agent_id now e action resource_touched policy_checks approval_used =
    let unsigned =
      unsigned_receipt agent_id now e action resource_touched policy_checks approval_used in
    record unsigned { signature = some (sign unsigned) }

unfoldable pub build_result : TaskEnvelope → TaskStatus → Fields → Option String → ResultPackage
unfolding resolve_negotiation
build_result e status structured_output summary = record {
  task_id = e.task_id;
  context_id = none;
  status = status;
  summary = summary;
  structured_output = structured_output;
  negotiated_schema_version = executed_version e;
  requested_schema_version = meta Metadata.requested_schema_version e;
  executed_schema_version = executed_version e;
  negotiation = some (resolve_negotiation e);
  redactions_applied = "credentials" ∷ "internal_reasoning" ∷ [];
  followup_required = false;
  escalation_reason = none;
  extensions = none;
}
