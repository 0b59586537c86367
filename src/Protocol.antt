-- ===== src/Protocol.antt =====
-- protocol/map-types.ts: the types that the control plane keeps and passes on.
use micro_agent_protocol.Base.{ℕ, ◌==◌, String, Option, none, some, Bool, List, [], ◌∷◌}
use micro_agent_protocol.Base.Json.{
  Value, undefined, boolean, text, array, object, Items, nil, cons, Fields, object_of,
}

pub data TaskStatus : Type 0 where
  accepted proposed awaiting_approval denied running completed failed revoked : TaskStatus

abbrev pub rank : TaskStatus → ℕ
rank accepted = 0
rank proposed = 1
rank awaiting_approval = 2
rank denied = 3
rank running = 4
rank completed = 5
rank failed = 6
rank revoked = 7

-- `status === other`.
abbrev pub status_eq : TaskStatus → TaskStatus → Bool
status_eq a b = rank a == rank b

-- The text that a status is.
unfoldable pub status_text : TaskStatus → String
status_text accepted = "accepted"
status_text proposed = "proposed"
status_text awaiting_approval = "awaiting_approval"
status_text denied = "denied"
status_text running = "running"
status_text completed = "completed"
status_text failed = "failed"
status_text revoked = "revoked"

pub data RequesterType : Type 0 where
  user service agent : RequesterType

pub record RequesterIdentity : Type 0 where
  pub type : RequesterType
  pub id : String
  pub tenant_id : Option String

pub data VisibilityMode : Type 0 where
  full summary structured_only receipt_only redacted debug : VisibilityMode

pub data DeliveryMode : Type 0 where
  sync async : DeliveryMode

pub record NegotiationSide : Type 0 where
  pub schema_version : Option String
  pub output_mode : VisibilityMode
  pub delivery_mode : DeliveryMode

pub record InvocationNegotiation : Type 0 where
  pub requested : NegotiationSide
  pub selected : NegotiationSide
  pub provider_actions : Option (List String)

pub record ResultPackage : Type 0 where
  pub task_id : String
  pub context_id : Option String
  pub status : TaskStatus
  pub summary : Option String
  pub structured_output : Fields
  pub negotiated_schema_version : Option String
  pub requested_schema_version : Option String
  pub executed_schema_version : Option String
  pub negotiation : Option InvocationNegotiation
  pub redactions_applied : List String
  pub followup_required : Bool
  pub escalation_reason : Option String
  pub extensions : Option (List String)

pub data ReceiptAction : Type 0 where
  executed denied approval_required : ReceiptAction

pub data ExecutionStatus : Type 0 where
  ok error : ExecutionStatus

pub record ExecutionReceipt : Type 0 where
  pub receipt_id : String
  pub intent_id : String
  pub capability : String
  pub action : ReceiptAction
  pub timestamp : String
  pub status : ExecutionStatus
  pub signature : Option String
  pub task_id : Option String
  pub order_id : Option String
  pub tenant_id : Option String
  pub request_id : Option String
  pub agent_id : String
  pub resource_touched : Option String
  pub policy_checks : Option (List String)
  pub approval_used : Option String
  pub result_hash : Option String
  pub requested_schema_version : Option String
  pub executed_schema_version : Option String
  pub negotiation : Option InvocationNegotiation
  pub extensions : Option (List String)

pub record TaskRecord : Type 0 where
  pub task_id : String
  pub order_id : Option String
  pub context_id : Option String
  pub requester_identity : RequesterIdentity
  pub idempotency_key : Option String
  pub capability : String
  pub target_agent : String
  pub status : TaskStatus
  pub result : Option ResultPackage
  pub receipt : Option ExecutionReceipt
  pub updated_at : String

-- What `JSON.stringify` walks: the object that each of these is.
optional : Option String → Value
optional none = undefined
optional (some s) = text s

texts : List String → Items
texts [] = nil
texts (s ∷ ss) = cons (text s) (texts ss)

optional_texts : Option (List String) → Value
unfolding texts
optional_texts none = undefined
optional_texts (some ss) = array (texts ss)

requester_type_text : RequesterType → String
requester_type_text user = "user"
requester_type_text service = "service"
requester_type_text agent = "agent"

unfoldable pub requester_value : RequesterIdentity → Value
unfolding requester_type_text optional
requester_value r = object_of (
    ("type", text (requester_type_text r.type))
    ∷ ("id", text r.id)
    ∷ ("tenant_id", optional r.tenant_id)
    ∷ [])

unfoldable pub output_mode_text : VisibilityMode → String
output_mode_text full = "full"
output_mode_text summary = "summary"
output_mode_text structured_only = "structured_only"
output_mode_text receipt_only = "receipt_only"
output_mode_text redacted = "redacted"
output_mode_text debug = "debug"

delivery_mode_text : DeliveryMode → String
delivery_mode_text sync = "sync"
delivery_mode_text async = "async"

side_value : NegotiationSide → Value
unfolding optional output_mode_text delivery_mode_text
side_value s = object_of (
    ("schema_version", optional s.schema_version)
    ∷ ("output_mode", text (output_mode_text s.output_mode))
    ∷ ("delivery_mode", text (delivery_mode_text s.delivery_mode))
    ∷ [])

negotiation_value : Option InvocationNegotiation → Value
unfolding side_value optional_texts
negotiation_value none = undefined
negotiation_value (some n) = object_of (
    ("requested", side_value n.requested)
    ∷ ("selected", side_value n.selected)
    ∷ ("provider_actions", optional_texts n.provider_actions)
    ∷ [])

unfoldable pub result_value : ResultPackage → Value
unfolding optional status_text negotiation_value optional_texts
result_value r = object_of (
    ("task_id", text r.task_id)
    ∷ ("context_id", optional r.context_id)
    ∷ ("status", text (status_text r.status))
    ∷ ("summary", optional r.summary)
    ∷ ("structured_output", object r.structured_output)
    ∷ ("negotiated_schema_version", optional r.negotiated_schema_version)
    ∷ ("requested_schema_version", optional r.requested_schema_version)
    ∷ ("executed_schema_version", optional r.executed_schema_version)
    ∷ ("negotiation", negotiation_value r.negotiation)
    ∷ ("followup_required", boolean r.followup_required)
    ∷ ("escalation_reason", optional r.escalation_reason)
    ∷ ("redactions_applied", array (texts r.redactions_applied))
    ∷ ("extensions", optional_texts r.extensions)
    ∷ [])

unfoldable pub action_text : ReceiptAction → String
action_text executed = "executed"
action_text denied = "denied"
action_text approval_required = "approval_required"

unfoldable pub execution_status_text : ExecutionStatus → String
execution_status_text ok = "ok"
execution_status_text error = "error"

unfoldable pub receipt_value : ExecutionReceipt → Value
unfolding optional action_text execution_status_text optional_texts negotiation_value
receipt_value r = object_of (
    ("receipt_id", text r.receipt_id)
    ∷ ("intent_id", text r.intent_id)
    ∷ ("capability", text r.capability)
    ∷ ("action", text (action_text r.action))
    ∷ ("timestamp", text r.timestamp)
    ∷ ("status", text (execution_status_text r.status))
    ∷ ("task_id", optional r.task_id)
    ∷ ("order_id", optional r.order_id)
    ∷ ("tenant_id", optional r.tenant_id)
    ∷ ("request_id", optional r.request_id)
    ∷ ("agent_id", text r.agent_id)
    ∷ ("resource_touched", optional r.resource_touched)
    ∷ ("policy_checks", optional_texts r.policy_checks)
    ∷ ("approval_used", optional r.approval_used)
    ∷ ("result_hash", optional r.result_hash)
    ∷ ("requested_schema_version", optional r.requested_schema_version)
    ∷ ("executed_schema_version", optional r.executed_schema_version)
    ∷ ("negotiation", negotiation_value r.negotiation)
    ∷ ("extensions", optional_texts r.extensions)
    ∷ ("signature", optional r.signature)
    ∷ [])
