-- ===== src/Core/Types.antt =====
-- core/types.ts: intents, policies and decisions. An intent that passed through JSON may hold any
-- value in its constraints, so they are kept as values.
use micro_agent_protocol.Base.{String, Option, none, some, List, [], ◌∷◌}
use micro_agent_protocol.Base.Json.{Value, undefined, text, object, Fields, object_of}

pub data PolicyAction : Type 0 where
  allow deny require_approval : PolicyAction

pub data RequesterType : Type 0 where
  user service : RequesterType

pub record RequesterIdentity : Type 0 where
  pub type : RequesterType
  pub id : String
  pub tenant_id : Option String

pub record IntentConstraints : Type 0 where
  pub environment : Value
  pub timeout_ms : Value
  pub max_amount : Value
  pub resource_id : Value

pub record IntentMetadata : Type 0 where
  pub intent_id : String
  pub request_id : Option String
  pub webhook_url : Option String

pub record Intent : Type 0 where
  pub capability : String
  pub input : Fields
  pub requester : RequesterIdentity
  pub constraints : Option IntentConstraints
  pub metadata : Option IntentMetadata
  pub risk_class : Option String

pub record PolicyDecision : Type 0 where
  pub action : PolicyAction
  pub reason : Option String
  pub matched_rule : Option String

pub data Operator : Type 0 where
  eq neq gt gte lt lte in_list : Operator

-- `several` is an object with further keys, of no other form, beside a comparison: the first of its
-- operators, in the order of `ops` in core/execute.ts, with that operator's path and value.
-- `unrecognised` is an object with no key that is looked for. Objects with the keys of two other
-- forms, such as `and` and `$field`, are left out.
mutual
  pub data Condition : Type 0 where
    always never unrecognised : Condition
    comparison several : Operator → String → Value → Condition
    all_of any_of : Conditions → Condition
    negation : Condition → Condition
    field_ref : String → Condition

  pub data Conditions : Type 0 where
    nil : Conditions
    cons : Condition → Conditions → Conditions

pub record PolicyRule : Type 0 where
  pub id : String
  pub capability : String
  pub condition : Condition
  pub action : PolicyAction

pub record PolicyDocument : Type 0 where
  pub rules : List PolicyRule
  pub default_action : Option PolicyAction

-- The object that an intent is, which field paths walk.
optional : Option String → Value
optional none = undefined
optional (some s) = text s

requester_type_text : RequesterType → String
requester_type_text user = "user"
requester_type_text service = "service"

constraints_value : Option IntentConstraints → Value
constraints_value none = undefined
constraints_value (some c) = object_of (
    ("environment", c.environment)
    ∷ ("timeout_ms", c.timeout_ms)
    ∷ ("max_amount", c.max_amount)
    ∷ ("resource_id", c.resource_id)
    ∷ [])

metadata_value : Option IntentMetadata → Value
unfolding optional
metadata_value none = undefined
metadata_value (some m) = object_of (
    ("intent_id", text m.intent_id)
    ∷ ("request_id", optional m.request_id)
    ∷ ("webhook_url", optional m.webhook_url)
    ∷ [])

requester_value : RequesterIdentity → Value
unfolding optional requester_type_text
requester_value r = object_of (
    ("type", text (requester_type_text r.type))
    ∷ ("id", text r.id)
    ∷ ("tenant_id", optional r.tenant_id)
    ∷ [])

unfoldable pub intent_value : Intent → Value
unfolding optional constraints_value metadata_value requester_value
intent_value i = object_of (
    ("capability", text i.capability)
    ∷ ("input", object i.input)
    ∷ ("requester", requester_value i.requester)
    ∷ ("constraints", constraints_value i.constraints)
    ∷ ("metadata", metadata_value i.metadata)
    ∷ ("risk_class", optional i.risk_class)
    ∷ [])
