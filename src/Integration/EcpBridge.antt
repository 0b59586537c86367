-- ===== src/Integration/EcpBridge.antt =====
-- integration/ecp-bridge.ts: the intent that an envelope stands for. `parse` stands for `JSON.parse`,
-- with `none` for a text that it refuses.
pub mod Queries
mod Tests
use micro_agent_protocol.Base.{
  ℕ, String, Option, none, some, Bool, true, false, not, ◌&&◌, ◌||◌, List, [], ◌∷◌, ◌==◌, leb,
  if◌then◌else◌, or_else, str_eq, codes, is_blank, truthy,
}
use Prim.Native.Char.{code}
use Prim.Native.String.{◌++◌ as ◌⧺◌}
use micro_agent_protocol.Base.Json.{
  pos, int, Value, undefined, null, number, text, array, object, Items, nil, cons, Fields, end,
  field, lookup, fields_of,
}
use micro_agent_protocol.Protocol
use micro_agent_protocol.Protocol.{
  RequesterIdentity, VisibilityMode, structured_only, receipt_only, redacted,
}
use micro_agent_protocol.Core.Types.{Intent, IntentConstraints}
use micro_agent_protocol.Core.Types
use micro_agent_protocol.Core.Intent.{trim}
use micro_agent_protocol.Integration.Envelope.{TaskEnvelope, metadata_value, as_text, as_object}

requester_type : Protocol.RequesterType → Types.RequesterType
requester_type Protocol.RequesterType.user = Types.RequesterType.user
requester_type Protocol.RequesterType.service = Types.RequesterType.service
requester_type Protocol.RequesterType.agent = Types.RequesterType.service

pub map_requester_identity : RequesterIdentity → Types.RequesterIdentity
unfolding requester_type
map_requester_identity r = record {
  type = requester_type r.type;
  id = r.id;
  tenant_id = r.tenant_id;
}

-- `o.key`, of a value that may be no object.
abbrev pub property : String → Value → Value
unfolding lookup
property key (object fs) = lookup key fs
property key _ = undefined

-- `a ?? b`.
abbrev pub nullish : Value → Value → Value
nullish undefined other = other
nullish null other = other
nullish v other = v

pub map_constraints : Fields → IntentConstraints
unfolding lookup
map_constraints constraints =
    let common = lookup "common" constraints in
    record {
      environment = property "environment" common;
      timeout_ms = property "timeout_ms" common;
      max_amount = property "max_amount" common;
      resource_id = property "resource_id" common;
    }

-- A key of an object literal, after those before it: `{ ...o, key: v }`.
unfoldable pub assign : String → Value → Fields → Fields
assign key v end = field key v end
assign key v (field k w fs) = if str_eq k key then field k v fs else field k w (assign key v fs)

-- `{ ...o, ...p }`.
unfoldable pub spread : Fields → Fields → Fields
unfolding assign
spread fs end = fs
spread fs (field k v gs) = spread (assign k v fs) gs

abbrev pub assign_all : List (String × Value) → Fields → Fields
unfolding assign
assign_all [] fs = fs
assign_all ((k, v) ∷ kvs) fs = assign_all kvs (assign k v fs)

-- What `parseIntentPayload` makes of the intent's text.
pub record Payload : Type 0 where
  pub values : Fields
  pub summary : Option String

unfoldable pub parse_intent_payload : (String → Option Value) → String → Payload
unfolding is_blank trim
parse_intent_payload parse intent =
    if is_blank intent then record { values = end; summary = none } else elim (parse intent) [
      | some (object fs) ↦ record { values = fs; summary = none }
      | _ ↦ record { values = end; summary = some (trim intent) }
    ]

pub map_requested_output_mode : VisibilityMode → String
map_requested_output_mode structured_only = "structured"
map_requested_output_mode redacted = "structured"
map_requested_output_mode receipt_only = "count_only"
map_requested_output_mode _ = "summary"

-- `[a-zA-Z0-9_]`.
abbrev pub is_word : ℕ → Bool
is_word c =
    (leb b'a' c && leb c b'z')
    || (leb b'A' c && leb c b'Z')
    || (leb b'0' c && leb c b'9')
    || c == b'_'

-- `replace(/[^a-zA-Z0-9_]/g, "_")`.
unfoldable pub safe_name : String → String
safe_name String.[] = String.[]
safe_name (String.◌∷◌ c s) = String.◌∷◌ (if is_word (code c) then c else "_") (safe_name s)

-- `replace(/\*\//g, "")`: the matches from the left, none of them in another.
unfoldable pub without_closings : String → String
without_closings String.[] = String.[]
without_closings (String.◌∷◌ c String.[]) = String.◌∷◌ c String.[]
without_closings (String.◌∷◌ c (String.◌∷◌ d s)) =
    let after = without_closings s in
    let next = String.◌∷◌ c (without_closings (String.◌∷◌ d s)) in
    if code c == b'*' && code d == b'/' then after else next

-- `summary && summary.length > 0` is a test for a text that is not empty.
unfoldable pub build_db_read_query : String → Option String → Option String → String
unfolding safe_name without_closings
build_db_read_query dataset provider summary =
    let select = "SELECT * FROM " ⧺ safe_name dataset in
    let plain : String = elim summary [
      | none ↦ select
      | some s ↦ if truthy s then select ⧺ (" /* " ⧺ (without_closings s ⧺ " */")) else select
    ] in
    elim provider [
      | none ↦ plain
      | some s ↦ if truthy s then select ⧺ " WHERE service = $1" else plain
    ]

abbrev pub optional : Option String → Value
optional none = undefined
optional (some s) = text s

-- `typeof v === "string" && v.trim().length > 0 ? v : undefined`.
abbrev pub stated : Value → Option String
unfolding is_blank
stated (text s) = if is_blank s then none else some s
stated _ = none

abbrev pub is_number : Value → Bool
is_number (number n) = true
is_number _ = false

pub starts_with : List ℕ → List ℕ → Bool
starts_with [] s = true
starts_with (p ∷ ps) [] = false
starts_with (p ∷ ps) (c ∷ s) = p == c && starts_with ps s

unfoldable pub payment_input : Fields → Fields → Payload → Fields
unfolding spread assign lookup
payment_input common domain p =
    assign_all
      (("amount", nullish (lookup "amount" p.values) (lookup "max_amount" common))
        ∷ (
          "currency",
          nullish (lookup "currency" p.values) (
              nullish (lookup "currency" common)
                (nullish (lookup "currency_code" common) (text "USD"))),
        )
        ∷ (
          "vendor_id",
          nullish (lookup "vendor_id" p.values)
              (nullish (lookup "resource_id" common) (lookup "vendor_id" domain)),
        )
        ∷ ("description", nullish (lookup "description" p.values) (optional p.summary))
        ∷ [])
      (spread (spread end domain) p.values)

-- `service ? [service] : []`.
params_of : Option String → Items
params_of none = nil
params_of (some s) = cons (text s) nil

unfoldable pub db_read_input : Fields → Fields → Payload → VisibilityMode → Fields
unfolding spread assign lookup build_db_read_query params_of map_requested_output_mode
db_read_input common domain p mode =
    let dataset = or_else (stated (lookup "dataset" domain)) "records" in
    let provider = stated (lookup "service" domain) in
    assign_all
      ((
        "query",
        nullish (lookup "query" p.values) (text (build_db_read_query dataset provider p.summary)),
      )
        ∷ ("params", nullish (lookup "params" p.values) (array (params_of provider)))
        ∷ (
          "limit",
          nullish (lookup "limit" p.values) (
              if is_number (lookup "limit" common)
              then lookup "limit" common
              else number (int (pos 25))),
        )
        ∷ (
          "output_mode",
          nullish (lookup "output_mode" p.values) (text (map_requested_output_mode mode)),
        )
        ∷ ("environment", lookup "environment" common)
        ∷ ("dataset", text dataset)
        ∷ ("service", optional provider)
        ∷ [])
      (spread (spread end domain) p.values)

abbrev pub plain_input : Fields → Payload → Fields
unfolding spread assign
plain_input domain p =
    let base = spread (spread end domain) p.values in
    elim p.summary [
      | none ↦ base
      | some s ↦ if truthy s then assign "intent" (text s) base else base
    ]

unfoldable pub map_intent_input : (String → Option Value) → TaskEnvelope → String → Fields
unfolding parse_intent_payload payment_input db_read_input starts_with lookup
map_intent_input parse e capability =
    let p = parse_intent_payload parse e.intent in
    let common = as_object (lookup "common" e.constraints) in
    let domain = as_object (lookup "domain" e.constraints) in
    if starts_with (codes "payment.") (codes capability)
    then payment_input common domain p
    else if starts_with (codes "db.read.") (codes capability)
    then db_read_input common domain p e.requested_output_mode
    else plain_input domain p

unfoldable pub map_envelope_to_intent : (String → Option Value) → TaskEnvelope → String → Intent
unfolding map_requester_identity map_constraints map_intent_input
map_envelope_to_intent parse e capability = record {
  capability = capability;
  input = map_intent_input parse e capability;
  requester = map_requester_identity e.requester_identity;
  constraints = some (map_constraints e.constraints);
  metadata = some (record {
    intent_id = e.task_id;
    request_id = as_text (metadata_value e "request_id");
    webhook_url = as_text (metadata_value e "webhook_url");
  });
  risk_class = some e.risk_class;
}
