-- ===== src/Integration/Envelope.antt =====
-- protocol/map-types.ts: task envelopes, as the orchestrator and the bridge read them. The bags
-- `constraints` and `metadata` hold whatever values the JSON text had. The delegation token, the
-- deadline and the parent's id are read by neither.
use micro_agent_protocol.Base.{String, Option, none, some, List}
use micro_agent_protocol.Base.Json.{Value, undefined, text, object, Fields, end, lookup}
use micro_agent_protocol.Protocol.{RequesterIdentity, VisibilityMode}

pub record TaskEnvelope : Type 0 where
  pub task_id : String
  pub order_id : Option String
  pub context_id : Option String
  pub requester_identity : RequesterIdentity
  pub target_agent : String
  pub intent : String
  pub constraints : Fields
  pub risk_class : String
  pub requested_output_mode : VisibilityMode
  pub metadata : Option Fields
  pub idempotency_token : Option String
  pub extensions : Option (List String)

-- `envelope.metadata?.key`.
abbrev pub metadata_value : TaskEnvelope → String → Value
unfolding lookup
metadata_value e key = elim e.metadata [ none ↦ undefined | some m ↦ lookup key m ]

-- `typeof v === "string" ? v : undefined`.
abbrev pub as_text : Value → Option String
as_text (text s) = some s
as_text _ = none

-- `v && typeof v === "object" && !Array.isArray(v) ? v : {}`.
abbrev pub as_object : Value → Fields
as_object (object fs) = fs
as_object _ = end
