-- ===== src/Runtime/Envelope.antt =====
-- protocol/map-types.ts: delegation tokens and task envelopes, as runtime/micro-agent.ts reads them.
use micro_agent_protocol.Base.{String, Option, none, some, List}
use micro_agent_protocol.Base.Json.{Fields}
use micro_agent_protocol.Protocol.{RequesterIdentity, VisibilityMode, DeliveryMode}

pub record TokenConstraints : Type 0 where
  pub common : Fields
  pub domain : Fields
  pub expires_at : String

pub record DelegationToken : Type 0 where
  pub issuer : String
  pub subject_agent : String
  pub allowed_actions : List String
  pub resource_scope : Fields
  pub constraints : TokenConstraints
  pub approval_reference : Option String
  pub requester_identity : Option RequesterIdentity
  pub signature : String

-- What the code reads of `metadata.negotiation`.
pub record PartialSide : Type 0 where
  pub output_mode : Option VisibilityMode
  pub delivery_mode : Option DeliveryMode

pub record PartialNegotiation : Type 0 where
  pub requested : Option PartialSide
  pub selected : Option PartialSide
  pub provider_actions : Option (List String)

-- The keys of the metadata bag that the code reads, each with a value of the type that it is read
-- at, or missing.
pub record Metadata : Type 0 where
  pub capability : Option String
  pub request_id : Option String
  pub requested_schema_version : Option String
  pub executed_schema_version : Option String
  pub schema_version : Option String
  pub negotiation : Option PartialNegotiation

pub record TaskEnvelope : Type 0 where
  pub task_id : String
  pub requester_identity : RequesterIdentity
  pub target_agent : String
  pub intent : String
  pub constraints : Fields
  pub requested_output_mode : VisibilityMode
  pub metadata : Option Metadata

-- `envelope.metadata?.key`.
abbrev pub meta : (Metadata → Option String) → TaskEnvelope → Option String
meta key e = elim e.metadata [ none ↦ none | some m ↦ key m ]
