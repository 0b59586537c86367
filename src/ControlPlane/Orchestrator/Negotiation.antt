-- ===== src/ControlPlane/Orchestrator/Negotiation.antt =====
-- control-plane/orchestrator.ts: `negotiateSchemaVersion` and `negotiateInvocation`.
use micro_agent_protocol.Base.{
  String, Option, none, some, Bool, true, false, not, ◌||◌, List, [], ◌∷◌, any, find?,
  if◌then◌else◌, or_else, str_eq, truthy, includes_text, Result, ok, err, ◌>>=◌, ◌>>◌, throw_if,
}
use micro_agent_protocol.Base.Json.{Value, boolean, lookup}
use micro_agent_protocol.Protocol.{
  VisibilityMode, output_mode_text, DeliveryMode, sync, async, InvocationNegotiation,
}
use micro_agent_protocol.Integration.Envelope.{TaskEnvelope, metadata_value}
use micro_agent_protocol.ControlPlane.Agents.{CapabilityDescriptor}
use micro_agent_protocol.ControlPlane.Orchestrator.State.{
  Failure, output_mode_unsupported, schema_version_unsupported,
}

pub record InvocationNegotiationRequest : Type 0 where
  pub schema_version : Option String
  pub delivery_mode : Option DeliveryMode

pub record SchemaResolution : Type 0 where
  pub requested : Option String
  pub executed : Option String
  pub provider_actions : Option (List String)

-- `a ?? b`, where `b` may be missing too.
abbrev pub first_of {ℓ} : {A : Type ℓ} → Option A → Option A → Option A
first_of none other = other
first_of (some a) other = some a

abbrev pub same_version : Option String → SchemaResolution
same_version v = record { requested = v; executed = v; provider_actions = none }

-- A version that is asked for, of a capability that is described.
unfoldable pub negotiate_version :
    CapabilityDescriptor → String → String → Result Failure SchemaResolution
negotiate_version c capability version =
    elim (find? (λ t. str_eq t.from version) (or_else c.translation_targets [])) [
      | some target ↦ ok (record {
        requested = some version;
        executed = some target.to;
        provider_actions = some ("schema_translated" ∷ []);
      })
      | none ↦ elim (or_else c.supported_schema_versions []) [
        | [] ↦ ok (same_version (some version))
        | v ∷ vs ↦
            if includes_text (v ∷ vs) version
            then ok (same_version (some version))
            else err (schema_version_unsupported capability version)
      ]
    ]

unfoldable pub negotiate_schema_version :
    Option CapabilityDescriptor → String → Option String → Result Failure SchemaResolution
unfolding negotiate_version
negotiate_schema_version none capability requested = ok (same_version requested)
negotiate_schema_version (some c) capability none =
    ok (same_version (first_of c.preferred_schema_version c.schema_version))
negotiate_schema_version (some c) capability (some version) =
    if truthy version
    then negotiate_version c capability version
    else ok (same_version (first_of c.preferred_schema_version c.schema_version))

-- `supportedVisibilityModes.includes(mode)`.
unfoldable pub includes_mode : List VisibilityMode → VisibilityMode → Bool
unfolding output_mode_text
includes_mode modes mode = any (λ m. str_eq (output_mode_text m) (output_mode_text mode)) modes

-- `v === true`.
abbrev pub is_true : Value → Bool
is_true (boolean b) = b
is_true _ = false

abbrev pub asks_async : Option InvocationNegotiationRequest → Bool
asks_async none = false
asks_async (some q) = elim q.delivery_mode [ some async ↦ true | _ ↦ false ]

unfoldable pub delivery_mode_of : TaskEnvelope → Option InvocationNegotiationRequest → DeliveryMode
unfolding lookup
delivery_mode_of e q = if is_true (metadata_value e "async") || asks_async q then async else sync

abbrev pub asked_version : Option InvocationNegotiationRequest → Option String → Option String
asked_version none version = version
asked_version (some q) version = first_of q.schema_version version

abbrev pub negotiated :
    TaskEnvelope → Option InvocationNegotiationRequest → SchemaResolution → InvocationNegotiation
unfolding delivery_mode_of
negotiated e q s = record {
  requested = record {
    schema_version = s.requested;
    output_mode = e.requested_output_mode;
    delivery_mode = delivery_mode_of e q;
  };
  selected = record {
    schema_version = s.executed;
    output_mode = e.requested_output_mode;
    delivery_mode = delivery_mode_of e q;
  };
  provider_actions = s.provider_actions;
}

unfoldable pub negotiate_invocation :
    List VisibilityMode
    → Option CapabilityDescriptor
    → TaskEnvelope
    → String
    → Option String
    → Option InvocationNegotiationRequest
    → Result Failure InvocationNegotiation
unfolding includes_mode output_mode_text negotiate_schema_version
negotiate_invocation modes c e capability version q = do
  throw_if (not (includes_mode modes e.requested_output_mode)) (output_mode_unsupported capability)
  s ← negotiate_schema_version c capability (asked_version q version)
  ok (negotiated e q s)
