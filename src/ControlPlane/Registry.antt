-- ===== src/ControlPlane/Registry.antt =====
-- control-plane/registry.ts: the registry of agents, with its use of security/signing.ts.
pub mod Registered
mod Tests
use micro_agent_protocol.Base.{
  String, Option, none, some, Bool, true, false, not, ◌&&◌, List, [], ◌∷◌, filter, find?, is_some,
  if◌then◌else◌, truthy, str_eq, includes_text, Result, ok, err, ◌>>=◌, ◌>>◌, throw_if,
}
use micro_agent_protocol.Base.Dict.{Dict, get as map_get, set as map_set, values}
use micro_agent_protocol.Base.Json.{Fields}
use micro_agent_protocol.ControlPlane.Agents.{AgentDescriptor, CapabilityDescriptor}
use micro_agent_protocol.Security.Trust.{TrustAnchor, has_anchors, verify_trust_domain}

pub data RegistryError : Type 0 where
  untrusted_domain : String → String → RegistryError
  invalid_descriptor : RegistryError
  invalid_signature : String → RegistryError

-- What `signAgentDescriptor` adds to a descriptor.
pub record DescriptorSignature : Type 0 where
  pub signature : String
  pub key_id : String
  pub alg : String

-- The signatures of descriptors, and their schema. A signature is made for and checked against a
-- descriptor without its three signature fields.
pub record DescriptorChecks : Type 0 where
  pub sign : AgentDescriptor → DescriptorSignature
  pub verify : String → AgentDescriptor → Bool
  pub is_valid : AgentDescriptor → Bool
  -- What validation leaves of the capabilities' descriptors, and of the fields that are not read.
  pub kept_capabilities : Option (List CapabilityDescriptor) → Option (List CapabilityDescriptor)
  pub kept_rest : Fields → Fields

-- `o && …` of a text that may be missing.
abbrev pub given : Option String → Bool
given none = false
given (some s) = truthy s

abbrev pub without_signature : AgentDescriptor → AgentDescriptor
without_signature d = record d {
  descriptor_signature = none;
  descriptor_key_id = none;
  descriptor_signature_alg = none;
}

abbrev pub with_signature : AgentDescriptor → DescriptorSignature → AgentDescriptor
with_signature d s = record d {
  descriptor_signature = some s.signature;
  descriptor_key_id = some s.key_id;
  descriptor_signature_alg = some s.alg;
}

-- `signedDescriptor`: a descriptor that has all three fields is left as it is. `signAgentDescriptor`
-- signs the descriptor as it is given.
unfoldable pub signed_descriptor : DescriptorChecks → AgentDescriptor → AgentDescriptor
signed_descriptor c d =
    if (given d.descriptor_signature && given d.descriptor_key_id)
      && given d.descriptor_signature_alg
    then d
    else with_signature d (c.sign d)

unfoldable pub verify_agent_descriptor_signature : DescriptorChecks → AgentDescriptor → Bool
verify_agent_descriptor_signature c d = elim d.descriptor_signature [
  | none ↦ false
  | some signature ↦
      (is_some d.descriptor_key_id && is_some d.descriptor_signature_alg)
      && c.verify signature (without_signature d)
]

-- The descriptor that validation leaves: the schema does not list the extensions.
unfoldable pub validated_descriptor : DescriptorChecks → AgentDescriptor → AgentDescriptor
validated_descriptor c d = record d {
  capability_descriptors = c.kept_capabilities d.capability_descriptors;
  extensions = none;
  rest = c.kept_rest d.rest;
}

abbrev pub Registry : Type 0
Registry = Dict AgentDescriptor

unfoldable pub register :
    List TrustAnchor → DescriptorChecks → Registry → AgentDescriptor → Result RegistryError Registry
unfolding signed_descriptor validated_descriptor verify_agent_descriptor_signature
register anchors c agents d = do
  throw_if ((has_anchors anchors && truthy d.domain) && not (verify_trust_domain anchors d.domain))
      (untrusted_domain d.domain d.agent_id)
  let signed = signed_descriptor c d
  throw_if (not (c.is_valid signed)) invalid_descriptor
  let kept = validated_descriptor c signed
  throw_if (not (verify_agent_descriptor_signature c kept)) (invalid_signature kept.agent_id)
  ok (map_set kept.agent_id kept agents)

unfoldable pub get : Registry → String → Option AgentDescriptor
get agents agent_id = map_get agent_id agents

unfoldable pub list : Registry → List AgentDescriptor
list agents = values agents

unfoldable pub find_by_domain : Registry → String → List AgentDescriptor
unfolding list
find_by_domain agents domain = filter (λ d. str_eq d.domain domain) (list agents)

unfoldable pub find_by_capability : Registry → String → List AgentDescriptor
unfolding list
find_by_capability agents capability =
    filter (λ d. includes_text d.capabilities capability) (list agents)

unfoldable pub get_capability_descriptor : Registry → String → String → Option CapabilityDescriptor
unfolding get
get_capability_descriptor agents agent_id capability = elim (get agents agent_id) [
  | none ↦ none
  | some d ↦ elim d.capability_descriptors [
    | none ↦ none
    | some descriptors ↦ find? (λ c. str_eq c.name capability) descriptors
  ]
]
