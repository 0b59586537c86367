-- ===== src/ControlPlane/Agents.antt =====
-- protocol/map-types.ts: the descriptors of agents and of their capabilities, as the control plane
-- reads them. `rest` holds the properties that only pass through it.
use micro_agent_protocol.Base.{String, Option, Bool, List}
use micro_agent_protocol.Base.Json.{Fields}
use micro_agent_protocol.Protocol.{VisibilityMode}

pub data RegistryStatus : Type 0 where
  active deprecated disabled : RegistryStatus

pub record AgentExtension : Type 0 where
  pub uri : String
  pub required : Option Bool

pub record TranslationTarget : Type 0 where
  pub from : String
  pub to : String

pub record CapabilityDescriptor : Type 0 where
  pub name : String
  pub schema_version : Option String
  pub supported_schema_versions : Option (List String)
  pub preferred_schema_version : Option String
  pub translation_targets : Option (List TranslationTarget)
  pub status : Option RegistryStatus
  pub rest : Fields

pub record AgentDescriptor : Type 0 where
  pub agent_id : String
  pub domain : String
  pub capabilities : List String
  pub visibility_modes : List VisibilityMode
  pub capability_descriptors : Option (List CapabilityDescriptor)
  pub registry_status : Option RegistryStatus
  pub descriptor_signature : Option String
  pub descriptor_key_id : Option String
  pub descriptor_signature_alg : Option String
  pub extensions : Option (List AgentExtension)
  pub rest : Fields
