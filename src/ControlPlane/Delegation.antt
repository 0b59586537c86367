-- ===== src/ControlPlane/Delegation.antt =====
-- control-plane/delegation.ts: issuing a delegation token for a policy decision. `sign` signs a token
-- that has no signature yet, which stands here as one with the empty signature.
pub mod Issued
mod Tests
use micro_agent_protocol.Base.{String, Option, none, some, Bool, List, or_else}
use micro_agent_protocol.Base.Json.{Fields, end}
use micro_agent_protocol.Protocol.{RequesterIdentity}
use micro_agent_protocol.Core.Types.{PolicyAction}
use micro_agent_protocol.Runtime.Envelope.{DelegationToken}

-- The two records that a decision's constraints may have.
pub record ScopedConstraints : Type 0 where
  pub common : Option Fields
  pub domain : Option Fields

pub record PolicyDecision : Type 0 where
  pub allowed : Bool
  pub action : PolicyAction
  pub policy_checks : List String
  pub reason : Option String
  pub approval_reference : Option String
  pub scoped_constraints : Option ScopedConstraints

pub record DelegationRequest : Type 0 where
  pub subject_agent : String
  pub allowed_actions : List String
  pub resource_scope : Fields
  pub requester_identity : RequesterIdentity
  pub policy : PolicyDecision
  pub expires_at : String

-- `(request.policy.scoped_constraints ?? {}).key ?? {}`.
abbrev pub scoped : (ScopedConstraints → Option Fields) → PolicyDecision → Fields
scoped key p = elim p.scoped_constraints [ none ↦ end | some s ↦ or_else (key s) end ]

unfoldable pub token_without_signature : String → DelegationRequest → DelegationToken
token_without_signature issuer r = record {
  issuer = issuer;
  subject_agent = r.subject_agent;
  allowed_actions = r.allowed_actions;
  resource_scope = r.resource_scope;
  constraints = record {
    common = scoped ScopedConstraints.common r.policy;
    domain = scoped ScopedConstraints.domain r.policy;
    expires_at = r.expires_at;
  };
  approval_reference = r.policy.approval_reference;
  requester_identity = some r.requester_identity;
  signature = "";
}

unfoldable pub issue : (DelegationToken → String) → String → DelegationRequest → DelegationToken
unfolding token_without_signature
issue sign issuer r =
    let unsigned = token_without_signature issuer r in record unsigned { signature = sign unsigned }
