-- ===== src/ControlPlane/Delegation/Issued.antt =====
-- A token of control-plane/delegation.ts passes the check of runtime/micro-agent.ts.
use micro_agent_protocol.Base.{
  ◌≡◌, refl, ℕ, ◌<◌, String, none, some, true, any, or_else, str_eq, truthy, ok,
}
use micro_agent_protocol.Base.Dict.{Dict, get}
use micro_agent_protocol.Runtime.Envelope.{DelegationToken, Metadata, TaskEnvelope, meta}
use micro_agent_protocol.Runtime.Scope.{scope_matches_refl}
use micro_agent_protocol.Runtime.MicroAgent.{
  Checks, cleanup_seen_token_uses, replay_key, assert_authorized,
}
use micro_agent_protocol.Runtime.MicroAgent.Authorization.{authorized_exact}
use micro_agent_protocol.ControlPlane.Delegation.{DelegationRequest, token_without_signature, issue}

-- The agent that a token was issued for accepts it, if signatures that the issuer makes verify, the
-- token is well formed and holds nothing that its schema does not list, so that validation leaves it
-- as it was signed, has not expired and was not used for the task, and was requested with the
-- task's constraints and requester and for the capability that the task names.
pub issued_authorized :
    (c : Checks) (sign : DelegationToken → String) (issuer : String) (r : DelegationRequest)
    (now exp : ℕ) (seen : Dict ℕ) (e : TaskEnvelope)
    → ((t : DelegationToken) → c.verify_signature (record t { signature = sign t }) ≡ true)
    → c.validate_token (issue sign issuer r) ≡ some (issue sign issuer r)
    → c.parse_date r.expires_at ≡ some exp
    → now < exp
    → get (replay_key (issue sign issuer r) e) (cleanup_seen_token_uses now seen) ≡ none
    → truthy (or_else (meta Metadata.capability e) "") ≡ true
    → any (str_eq (or_else (meta Metadata.capability e) "")) r.allowed_actions ≡ true
    → r.resource_scope ≡ e.constraints
    → r.requester_identity ≡ e.requester_identity
    → (assert_authorized c r.subject_agent now seen e (issue sign issuer r)).1 ≡ ok tt
unfolding issue token_without_signature
issued_authorized c sign issuer r now exp seen e verifies valid parsed late fresh named allowed
      scope same =
    (authorized_exact c r.subject_agent now seen e (issue sign issuer r)).1 (
      issue sign issuer r,
      valid,
      record {
        subject = refl;
        signed = verifies (token_without_signature issuer r);
        live = (exp, parsed, late);
        fresh = fresh;
        named = named;
        allowed = allowed;
        scoped = rw scope (scope_matches_refl c.before e.constraints);
        requested = (r.requester_identity, refl, rw same refl, rw same refl, rw same refl);
      },
    )
