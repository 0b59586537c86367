-- ===== src/Server/Audit/Tampering.antt =====
-- What the check of server/services/audit-manager.ts protects: with a digest that has no collisions,
-- the events in front of one that is known are known too.
use micro_agent_protocol.Base.{◌≡◌, sym, ◌∙◌, ℕ, ◌+◌, String, true, List, [], ◌∷◌, ◌++◌}
use micro_agent_protocol.Server.Audit.{
  AuditEvent, Crypto, AuditManager, canonical, hash_audit_event_base, verify_audit_integrity,
}
use micro_agent_protocol.Server.Audit.Chain.{IsChain}
use micro_agent_protocol.Server.Audit.Recorded.{ok-IsChain}

-- The text of an event that its hash is taken of.
abbrev hashed_text : AuditEvent → String
hashed_text e = canonical e.event e.chain_index e.prev_event_hash

-- The digest has no collisions.
abbrev pub HasNoCollisions : Crypto → Type 0
HasNoCollisions c = (s t : String) → c.digest s ≡ c.digest t → s ≡ t

named_digest :
    (c : Crypto) (i : ℕ) (prev : String) (before after : List AuditEvent) (e f : AuditEvent)
    → IsChain c i prev (before ++ e ∷ f ∷ after)
    → f.prev_event_hash ≡ c.digest (hashed_text e)
unfolding hash_audit_event_base
named_digest c i prev [] after e f h = h.3.1 ∙ h.2
named_digest c i prev (d ∷ before) after e f h =
    named_digest c (i + 1) d.event_hash before after e f h.3

-- Two logs without errors that both hold the event `f` have in front of it events with the same
-- hashed text, if the digest has no collisions: an event with another text is found out by the one
-- behind it, also when its own hash was computed anew.
pub tampering_found :
    (c : Crypto) (m m' : AuditManager) (before before' after after' : List AuditEvent)
    (e e' f : AuditEvent)
    → HasNoCollisions c
    → m.audit_events ≡ before ++ e ∷ f ∷ after
    → m'.audit_events ≡ before' ++ e' ∷ f ∷ after'
    → (verify_audit_integrity c m).ok ≡ true
    → (verify_audit_integrity c m').ok ≡ true
    → canonical e.event e.chain_index e.prev_event_hash
      ≡ canonical e'.event e'.chain_index e'.prev_event_hash
tampering_found c m m' before before' after after' e e' f injective is is' ok ok' =
    let one = named_digest c 0 "GENESIS" before after e f (rw is at (ok-IsChain c m ok)) in
    let other = named_digest c 0 "GENESIS" before' after' e' f (rw is' at (ok-IsChain c m' ok')) in
    injective _ _ (sym one ∙ other)
