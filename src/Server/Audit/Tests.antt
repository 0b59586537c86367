-- ===== src/Server/Audit/Tests.antt =====
-- The audit log on a few events, with a digest that is its input and a signature that is the hash.
use micro_agent_protocol.Base.{
  ◌≡◌, ◌↔◌, refl, arith, ◌≤◌, String, Option, none, some, true, List, [], ◌∷◌, ◌++◌, length, str_eq,
  str_eq_refl,
}
use micro_agent_protocol.Base.Decimal.{decimal}
use micro_agent_protocol.Server.Audit.{
  Recording, AuditEvent, Crypto, AuditManager, event_chain_index_mismatch, event_prev_hash_mismatch,
  new, canonical, chained_event, hash_audit_event_base, trim, build_checkpoint,
  create_audit_checkpoint, record_audit_event, check_events, check_checkpoints, find_event,
  verify_audit_integrity,
}
use micro_agent_protocol.Server.Audit.Checkpoints.{IsSound}
use micro_agent_protocol.Server.Audit.Recorded.{record_all, intact_exact}
use micro_agent_protocol.Server.Audit.Tampering.{HasNoCollisions, tampering_found}

abbrev plain : Crypto
plain = record {
  digest = λ s. s;
  sign = λ p. p.last_event_hash;
  verify = λ p s. str_eq s p.last_event_hash;
  signature_key_id = λ s. some "k1";
}

plain-IsSound : IsSound plain
unfolding IsSound
plain-IsSound = (λ p. str_eq_refl p.last_event_hash, λ p. ("k1", refl))

-- A refused dispatch of an agent.
abbrev refused : (id message : String) (subject : Option String) → Recording
refused id message subject = record {
  timestamp = "t";
  request_id = id;
  code = "denied";
  message = message;
  method = "POST";
  route = "/dispatch";
  tenant_id = some "acme";
  target_agent = none;
  subject = subject;
}

abbrev two : List (Recording × String)
two = (refused "r1" "no" none, "t1") ∷ (refused "r2" "no" none, "t2") ∷ []

abbrev log : AuditManager
log = record_all plain two (new 2 1)

numbers_as_texts : (decimal 0 ≡ "0") × (decimal 7 ≡ "7") × (decimal 1905 ≡ "1905")
unfolding decimal
numbers_as_texts = (refl, refl, refl)

intact_exact_example :
    ((verify_audit_integrity plain (record_all plain two (new 2 1))).ok ≡ true) ↔ (length two ≤ 2)
intact_exact_example = intact_exact plain 2 1 two plain-IsSound (omega arith)

abbrev trimmed : AuditManager
trimmed = record_all plain (two ++ (refused "r3" "no" none, "t3") ∷ []) (new 2 3)

-- After a third event the first has left: the check finds an error at each position it looks at.
third_event_breaks :
    (verify_audit_integrity plain trimmed).errors
    ≡ event_chain_index_mismatch 0 1 2
      ∷ event_prev_hash_mismatch 0
      ∷ event_chain_index_mismatch 1 2 3
      ∷ []
unfolding new canonical chained_event hash_audit_event_base trim build_checkpoint
    create_audit_checkpoint record_audit_event check_events check_checkpoints find_event
    verify_audit_integrity decimal
third_event_breaks = refl

-- The bar between the fields does not keep them apart: two events with one hash.
fields_shift :
    canonical (record (refused "r1" "b" none) { code = "denied|a" }) 1 "GENESIS"
    ≡ canonical (refused "r1" "a|b" none) 1 "GENESIS"
unfolding canonical decimal
fields_shift = refl

abbrev first : AuditEvent
first = chained_event plain (refused "r1" "no" none) 1 "GENESIS"

abbrev second : AuditEvent
second = chained_event plain (refused "r2" "no" none) 2 first.event_hash

-- The same event with a subject.
abbrev blamed : AuditEvent
blamed = record first { event = refused "r1" "no" (some "key:k2") }

abbrev forged : AuditManager
forged = record log { audit_events = blamed ∷ second ∷ [] }

-- The subject is not covered by the hash: with another one the log is found intact.
log_passes : (verify_audit_integrity plain log).ok ≡ true
unfolding new canonical chained_event hash_audit_event_base trim build_checkpoint
    create_audit_checkpoint record_audit_event check_events check_checkpoints find_event
    verify_audit_integrity decimal
log_passes = refl

forged_passes : (verify_audit_integrity plain forged).ok ≡ true
unfolding new canonical chained_event hash_audit_event_base trim build_checkpoint
    create_audit_checkpoint record_audit_event check_events check_checkpoints find_event
    verify_audit_integrity decimal
forged_passes = refl

log_events : log.audit_events ≡ [] ++ first ∷ second ∷ []
unfolding new canonical chained_event hash_audit_event_base trim build_checkpoint
    create_audit_checkpoint record_audit_event decimal
log_events = refl

no_collisions : HasNoCollisions plain
no_collisions s t h = h

tampering_found_example :
    canonical first.event first.chain_index first.prev_event_hash
    ≡ canonical blamed.event blamed.chain_index blamed.prev_event_hash
tampering_found_example =
    tampering_found plain log forged [] [] [] [] first blamed second no_collisions log_events refl
      log_passes forged_passes
