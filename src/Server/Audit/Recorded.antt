-- ===== src/Server/Audit/Recorded.antt =====
-- When the check of server/services/audit-manager.ts finds nothing against a log that started empty.
use micro_agent_protocol.Base.{
  ◌≡◌, ◌↔◌, refl, subst, ◌∙◌, arith, ℕ, suc, ◌+◌, ◌-◌, ◌≤◌, min, String, true, List, [], ◌∷◌, ◌++◌,
  length,
}
use micro_agent_protocol.Server.Audit.{
  Recording, AuditEvent, AuditError, Crypto, AuditManager, new, record_audit_event,
  verify_audit_integrity, is_empty,
}
use micro_agent_protocol.Server.Audit.Chain.{
  IsNumbered, IsChain, IsChain-check_events, check_events-IsChain,
}
use micro_agent_protocol.Server.Audit.Checkpoints.{IsSound, check_checkpoints-IsAttested}
use micro_agent_protocol.Server.Audit.Steps.{IsRecorded, audit_max_events-record, IsRecorded-step}

-- The events are recorded one after the other, each with the time of its checkpoint.
abbrev pub record_all : Crypto → List (Recording × String) → AuditManager → AuditManager
record_all c [] m = m
record_all c ((r, now) ∷ rs) m = record_all c rs (record_audit_event c now r m)

IsRecorded-record_all :
    (c : Crypto) (n : ℕ) (rs : List (Recording × String)) (m : AuditManager)
    → IsSound c
    → 1 ≤ m.audit_max_events
    → IsRecorded c n m
    → IsRecorded c (n + length rs) (record_all c rs m)
      × ((record_all c rs m).audit_max_events ≡ m.audit_max_events)
IsRecorded-record_all c n [] m sound one h =
    let same : n ≡ n + 0 = omega arith in (subst (λ k. IsRecorded c k m) same h, refl)
IsRecorded-record_all c n ((r, now) ∷ rs) m sound one h =
    let same : suc n + length rs ≡ n + suc (length rs) = omega arith in
    let kept = audit_max_events-record c now r m in
    let (rest, max_events) =
      IsRecorded-record_all c (suc n) rs (record_audit_event c now r m) sound (rw kept one)
        (IsRecorded-step c now r m n sound one h) in
    (
      subst (λ k. IsRecorded c k (record_all c rs (record_audit_event c now r m))) same rest,
      max_events ∙ kept,
    )

new-IsRecorded : (c : Crypto) (k interval : ℕ) → IsRecorded c 0 (new k interval)
unfolding new
new-IsRecorded c k interval = record {
  kept = omega arith;
  numbered = tt;
  whole = λ room. (tt, tt, omega arith);
}

IsRecorded-ok :
    (c : Crypto) (n : ℕ) (m : AuditManager)
    → IsRecorded c n m
    → n ≤ m.audit_max_events
    → (verify_audit_integrity c m).ok ≡ true
unfolding verify_audit_integrity
IsRecorded-ok c n m h room =
    let (chain, attested, few) = h.whole room in
    rw
      (
        IsChain-check_events c 0 "GENESIS" m.audit_events chain,
        check_checkpoints-IsAttested c m.audit_events 0 m.audit_checkpoints attested,
      )
      refl

pub ok-IsChain :
    (c : Crypto) (m : AuditManager)
    → (verify_audit_integrity c m).ok ≡ true
    → IsChain c 0 "GENESIS" m.audit_events
unfolding verify_audit_integrity
ok-IsChain c m h = check_events-IsChain c 0 "GENESIS" m.audit_events (without_errors _ _ h)
  where
    without_errors : (xs ys : List AuditError) → is_empty (xs ++ ys) ≡ true → xs ≡ []
    without_errors [] ys h = refl
    without_errors (x ∷ xs) ys h = cc

-- The first event of a log that lost some has a number that the first loop does not expect.
nothing_lost :
    (c : Crypto) (n k : ℕ) (es : List AuditEvent)
    → 1 ≤ k
    → length es ≡ min n k
    → IsNumbered (n - length es) es
    → IsChain c 0 "GENESIS" es
    → n ≤ k
nothing_lost c n k [] one kept numbered chain = omega arith
nothing_lost c n k (e ∷ es) one kept numbered chain = omega (arith, numbered.0, chain.0)

-- With signatures that verify and carry a key id, and room for an event at least: the check of a log
-- that started empty finds no error exactly if no more events were recorded than it has room for,
-- whatever the interval of the checkpoints is.
pub intact_exact :
    (c : Crypto) (max_events interval : ℕ) (rs : List (Recording × String))
    → IsSound c
    → 1 ≤ max_events
    → ((verify_audit_integrity c (record_all c rs (new max_events interval))).ok ≡ true)
      ↔ (length rs ≤ max_events)
unfolding new
intact_exact c max_events interval rs sound one =
    let (h, same) =
      IsRecorded-record_all c 0 rs (new max_events interval) sound one
        (new-IsRecorded c max_events interval) in
    let m = record_all c rs (new max_events interval) in
    let start : 0 + length rs ≡ length rs = omega arith in
    (
      λ passed.
          nothing_lost c (length rs) max_events m.audit_events one (omega (arith, h.kept, same))
            (subst (λ k. IsNumbered (k - length m.audit_events) m.audit_events) start h.numbered)
            (ok-IsChain c m passed),
      λ room. IsRecorded-ok c (0 + length rs) m h (omega (arith, same)),
    )
