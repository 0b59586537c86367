-- ===== src/Server/Audit/Steps.antt =====
-- What server/services/audit-manager.ts has kept after `n` events, and that recording keeps it.
use micro_agent_protocol.Base.{
  ◌≡◌, refl, subst, inl, inr, arith, ℕ, suc, ◌+◌, ◌-◌, ◌≤◌, min, String, List, [], ◌∷◌, ◌++◌,
  length, length-append, ltb, Bool-cases, All,
}
use micro_agent_protocol.Server.Audit.{
  Recording, AuditEvent, Crypto, AuditManager, last_event, next_index, next_prev, trim,
  chained_event, is_between, create_audit_checkpoint, record_audit_event,
}
use micro_agent_protocol.Server.Audit.Chain.{
  IsNumbered, IsChain, next_prev_lem, next_index-IsNumbered, IsNumbered-append, IsNumbered-drop,
  IsChain-append,
}
use micro_agent_protocol.Server.Audit.Checkpoints.{
  length-trim, trim_fits, IsAttested, IsSound, create_audit_checkpoint-IsAttested,
}

IsNumbered-trim :
    (n i : ℕ) (es : List AuditEvent)
    → IsNumbered i es
    → IsNumbered (i + (length es - n)) (trim n es)
unfolding trim
IsNumbered-trim n i es h = elim (Bool-cases (ltb n (length es))) [
  | inl t ↦ rw t (IsNumbered-drop (length es - n) i es h (omega arith))
  | inr f ↦
      let same : i ≡ i + (length es - n) = ground arith in
      rw f (subst (λ k. IsNumbered k es) same h)
]

-- What holds of a log after `n` events: it has the last of them, in order; and as long as it has all,
-- they form a chain and every checkpoint is of one of them.
pub record IsRecorded (c : Crypto) (n : ℕ) (m : AuditManager) : Type 0 where
  pub kept : length m.audit_events ≡ min n m.audit_max_events
  pub numbered : IsNumbered (n - length m.audit_events) m.audit_events
  pub whole :
      n ≤ m.audit_max_events
      → IsChain c 0 "GENESIS" m.audit_events
        × All (IsAttested c m.audit_events) m.audit_checkpoints
        × (length m.audit_checkpoints ≤ n)

next_index_lem :
    (k n : ℕ) (es : List AuditEvent)
    → 1 ≤ k
    → length es ≡ min n k
    → IsNumbered (n - length es) es
    → next_index (last_event es) ≡ n - length es + length es + 1
next_index_lem k n [] one kept numbered = omega arith
next_index_lem k n (e ∷ es) one kept numbered = next_index-IsNumbered _ e es numbered

module _ (c : Crypto) (now : String) (r : Recording) (m : AuditManager) where
  -- The event that is added.
  abbrev added : AuditEvent
  added =
      chained_event c r (next_index (last_event m.audit_events))
        (next_prev (last_event m.audit_events))

  audit_events-record :
      (record_audit_event c now r m).audit_events
      ≡ trim m.audit_max_events (m.audit_events ++ added ∷ [])
  unfolding record_audit_event create_audit_checkpoint
  audit_events-record =
      elim (Bool-cases (is_between m.audit_checkpoint_interval added.chain_index)) [
        | inl t ↦ rw t refl
        | inr f ↦ rw f refl
      ]

  pub audit_max_events-record : (record_audit_event c now r m).audit_max_events ≡ m.audit_max_events
  unfolding record_audit_event create_audit_checkpoint
  audit_max_events-record =
      elim (Bool-cases (is_between m.audit_checkpoint_interval added.chain_index)) [
        | inl t ↦ rw t refl
        | inr f ↦ rw f refl
      ]

  -- While there is room, nothing is trimmed.
  record-create :
      length (m.audit_events ++ added ∷ []) ≤ m.audit_max_events
      → record_audit_event c now r m
        ≡ create_audit_checkpoint c now added
            (record m { audit_events = m.audit_events ++ added ∷ [] })
  unfolding record_audit_event
  record-create fits = rw (trim_fits m.audit_max_events (m.audit_events ++ added ∷ []) fits) refl

  -- What holds of the log before.
  module _ (n : ℕ) (one : 1 ≤ m.audit_max_events) (h : IsRecorded c n m) where
    follows : added.chain_index ≡ n - length m.audit_events + length m.audit_events + 1
    unfolding chained_event
    follows = next_index_lem m.audit_max_events n m.audit_events one h.kept h.numbered

    kept-step :
        length (trim m.audit_max_events (m.audit_events ++ added ∷ []))
        ≡ min (suc n) m.audit_max_events
    kept-step = omega (
      arith,
      length-trim m.audit_max_events (m.audit_events ++ added ∷ []),
      length-append m.audit_events (added ∷ []),
      h.kept,
    )

    IsNumbered-step :
        IsNumbered
          (suc n - length (trim m.audit_max_events (m.audit_events ++ added ∷ [])))
          (trim m.audit_max_events (m.audit_events ++ added ∷ []))
    IsNumbered-step =
        let longer = m.audit_events ++ added ∷ [] in
        let i = n - length m.audit_events in
        let same : i + (length longer - m.audit_max_events)
            ≡ suc n - length (trim m.audit_max_events longer) =
          omega (arith, kept-step, length-append m.audit_events (added ∷ []), h.kept) in
        subst (λ k. IsNumbered k (trim m.audit_max_events longer)) same
          (IsNumbered-trim m.audit_max_events i longer
            (IsNumbered-append i m.audit_events added h.numbered follows))

    module _ (sound : IsSound c) (room : suc n ≤ m.audit_max_events) where
      all_kept : length m.audit_events ≡ n
      all_kept = omega (arith, h.kept)

      fits : length (m.audit_events ++ added ∷ []) ≤ m.audit_max_events
      fits = omega (arith, length-append m.audit_events (added ∷ []), all_kept)

      IsChain-step : IsChain c 0 "GENESIS" (m.audit_events ++ added ∷ [])
      unfolding chained_event
      IsChain-step =
          IsChain-append c 0 "GENESIS" m.audit_events added (h.whole (omega arith)).0
            (omega (arith, follows, all_kept)) (next_prev_lem m.audit_events) refl

      IsAttested-step :
          All
            (IsAttested c (m.audit_events ++ added ∷ []))
            (record_audit_event c now r m).audit_checkpoints
          × (length (record_audit_event c now r m).audit_checkpoints ≤ suc n)
      IsAttested-step =
          let same : n - length m.audit_events ≡ 0 = omega (arith, all_kept) in
          let (chain, attested, few) = h.whole (omega arith) in
          rw (record-create fits) (
            create_audit_checkpoint-IsAttested c sound now n
              (record m { audit_events = m.audit_events ++ added ∷ [] }) m.audit_events added room
              few (subst (λ k. IsNumbered k m.audit_events) same h.numbered)
              (omega (arith, follows, all_kept)) attested)

      whole-step :
          IsChain c 0 "GENESIS" (record_audit_event c now r m).audit_events
          × All
              (IsAttested c (record_audit_event c now r m).audit_events)
              (record_audit_event c now r m).audit_checkpoints
          × (length (record_audit_event c now r m).audit_checkpoints ≤ suc n)
      whole-step =
          rw (audit_events-record, trim_fits m.audit_max_events (m.audit_events ++ added ∷ []) fits)
            (IsChain-step, IsAttested-step.0, IsAttested-step.1)

  -- Recording keeps what holds of a log.
  pub IsRecorded-step :
      (n : ℕ)
      → IsSound c
      → 1 ≤ m.audit_max_events
      → IsRecorded c n m
      → IsRecorded c (suc n) (record_audit_event c now r m)
  IsRecorded-step n sound one h = record {
    kept = rw (audit_events-record, audit_max_events-record) (kept-step n one h);
    numbered = rw audit_events-record (IsNumbered-step n one h);
    whole = λ room. whole-step n one h sound (rw audit_max_events-record at room);
  }
