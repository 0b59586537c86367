-- ===== src/Server/Audit/Checkpoints.antt =====
-- The checkpoints of server/services/audit-manager.ts as a predicate: what the second loop of
-- verifyAuditIntegrity finds nothing against, and how they grow.
use micro_agent_protocol.Base.{
  ◌≡◌, refl, inl, inr, arith, ℕ, suc, ◌+◌, ◌-◌, ◌≤◌, min, String, some, true, List, [], ◌∷◌, ◌++◌,
  length, length-append, length-drop, str_eq_refl, Bool-cases, All,
}
use micro_agent_protocol.Server.Audit.{
  AuditEvent, CheckpointPayload, AuditCheckpoint, Crypto, AuditManager, trim, is_between, is_key_id,
  build_checkpoint, create_audit_checkpoint, check_checkpoints, find_event,
}
use micro_agent_protocol.Server.Audit.Chain.{IsNumbered, find_event-append, find_event-last}

module _ {ℓ} {A : Type ℓ} (n : ℕ) (xs : List A) where
  pub length-trim : length (trim n xs) ≡ min (length xs) n
  unfolding trim
  length-trim = ground (arith, length-drop (length xs - n) xs)

  pub trim_fits : length xs ≤ n → trim n xs ≡ xs
  unfolding trim
  trim_fits fits = ground arith

-- A checkpoint that the second loop finds nothing against.
abbrev pub IsAttested : Crypto → List AuditEvent → AuditCheckpoint → Type 0
IsAttested c es k =
    (is_key_id (c.signature_key_id k.signature) k.key_id ≡ true)
    × (c.verify k.payload k.signature ≡ true)
    × ((e : AuditEvent) × (find_event es k.payload.last_chain_index ≡ some e)
        × (e.event_hash ≡ k.payload.last_event_hash))

pub check_checkpoints-IsAttested :
    (c : Crypto) (es : List AuditEvent) (i : ℕ) (ks : List AuditCheckpoint)
    → All (IsAttested c es) ks
    → check_checkpoints c es i ks ≡ []
unfolding check_checkpoints
check_checkpoints-IsAttested c es i [] h = refl
check_checkpoints-IsAttested c es i (k ∷ ks) ((id, signed, (e, found, same)), rest) =
    rw (id, signed, found, same, str_eq_refl) (check_checkpoints-IsAttested c es (i + 1) ks rest)

All-IsAttested-append :
    (c : Crypto) (es : List AuditEvent) (e : AuditEvent) (ks : List AuditCheckpoint)
    → All (IsAttested c es) ks
    → All (IsAttested c (es ++ e ∷ [])) ks
All-IsAttested-append c es e [] h = tt
All-IsAttested-append c es e (k ∷ ks) ((id, signed, (t, found, same)), rest) = (
  (id, signed, (t, find_event-append es e k.payload.last_chain_index found, same)),
  All-IsAttested-append c es e ks rest,
)

All-append {ℓ κ} :
    {A : Type ℓ} (P : A → Type κ) (xs : List A) {x : A} → All P xs → P x → All P (xs ++ x ∷ [])
All-append P [] h p = (p, tt)
All-append P (y ∷ xs) h p = (h.0, All-append P xs h.1 p)

-- Signatures that verify and carry a key id, as those of security/signing.ts do.
unfoldable pub IsSound : Crypto → Type 0
IsSound c =
    ((p : CheckpointPayload) → c.verify p (c.sign p) ≡ true)
    × ((p : CheckpointPayload) → (id : String) × (c.signature_key_id (c.sign p) ≡ some id))

module _ (c : Crypto) (sound : IsSound c) (now : String) where
  build_checkpoint-IsAttested :
      (i : ℕ) (es : List AuditEvent) (e : AuditEvent)
      → IsNumbered i es
      → e.chain_index ≡ i + length es + 1
      → IsAttested c (es ++ e ∷ []) (build_checkpoint c now e)
  unfolding build_checkpoint IsSound
  build_checkpoint-IsAttested i es e numbered follows =
      let (id, carried) = sound.1 (build_checkpoint c now e).payload in
      (rw carried (str_eq_refl id), sound.0 _, (e, find_event-last i es e numbered follows, refl))

  -- The checkpoints after a further event, of a log that has all events.
  pub create_audit_checkpoint-IsAttested :
      (n : ℕ) (m : AuditManager) (es : List AuditEvent) (e : AuditEvent)
      → suc n ≤ m.audit_max_events
      → length m.audit_checkpoints ≤ n
      → IsNumbered 0 es
      → e.chain_index ≡ length es + 1
      → All (IsAttested c es) m.audit_checkpoints
      → All (IsAttested c (es ++ e ∷ [])) (create_audit_checkpoint c now e m).audit_checkpoints
        × (length (create_audit_checkpoint c now e m).audit_checkpoints ≤ suc n)
  unfolding create_audit_checkpoint
  create_audit_checkpoint-IsAttested n m es e room few numbered follows attested =
      let ks = m.audit_checkpoints in
      let k = build_checkpoint c now e in
      let longer : length (ks ++ k ∷ []) ≤ suc n = omega (arith, length-append ks (k ∷ [])) in
      let before = All-IsAttested-append c es e ks attested in
      elim (Bool-cases (is_between m.audit_checkpoint_interval e.chain_index)) [
        | inl t ↦ rw t (before, omega arith)
        | inr f ↦
            rw (f, trim_fits m.audit_max_events (ks ++ k ∷ []) (omega arith))
              (
                All-append (IsAttested c (es ++ e ∷ [])) ks before
                    (build_checkpoint-IsAttested 0 es e numbered (omega arith)),
                longer,
              )
      ]
