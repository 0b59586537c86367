-- ===== src/Server/Audit/Chain.antt =====
-- The chain of events of server/services/audit-manager.ts as a predicate: what the first loop of
-- verifyAuditIntegrity finds nothing against, and how it grows and is trimmed.
use micro_agent_protocol.Base.{
  ◌≡◌, refl, ap, subst, inl, inr, arith, ℕ, zero, suc, ◌+◌, ◌≤◌, String, some, List, [], ◌∷◌, ◌++◌,
  length, drop, ◌==◌, str_eq_iff, Bool-cases,
}
use micro_agent_protocol.Server.Audit.{
  AuditEvent, Crypto, last_event, next_index, next_prev, hash_audit_event_base, check_events,
  find_event,
}

-- The events have the numbers after `i`, one by one.
abbrev pub IsNumbered : ℕ → List AuditEvent → Type 0
IsNumbered i [] = Unit
IsNumbered i (e ∷ es) = (e.chain_index ≡ i + 1) × IsNumbered (i + 1) es

-- Each is numbered, names the hash before it and has the hash of its own fields.
abbrev pub IsChain : Crypto → ℕ → String → List AuditEvent → Type 0
IsChain c i prev [] = Unit
IsChain c i prev (e ∷ es) =
    (e.chain_index ≡ i + 1)
    × (e.prev_event_hash ≡ prev)
    × (e.event_hash ≡ hash_audit_event_base c e.event e.chain_index e.prev_event_hash)
    × IsChain c (i + 1) e.event_hash es

pub check_events-IsChain :
    (c : Crypto) (i : ℕ) (prev : String) (es : List AuditEvent)
    → check_events c i prev es ≡ []
    → IsChain c i prev es
unfolding check_events
check_events-IsChain c i prev [] h = tt
check_events-IsChain c i prev (e ∷ es) h = ground (
  arith,
  str_eq_iff e.prev_event_hash prev,
  str_eq_iff e.event_hash (hash_audit_event_base c e.event e.chain_index e.prev_event_hash),
  check_events-IsChain c (i + 1) e.event_hash es,
)

pub IsChain-check_events :
    (c : Crypto) (i : ℕ) (prev : String) (es : List AuditEvent)
    → IsChain c i prev es
    → check_events c i prev es ≡ []
unfolding check_events
IsChain-check_events c i prev [] h = refl
IsChain-check_events c i prev (e ∷ es) h = ground (
  arith,
  str_eq_iff e.prev_event_hash prev,
  str_eq_iff e.event_hash (hash_audit_event_base c e.event e.chain_index e.prev_event_hash),
  IsChain-check_events c (i + 1) e.event_hash es h.3,
)

abbrev last_hash : String → List AuditEvent → String
last_hash prev [] = prev
last_hash prev (e ∷ es) = last_hash e.event_hash es

next_prev-cons :
    (e : AuditEvent) (es : List AuditEvent)
    → next_prev (last_event (e ∷ es)) ≡ last_hash e.event_hash es
next_prev-cons e [] = refl
next_prev-cons e (f ∷ es) = next_prev-cons f es

-- The hash that the next event names.
pub next_prev_lem : (es : List AuditEvent) → next_prev (last_event es) ≡ last_hash "GENESIS" es
next_prev_lem [] = refl
next_prev_lem (e ∷ es) = next_prev-cons e es

-- The number that the next event gets, behind events that are numbered.
pub next_index-IsNumbered :
    (i : ℕ) (e : AuditEvent) (es : List AuditEvent)
    → IsNumbered i (e ∷ es)
    → next_index (last_event (e ∷ es)) ≡ i + length (e ∷ es) + 1
next_index-IsNumbered i e [] h = ap (λ n. n + 1) h.0
next_index-IsNumbered i e (f ∷ es) h = omega (arith, next_index-IsNumbered (i + 1) f es h.1)

pub IsNumbered-append :
    (i : ℕ) (es : List AuditEvent) (e : AuditEvent)
    → IsNumbered i es
    → e.chain_index ≡ i + length es + 1
    → IsNumbered i (es ++ e ∷ [])
IsNumbered-append i [] e h new = (omega arith, tt)
IsNumbered-append i (f ∷ es) e h new = (h.0, IsNumbered-append (i + 1) es e h.1 (omega arith))

pub IsNumbered-drop :
    (n i : ℕ) (es : List AuditEvent)
    → IsNumbered i es
    → n ≤ length es
    → IsNumbered (i + n) (drop n es)
IsNumbered-drop zero i es h le =
    let same : i ≡ i + 0 = omega arith in subst (λ k. IsNumbered k es) same h
IsNumbered-drop (suc n) i [] h le = absurd (omega arith)
IsNumbered-drop (suc n) i (e ∷ es) h le =
    let same : i + 1 + n ≡ i + suc n = omega arith in
    subst (λ k. IsNumbered k (drop n es)) same (IsNumbered-drop n (i + 1) es h.1 (omega arith))

pub IsChain-append :
    (c : Crypto) (i : ℕ) (prev : String) (es : List AuditEvent) (e : AuditEvent)
    → IsChain c i prev es
    → e.chain_index ≡ i + length es + 1
    → e.prev_event_hash ≡ last_hash prev es
    → e.event_hash ≡ hash_audit_event_base c e.event e.chain_index e.prev_event_hash
    → IsChain c i prev (es ++ e ∷ [])
IsChain-append c i prev [] e h new before hashed = (omega arith, before, hashed, tt)
IsChain-append c i prev (f ∷ es) e h new before hashed =
    (h.0, h.1, h.2, IsChain-append c (i + 1) f.event_hash es e h.3 (omega arith) before hashed)

-- An event that is found stays found, and a number past the end is found at the end.
pub find_event-append :
    (es : List AuditEvent) (e : AuditEvent) (n : ℕ) {t : AuditEvent}
    → find_event es n ≡ some t
    → find_event (es ++ e ∷ []) n ≡ some t
unfolding find_event
find_event-append [] e n h = cc
find_event-append (f ∷ es) e n h = elim (Bool-cases (f.chain_index == n)) [
  | inl t ↦ rw t (rw t at h)
  | inr f ↦ rw f (find_event-append es e n (rw f at h))
]

pub find_event-last :
    (i : ℕ) (es : List AuditEvent) (e : AuditEvent)
    → IsNumbered i es
    → e.chain_index ≡ i + length es + 1
    → find_event (es ++ e ∷ []) e.chain_index ≡ some e
unfolding find_event
find_event-last i [] e h new = ground arith
find_event-last i (f ∷ es) e h new = ground (arith, find_event-last (i + 1) es e h.1 (omega arith))
