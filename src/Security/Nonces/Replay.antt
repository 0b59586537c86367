-- ===== src/Security/Nonces/Replay.antt =====
-- When the cache of nonces of security/signing.ts accepts a nonce again.
use micro_agent_protocol.Base.{
  ◌&&◌, ◌≡◌, refl, arith, inl, inr, ℕ, ◌+◌, ◌≤◌, String, Option, none, some, true, false, List, [],
  ◌∷◌, ◌++◌, ltb, if◌then◌else◌, str_eq, str_eq_iff, str_eq_refl, Option-cases, All,
}
use micro_agent_protocol.Base.Dict.{Dict, get, set}
use micro_agent_protocol.Security.Nonces.{is_old, prune, verify_nonce}

-- The times under which a nonce stands in the cache.
abbrev times_of : String → Dict ℕ → List ℕ
times_of nonce [] = []
times_of nonce ((k, t) ∷ cache) =
    let rest = times_of nonce cache in if str_eq k nonce then t ∷ rest else rest

abbrev first_time : List ℕ → Option ℕ
first_time [] = none
first_time (t ∷ ts) = some t

abbrev fresh_times : (max_age now : ℕ) → List ℕ → List ℕ
fresh_times max_age now [] = []
fresh_times max_age now (t ∷ ts) =
    let rest = fresh_times max_age now ts in if is_old max_age now t then rest else t ∷ rest

get-times_of :
    (nonce : String) (cache : Dict ℕ) → get nonce cache ≡ first_time (times_of nonce cache)
unfolding get
get-times_of nonce [] = refl
get-times_of nonce ((k, t) ∷ cache) = ground (arith, get-times_of nonce cache)

times_of-prune :
    (max_age now : ℕ) (nonce : String) (cache : Dict ℕ)
    → times_of nonce (prune max_age now cache) ≡ fresh_times max_age now (times_of nonce cache)
unfolding prune
times_of-prune max_age now nonce [] = refl
times_of-prune max_age now nonce ((k, t) ∷ cache) =
    ground (arith, times_of-prune max_age now nonce cache)

-- A nonce that is not there is added at the end.
times_of-set_new :
    (k : String) (v : ℕ) (nonce : String) (cache : Dict ℕ)
    → get k cache ≡ none
    → times_of nonce (set k v cache)
      ≡ (if str_eq k nonce then times_of nonce cache ++ v ∷ [] else times_of nonce cache)
unfolding get set
times_of-set_new k v nonce [] absent = ground arith
times_of-set_new k v nonce ((j, t) ∷ cache) absent =
    ground (arith, times_of-set_new k v nonce cache)

module _ (max_age now : ℕ) (k : String) (cache : Dict ℕ) where
  get-prune :
      get k (prune max_age now cache) ≡ first_time (fresh_times max_age now (times_of k cache))
  get-prune = rw (get-times_of k (prune max_age now cache), times_of-prune max_age now k cache) refl

  refuses_present :
      (t : ℕ)
      → get k (prune max_age now cache) ≡ some t
      → verify_nonce max_age now k cache ≡ (prune max_age now cache, false)
  unfolding verify_nonce prune
  refuses_present t found = rw (found, verify_nonce) refl

  accepts_absent :
      get k (prune max_age now cache) ≡ none
      → verify_nonce max_age now k cache ≡ (set k now (prune max_age now cache), true)
  unfolding verify_nonce set
  accepts_absent absent = rw (absent, verify_nonce) refl

  -- The times of a nonce after a call for the nonce `k`.
  times_of-verify_nonce :
      (nonce : String)
      → times_of nonce (verify_nonce max_age now k cache).0 ≡ (
          if (verify_nonce max_age now k cache).1 && str_eq k nonce
          then fresh_times max_age now (times_of nonce cache) ++ now ∷ []
          else fresh_times max_age now (times_of nonce cache))
  times_of-verify_nonce nonce = elim (Option-cases (get k (prune max_age now cache))) [
    | inl absent ↦
        rw
          (
            accepts_absent absent,
            times_of-set_new k now nonce (prune max_age now cache) absent,
            times_of-prune max_age now nonce cache,
          )
          refl
    | inr (t, found) ↦ rw (refuses_present t found, times_of-prune max_age now nonce cache) refl
  ]

-- The calls for these nonces at these times.
abbrev pub verify_nonces : ℕ → List (ℕ × String) → Dict ℕ → Dict ℕ
verify_nonces max_age [] cache = cache
verify_nonces max_age ((now, k) ∷ calls) cache =
    verify_nonces max_age calls (verify_nonce max_age now k cache).0

-- A nonce that stands in the cache is accepted exactly if its only time is old.
accepted_lem :
    (max_age now t : ℕ) (nonce : String) (cache : Dict ℕ)
    → times_of nonce cache ≡ t ∷ []
    → (verify_nonce max_age now nonce cache).1 ≡ ltb (t + max_age) now
unfolding verify_nonce
accepted_lem max_age now t nonce cache only = ground (arith, get-prune max_age now nonce cache)

-- After it was accepted, a nonce stands in the cache once.
times_of-accepted :
    (max_age now : ℕ) (nonce : String) (cache : Dict ℕ)
    → (verify_nonce max_age now nonce cache).1 ≡ true
    → times_of nonce (verify_nonce max_age now nonce cache).0 ≡ now ∷ []
unfolding verify_nonce
times_of-accepted max_age now nonce cache accepted = ground (
  arith,
  get-prune max_age now nonce cache,
  times_of-verify_nonce max_age now nonce cache nonce,
  str_eq_refl nonce,
)

-- A call while it is fresh leaves it as it is.
times_of-verify_fresh :
    (max_age now t : ℕ) (k nonce : String) (cache : Dict ℕ)
    → now ≤ t + max_age
    → times_of nonce cache ≡ t ∷ []
    → times_of nonce (verify_nonce max_age now k cache).0 ≡ t ∷ []
unfolding verify_nonce
times_of-verify_fresh max_age now t k nonce cache early only = ground (
  arith,
  get-prune max_age now k cache,
  times_of-verify_nonce max_age now k cache nonce,
  str_eq_iff k nonce,
)

times_of-verify_nonces :
    (max_age t : ℕ) (nonce : String) (calls : List (ℕ × String)) (cache : Dict ℕ)
    → All (λ call. call.0 ≤ t + max_age) calls
    → times_of nonce cache ≡ t ∷ []
    → times_of nonce (verify_nonces max_age calls cache) ≡ t ∷ []
times_of-verify_nonces max_age t nonce [] cache early only = only
times_of-verify_nonces max_age t nonce ((now, k) ∷ calls) cache (early, rest) only =
    times_of-verify_nonces max_age t nonce calls (verify_nonce max_age now k cache).0 rest
      (times_of-verify_fresh max_age now t k nonce cache early only)

-- A nonce was accepted at the time `t`, and calls for any nonces at times up to `t + max_age` came
-- after it: then it is accepted again exactly if more than `max_age` has passed since `t`.
pub replay_exact :
    (max_age t now : ℕ) (nonce : String) (calls : List (ℕ × String)) (cache : Dict ℕ)
    → (verify_nonce max_age t nonce cache).1 ≡ true
    → All (λ call. call.0 ≤ t + max_age) calls
    → (verify_nonce max_age now nonce
        (verify_nonces max_age calls (verify_nonce max_age t nonce cache).0)).1
      ≡ ltb (t + max_age) now
replay_exact max_age t now nonce calls cache accepted early = accepted_lem max_age now t nonce _ (
    times_of-verify_nonces max_age t nonce calls _ early
      (times_of-accepted max_age t nonce cache accepted))
