-- ===== src/Security/Nonces.antt =====
-- security/signing.ts: the cache of nonces against replays. The time is an argument.
pub mod Replay
mod Tests
use micro_agent_protocol.Base.{
  ℕ, ◌-◌, String, none, some, Bool, true, false, List, [], ◌∷◌, ltb, if◌then◌else◌,
}
use micro_agent_protocol.Base.Dict.{Dict, get, set}

-- `now - timestamp > maxAge`: a time that is ahead of the clock is not old.
abbrev pub is_old : (max_age now timestamp : ℕ) → Bool
is_old max_age now timestamp = ltb max_age (now - timestamp)

-- The loop that prunes old entries.
unfoldable pub prune : (max_age now : ℕ) → Dict ℕ → Dict ℕ
prune max_age now [] = []
prune max_age now ((nonce, timestamp) ∷ cache) =
    let rest = prune max_age now cache in
    if is_old max_age now timestamp then rest else (nonce, timestamp) ∷ rest

-- The cache afterwards, and whether the nonce is accepted.
unfoldable pub verify_nonce : (max_age now : ℕ) → String → Dict ℕ → Dict ℕ × Bool
unfolding prune
verify_nonce max_age now nonce cache =
    let kept = prune max_age now cache in
    elim (get nonce kept) [ some timestamp ↦ (kept, false) | none ↦ (set nonce now kept, true) ]
