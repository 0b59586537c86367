-- ===== src/Server/RateLimit/Refusal.antt =====
-- What a refusal of server/middleware/rate-limit.ts means, and when it ends.
use micro_agent_protocol.Base.{
  ℕ, ◌+◌, ◌-◌, ◌≤◌, ◌<◌, max, some, true, false, List, [], ◌∷◌, ◌≡◌, refl, length, leb,
  if◌then◌else◌, arith, All,
}
use micro_agent_protocol.Server.RateLimit.{expire, consume_rate_limit_slot}
use micro_agent_protocol.Server.RateLimit.Window.{count_in, IsAscending}

All-in_window :
    (w now m : ℕ) (es : List ℕ)
    → IsAscending m es
    → All (λ e. e ≤ now) es
    → now ≤ m + w
    → count_in w now es ≡ length es
All-in_window w now m [] asc past h = refl
All-in_window w now m (e ∷ es) asc past h = ground (arith, All-in_window w now e es asc.1 past.1)

-- Of times in order and not after now, those that are kept are those in the window.
expire-count :
    (w now m : ℕ) (es : List ℕ)
    → IsAscending m es
    → All (λ e. e ≤ now) es
    → length (expire w now es) ≡ count_in w now es
unfolding expire
expire-count w now m [] asc past = refl
expire-count w now m (e ∷ es) asc past =
    ground (arith, expire-count w now e es asc.1 past.1, All-in_window w now e es asc.1 past.1)

-- With the times of the slots in order and none after now, a call is refused exactly if `limit` or
-- more of them lie in the window that ends now.
pub refused_exact :
    (w now limit m : ℕ) (events : List ℕ)
    → IsAscending m events
    → All (λ e. e ≤ now) events
    → (consume_rate_limit_slot w now (some limit) events).1.allowed
      ≡ (if leb limit (count_in w now events) then false else true)
unfolding consume_rate_limit_slot
refused_exact w now limit m events asc past = ground (arith, expire-count w now m events asc past)

length-expire-le : (w now : ℕ) (es : List ℕ) → length (expire w now es) ≤ length es
unfolding expire
length-expire-le w now [] = omega arith
length-expire-le w now (e ∷ es) = ground (arith, length-expire-le w now es)

slot_full :
    (w now limit e : ℕ) (events es : List ℕ)
    → expire w now events ≡ e ∷ es
    → length (e ∷ es) ≡ limit
    → consume_rate_limit_slot w now (some limit) events
      ≡ (e ∷ es, record { allowed = false; retry_after_ms = max 1 (w + e - now) })
unfolding consume_rate_limit_slot
slot_full w now limit e events es kept full = rw (kept, ← full) (ground arith)

still_full :
    (w now limit e : ℕ) (es : List ℕ)
    → now ≤ e + w
    → length (e ∷ es) ≡ limit
    → (consume_rate_limit_slot w now (some limit) (e ∷ es)).1.allowed ≡ false
unfolding consume_rate_limit_slot expire
still_full w now limit e es h full = ground arith

then_free :
    (w now limit e : ℕ) (es : List ℕ)
    → e + w < now
    → length (e ∷ es) ≡ limit
    → (consume_rate_limit_slot w now (some limit) (e ∷ es)).1.allowed ≡ true
unfolding consume_rate_limit_slot expire
then_free w now limit e es h full = ground (arith, length-expire-le w now es)

-- A refused call whose oldest slot `e` is still inside its window is told to wait for `retry`. With
-- no other calls, it is refused again after just that time, and let through a millisecond later.
pub retry_after_exact :
    (w now limit e : ℕ) (events es : List ℕ)
    → expire w now events ≡ e ∷ es
    → now < e + w
    → length (e ∷ es) ≡ limit
    → let slot = consume_rate_limit_slot w now (some limit) events in
      let retry = slot.1.retry_after_ms in
      (slot.1.allowed ≡ false)
      × ((consume_rate_limit_slot w (now + retry) (some limit) slot.0).1.allowed ≡ false)
      × ((consume_rate_limit_slot w (now + retry + 1) (some limit) slot.0).1.allowed ≡ true)
retry_after_exact w now limit e events es kept inside full =
    rw (slot_full w now limit e events es kept full) (
      refl,
      still_full w (now + max 1 (w + e - now)) limit e es (omega arith) full,
      then_free w (now + max 1 (w + e - now) + 1) limit e es (omega arith) full,
    )
