-- ===== src/Server/RateLimit.antt =====
-- server/middleware/rate-limit.ts: the sliding window, and the check of a mutation against the global
-- and the tenant's window. The clock is an argument, and writing the state to disk is left out.
pub mod Window
pub mod Refusal
mod Tests
use micro_agent_protocol.Base.{
  ℕ, ◌+◌, ◌-◌, max, String, Option, none, some, Bool, true, false, List, [], ◌∷◌, ◌++◌, length, ltb,
  leb, if◌then◌else◌, or_else, truthy,
}
use micro_agent_protocol.Base.Dict.{Dict, get, set}

pub record SlotResult : Type 0 where
  pub allowed : Bool
  pub retry_after_ms : ℕ

-- The loop that shifts what has left the window off the front.
unfoldable pub expire : ℕ → ℕ → List ℕ → List ℕ
expire window now [] = []
expire window now (e ∷ es) =
    let rest = expire window now es in if ltb window (now - e) then rest else e ∷ es

abbrev pub oldest : ℕ → List ℕ → ℕ
oldest now [] = now
oldest now (e ∷ es) = e

-- `consumeRateLimitSlot`, with a limit: the events afterwards, and the answer. After the loop
-- `windowMs - (now - oldest)` is at least 0, so the subtraction below is exact.
unfoldable pub consume_rate_limit_slot : ℕ → ℕ → Option ℕ → List ℕ → List ℕ × SlotResult
unfolding expire
consume_rate_limit_slot window now none events =
    (events, record { allowed = true; retry_after_ms = 0 })
consume_rate_limit_slot window now (some limit) events =
    let kept = expire window now events in
    if leb limit (length kept)
    then (kept, record { allowed = false; retry_after_ms = max 1 (window + oldest now kept - now) })
    else (kept ++ now ∷ [], record { allowed = true; retry_after_ms = 0 })

pub data Scope : Type 0 where
  global tenant : Scope

pub record RateLimitResult : Type 0 where
  pub allowed : Bool
  pub scope : Option Scope
  pub retry_after_ms : Option ℕ

pub record Limits : Type 0 where
  pub max_requests : Option ℕ
  pub max_requests_per_tenant : Option ℕ
  pub window_ms : ℕ

pub record Windows : Type 0 where
  pub global_events : List ℕ
  pub tenant_events : Dict (List ℕ)

abbrev pub pass : RateLimitResult
pass = record { allowed = true; scope = none; retry_after_ms = none }

abbrev pub refuse : Scope → SlotResult → RateLimitResult
refuse scope r = record {
  allowed = false;
  scope = some scope;
  retry_after_ms = some r.retry_after_ms;
}

-- The tenant's part, for a tenant that is named and a limit above 0.
unfoldable pub check_tenant : Limits → ℕ → String → ℕ → Windows → Windows × RateLimitResult
check_tenant limits now tenant_id limit w =
    let events = or_else (get tenant_id w.tenant_events) [] in
    let (events', r) = consume_rate_limit_slot limits.window_ms now (some limit) events in
    (
      record w { tenant_events = set tenant_id events' w.tenant_events },
      if r.allowed then pass else refuse tenant r,
    )

unfoldable pub check_tenant_if :
    Limits → ℕ → Option String → Option ℕ → Windows → Windows × RateLimitResult
unfolding check_tenant
check_tenant_if limits now (some tenant_id) (some limit) w =
    if truthy tenant_id
    then (if ltb 0 limit then check_tenant limits now tenant_id limit w else (w, pass))
    else (w, pass)
check_tenant_if limits now _ _ w = (w, pass)

unfoldable pub rate_limit_middleware :
    Limits → ℕ → Option String → Windows → Windows × RateLimitResult
unfolding check_tenant_if
rate_limit_middleware limits now tenant_id w =
    let (events, r) =
      consume_rate_limit_slot limits.window_ms now limits.max_requests w.global_events in
    let w' = record w { global_events = events } in
    if r.allowed
    then check_tenant_if limits now tenant_id limits.max_requests_per_tenant w'
    else (w', refuse global r)
