-- ===== src/Server/RateLimiter.antt =====
-- server/services/rate-limiter.ts: the class that checks mutations, with its own sliding window. The
-- clock is an argument, and writing the state to disk is left out.
use micro_agent_protocol.Base.{
  ◌≡◌, ◌≢◌, refl, ℕ, ◌+◌, ◌-◌, max, String, Option, none, some, true, false, List, [], ◌∷◌, ◌++◌,
  length, leb, if◌then◌else◌, or_else, truthy, arith, zero, suc, lt→ltb,
}
use micro_agent_protocol.Base.Dict.{get, set}
use micro_agent_protocol.Server.RateLimit.{
  SlotResult, expire, oldest, consume_rate_limit_slot, global, tenant, RateLimitResult, Limits,
  Windows, pass, refuse, check_tenant, check_tenant_if, rate_limit_middleware,
}

-- The private `consumeRateLimitSlot`.
unfoldable pub consume_slot : Limits → ℕ → Option ℕ → List ℕ → List ℕ × SlotResult
unfolding expire
consume_slot limits now none events = (events, record { allowed = true; retry_after_ms = 0 })
consume_slot limits now (some limit) events =
    let kept = expire limits.window_ms now events in
    if leb limit (length kept)
    then (
      kept,
      record { allowed = false; retry_after_ms = max 1 (limits.window_ms + oldest now kept - now) },
    )
    else (kept ++ now ∷ [], record { allowed = true; retry_after_ms = 0 })

-- The tenant's part: any tenant that is named, and any limit that is given, 0 included.
consume_tenant_slot : Limits → ℕ → Option String → Option ℕ → Windows → Windows × RateLimitResult
unfolding consume_slot
consume_tenant_slot limits now (some tenant_id) (some limit) w =
    if truthy tenant_id
    then (let events = or_else (get tenant_id w.tenant_events) [] in
        let (events', r) = consume_slot limits now (some limit) events in
        (
          record w { tenant_events = set tenant_id events' w.tenant_events },
          if r.allowed then pass else refuse tenant r,
        ))
    else (w, pass)
consume_tenant_slot limits now _ _ w = (w, pass)

unfoldable pub check_mutation_rate_limit :
    Limits → ℕ → Option String → Windows → Windows × RateLimitResult
unfolding consume_slot consume_tenant_slot
check_mutation_rate_limit limits now tenant_id w =
    let (events, r) = consume_slot limits now limits.max_requests w.global_events in
    let w' = record w { global_events = events } in
    if r.allowed
    then consume_tenant_slot limits now tenant_id limits.max_requests_per_tenant w'
    else (w', refuse global r)

slots_agree :
    (limits : Limits) (now : ℕ) (limit : Option ℕ) (events : List ℕ)
    → consume_slot limits now limit events
      ≡ consume_rate_limit_slot limits.window_ms now limit events
unfolding consume_slot consume_rate_limit_slot
slots_agree limits now none events = refl
slots_agree limits now (some limit) events = refl

tenants_agree :
    (limits : Limits) (now : ℕ) (tenant_id : Option String) (limit : Option ℕ) (w : Windows)
    → limit ≢ some 0
    → consume_tenant_slot limits now tenant_id limit w
      ≡ check_tenant_if limits now tenant_id limit w
unfolding consume_tenant_slot check_tenant_if check_tenant consume_slot consume_rate_limit_slot
tenants_agree limits now none limit w n = refl
tenants_agree limits now (some t) none w n = refl
tenants_agree limits now (some t) (some zero) w n = absurd (n refl)
tenants_agree limits now (some t) (some (suc limit)) w n =
    rw (lt→ltb 0 (suc limit) (omega arith)) refl

-- A limit of 0 refuses, whatever the times are.
zero_refused :
    (limits : Limits) (now : ℕ) (t : String) (w : Windows)
    → truthy t ≡ true
    → (consume_tenant_slot limits now (some t) (some 0) w).1.allowed ≡ false
unfolding consume_tenant_slot consume_slot
zero_refused limits now t w named = ground arith

zero_passed :
    (limits : Limits) (now : ℕ) (t : String) (w : Windows)
    → truthy t ≡ true
    → (check_tenant_if limits now (some t) (some 0) w).1.allowed ≡ true
unfolding check_tenant_if
zero_passed limits now t w named = ground arith

-- The class and the middleware answer alike and keep the same times, unless the tenants' limit is 0.
-- With that limit the class refuses a named tenant whatever is in its window, if there is no global
-- limit, and the middleware lets it through.
pub limiters_agree :
    (limits : Limits) (now : ℕ) (tenant_id : Option String) (w : Windows)
    → (limits.max_requests_per_tenant ≢ some 0
        → check_mutation_rate_limit limits now tenant_id w
          ≡ rate_limit_middleware limits now tenant_id w)
      × ((t : String)
          → truthy t ≡ true
          → tenant_id ≡ some t
          → limits.max_requests ≡ none
          → limits.max_requests_per_tenant ≡ some 0
          → ((check_mutation_rate_limit limits now tenant_id w).1.allowed ≡ false)
            × ((rate_limit_middleware limits now tenant_id w).1.allowed ≡ true))
unfolding check_mutation_rate_limit rate_limit_middleware consume_slot consume_rate_limit_slot
limiters_agree limits now tenant_id w = (
  λ n.
      rw (slots_agree limits now limits.max_requests w.global_events)
        (rw (tenants_agree limits now tenant_id limits.max_requests_per_tenant _ n) refl),
  λ t named e unlimited none_left.
      rw (e, unlimited, none_left)
        (zero_refused limits now t _ named, zero_passed limits now t _ named),
)
