-- ===== src/Server/RateLimit/Tests.antt =====
-- The sliding window on concrete times.
use micro_agent_protocol.Base.{ℕ, ◌≤◌, some, false, List, [], ◌∷◌, ◌≡◌, refl, arith}
use micro_agent_protocol.Base.Dict.{get, set}
use micro_agent_protocol.Server.RateLimit.{
  consume_rate_limit_slot, expire, rate_limit_middleware, Limits, Windows, tenant,
}
use micro_agent_protocol.Server.RateLimit.Window.{count_in, admissions, window_bound}
use micro_agent_protocol.Server.RateLimit.Refusal.{refused_exact}

abbrev times : List ℕ
times = 10 ∷ 20 ∷ 30 ∷ 120 ∷ 121 ∷ []

-- Two slots in 100 milliseconds: the third call is refused; the fourth finds 10 and 20 gone at 121.
admitted : admissions 100 2 [] times ≡ 10 ∷ 20 ∷ 120 ∷ 121 ∷ []
unfolding admissions consume_rate_limit_slot expire
admitted = refl

window_bound_example : count_in 100 120 (admissions 100 2 [] times) ≤ 2
window_bound_example = window_bound 100 2 times (omega arith) 120

refused_exact_example : (consume_rate_limit_slot 100 30 (some 2) (10 ∷ 20 ∷ [])).1.allowed ≡ false
refused_exact_example = refused_exact 100 30 2 0 (10 ∷ 20 ∷ []) (omega arith) (omega arith)

abbrev limits : Limits
limits = record { max_requests = some 5; max_requests_per_tenant = some 1; window_ms = 100 }

abbrev acme_busy : Windows
acme_busy = record { global_events = []; tenant_events = ("acme", 10 ∷ []) ∷ [] }

-- A tenant that is refused has used up a global slot.
tenant_refused :
    let (w, r) = rate_limit_middleware limits 20 (some "acme") acme_busy in
    (r.allowed ≡ false) × (r.scope ≡ some tenant) × (w.global_events ≡ 20 ∷ [])
unfolding rate_limit_middleware consume_rate_limit_slot get set
tenant_refused = (refl, refl, refl)
