-- ===== src/ControlPlane/AsyncQueue/State.antt =====
-- The state of the queue of control-plane/async-queue.ts, and its operations that start no job.
use micro_agent_protocol.Base.{
  ℕ, suc, ◌+◌, ◌-◌, max, String, Option, none, some, Bool, true, false, not, ◌&&◌, ◌==◌, List, [],
  ◌∷◌, ◌++◌, any, filter, map, length, drop, ltb, leb, if◌then◌else◌, or_else, str_eq,
  resolve_tenant_id,
}
use micro_agent_protocol.Base.Dict.{Dict, get, set}
use Prim.Native.String.{◌++◌ as ◌⧺◌}

pub record Job : Type 0 where
  pub task_id : String
  pub tenant_id : Option String
  pub attempt : ℕ
  pub idempotency_token : Option String

pub record DeadLetterRecord : Type 0 where
  pub task_id : String
  pub tenant_id : Option String
  pub attempts : ℕ
  pub error : String
  pub timestamp : ℕ

-- The reason texts that the code makes, and any other.
pub data Reason : Type 0 where
  stated queue_full_during_retry : String → Reason
  exceeded_max_attempts : ℕ → ℕ → String → Reason

pub record QuarantinedJob : Type 0 where
  pub task_id : String
  pub tenant_id : Option String
  pub reason : Reason
  pub quarantined_at : ℕ

pub data EventType : Type 0 where
  task_completed task_dead_lettered : EventType

pub record OutboxMessage : Type 0 where
  pub id : String
  pub task_id : String
  pub event_type : EventType
  pub created_at : ℕ
  pub delivered : Bool
  pub delivery_attempts : ℕ

-- The limits, once the constructor has raised them to 1.
pub record Limits : Type 0 where
  pub max_attempts : ℕ
  pub max_concurrent : ℕ
  pub max_concurrent_per_tenant : Option ℕ
  pub max_queue_depth : ℕ
  pub max_dead_letters : ℕ

-- `active` are the jobs whose `run` has not ended, `timers` the retries that wait, with the error of
-- the attempt, and `microtasks` counts the calls of `maybeRunJobs` that are due.
pub record Queue : Type 0 where
  pub queue : List Job
  pub dead_letters : List DeadLetterRecord
  pub leased_jobs : Dict ℕ
  pub quarantined_jobs : List QuarantinedJob
  pub outbox : List OutboxMessage
  pub completed_effects : List String
  pub processing : Bool
  pub inflight : ℕ
  pub inflight_by_tenant : Dict ℕ
  pub pending_retry : ℕ
  pub tenant_quota : Dict ℕ
  pub running : Bool
  pub active : List Job
  pub timers : List (Job × String)
  pub microtasks : ℕ

abbrev pub at_least_one : Option ℕ → ℕ → ℕ
at_least_one given default = max 1 (or_else given default)

abbrev pub limits_of : Option ℕ → Option ℕ → Option ℕ → Option ℕ → Option ℕ → Limits
limits_of attempts concurrent per_tenant depth letters = record {
  max_attempts = at_least_one attempts 3;
  max_concurrent = at_least_one concurrent 4;
  max_concurrent_per_tenant = elim per_tenant [ none ↦ none | some n ↦ some (max 1 n) ];
  max_queue_depth = at_least_one depth 1000;
  max_dead_letters = at_least_one letters 500;
}

abbrev pub lease_timeout_ms : ℕ
lease_timeout_ms = 30000

abbrev pub default_tenant_quota : ℕ
default_tenant_quota = 10

-- What `trimDeadLetters` leaves of the letters.
unfoldable pub trim_dead_letters : ℕ → List DeadLetterRecord → List DeadLetterRecord
trim_dead_letters limit letters = drop (length letters - limit) letters

-- A new queue, with the dead letters that were stored.
unfoldable pub new_queue : Limits → List DeadLetterRecord → Queue
unfolding trim_dead_letters
new_queue limits stored = record {
  queue = [];
  dead_letters = trim_dead_letters limits.max_dead_letters stored;
  leased_jobs = [];
  quarantined_jobs = [];
  outbox = [];
  completed_effects = [];
  processing = false;
  inflight = 0;
  inflight_by_tenant = [];
  pending_retry = 0;
  tenant_quota = [];
  running = true;
  active = [];
  timers = [];
  microtasks = 0;
}

-- `job.idempotencyToken ?? `effect:${job.taskId}``.
abbrev pub effect_of : Job → String
effect_of job = or_else job.idempotency_token ("effect:" ⧺ job.task_id)

abbrev pub tenant_key : Job → String
tenant_key job = resolve_tenant_id job.tenant_id

unfoldable pub kickoff : Queue → Queue
kickoff q =
    if q.processing then q else record q { processing = true; microtasks = suc q.microtasks }

unfoldable pub enqueue : Limits → Queue → Job → Queue × Bool
unfolding kickoff
enqueue limits q job =
    if leb limits.max_queue_depth (length q.queue)
    then (q, false)
    else (kickoff (record q { queue = q.queue ++ job ∷ [] }), true)

unfoldable pub has_capacity : Limits → Queue → Bool
has_capacity limits q =
    ltb (q.inflight + length q.queue + q.pending_retry)
      (limits.max_concurrent + limits.max_queue_depth)

abbrev pub quarantine_job : Queue → String → Reason → Option String → ℕ → Queue
quarantine_job q task_id reason tenant_id now = record q {
  quarantined_jobs =
      q.quarantined_jobs
      ++ record { task_id = task_id; tenant_id = tenant_id; reason = reason; quarantined_at = now }
        ∷ [];
}

abbrev pub set_tenant_quota : Queue → String → ℕ → Queue
set_tenant_quota q tenant_id quota = record q {
  tenant_quota = set (resolve_tenant_id (some tenant_id)) (max 1 quota) q.tenant_quota;
}

abbrev pub stop : Queue → Queue
stop q = record q { running = false }

-- `this.tenantQuota.get(key) ?? this.maxConcurrentPerTenant ?? DEFAULT_TENANT_QUOTA`.
abbrev pub tenant_max : Limits → Queue → String → ℕ
tenant_max limits q key =
    or_else (get key q.tenant_quota) (or_else limits.max_concurrent_per_tenant default_tenant_quota)

abbrev pub tenant_inflight : Queue → String → ℕ
tenant_inflight q key = or_else (get key q.inflight_by_tenant) 0

-- `has` of the set of effects.
abbrev pub has_effect : String → List String → Bool
has_effect effect effects = any (str_eq effect) effects

unfoldable pub mark_effect_complete : Queue → String → Queue × Bool
mark_effect_complete q effect =
    if has_effect effect q.completed_effects
    then (q, false)
    else (record q { completed_effects = q.completed_effects ++ effect ∷ [] }, true)

-- `processOutbox`: a message that is not delivered is, and its callback, if it has one, returns.
abbrev deliver : OutboxMessage → OutboxMessage
deliver m =
    if m.delivered
    then m
    else record m { delivered = true; delivery_attempts = suc m.delivery_attempts }

abbrev pub process_outbox : Queue → Queue
process_outbox q = record q { outbox = map deliver q.outbox }

-- `markDelivered`: the first message with the id.
mark_first : String → List OutboxMessage → List OutboxMessage
mark_first id [] = []
mark_first id (m ∷ ms) =
    if str_eq m.id id then record m { delivered = true } ∷ ms else m ∷ mark_first id ms

unfoldable pub mark_delivered : Queue → String → Queue
unfolding mark_first
mark_delivered q id = record q { outbox = mark_first id q.outbox }

-- What is left of the leases, and how many have expired.
abbrev pub is_expired : ℕ → String × ℕ → Bool
is_expired now (task_id, leased_at) = ltb lease_timeout_ms (now - leased_at)

abbrev pub is_empty {ℓ} : {A : Type ℓ} → List A → Bool
is_empty [] = true
is_empty (x ∷ xs) = false

-- `if (test) this.processing = false`.
abbrev pub idle_if : Bool → Queue → Queue
idle_if test q = if test then record q { processing = false } else q

abbrev pub is_done : Queue → Bool
is_done q = is_empty q.queue && q.inflight == 0

unfoldable pub drop_expired : ℕ → Queue → Queue
drop_expired now q = record q {
  leased_jobs = filter (λ lease. not (is_expired now lease)) q.leased_jobs;
  inflight = q.inflight - length (filter (is_expired now) q.leased_jobs);
}

unfoldable pub reap_expired_leases : ℕ → Queue → Queue
unfolding drop_expired
reap_expired_leases now q =
    let q' = drop_expired now q in
    idle_if (not (is_empty (filter (is_expired now) q.leased_jobs)) && is_done q') q'
