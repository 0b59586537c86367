-- ===== src/ControlPlane/AsyncQueue/Steps.antt =====
-- The steps of the queue of control-plane/async-queue.ts, in any order and at any times. A retry's
-- delay is left out: its timer may fire at any later step.
use micro_agent_protocol.Base.{
  ℕ, zero, suc, ◌+◌, ◌-◌, String, Option, none, some, true, false, not, List, [], ◌∷◌, ◌++◌, filter,
  length, ltb, leb, if◌then◌else◌, str_eq,
}
use micro_agent_protocol.ControlPlane.AsyncQueue.State.{
  Job, Limits, Queue, DeadLetterRecord, OutboxMessage, task_completed, task_dead_lettered, stated,
  queue_full_during_retry, exceeded_max_attempts, effect_of, trim_dead_letters, kickoff, enqueue,
  quarantine_job, set_tenant_quota, stop, mark_effect_complete, process_outbox, mark_delivered,
}
use micro_agent_protocol.ControlPlane.AsyncQueue.Loop.{maybe_run_jobs, finish_job}

-- The element at an index, and the list without it.
unfoldable pub take_at {ℓ} : {A : Type ℓ} → ℕ → List A → Option (A × List A)
take_at n [] = none
take_at zero (x ∷ xs) = some (x, xs)
take_at (suc n) (x ∷ xs) = elim (take_at n xs) [ none ↦ none | some (y, rest) ↦ some (y, x ∷ rest) ]

abbrev letter : Job → ℕ → String → ℕ → DeadLetterRecord
letter job attempts error now = record {
  task_id = job.task_id;
  tenant_id = job.tenant_id;
  attempts = attempts;
  error = error;
  timestamp = now;
}

unfoldable pub push_dead_letter : Limits → Queue → DeadLetterRecord → Queue
unfolding trim_dead_letters
push_dead_letter limits q dead = record q {
  dead_letters = trim_dead_letters limits.max_dead_letters (q.dead_letters ++ dead ∷ []);
}

abbrev push_outbox : Queue → OutboxMessage → Queue
push_outbox q m = record q { outbox = q.outbox ++ m ∷ [] }

-- `run` ended well: the message, then the `finally` block.
unfoldable pub job_succeeds : Limits → ℕ → String → Queue → Job → Queue
job_succeeds limits now id q job =
    finish_job limits now
      (push_outbox q (record {
        id = id;
        task_id = job.task_id;
        event_type = task_completed;
        created_at = now;
        delivered = false;
        delivery_attempts = 0;
      }))
      job

abbrev pub forget_effect : Queue → Job → Queue
forget_effect q job = record q {
  completed_effects = filter (λ e. not (str_eq e (effect_of job))) q.completed_effects;
}

-- `run` failed, with attempts left: the job waits for its timer.
unfoldable pub job_retries : Limits → ℕ → String → Queue → Job → Queue
job_retries limits now message q job =
    let q' = finish_job limits now (forget_effect q job) job in
    record q' { pending_retry = suc q'.pending_retry; timers = q'.timers ++ (job, message) ∷ [] }

-- `run` failed for the last time.
unfoldable pub job_dies : Limits → ℕ → String → String → Queue → Job → Queue
unfolding push_dead_letter
job_dies limits now id message q job =
    let q' = push_dead_letter limits q (letter job job.attempt message now) in
    let q'' =
      quarantine_job q' job.task_id (exceeded_max_attempts job.attempt limits.max_attempts message)
        job.tenant_id now in
    finish_job limits now
      (push_outbox q'' (record {
        id = id;
        task_id = job.task_id;
        event_type = task_dead_lettered;
        created_at = now;
        delivered = true;
        delivery_attempts = 1;
      }))
      job

unfoldable pub job_fails : Limits → ℕ → String → String → Queue → Job → Queue
unfolding job_retries job_dies
job_fails limits now id message q job =
    if ltb job.attempt limits.max_attempts
    then job_retries limits now message q job
    else job_dies limits now id message q job

-- The retry's timer, on a queue that is not stopped.
unfoldable pub requeue : Limits → ℕ → String → Queue → Job → Queue
unfolding push_dead_letter
requeue limits now message q job =
    if leb limits.max_queue_depth (length q.queue)
    then quarantine_job
        (push_dead_letter limits q
          (letter job (job.attempt + 1) "Queue capacity reached while retrying job." now))
        job.task_id (queue_full_during_retry message) job.tenant_id now
    else kickoff (record q { queue = q.queue ++ record job { attempt = job.attempt + 1 } ∷ [] })

unfoldable pub timer_fires : Limits → ℕ → String → Queue → Job → Queue
unfolding requeue
timer_fires limits now message q job =
    if q.running
    then requeue limits now message (record q { pending_retry = q.pending_retry - 1 }) job
    else q

-- `succeeds`, `fails` and `fires` name a job that is active, or a timer, by its place; the texts are
-- the id of a message and the error.
pub data Step : Type 0 where
  enqueues : String → Option String → Option String → Step
  microtask : Step
  succeeds : ℕ → String → Step
  fails : ℕ → String → String → Step
  fires : ℕ → Step
  quarantines : String → String → Option String → Step
  sets_quota : String → ℕ → Step
  marks_effect marks_delivered : String → Step
  processes_outbox stops : Step

unfoldable pub step : Limits → ℕ → Queue → Step → Queue
unfolding job_succeeds job_fails timer_fires
step limits now q (enqueues task_id tenant_id token) =
    (enqueue limits q (record {
      task_id = task_id;
      tenant_id = tenant_id;
      attempt = 1;
      idempotency_token = token;
    })).0
step limits now q microtask = elim q.microtasks [
  | zero ↦ q
  | suc n ↦ maybe_run_jobs limits now (record q { microtasks = n })
]
step limits now q (succeeds n id) = elim (take_at n q.active) [
  | none ↦ q
  | some (job, rest) ↦ job_succeeds limits now id (record q { active = rest }) job
]
step limits now q (fails n id message) = elim (take_at n q.active) [
  | none ↦ q
  | some (job, rest) ↦ job_fails limits now id message (record q { active = rest }) job
]
step limits now q (fires n) = elim (take_at n q.timers) [
  | none ↦ q
  | some ((job, message), rest) ↦ timer_fires limits now message (record q { timers = rest }) job
]
step limits now q (quarantines task_id reason tenant_id) =
    quarantine_job q task_id (stated reason) tenant_id now
step limits now q (sets_quota tenant_id quota) = set_tenant_quota q tenant_id quota
step limits now q (marks_effect effect) = (mark_effect_complete q effect).0
step limits now q (marks_delivered id) = mark_delivered q id
step limits now q processes_outbox = process_outbox q
step limits now q stops = stop q

-- Steps, each with its time.
unfoldable pub run : Limits → Queue → List (ℕ × Step) → Queue
run limits q [] = q
run limits q ((now, s) ∷ steps) = run limits (step limits now q s) steps
