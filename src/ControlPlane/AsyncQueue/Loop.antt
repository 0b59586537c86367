-- ===== src/ControlPlane/AsyncQueue/Loop.antt =====
-- The loop of control-plane/async-queue.ts that starts jobs, and the end of a job, which runs it again.
use micro_agent_protocol.Base.{
  ℕ, zero, suc, ◌+◌, ◌-◌, Option, none, some, Bool, true, false, List, [], ◌∷◌, ◌++◌, length, ltb,
  leb, if◌then◌else◌, truthy,
}
use micro_agent_protocol.Base.Dict.{set, remove}
use micro_agent_protocol.ControlPlane.AsyncQueue.State.{
  Job, Limits, Queue, effect_of, tenant_key, tenant_max, tenant_inflight, has_effect, idle_if,
  is_done, reap_expired_leases,
}

-- `findRunnableJobIndex`: the tenant's quota has room for the job.
abbrev pub has_room : Limits → Queue → Job → Bool
has_room limits q job =
    ltb (tenant_inflight q (tenant_key job)) (tenant_max limits q (tenant_key job))

-- The first such job, and the queue without it.
unfoldable pub take_runnable : Limits → Queue → List Job → Option (Job × List Job)
take_runnable limits q [] = none
take_runnable limits q (job ∷ jobs) =
    if has_room limits q job then some (job, jobs) else elim (take_runnable limits q jobs) [
      | none ↦ none
      | some (found, rest) ↦ some (found, job ∷ rest)
    ]

-- The loop's test and the splice: the next job to start, and the state without it.
unfoldable pub next_job : Limits → Queue → Option (Job × Queue)
unfolding take_runnable
next_job limits q =
    if ltb q.inflight limits.max_concurrent
    then elim (take_runnable limits q q.queue) [
      | none ↦ none
      | some (job, rest) ↦ some (job, record q { queue = rest })
    ]
    else none

-- The counters and the lease of a job that starts.
unfoldable pub begin : ℕ → Queue → Job → Queue
begin now q job = record q {
  inflight = suc q.inflight;
  inflight_by_tenant =
      set (tenant_key job) (tenant_inflight q (tenant_key job) + 1) q.inflight_by_tenant;
  leased_jobs = set job.task_id now q.leased_jobs;
}

-- Those of a job that ends.
unfoldable pub release : Queue → Job → Queue
release q job =
    let current = tenant_inflight q (tenant_key job) in
    record q {
      inflight = q.inflight - 1;
      inflight_by_tenant =
          if leb current 1
          then remove (tenant_key job) q.inflight_by_tenant
          else set (tenant_key job) (current - 1) q.inflight_by_tenant;
      leased_jobs = if truthy job.task_id then remove job.task_id q.leased_jobs else q.leased_jobs;
    }

-- A job whose `run` is called: its effect is marked.
unfoldable pub activate : Queue → Job → Queue
activate q job = record q {
  completed_effects = q.completed_effects ++ effect_of job ∷ [];
  active = q.active ++ job ∷ [];
}

-- `finishJob`, where `loop` is the loop that it runs.
unfoldable pub finish_with : (Queue → Queue) → ℕ → Queue → Job → Queue
finish_with loop now q job = loop (reap_expired_leases now (release q job))

-- `startJob` up to the call of `run`. A job whose effect is complete is not run, and is finished
-- twice: before the return, and in the `finally` block.
unfoldable pub start_with : (Queue → Queue) → ℕ → Queue → Job → Queue
unfolding finish_with
start_with loop now q job = elim (has_effect (effect_of job) q.completed_effects) [
  | true ↦ finish_with loop now (finish_with loop now (begin now q job) job) job
  | false ↦ activate (begin now q job) job
]

-- The loop of `maybeRunJobs` and what follows it; each round takes a job from the queue.
unfoldable pub run_loop : Limits → ℕ → ℕ → Queue → Queue
unfolding start_with
run_loop limits now zero q = q
run_loop limits now (suc fuel) q = elim (next_job limits q) [
  | none ↦ idle_if (is_done q) q
  | some (job, q') ↦ run_loop limits now fuel (start_with (run_loop limits now fuel) now q' job)
]

unfoldable pub maybe_run_jobs : Limits → ℕ → Queue → Queue
maybe_run_jobs limits now q = run_loop limits now (suc (length q.queue)) (reap_expired_leases now q)

unfoldable pub finish_job : Limits → ℕ → Queue → Job → Queue
finish_job limits now q job = maybe_run_jobs limits now (release q job)
