-- ===== src/ControlPlane/AsyncQueue/Tests.antt =====
-- The queue of asynchronous jobs on concrete steps.
use micro_agent_protocol.Base.{
  ◌≡◌, refl, ◌⊎◌, ℕ, suc, ◌+◌, ◌≤◌, none, some, false, List, [], ◌∷◌, All, length, map,
  resolve_tenant_id,
}
use micro_agent_protocol.Base.Dict.{get, set, remove}
use micro_agent_protocol.ControlPlane.AsyncQueue.State.{
  Job, Limits, Queue, DeadLetterRecord, limits_of, new_queue, kickoff, enqueue, drop_expired,
  reap_expired_leases, trim_dead_letters,
}
use micro_agent_protocol.ControlPlane.AsyncQueue.Loop.{
  has_room, take_runnable, next_job, begin, release, activate, finish_with, start_with, run_loop,
  maybe_run_jobs, finish_job,
}
use micro_agent_protocol.ControlPlane.AsyncQueue.Steps.{
  Step, enqueues, microtask, fails, fires, step, run, take_at, push_dead_letter, job_fails,
  job_retries, job_dies, requeue, timer_fires,
}
use micro_agent_protocol.ControlPlane.AsyncQueue.Bounds.{Within, run-new-Within}
use micro_agent_protocol.ControlPlane.AsyncQueue.Fuel.{maybe_run_complete}
use micro_agent_protocol.ControlPlane.AsyncQueue.Effects.{Exclusive, run-new-Exclusive}

-- Two attempts, two jobs at a time, five in the queue.
abbrev limits : Limits
limits = limits_of (some 2) (some 2) none (some 5) none

-- The second job has the effect of the first.
abbrev four_jobs : List (ℕ × Step)
four_jobs =
    (0, enqueues "a" none (some "token"))
    ∷ (0, enqueues "b" none (some "token"))
    ∷ (0, enqueues "c" none none)
    ∷ (0, enqueues "d" none none)
    ∷ (1, microtask)
    ∷ []

-- The job that is skipped is counted off twice, so three jobs run where two may.
three_run :
    map Job.task_id (run limits (new_queue limits []) four_jobs).active ≡ "a" ∷ "c" ∷ "d" ∷ []
unfolding run step enqueue kickoff new_queue trim_dead_letters maybe_run_jobs reap_expired_leases
    drop_expired run_loop next_job take_runnable begin release activate start_with finish_with get
    set remove resolve_tenant_id
three_run = refl

-- A job that fails twice is a dead letter.
abbrev two_failures : List (ℕ × Step)
two_failures =
    (0, enqueues "a" none none)
    ∷ (1, microtask)
    ∷ (2, fails 0 "m1" "no")
    ∷ (3, fires 0)
    ∷ (3, microtask)
    ∷ (4, fails 0 "m2" "no")
    ∷ []

dead_after_two :
    map DeadLetterRecord.attempts (run limits (new_queue limits []) two_failures).dead_letters
    ≡ 2 ∷ []
unfolding run step enqueue kickoff new_queue trim_dead_letters maybe_run_jobs reap_expired_leases
    drop_expired run_loop next_job take_runnable begin release activate start_with finish_with get
    set remove resolve_tenant_id finish_job take_at job_fails job_retries job_dies timer_fires
    requeue push_dead_letter
dead_after_two = refl

run-new-Within_example : Within limits (run limits (new_queue limits []) two_failures)
run-new-Within_example = run-new-Within limits [] two_failures

run-new-Exclusive_example : Exclusive (run limits (new_queue limits []) four_jobs)
run-new-Exclusive_example = run-new-Exclusive limits [] four_jobs

abbrev one_waits : Queue
one_waits = run limits (new_queue limits []) ((0, enqueues "a" none none) ∷ [])

maybe_run_complete_example :
    ((more : ℕ)
      → run_loop limits 1 (suc (length one_waits.queue) + more) (reap_expired_leases 1 one_waits)
        ≡ maybe_run_jobs limits 1 one_waits)
    × ((limits.max_concurrent ≤ (maybe_run_jobs limits 1 one_waits).inflight)
        ⊎ All
            (λ job. has_room limits (maybe_run_jobs limits 1 one_waits) job ≡ false)
            (maybe_run_jobs limits 1 one_waits).queue)
maybe_run_complete_example = maybe_run_complete limits 1 one_waits
