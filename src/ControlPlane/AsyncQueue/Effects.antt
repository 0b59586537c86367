-- ===== src/ControlPlane/AsyncQueue/Effects.antt =====
-- The exactly-once guard of control-plane/async-queue.ts: which jobs may run at one time.
use micro_agent_protocol.Base.{
  ◌≡◌, refl, inl, inr, ℕ, ◌+◌, ◌-◌, String, Bool, true, false, List, [], ◌∷◌, ◌++◌, All,
  if◌then◌else◌, arith, Option-cases, Bool-cases, ℕ-cases, ltb, leb, length,
}
use micro_agent_protocol.ControlPlane.AsyncQueue.State.{
  Job, Limits, Queue, DeadLetterRecord, new_queue, kickoff, enqueue, idle_if, drop_expired,
  mark_delivered, mark_effect_complete, has_effect, effect_of,
}
use micro_agent_protocol.ControlPlane.AsyncQueue.Loop.{begin, release, activate, finish_job}
use micro_agent_protocol.ControlPlane.AsyncQueue.Preserved.{
  Closed, maybe_run-Closed, finish-Closed, next-Taken,
}
use micro_agent_protocol.ControlPlane.AsyncQueue.Steps.{
  Step, enqueues, microtask, succeeds, fails, fires, quarantines, sets_quota, marks_effect,
  marks_delivered, processes_outbox, stops, step, run, take_at, push_dead_letter, job_succeeds,
  job_fails, job_retries, job_dies, requeue, timer_fires, forget_effect,
}
use micro_agent_protocol.ControlPlane.AsyncQueue.EffectSets.{
  Apart, Distinct, has_effect-last, Marked-more, Marked-append, Distinct-append, Picks,
  take_at-Picks, Distinct-Picks, Marked-Picks, Marked-forget,
}

pub record Exclusive (q : Queue) : Type 0 where
  pub marked : All (λ job. has_effect (effect_of job) q.completed_effects ≡ true) q.active
  pub distinct : Distinct q.active

activate-Exclusive :
    (q : Queue) (job : Job)
    → has_effect (effect_of job) q.completed_effects ≡ false
    → Exclusive q
    → Exclusive (activate q job)
unfolding activate
activate-Exclusive q job new x =
    let effects = q.completed_effects in
    record {
      marked =
          Marked-append _ q.active job (Marked-more (effect_of job) effects q.active x.marked)
            (has_effect-last (effect_of job) effects);
      distinct = Distinct-append effects q.active job x.marked new x.distinct;
    }

-- Only the effects and the active jobs matter.
same :
    (q q' : Queue)
    → q'.completed_effects ≡ q.completed_effects
    → q'.active ≡ q.active
    → Exclusive q
    → Exclusive q'
same q q' effects active x = record {
  marked = rw (effects, active) x.marked;
  distinct = rw active x.distinct;
}

idle-Exclusive : (b : Bool) (q : Queue) → Exclusive q → Exclusive (idle_if b q)
idle-Exclusive true q x = same q _ refl refl x
idle-Exclusive false q x = x

Exclusive-Closed : (limits : Limits) (now : ℕ) → Closed limits now Exclusive
unfolding drop_expired begin release
Exclusive-Closed limits now = record {
  reaped = λ q x. same q _ refl refl x;
  idled = idle-Exclusive;
  begun = λ q q' job found x.
      let t = next-Taken limits q q' job found in same q _ (rw t.rest refl) (rw t.rest refl) x;
  released = λ q job x. same q _ refl refl x;
  activated = activate-Exclusive;
}

-- A job leaves the active ones.
without :
    (q : Queue) (rest : List Job) (y : Job)
    → Picks y q.active rest
    → Exclusive q
    → Apart y rest × Exclusive (record q { active = rest })
without q rest y p x =
    let (apart, distinct) = Distinct-Picks p x.distinct in
    (apart, record { marked = Marked-Picks q.completed_effects p x.marked; distinct = distinct })

forget-Exclusive :
    (q : Queue) (job : Job) → Apart job q.active → Exclusive q → Exclusive (forget_effect q job)
forget-Exclusive q job a x = record {
  marked = Marked-forget job q.completed_effects q.active a x.marked;
  distinct = x.distinct;
}

module _ (limits : Limits) (now : ℕ) where
  ends : (q : Queue) (job : Job) → Exclusive q → Exclusive (finish_job limits now q job)
  ends q job x = finish-Closed (Exclusive-Closed limits now) q job x

  fails-Exclusive :
      (id message : String) (q : Queue) (job : Job)
      → Apart job q.active
      → Exclusive q
      → Exclusive (job_fails limits now id message q job)
  unfolding job_fails job_retries job_dies push_dead_letter
  fails-Exclusive id message q job a x = elim (Bool-cases (ltb job.attempt limits.max_attempts)) [
    | inl more ↦
        rw (more, job_fails)
          (same _ _ refl refl (ends (forget_effect q job) job (forget-Exclusive q job a x)))
    | inr last ↦ rw (last, job_fails) (ends _ job (same q _ refl refl x))
  ]

  kickoff-Exclusive : (q : Queue) → Exclusive q → Exclusive (kickoff q)
  unfolding kickoff
  kickoff-Exclusive q x = same q _ (ground arith) (ground arith) x

  enqueue-Exclusive : (q : Queue) (job : Job) → Exclusive q → Exclusive (enqueue limits q job).0
  unfolding enqueue
  enqueue-Exclusive q job x = elim (Bool-cases (leb limits.max_queue_depth (length q.queue))) [
    | inl full ↦ rw (full, enqueue) x
    | inr free ↦
        rw (free, enqueue)
          (kickoff-Exclusive (record q { queue = q.queue ++ job ∷ [] }) (same q _ refl refl x))
  ]

  requeue-Exclusive :
      (message : String) (q : Queue) (job : Job)
      → Exclusive q
      → Exclusive (requeue limits now message q job)
  unfolding requeue push_dead_letter
  requeue-Exclusive message q job x =
      elim (Bool-cases (leb limits.max_queue_depth (length q.queue))) [
        | inl full ↦ rw (full, requeue) (same q _ refl refl x)
        | inr free ↦
            rw (free, requeue)
              (kickoff-Exclusive
                (record q { queue = q.queue ++ record job { attempt = job.attempt + 1 } ∷ [] })
                (same q _ refl refl x))
      ]

  fires-Exclusive :
      (message : String) (q : Queue) (job : Job)
      → Exclusive q
      → Exclusive (timer_fires limits now message q job)
  unfolding timer_fires
  fires-Exclusive message q job x = go q.running (
      requeue-Exclusive message (record q { pending_retry = q.pending_retry - 1 }) job
        (same q _ refl refl x))
    where
      go :
          (on : Bool)
          → Exclusive
              (requeue limits now message (record q { pending_retry = q.pending_retry - 1 }) job)
          → Exclusive (
              if on
              then requeue limits now message (record q { pending_retry = q.pending_retry - 1 }) job
              else q)
      go true v = v
      go false v = x

  step-Exclusive : (q : Queue) (s : Step) → Exclusive q → Exclusive (step limits now q s)
  unfolding step job_succeeds mark_effect_complete mark_delivered
  step-Exclusive q (enqueues task_id tenant_id token) x = enqueue-Exclusive q _ x
  step-Exclusive q microtask x = elim (ℕ-cases q.microtasks) [
    | inl e ↦ rw (e, step) (same q _ refl refl x)
    | inr (n, e) ↦
        rw (e, step) (maybe_run-Closed (Exclusive-Closed limits now) _ (same q _ refl refl x))
  ]
  step-Exclusive q (succeeds n id) x = elim (Option-cases (take_at n q.active)) [
    | inl e ↦ rw (e, step) x
    | inr ((job, rest), e) ↦
        let (apart, left) = without q rest job (take_at-Picks n q.active rest job e) x in
        rw (e, step) (ends _ job (same _ _ refl refl left))
  ]
  step-Exclusive q (fails n id message) x = elim (Option-cases (take_at n q.active)) [
    | inl e ↦ rw (e, step) x
    | inr ((job, rest), e) ↦
        let (apart, left) = without q rest job (take_at-Picks n q.active rest job e) x in
        rw (e, step) (fails-Exclusive id message _ job apart left)
  ]
  step-Exclusive q (fires n) x = elim (Option-cases (take_at n q.timers)) [
    | inl e ↦ rw (e, step) x
    | inr (((job, message), rest), e) ↦
        rw (e, step)
          (fires-Exclusive message (record q { timers = rest }) job (same q _ refl refl x))
  ]
  step-Exclusive q (quarantines task_id reason tenant_id) x = same q _ refl refl x
  step-Exclusive q (sets_quota tenant_id quota) x = same q _ refl refl x
  step-Exclusive q (marks_effect effect) x =
      elim (Bool-cases (has_effect effect q.completed_effects)) [
        | inl done ↦ rw (done, step) x
        | inr new ↦
            rw (new, step)
              (record {
                marked = Marked-more effect q.completed_effects q.active x.marked;
                distinct = x.distinct;
              })
      ]
  step-Exclusive q (marks_delivered id) x = same q _ refl refl x
  step-Exclusive q processes_outbox x = same q _ refl refl x
  step-Exclusive q stops x = same q _ refl refl x

run-Exclusive :
    (limits : Limits) (q : Queue) (steps : List (ℕ × Step))
    → Exclusive q
    → Exclusive (run limits q steps)
unfolding run
run-Exclusive limits q [] x = x
run-Exclusive limits q ((now, s) ∷ steps) x =
    run-Exclusive limits (step limits now q s) steps (step-Exclusive limits now q s x)

-- Whatever happens to a new queue, in whatever order and at whatever times, no two jobs with one
-- effect run at the same time, and the effect of each job that runs is marked as complete.
pub run-new-Exclusive :
    (limits : Limits) (stored : List DeadLetterRecord) (steps : List (ℕ × Step))
    → Exclusive (run limits (new_queue limits stored) steps)
unfolding new_queue
run-new-Exclusive limits stored steps =
    run-Exclusive limits (new_queue limits stored) steps (record { marked = tt; distinct = tt })
