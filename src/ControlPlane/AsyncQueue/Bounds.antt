-- ===== src/ControlPlane/AsyncQueue/Bounds.antt =====
-- The bounds that the queue of control-plane/async-queue.ts keeps, whatever happens.
use micro_agent_protocol.Base.{
  ◌≡◌, refl, inl, inr, ℕ, ◌-◌, ◌≤◌, String, some, Bool, true, false, if◌then◌else◌, List, [], ◌∷◌,
  ◌++◌, length, length-append, length-drop, arith, Option-cases, Bool-cases, ℕ-cases, leb, ltb,
}
use micro_agent_protocol.ControlPlane.AsyncQueue.State.{
  Job, Limits, Queue, DeadLetterRecord, trim_dead_letters, new_queue, kickoff, enqueue, idle_if,
  drop_expired, mark_delivered, mark_effect_complete, has_effect,
}
use micro_agent_protocol.ControlPlane.AsyncQueue.Loop.{next_job, begin, release, activate}
use micro_agent_protocol.ControlPlane.AsyncQueue.Preserved.{
  Closed, maybe_run-Closed, finish-Closed, next-Taken,
}
use micro_agent_protocol.ControlPlane.AsyncQueue.Steps.{
  Step, enqueues, microtask, succeeds, fails, fires, quarantines, sets_quota, marks_effect,
  marks_delivered, processes_outbox, stops, step, run, take_at, push_dead_letter, job_succeeds,
  job_fails, job_retries, job_dies, requeue, timer_fires,
}

pub record Within (limits : Limits) (q : Queue) : Type 0 where
  pub few_inflight : q.inflight ≤ limits.max_concurrent
  pub short : length q.queue ≤ limits.max_queue_depth
  pub few_letters : length q.dead_letters ≤ limits.max_dead_letters

module _ (limits : Limits) where
  within :
      (q q' : Queue)
      → Within limits q
      → q'.inflight ≤ q.inflight
      → q'.queue ≡ q.queue
      → q'.dead_letters ≡ q.dead_letters
      → Within limits q'
  within q q' w fewer same_queue same_letters = record {
    few_inflight = omega (arith, w.few_inflight);
    short = rw same_queue w.short;
    few_letters = rw same_letters w.few_letters;
  }

  begin-Within :
      (now : ℕ) (q q' : Queue) (job : Job)
      → next_job limits q ≡ some (job, q')
      → Within limits q
      → Within limits (begin now q' job)
  unfolding begin
  begin-Within now q q' job found w =
      let t = next-Taken limits q q' job found in
      record {
        few_inflight = ground (arith, t.free, t.rest);
        short = omega (arith, t.shorter, w.short);
        few_letters = rw t.rest w.few_letters;
      }

  idle-Within : (b : Bool) (q : Queue) → Within limits q → Within limits (idle_if b q)
  idle-Within true q w = record {
    few_inflight = w.few_inflight;
    short = w.short;
    few_letters = w.few_letters;
  }
  idle-Within false q w = w

  Within-Closed : (now : ℕ) → Closed limits now (Within limits)
  unfolding drop_expired release activate
  Within-Closed now = record {
    reaped = λ q w. within q (drop_expired now q) w (omega arith) refl refl;
    idled = idle-Within;
    begun = begin-Within now;
    released = λ q job w. within q (release q job) w (omega arith) refl refl;
    activated = λ q job new w. within q (activate q job) w (omega arith) refl refl;
  }

  -- Trimming leaves the letters within their limit.
  trim-length : (n : ℕ) (letters : List DeadLetterRecord) → length (trim_dead_letters n letters) ≤ n
  unfolding trim_dead_letters
  trim-length n letters = omega (arith, length-drop (length letters - n) letters)

  push-Within :
      (q : Queue) (dead : DeadLetterRecord)
      → Within limits q
      → Within limits (push_dead_letter limits q dead)
  unfolding push_dead_letter
  push-Within q dead w = record {
    few_inflight = w.few_inflight;
    short = w.short;
    few_letters = trim-length limits.max_dead_letters (q.dead_letters ++ dead ∷ []);
  }

  kickoff-Within : (q : Queue) → Within limits q → Within limits (kickoff q)
  unfolding kickoff
  kickoff-Within q w = record {
    few_inflight = ground (arith, w.few_inflight);
    short = ground (arith, w.short);
    few_letters = ground (arith, w.few_letters);
  }

  -- A queue that is not full has room for one job more.
  longer-Within :
      (q : Queue) (job : Job)
      → leb limits.max_queue_depth (length q.queue) ≡ false
      → Within limits q
      → Within limits (record q { queue = q.queue ++ job ∷ [] })
  longer-Within q job free w = record {
    few_inflight = w.few_inflight;
    short = ground (arith, length-append q.queue (job ∷ []));
    few_letters = w.few_letters;
  }

  enqueue-Within :
      (q : Queue) (job : Job) → Within limits q → Within limits (enqueue limits q job).0
  unfolding enqueue
  enqueue-Within q job w = elim (Bool-cases (leb limits.max_queue_depth (length q.queue))) [
    | inl full ↦ rw (full, enqueue) w
    | inr free ↦ rw (free, enqueue) (kickoff-Within _ (longer-Within q job free w))
  ]

  -- A change of the other fields.
  kept :
      (q q' : Queue)
      → q'.inflight ≡ q.inflight
      → q'.queue ≡ q.queue
      → q'.dead_letters ≡ q.dead_letters
      → Within limits q
      → Within limits q'
  kept q q' a b d w = within q q' w (omega (arith, a)) b d

  fails-Within :
      (now : ℕ) (id message : String) (q : Queue) (job : Job)
      → Within limits q
      → Within limits (job_fails limits now id message q job)
  unfolding job_fails job_retries job_dies
  fails-Within now id message q job w = elim (Bool-cases (ltb job.attempt limits.max_attempts)) [
    | inl more ↦
        rw (more, job_fails)
          (kept _ _ refl refl refl
            (finish-Closed (Within-Closed now) _ job (kept q _ refl refl refl w)))
    | inr last ↦
        rw (last, job_fails)
          (finish-Closed (Within-Closed now) _ job (kept _ _ refl refl refl (push-Within q _ w)))
  ]

  requeue-Within :
      (now : ℕ) (message : String) (q : Queue) (job : Job)
      → Within limits q
      → Within limits (requeue limits now message q job)
  unfolding requeue
  requeue-Within now message q job w =
      elim (Bool-cases (leb limits.max_queue_depth (length q.queue))) [
        | inl full ↦
            rw (full, requeue)
              (kept (push_dead_letter limits q _) _ refl refl refl (push-Within q _ w))
        | inr free ↦ rw (free, requeue) (kickoff-Within _ (longer-Within q _ free w))
      ]

  fires-Within :
      (now : ℕ) (message : String) (q : Queue) (job : Job)
      → Within limits q
      → Within limits (timer_fires limits now message q job)
  unfolding timer_fires
  fires-Within now message q job w =
      go q.running (requeue-Within now message _ job (kept q _ refl refl refl w))
    where
      go :
          (on : Bool)
          → Within limits
              (requeue limits now message (record q { pending_retry = q.pending_retry - 1 }) job)
          → Within limits (
              if on
              then requeue limits now message (record q { pending_retry = q.pending_retry - 1 }) job
              else q)
      go true v = v
      go false v = w

  step-Within :
      (now : ℕ) (q : Queue) (s : Step) → Within limits q → Within limits (step limits now q s)
  unfolding step job_succeeds mark_effect_complete mark_delivered
  step-Within now q (enqueues task_id tenant_id token) w = enqueue-Within q _ w
  step-Within now q microtask w = elim (ℕ-cases q.microtasks) [
    | inl e ↦ rw (e, step) (kept q _ refl refl refl w)
    | inr (n, e) ↦ rw (e, step) (maybe_run-Closed (Within-Closed now) _ (kept q _ refl refl refl w))
  ]
  step-Within now q (succeeds n id) w = elim (Option-cases (take_at n q.active)) [
    | inl e ↦ rw (e, step) w
    | inr ((job, rest), e) ↦
        rw (e, step) (finish-Closed (Within-Closed now) _ job (kept q _ refl refl refl w))
  ]
  step-Within now q (fails n id message) w = elim (Option-cases (take_at n q.active)) [
    | inl e ↦ rw (e, step) w
    | inr ((job, rest), e) ↦
        rw (e, step) (fails-Within now id message _ job (kept q _ refl refl refl w))
  ]
  step-Within now q (fires n) w = elim (Option-cases (take_at n q.timers)) [
    | inl e ↦ rw (e, step) w
    | inr (((job, message), rest), e) ↦
        rw (e, step) (fires-Within now message _ job (kept q _ refl refl refl w))
  ]
  step-Within now q (quarantines task_id reason tenant_id) w = kept q _ refl refl refl w
  step-Within now q (sets_quota tenant_id quota) w = kept q _ refl refl refl w
  step-Within now q (marks_effect effect) w =
      elim (Bool-cases (has_effect effect q.completed_effects)) [
        | inl done ↦ rw (done, step) w
        | inr new ↦ rw (new, step) (kept q _ refl refl refl w)
      ]
  step-Within now q (marks_delivered id) w = kept q _ refl refl refl w
  step-Within now q processes_outbox w = kept q _ refl refl refl w
  step-Within now q stops w = kept q _ refl refl refl w

  run-Within :
      (q : Queue) (steps : List (ℕ × Step)) → Within limits q → Within limits (run limits q steps)
  unfolding run
  run-Within q [] w = w
  run-Within q ((now, s) ∷ steps) w = run-Within (step limits now q s) steps (step-Within now q s w)

  new-Within : (stored : List DeadLetterRecord) → Within limits (new_queue limits stored)
  unfolding new_queue
  new-Within stored = record {
    few_inflight = omega arith;
    short = omega arith;
    few_letters = trim-length limits.max_dead_letters stored;
  }

-- Whatever dead letters were stored and whatever happens, in whatever order and at whatever times, the
-- queue holds at most its depth of jobs, the count of jobs in flight is at most the number that may
-- run at once, and the dead letters are within their limit.
pub run-new-Within :
    (limits : Limits) (stored : List DeadLetterRecord) (steps : List (ℕ × Step))
    → Within limits (run limits (new_queue limits stored) steps)
run-new-Within limits stored steps =
    run-Within limits (new_queue limits stored) steps (new-Within limits stored)
