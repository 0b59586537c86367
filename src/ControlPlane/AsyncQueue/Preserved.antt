-- ===== src/ControlPlane/AsyncQueue/Preserved.antt =====
-- What the parts of the loop of control-plane/async-queue.ts preserve, the loop preserves.
use micro_agent_protocol.Base.{
  ◌≡◌, refl, inl, inr, ℕ, zero, suc, some, Bool, true, false, List, [], ◌∷◌, length, arith,
  Option-cases, Bool-cases, ◌<◌,
}
use micro_agent_protocol.ControlPlane.AsyncQueue.State.{
  Job, Limits, Queue, effect_of, has_effect, drop_expired, idle_if, is_done, reap_expired_leases,
}
use micro_agent_protocol.ControlPlane.AsyncQueue.Loop.{
  has_room, take_runnable, next_job, begin, release, activate, finish_with, start_with, run_loop,
  maybe_run_jobs, finish_job,
}

pub record Closed (limits : Limits) (now : ℕ) (P : Queue → Type 0) : Type 0 where
  pub reaped : (q : Queue) → P q → P (drop_expired now q)
  pub idled : (b : Bool) (q : Queue) → P q → P (idle_if b q)
  pub begun :
      (q q' : Queue) (job : Job) → next_job limits q ≡ some (job, q') → P q → P (begin now q' job)
  pub released : (q : Queue) (job : Job) → P q → P (release q job)
  pub activated :
      (q : Queue) (job : Job)
      → has_effect (effect_of job) q.completed_effects ≡ false
      → P q
      → P (activate q job)

module _ {limits : Limits} {now : ℕ} {P : Queue → Type 0} (c : Closed limits now P) where
  pub reap-Closed : (q : Queue) → P q → P (reap_expired_leases now q)
  unfolding reap_expired_leases
  reap-Closed q p = c.idled _ (drop_expired now q) (c.reaped q p)

  pub start-Closed :
      (loop : Queue → Queue) (q' : Queue) (job : Job)
      → ((x : Queue) → P x → P (loop x))
      → P (begin now q' job)
      → P (start_with loop now q' job)
  unfolding start_with finish_with begin
  start-Closed loop q' job keeps p = go (has_effect (effect_of job) q'.completed_effects) refl
    where
      begun : Queue
      begun = begin now q' job

      ended : (x : Queue) → P x → P (finish_with loop now x job)
      ended x px = keeps _ (reap-Closed (release x job) (c.released x job px))

      go :
          (b : Bool)
          → has_effect (effect_of job) q'.completed_effects ≡ b
          → P (elim b [
            | true ↦ finish_with loop now (finish_with loop now begun job) job
            | false ↦ activate begun job
          ])
      go true e = ended _ (ended _ p)
      go false e = c.activated begun job e p

  pub run_loop-Closed : (fuel : ℕ) (q : Queue) → P q → P (run_loop limits now fuel q)
  unfolding run_loop
  run_loop-Closed zero q p = p
  run_loop-Closed (suc fuel) q p =
      let keeps = run_loop-Closed fuel in
      elim (Option-cases (next_job limits q)) [
        | inl e ↦ rw (e, run_loop) (c.idled (is_done q) q p)
        | inr ((job, q'), e) ↦
            rw (e, run_loop) (keeps _ (start-Closed _ q' job keeps (c.begun q q' job e p)))
      ]

  pub maybe_run-Closed : (q : Queue) → P q → P (maybe_run_jobs limits now q)
  unfolding maybe_run_jobs
  maybe_run-Closed q p = run_loop-Closed (suc (length q.queue)) _ (reap-Closed q p)

  pub finish-Closed : (q : Queue) (job : Job) → P q → P (finish_job limits now q job)
  unfolding finish_job
  finish-Closed q job p = maybe_run-Closed (release q job) (c.released q job p)

-- The job that is started next is taken off the queue, and there was room for it.
pub take-length :
    (limits : Limits) (q : Queue) (jobs rest : List Job) (job : Job)
    → take_runnable limits q jobs ≡ some (job, rest)
    → length jobs ≡ suc (length rest)
unfolding take_runnable
take-length limits q [] rest job h = cc
take-length limits q (j ∷ jobs) rest job h = elim (Bool-cases (has_room limits q j)) [
  | inl room ↦ ground arith
  | inr full ↦ elim (Option-cases (take_runnable limits q jobs)) [
    | inl e ↦ absurd (ground arith)
    | inr ((found, rest'), e) ↦ ground (arith, take-length limits q jobs rest' found e)
  ]
]

pub record Taken (limits : Limits) (q q' : Queue) (job : Job) : Type 0 where
  pub free : q.inflight < limits.max_concurrent
  pub shorter : length q.queue ≡ suc (length q'.queue)
  pub rest : q' ≡ record q { queue = q'.queue }

pub next-Taken :
    (limits : Limits) (q q' : Queue) (job : Job)
    → next_job limits q ≡ some (job, q')
    → Taken limits q q' job
unfolding next_job
next-Taken limits q q' job h = elim (Option-cases (take_runnable limits q q.queue)) [
  | inl e ↦ absurd (ground arith)
  | inr ((found, rest), e) ↦ record {
    free = ground arith;
    shorter = ground (arith, take-length limits q q.queue rest found e);
    rest = ground arith;
  }
]
