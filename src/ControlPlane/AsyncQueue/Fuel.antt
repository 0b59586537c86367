-- ===== src/ControlPlane/AsyncQueue/Fuel.antt =====
-- The loop of control-plane/async-queue.ts ends, and leaves no job waiting that could run.
use micro_agent_protocol.Base.{
  ◌≡◌, refl, ap, ◌∙◌, ◌⊎◌, inl, inr, ℕ, zero, suc, ◌+◌, ◌≤◌, ◌<◌, none, Bool, true, false, List, [],
  ◌∷◌, length, All, arith, Option-cases, Bool-cases, ltb,
}
use micro_agent_protocol.ControlPlane.AsyncQueue.State.{
  Job, Limits, Queue, effect_of, has_effect, idle_if, is_done, drop_expired, reap_expired_leases,
}
use micro_agent_protocol.ControlPlane.AsyncQueue.Loop.{
  has_room, take_runnable, next_job, begin, release, activate, finish_with, start_with, run_loop,
  maybe_run_jobs,
}
use micro_agent_protocol.ControlPlane.AsyncQueue.Preserved.{
  Closed, reap-Closed, start-Closed, run_loop-Closed, next-Taken,
}

abbrev Short : ℕ → Queue → Type 0
Short n q = length q.queue ≤ n

module _ (limits : Limits) (now : ℕ) where
  -- No part of the loop makes the queue longer.
  Short-Closed : (n : ℕ) → Closed limits now (Short n)
  unfolding drop_expired begin release activate
  Short-Closed n = record {
    reaped = λ q h. h;
    idled = λ b q h. elim (Bool-cases b) [ inl t ↦ rw t h | inr f ↦ rw f h ];
    begun = λ q q' job found h. omega (arith, (next-Taken limits q q' job found).shorter, h);
    released = λ q job h. h;
    activated = λ q job new h. h;
  }

  loop-Short : (fuel n : ℕ) (q : Queue) → Short n q → Short n (run_loop limits now fuel q)
  loop-Short fuel n q h = run_loop-Closed (Short-Closed n) fuel q h

  start-Short :
      (fuel n : ℕ) (q : Queue) (job : Job)
      → Short n q
      → Short n (start_with (run_loop limits now fuel) now q job)
  unfolding begin
  start-Short fuel n q job h = start-Closed (Short-Closed n) _ q job (loop-Short fuel n) h

  module _ (loop loop' : Queue → Queue) (n : ℕ) where
    -- Loops that agree on short queues start a job alike.
    start-agree :
        ((x : Queue) → Short n x → loop x ≡ loop' x)
        → ((x : Queue) → Short n x → Short n (loop' x))
        → (q : Queue) (job : Job) → Short n q
        → start_with loop now q job ≡ start_with loop' now q job
    unfolding start_with finish_with begin release
    start-agree agree short q job h = go (has_effect (effect_of job) q.completed_effects)
      where
        ended : Queue → Queue
        ended x = reap_expired_leases now (release x job)

        ended-Short : (x : Queue) → Short n x → Short n (ended x)
        ended-Short x s = reap-Closed (Short-Closed n) (release x job) s

        begun : Queue
        begun = begin now q job

        begun-Short : Short n begun
        begun-Short = h

        first : loop (ended begun) ≡ loop' (ended begun)
        first = agree (ended begun) (ended-Short begun begun-Short)

        both : loop (ended (loop (ended begun))) ≡ loop' (ended (loop' (ended begun)))
        both =
            ap (λ x. loop (ended x)) first
            ∙ agree (ended (loop' (ended begun)))
                (ended-Short _ (short _ (ended-Short begun begun-Short)))

        go :
            (b : Bool)
            → elim b [
              | true ↦ finish_with loop now (finish_with loop now begun job) job
              | false ↦ activate begun job
            ]
              ≡ elim b [
                | true ↦ finish_with loop' now (finish_with loop' now begun job) job
                | false ↦ activate begun job
              ]
        go true = both
        go false = refl

  round-agree :
      (f g : ℕ) (q : Queue) (job : Job)
      → ((x : Queue) → Short (length q.queue) x → run_loop limits now f x ≡ run_loop limits now g x)
      → run_loop limits now f (start_with (run_loop limits now f) now q job)
        ≡ run_loop limits now g (start_with (run_loop limits now g) now q job)
  round-agree f g q job agree =
      let n = length q.queue in
      let loop = run_loop limits now f in
      let loop' = run_loop limits now g in
      ap loop (start-agree loop loop' n agree (loop-Short g n) q job (omega arith))
      ∙ agree _ (start-Short g n q job (omega arith))

  -- More fuel than there are jobs in the queue changes nothing.
  enough :
      (f g : ℕ) (q : Queue)
      → length q.queue < f
      → length q.queue < g
      → run_loop limits now f q ≡ run_loop limits now g q
  unfolding run_loop
  enough zero g q h k = absurd (omega (arith, h))
  enough (suc f) zero q h k = absurd (omega (arith, k))
  enough (suc f) (suc g) q h k = elim (Option-cases (next_job limits q)) [
    | inl e ↦ rw (e, run_loop) refl
    | inr ((job, q'), e) ↦
        let t = next-Taken limits q q' job e in
        rw (e, run_loop)
          (round-agree f g q' job
            (λ x s. enough f g x (omega (arith, h, s, t.shorter)) (omega (arith, k, s, t.shorter))))
  ]

take-none :
    (limits : Limits) (q : Queue) (jobs : List Job)
    → take_runnable limits q jobs ≡ none
    → All (λ job. has_room limits q job ≡ false) jobs
unfolding take_runnable
take-none limits q [] h = tt
take-none limits q (job ∷ jobs) h = elim (Bool-cases (has_room limits q job)) [
  | inl room ↦ absurd (ground arith)
  | inr full ↦ (
    full,
    elim (Option-cases (take_runnable limits q jobs)) [
      | inl e ↦ take-none limits q jobs e
      | inr ((found, rest), e) ↦ absurd (ground arith)
    ],
  )
]

-- As many jobs are in flight as may be, or no job of the queue has room.
abbrev pub Saturated : Limits → Queue → Type 0
Saturated limits q =
    (limits.max_concurrent ≤ q.inflight) ⊎ All (λ job. has_room limits q job ≡ false) q.queue

next_job-Saturated : (limits : Limits) (q : Queue) → next_job limits q ≡ none → Saturated limits q
unfolding next_job
next_job-Saturated limits q h = elim (Bool-cases (ltb q.inflight limits.max_concurrent)) [
  | inr full ↦ inl (ground arith)
  | inl free ↦ elim (Option-cases (take_runnable limits q q.queue)) [
    | inl e ↦ inr (take-none limits q q.queue e)
    | inr ((found, rest), e) ↦ absurd (ground arith)
  ]
]

idle_if-Saturated :
    (limits : Limits) (b : Bool) (q : Queue) → Saturated limits q → Saturated limits (idle_if b q)
idle_if-Saturated limits true q h = h
idle_if-Saturated limits false q h = h

-- With enough fuel, the loop ends where no job can be started.
run_loop-Saturated :
    (limits : Limits) (now f : ℕ) (q : Queue)
    → length q.queue < f
    → Saturated limits (run_loop limits now f q)
unfolding run_loop
run_loop-Saturated limits now zero q h = absurd (omega (arith, h))
run_loop-Saturated limits now (suc f) q h = elim (Option-cases (next_job limits q)) [
  | inl e ↦
      rw (e, run_loop) (idle_if-Saturated limits (is_done q) q (next_job-Saturated limits q e))
  | inr ((job, q'), e) ↦
      let t = next-Taken limits q q' job e in
      let s = start-Short limits now f (length q'.queue) q' job (omega arith) in
      rw (e, run_loop) (run_loop-Saturated limits now f _ (omega (arith, s, t.shorter, h)))
]

idle_if-queue : (b : Bool) (q : Queue) → (idle_if b q).queue ≡ q.queue
idle_if-queue true q = refl
idle_if-queue false q = refl

reap-queue : (now : ℕ) (q : Queue) → (reap_expired_leases now q).queue ≡ q.queue
unfolding reap_expired_leases drop_expired
reap-queue now q = idle_if-queue _ (drop_expired now q)

-- Running jobs ends: any more fuel gives the same state. And it leaves nothing undone: afterwards as
-- many jobs are in flight as may be, or each job in the queue is one whose tenant's quota is used up.
pub maybe_run_complete :
    (limits : Limits) (now : ℕ) (q : Queue)
    → ((more : ℕ)
        → run_loop limits now (suc (length q.queue) + more) (reap_expired_leases now q)
          ≡ maybe_run_jobs limits now q)
      × ((limits.max_concurrent ≤ (maybe_run_jobs limits now q).inflight)
          ⊎ All
              (λ job. has_room limits (maybe_run_jobs limits now q) job ≡ false)
              (maybe_run_jobs limits now q).queue)
unfolding maybe_run_jobs
maybe_run_complete limits now q =
    let short = ap length (reap-queue now q) in
    (
      λ more.
          enough limits now _ _ (reap_expired_leases now q) (omega (arith, short))
            (omega (arith, short)),
      run_loop-Saturated limits now _ (reap_expired_leases now q) (omega (arith, short)),
    )
