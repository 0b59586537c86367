-- ===== src/ControlPlane/Orchestrator/History.antt =====
-- Histories of control-plane/orchestrator.ts: its code and the stores together, in any interleaving.
use micro_agent_protocol.Base.{
  Option-cases, some, none, ◌≡◌, refl, sym, subst, inl, inr, String, none, some, true, List, [],
  ◌∷◌, ok, Result-cases, truthy,
}
use micro_agent_protocol.Base.Dict.{get as map_get}
use micro_agent_protocol.Protocol.{TaskRecord}
use micro_agent_protocol.Integration.Envelope.{TaskEnvelope}
use micro_agent_protocol.ControlPlane.TaskGuards.{is_terminal}
use micro_agent_protocol.ControlPlane.TaskStore.{empty}
use micro_agent_protocol.ControlPlane.TaskStore.Invariant.{IsValid, empty-IsValid}
use micro_agent_protocol.ControlPlane.TaskStore.Complete.{IsComplete, empty-IsComplete}
use micro_agent_protocol.ControlPlane.TaskStore.History.{
  run-IsValid, Follows, status_follows_table, Follows-terminal,
}
use micro_agent_protocol.ControlPlane.Orchestrator.State.{Services, Moment, Runtime}
use micro_agent_protocol.ControlPlane.Orchestrator.Plan.{
  DispatchRequest, Plan, stored, polls, refused, held, started, prepare, with_envelope,
}
use micro_agent_protocol.ControlPlane.Orchestrator.Dispatch.{dispatch_valid, dispatch, carry_out}
use micro_agent_protocol.ControlPlane.Orchestrator.Prepared.{
  prepare-Found, Found-unknown, decide-started,
}
use micro_agent_protocol.ControlPlane.Orchestrator.Events.{
  Event, dispatches, settles, dead_letters, settles_approval, cancels, sets_policy, registers,
  queue_steps, happen, happen_all,
}
use micro_agent_protocol.ControlPlane.Orchestrator.Effects.{
  Effect, Effect-none, Effect-then, Effect-IsComplete, Acts,
}
use micro_agent_protocol.ControlPlane.Orchestrator.Acts.{
  start-Acts, hold_for_approval-Acts, refuse-Acts, settle-Acts, on_dead_letter-Acts,
  settle_approval-Acts, cancel_task-Acts,
}

-- The schema of envelopes asks for a task id that is not empty.
abbrev pub NamesTasks : Services → Type 0
NamesTasks s = (e e' : TaskEnvelope) → s.validate_envelope e ≡ some e' → truthy e'.task_id ≡ true

module _ (s : Services) (names : NamesTasks s) where
  carry_out-Acts :
      (m : Moment) (r : Runtime) (q : DispatchRequest) (plan : Plan)
      → IsComplete r.task_store
      → truthy q.envelope.task_id ≡ true
      → prepare s m r q ≡ ok plan
      → Acts r (carry_out s m q.envelope plan r)
  unfolding carry_out
  carry_out-Acts m r q (stored x) c named h = Effect-none r.task_store
  carry_out-Acts m r q (polls task_id) c named h = Effect-none r.task_store
  carry_out-Acts m r q (refused reason) c named h = refuse-Acts q.envelope reason r
  carry_out-Acts m r q (held t) c named h = hold_for_approval-Acts s m t r
  carry_out-Acts m r q (started t) c named h =
      let found = prepare-Found s m r q (started t) refl h in
      let (_, _, same) = decide-started s m r q found.agent t found.decided in
      start-Acts s m t r (subst (λ e. truthy e.task_id ≡ true) (sym same.same_envelope) named) (
        subst (λ e. map_get e.task_id r.task_store.tasks ≡ none) (sym same.same_envelope)
          (Found-unknown c found))

  dispatch_valid-Acts :
      (m : Moment) (r : Runtime) (q : DispatchRequest)
      → IsComplete r.task_store
      → truthy q.envelope.task_id ≡ true
      → Acts r (dispatch_valid s m q r)
  unfolding dispatch_valid
  dispatch_valid-Acts m r q c named = elim (Result-cases (prepare s m r q)) [
    | inl (plan, e) ↦ rw (e, dispatch_valid) (carry_out-Acts m r q plan c named e)
    | inr (f, e) ↦ rw (e, dispatch_valid) (Effect-none r.task_store)
  ]

  dispatch-Acts :
      (m : Moment) (r : Runtime) (q : DispatchRequest)
      → IsComplete r.task_store
      → Acts r (dispatch s m q r)
  unfolding dispatch
  dispatch-Acts m r q c = elim (Option-cases (s.validate_envelope q.envelope)) [
    | inl bad ↦ rw (bad, dispatch) (Effect-none r.task_store)
    | inr (e, good) ↦
        rw (good, dispatch)
          (dispatch_valid-Acts m r (with_envelope q e) c (names q.envelope e good))
  ]

  happen-Effect :
      (m : Moment) (r : Runtime) (e : Event)
      → IsComplete r.task_store
      → Effect r.task_store (happen s m r e).task_store
  unfolding happen
  happen-Effect m r (dispatches q) c = dispatch-Acts m r q c
  happen-Effect m r (settles t x) c = settle-Acts s m t x r
  happen-Effect m r (dead_letters t error) c = on_dead_letter-Acts s m t error r
  happen-Effect m r (settles_approval a x) c = settle_approval-Acts s m a x r
  happen-Effect m r (cancels task_id tenant_id) c = cancel_task-Acts s m task_id tenant_id r
  happen-Effect m r (sets_policy p) c = Effect-none r.task_store
  happen-Effect m r (registers anchors checks d) c = Effect-none r.task_store
  happen-Effect m r (queue_steps now x) c = Effect-none r.task_store

  pub happen_all-Effect :
      (r : Runtime) (events : List (Moment × Event))
      → IsComplete r.task_store
      → Effect r.task_store (happen_all s r events).task_store
  unfolding happen_all
  happen_all-Effect r [] c = Effect-none r.task_store
  happen_all-Effect r ((m, e) ∷ events) c =
      let one = happen-Effect m r e c in
      Effect-then one (happen_all-Effect (happen s m r e) events (Effect-IsComplete one c))

  -- Whatever is dispatched, approved, cancelled, settled and dead-lettered, in whatever order, over a
  -- task store that is empty at first, and if a valid envelope has a task id: the store stays valid,
  -- so that no two tasks share an id or an idempotency key is led astray, and each of its tasks has a
  -- result and a receipt.
  pub orchestrated-IsValid :
      (r : Runtime) (events : List (Moment × Event))
      → r.task_store ≡ empty
      → IsValid (happen_all s r events).task_store × IsComplete (happen_all s r events).task_store
  orchestrated-IsValid r events new =
      let c = subst IsComplete (sym new) empty-IsComplete in
      let all = happen_all-Effect r events c in
      (
        subst IsValid all.reached
            (run-IsValid r.task_store all.calls all.named (subst IsValid (sym new) empty-IsValid)),
        Effect-IsComplete all c,
      )

  -- No event takes a task that is in the store out of it, although `dispatch` deletes the task of a
  -- job that the queue refuses: whatever happens before and after, the task stays, its status only
  -- moves along the transition table, and a status that is terminal stays.
  pub tasks_follow_table :
      (r : Runtime) (before after : List (Moment × Event)) (k : String) (q : TaskRecord)
      → r.task_store ≡ empty
      → map_get k (happen_all s r before).task_store.tasks ≡ some q
      → (q' : TaskRecord) × (map_get k (happen_all s (happen_all s r before) after).task_store.tasks
          ≡ some q')
        × Follows q.status q'.status
        × (is_terminal q.status ≡ true → q'.status ≡ q.status)
  tasks_follow_table r before after k q new found =
      let (_, c) = orchestrated-IsValid r before new in
      let all = happen_all-Effect (happen_all s r before) after c in
      let (q', there, follows) =
        status_follows_table (happen_all s r before).task_store all.calls k q (all.spared k q found)
          found in
      (
        q',
        subst (λ x. map_get k x.tasks ≡ some q') all.reached there,
        follows,
        λ t. Follows-terminal t follows,
      )
