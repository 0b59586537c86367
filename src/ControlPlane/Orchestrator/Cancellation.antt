-- ===== src/ControlPlane/Orchestrator/Cancellation.antt =====
-- What `cancelTask` of control-plane/orchestrator.ts brings about, and for how long.
use micro_agent_protocol.Base.{
  ◌≡◌, ◌↔◌, refl, sym, ap, ◌∙◌, subst, inl, inr, String, Option, none, some, true, false, any, List,
  ok, Bool-cases, Option-cases, arith,
}
use micro_agent_protocol.Base.Dict.{get as map_get, get-set_self}
use micro_agent_protocol.Protocol.{TaskStatus, revoked, status_eq, TaskRecord}
use micro_agent_protocol.ControlPlane.TaskGuards.{is_terminal}
use micro_agent_protocol.ControlPlane.TaskStore.{empty, get, get_by_tenant, update, updated_record}
use micro_agent_protocol.ControlPlane.TaskStore.Transitions.{
  Transition, revoke_accepted, revoke_proposed, revoke_asked, revoke,
}
use micro_agent_protocol.ControlPlane.TaskStore.Accepts.{validate-move}
use micro_agent_protocol.ControlPlane.TaskStore.Invariant.{IsValid}
use micro_agent_protocol.ControlPlane.TaskStore.Update.{updated_record-status}
use micro_agent_protocol.ControlPlane.TaskStore.History.{terminal_absorbs}
use micro_agent_protocol.ControlPlane.Orchestrator.State.{
  Services, Moment, Runtime, InvokeResult, update_task,
}
use micro_agent_protocol.ControlPlane.Orchestrator.Dispatch.{outcome}
use micro_agent_protocol.ControlPlane.Orchestrator.Cancel.{
  cancellable_states, find_task, cancel_result, cancel_receipt, revoke_task, cancel_task,
}
use micro_agent_protocol.ControlPlane.Orchestrator.Events.{Event, happen_all}
use micro_agent_protocol.ControlPlane.Orchestrator.Effects.{Effect-IsComplete}
use micro_agent_protocol.ControlPlane.Orchestrator.Acts.{cancel_task-Acts}
use micro_agent_protocol.ControlPlane.Orchestrator.History.{
  NamesTasks, happen_all-Effect, orchestrated-IsValid,
}

-- The states that may be cancelled are those that are not terminal.
cancellable-live :
    (a : TaskStatus) → any (status_eq a) cancellable_states ≡ true → is_terminal a ≡ false
cancellable-live a h = ground arith

live-cancellable :
    (a : TaskStatus) → is_terminal a ≡ false → any (status_eq a) cancellable_states ≡ true
live-cancellable a h = ground arith

live-revoke : (a : TaskStatus) → is_terminal a ≡ false → Transition a revoked
live-revoke a h = grind (arith, revoke_accepted, revoke_proposed, revoke_asked, revoke)

find_task-stored :
    (r : Runtime) (task_id : String) (tenant_id : Option String) (q : TaskRecord)
    → find_task r task_id tenant_id ≡ some q
    → map_get task_id r.task_store.tasks ≡ some q
unfolding find_task get get_by_tenant
find_task-stored r task_id none q h = ground arith
find_task-stored r task_id (some tenant_id) q h = ground arith

module _ (s : Services) (m : Moment) (r : Runtime) (task_id : String)
    (tenant_id : Option String) where
  -- The task may be seen and is not in a terminal status.
  abbrev pub IsCancellable : Type 0
  IsCancellable =
      (q : TaskRecord) × (find_task r task_id tenant_id ≡ some q) × (is_terminal q.status ≡ false)

  module _ (q : TaskRecord) (found : find_task r task_id tenant_id ≡ some q) where
    revoked_record : TaskRecord
    revoked_record =
        updated_record q (outcome revoked (cancel_result task_id q) (cancel_receipt s m task_id q))
          m.stored_at

    -- The update that revokes the task passes the store's guard.
    cancels :
        IsValid r.task_store
        → is_terminal q.status ≡ false
        → (cancel_task s m task_id tenant_id r).0
            ≡ ok (record {
              result = cancel_result task_id q;
              receipt = cancel_receipt s m task_id q;
            })
          × (map_get task_id (cancel_task s m task_id tenant_id r).1.task_store.tasks
              ≡ some revoked_record)
    unfolding cancel_task revoke_task update_task update revoked_record
    cancels v live =
        let there = find_task-stored r task_id tenant_id q found in
        let own = v.filed task_id q there in
        let may = live-cancellable q.status live in
        let u = outcome revoked (cancel_result task_id q) (cancel_receipt s m task_id q) in
        let passes =
          validate-move q revoked u (cancel_result task_id q) (cancel_receipt s m task_id q)
            (live-revoke q.status live) refl refl refl refl refl refl (sym own) refl
            (ap some (sym own)) in
        (ground arith, ground (arith, get-set_self task_id revoked_record r.task_store.tasks))

    revoked-status : revoked_record.status ≡ revoked
    unfolding revoked_record
    revoked-status = updated_record-status q _ m.stored_at

  cancelled-live :
      (x : InvokeResult) → (cancel_task s m task_id tenant_id r).0 ≡ ok x → IsCancellable
  unfolding cancel_task
  cancelled-live x h = elim (Option-cases (find_task r task_id tenant_id)) [
    | inl e ↦ absurd (ground arith)
    | inr (q, e) ↦ elim (Bool-cases (any (status_eq q.status) cancellable_states)) [
      | inl may ↦ (q, e, cancellable-live q.status may)
      | inr not_now ↦ absurd (ground arith)
    ]
  ]

-- Over a task store that is empty at first, after any events: a cancellation goes through exactly if
-- the task is there, belongs to the tenant if one is named, and is not in a terminal status. Then
-- the task is revoked, and it stays so, whatever happens later, an execution of it that ends later
-- included.
pub cancelled_stays_revoked :
    (s : Services) (names : NamesTasks s) (r : Runtime) (before after : List (Moment × Event))
    (m : Moment) (task_id : String) (tenant_id : Option String)
    → r.task_store ≡ empty
    → let now = happen_all s r before in
      let (answer, then) = cancel_task s m task_id tenant_id now in
      (((x : InvokeResult) × (answer ≡ ok x)) ↔ IsCancellable s m now task_id tenant_id)
      × ((x : InvokeResult)
          → answer ≡ ok x
          → (q : TaskRecord) × (map_get task_id (happen_all s then after).task_store.tasks ≡ some q)
            × (q.status ≡ revoked))
cancelled_stays_revoked s names r before after m task_id tenant_id new =
    let now = happen_all s r before in
    let (v, c) = orchestrated-IsValid s names r before new in
    let then = (cancel_task s m task_id tenant_id now).1 in
    (
      (
        λ (x, h). cancelled-live s m now task_id tenant_id x h,
        λ (q, found, live). (_, (cancels s m now task_id tenant_id q found v live).0),
      ),
      λ x h.
          let (q, found, live) = cancelled-live s m now task_id tenant_id x h in
          let (_, there) = cancels s m now task_id tenant_id q found v live in
          let is = revoked-status s m now task_id tenant_id q found in
          let c' = Effect-IsComplete (cancel_task-Acts s m task_id tenant_id now) c in
          let all = happen_all-Effect s names then after c' in
          let old = revoked_record s m now task_id tenant_id q found in
          let (q', kept, same) =
            terminal_absorbs then.task_store all.calls task_id old (all.spared task_id old there)
              there (rw is refl) in
          (q', subst (λ t. map_get task_id t.tasks ≡ some q') all.reached kept, same ∙ is),
    )
