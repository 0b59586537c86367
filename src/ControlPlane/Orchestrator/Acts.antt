-- ===== src/ControlPlane/Orchestrator/Acts.antt =====
-- The effect on the task store of each operation of control-plane/orchestrator.ts.
use micro_agent_protocol.Base.{
  ◌≡◌, sym, subst, ◌≢◌, ◌⊎◌, ◌||◌, any, inl, inr, String, Option, none, some, true, [], ◌∷◌,
  Result-cases, Bool-cases, Option-cases, arith, truthy,
}
use micro_agent_protocol.Base.Dict.{get as map_get}
use micro_agent_protocol.Base.Json.{Fields}
use micro_agent_protocol.Protocol.{TaskRecord, ExecutionReceipt, failed, revoked, status_eq}
use micro_agent_protocol.Integration.Envelope.{TaskEnvelope, metadata_value}
use micro_agent_protocol.ControlPlane.TaskStore.{SaveParams, delete}
use micro_agent_protocol.ControlPlane.TaskStore.History.{saves, deletes, after, step, run}
use micro_agent_protocol.ControlPlane.AsyncQueue.State.{enqueue, has_capacity}
use micro_agent_protocol.ControlPlane.Orchestrator.State.{
  Services, Moment, Ticket, Runtime, InvokeResult, save_task, update_task, append_receipt,
  notify_webhook,
}
use micro_agent_protocol.ControlPlane.Orchestrator.Negotiation.{is_true}
use micro_agent_protocol.ControlPlane.Orchestrator.Outputs.{
  build_receipt, approval_result, pending_result, running_result, dead_letter_result,
}
use micro_agent_protocol.ControlPlane.Orchestrator.Answers.{CoreAnswer}
use micro_agent_protocol.ControlPlane.Orchestrator.Dispatch.{
  save_params, validated_result, refuse, hold_for_approval, enqueue_job, start_async, start_sync,
  start, record_outcome, settle, append_stored, on_dead_letter, job_of, outcome, is_async,
}
use micro_agent_protocol.ControlPlane.Orchestrator.Approval.{Approved, settle_approval}
use micro_agent_protocol.ControlPlane.Orchestrator.Cancel.{
  revoke_task, cancel_task, find_task, cancel_result, cancel_receipt, cancellable_states,
}
use micro_agent_protocol.ControlPlane.Orchestrator.Effects.{
  Effect, Effect-none, Acts, save_task-Acts, update_task-Acts,
}

-- Code that leaves the tasks alone.
same-Acts {ℓ} :
    {A : Type ℓ} (r : Runtime) (x : A × Runtime) → x.1.task_store ≡ r.task_store → Acts r x
same-Acts r x e = subst (Effect r.task_store) (sym e) (Effect-none r.task_store)

pub append_receipt-same :
    (x : ExecutionReceipt) (r : Runtime) → (append_receipt x r).1.task_store ≡ r.task_store
unfolding append_receipt
append_receipt-same x r = ground arith

pub notify_webhook-same :
    (e : TaskEnvelope) (status : String) (summary : Option String) (output : Option Fields)
    (r : Runtime)
    → (notify_webhook e status summary output r).1.task_store ≡ r.task_store
unfolding notify_webhook
notify_webhook-same e status summary output r = ground arith

append_receipt-Acts : (x : ExecutionReceipt) (r : Runtime) → Acts r (append_receipt x r)
append_receipt-Acts x r = same-Acts r (append_receipt x r) (append_receipt-same x r)

notify_webhook-Acts :
    (e : TaskEnvelope) (status : String) (summary : Option String) (output : Option Fields)
    (r : Runtime)
    → Acts r (notify_webhook e status summary output r)
notify_webhook-Acts e status summary output r =
    same-Acts r (notify_webhook e status summary output r)
      (notify_webhook-same e status summary output r)

-- Recording an outcome is an update, and leaves the tasks alone otherwise.
record_outcome-same :
    (m : Moment) (e : TaskEnvelope) (x : InvokeResult) (r : Runtime)
    → (record_outcome m e x r).1.task_store
      ≡ (update_task e.task_id
          (outcome x.result.status x.result x.receipt)
          m.stored_at
          r).1.task_store
unfolding record_outcome
record_outcome-same m e x r =
    elim (Result-cases
      (update_task e.task_id (outcome x.result.status x.result x.receipt) m.stored_at r).0) [
        | inl (u, h) ↦ ground (
          arith,
          append_receipt-same x.receipt
              (update_task e.task_id (outcome x.result.status x.result x.receipt) m.stored_at r).1,
        )
        | inr (f, h) ↦ ground arith
      ]

record_outcome-Acts :
    (m : Moment) (e : TaskEnvelope) (x : InvokeResult) (r : Runtime)
    → Acts r (record_outcome m e x r)
record_outcome-Acts m e x r =
    subst (Effect r.task_store) (sym (record_outcome-same m e x r))
      (update_task-Acts e.task_id (outcome x.result.status x.result x.receipt) m.stored_at r)

pub settle-Acts :
    (s : Services) (m : Moment) (t : Ticket) (x : CoreAnswer) (r : Runtime)
    → Acts r (settle s m t x r)
unfolding settle
settle-Acts s m t x r = record_outcome-Acts m t.envelope _ r

pub settle_approval-Acts :
    (s : Services) (m : Moment) (a : Approved) (x : CoreAnswer) (r : Runtime)
    → Acts r (settle_approval s m a x r)
unfolding settle_approval
settle_approval-Acts s m a x r = record_outcome-Acts m a.envelope _ r

append_stored-same :
    (t : Ticket) (error : String) (r : Runtime)
    → (append_stored t error r).1.task_store ≡ r.task_store
unfolding append_stored append_receipt notify_webhook
append_stored-same t error r = ground arith

pub on_dead_letter-Acts :
    (s : Services) (m : Moment) (t : Ticket) (error : String) (r : Runtime)
    → Acts r (on_dead_letter s m t error r)
unfolding on_dead_letter
on_dead_letter-Acts s m t error r =
    let u = outcome failed (dead_letter_result t error) (build_receipt s m t "dead_lettered") in
    let code = update_task t.envelope.task_id u m.stored_at in
    subst (Effect r.task_store) (ground (arith, append_stored-same t error (code r).1))
      (update_task-Acts t.envelope.task_id u m.stored_at r)

pub cancel_task-Acts :
    (s : Services) (m : Moment) (task_id : String) (tenant_id : Option String) (r : Runtime)
    → Acts r (cancel_task s m task_id tenant_id r)
unfolding cancel_task revoke_task
cancel_task-Acts s m task_id tenant_id r = elim (Option-cases (find_task r task_id tenant_id)) [
  | inl e ↦ same-Acts r (cancel_task s m task_id tenant_id r) (ground arith)
  | inr (q, e) ↦ elim (Bool-cases (any (status_eq q.status) cancellable_states)) [
    | inl may ↦
        let u = outcome revoked (cancel_result task_id q) (cancel_receipt s m task_id q) in
        subst (Effect r.task_store) (ground arith) (update_task-Acts task_id u m.stored_at r)
    | inr not_now ↦ same-Acts r (cancel_task s m task_id tenant_id r) (ground arith)
  ]
]

pub refuse-Acts :
    (e : TaskEnvelope) (reason : Option String) (r : Runtime) → Acts r (refuse e reason r)
unfolding refuse notify_webhook
refuse-Acts e reason r = same-Acts r (refuse e reason r) (ground arith)

pub hold_for_approval-Acts :
    (s : Services) (m : Moment) (t : Ticket) (r : Runtime) → Acts r (hold_for_approval s m t r)
unfolding hold_for_approval
hold_for_approval-Acts s m t r =
    let receipt = build_receipt s m t "approval_required" in
    let p = save_params t (validated_result (approval_result t)) receipt in
    elim (Bool-cases (s.is_valid_result (approval_result t))) [
      | inl good ↦
          subst (Effect r.task_store)
            (ground (arith, append_receipt-same receipt (save_task p m.stored_at r).1))
            (save_task-Acts p m.stored_at r)
      | inr bad ↦ same-Acts r (hold_for_approval s m t r) (ground arith)
    ]

start_sync-Acts :
    (s : Services) (m : Moment) (t : Ticket) (r : Runtime) → Acts r (start_sync s m t r)
unfolding start_sync
start_sync-Acts s m t r =
    let p = save_params t (pending_result t) (build_receipt s m t "accepted") in
    subst (Effect r.task_store) (ground arith) (save_task-Acts p m.stored_at r)

-- A job that the queue does not take has its task deleted, and nothing else changes the tasks.
enqueue_job-tasks :
    (s : Services) (t : Ticket) (r : Runtime)
    → ((enqueue_job s t r).1.task_store ≡ r.task_store)
      ⊎ ((enqueue_job s t r).1.task_store ≡ (delete r.task_store t.envelope.task_id).0)
unfolding enqueue_job
enqueue_job-tasks s t r = elim (Bool-cases (enqueue s.limits r.async_queue (job_of t)).1) [
  | inl taken ↦ inl (ground arith)
  | inr full ↦ inr (ground arith)
]

-- What a start leaves of the tasks: those that were there, those with the new one, or those after the
-- new one is deleted again.
start_async-tasks :
    (s : Services) (m : Moment) (t : Ticket) (r : Runtime)
    → let p = save_params t (running_result t) (build_receipt s m t "running") in
      let saved = (save_task p m.stored_at r).1.task_store in
      let left = (start_async s m t r).1.task_store in
      (left ≡ r.task_store) ⊎ (left ≡ saved) ⊎ (left ≡ (delete saved t.envelope.task_id).0)
unfolding start_async
start_async-tasks s m t r =
    let receipt = build_receipt s m t "running" in
    let p = save_params t (running_result t) receipt in
    let after_save = (save_task p m.stored_at r).1 in
    let after_append = (append_receipt receipt after_save).1 in
    let same = append_receipt-same receipt after_save in
    elim (Bool-cases (has_capacity s.limits r.async_queue)) [
      | inr full ↦ inl (ground arith)
      | inl room ↦ elim (Result-cases (save_task p m.stored_at r).0) [
        | inr (f, e) ↦ inr (inl (ground arith))
        | inl (u, e) ↦ elim (Result-cases (append_receipt receipt after_save).0) [
          | inr (f, e') ↦ inr (inl (ground arith))
          | inl (u', e') ↦ elim (enqueue_job-tasks s t after_append) [
            | inl kept ↦ inr (inl (ground arith))
            | inr gone ↦ inr (inr (ground arith))
          ]
        ]
      ]
    ]

-- The id of the new task is not empty, and no task with it was there.
module _ (s : Services) (m : Moment) (t : Ticket) (r : Runtime)
    (named : truthy t.envelope.task_id ≡ true)
    (new : map_get t.envelope.task_id r.task_store.tasks ≡ none) where
  saved_and_deleted :
      (p : SaveParams) (now : String)
      → Effect r.task_store (delete (save_task p now r).1.task_store t.envelope.task_id).0
  unfolding save_task run step after
  saved_and_deleted p now = record {
    calls = saves p now ∷ deletes t.envelope.task_id ∷ [];
    named = (named, tt);
    reached = ground arith;
    spared = λ k q h. (other k q h, tt);
  }
    where
      other :
          (k : String) (q : TaskRecord)
          → map_get k r.task_store.tasks ≡ some q
          → t.envelope.task_id ≢ k
      other k q h same =
          absurd (clash (subst (λ j. map_get j r.task_store.tasks ≡ none) same new) h)
        where
          clash : {o : Option TaskRecord} → o ≡ none → o ≡ some q → ⊥
          clash a b = cc

  start_async-Acts : Acts r (start_async s m t r)
  start_async-Acts =
      let p = save_params t (running_result t) (build_receipt s m t "running") in
      elim (start_async-tasks s m t r) [
        | inl e ↦ same-Acts r (start_async s m t r) e
        | inr (inl e) ↦ subst (Effect r.task_store) (sym e) (save_task-Acts p m.stored_at r)
        | inr (inr e) ↦ subst (Effect r.task_store) (sym e) (saved_and_deleted p m.stored_at)
      ]

  pub start-Acts : Acts r (start s m t r)
  unfolding start
  start-Acts =
      elim (Bool-cases (
        is_async t.negotiation.selected.delivery_mode
        || is_true (metadata_value t.envelope "async"))) [
          | inl later ↦ rw later start_async-Acts
          | inr now ↦ rw now (start_sync-Acts s m t r)
        ]
