-- ===== src/ControlPlane/Orchestrator/Signatures.antt =====
-- The receipts that control-plane/orchestrator.ts makes carry the signature of what they say, and
-- `dispatch` stores no others.
use micro_agent_protocol.Base.{
  ◌≡◌, refl, inl, inr, String, Option, some, none, Result-cases, Bool-cases, Option-cases, arith,
  ◌||◌,
}
use micro_agent_protocol.Protocol.{TaskRecord, ExecutionReceipt}
use micro_agent_protocol.Integration.Envelope.{TaskEnvelope, metadata_value}
use micro_agent_protocol.ControlPlane.TaskStore.Receipts.{delete-AllReceipts}
use micro_agent_protocol.ControlPlane.AsyncQueue.State.{enqueue, has_capacity}
use micro_agent_protocol.ControlPlane.Orchestrator.State.{
  Services, Moment, Ticket, Runtime, return, ◌>>◌, save_task, notify_webhook,
}
use micro_agent_protocol.ControlPlane.Orchestrator.Negotiation.{is_true}
use micro_agent_protocol.ControlPlane.Orchestrator.Outputs.{
  build_receipt, build_unsigned_receipt, approval_result, pending_result, running_result,
}
use micro_agent_protocol.ControlPlane.Orchestrator.Answers.{
  CoreAnswer, result_of, receipt_of, normalize_core_result,
}
use micro_agent_protocol.ControlPlane.Orchestrator.Plan.{
  DispatchRequest, Plan, stored, polls, refused, held, started, prepare, with_envelope,
}
use micro_agent_protocol.ControlPlane.Orchestrator.Dispatch.{
  answered, awaits_executor, save_params, validated_result, notify_approver, refuse,
  hold_for_approval, enqueue_job, start_async, start_sync, start, carry_out, dispatch_valid,
  dispatch, job_of, is_async,
}
use micro_agent_protocol.ControlPlane.Orchestrator.Approval.{Approved, approved_result}
use micro_agent_protocol.ControlPlane.Orchestrator.Cancel.{cancel_receipt}
use micro_agent_protocol.ControlPlane.Orchestrator.Sealed.{
  Keeps, same-Keeps, >>=-Keeps, save_task-Keeps, save_append-Keeps,
}

-- What the signature of a receipt is made of: all that it says, but for the approval's reference.
abbrev pub bare : ExecutionReceipt → ExecutionReceipt
bare x = record x { signature = none; approval_used = none }

abbrev pub IsSigned : Services → ExecutionReceipt → Type 0
IsSigned s x = x.signature ≡ some (s.sign_receipt (bare x))

pub build_receipt-IsSigned :
    (s : Services) (m : Moment) (t : Ticket) (action : String)
    → IsSigned s (build_receipt s m t action)
unfolding build_receipt build_unsigned_receipt
build_receipt-IsSigned s m t action = refl

pub settled-IsSigned :
    (s : Services) (m : Moment) (t : Ticket) (x : CoreAnswer)
    → IsSigned s (normalize_core_result s m x t.envelope t.capability t.negotiation).receipt
unfolding normalize_core_result
settled-IsSigned s m t (result_of x) = refl
settled-IsSigned s m t (receipt_of x) = refl

pub approved-IsSigned :
    (s : Services) (m : Moment) (a : Approved) (x : CoreAnswer)
    → IsSigned s (approved_result s m a x).receipt
unfolding normalize_core_result approved_result
approved-IsSigned s m a (result_of x) = refl
approved-IsSigned s m a (receipt_of x) = refl

pub cancel_receipt-IsSigned :
    (s : Services) (m : Moment) (task_id : String) (q : TaskRecord)
    → IsSigned s (cancel_receipt s m task_id q)
unfolding cancel_receipt
cancel_receipt-IsSigned s m task_id q = refl

module _ (s : Services) (m : Moment) where
  hold_for_approval-Keeps :
      (t : Ticket) (r : Runtime) → Keeps (IsSigned s) r (hold_for_approval s m t r)
  unfolding hold_for_approval
  hold_for_approval-Keeps t r = elim (Bool-cases (s.is_valid_result (approval_result t))) [
    | inl good ↦ rw good (
        save_append-Keeps (IsSigned s)
          (save_params t (validated_result (approval_result t))
            (build_receipt s m t "approval_required"))
          m.stored_at
          (notify_approver s t
            >> return (
                answered (record {
                  result = validated_result (approval_result t);
                  receipt = build_receipt s m t "approval_required";
                })))
          r (build_receipt-IsSigned s m t "approval_required")
          (λ r' c. record { tasks = c.tasks; receipts = c.receipts }))
    | inr bad ↦ rw bad (λ c. c)
  ]

  start_sync-Keeps : (t : Ticket) (r : Runtime) → Keeps (IsSigned s) r (start_sync s m t r)
  unfolding start_sync
  start_sync-Keeps t r =
      let p = save_params t (pending_result t) (build_receipt s m t "accepted") in
      >>=-Keeps (IsSigned s) (save_task p m.stored_at) (λ _. return (awaits_executor t)) r
        (save_task-Keeps (IsSigned s) p m.stored_at r (build_receipt-IsSigned s m t "accepted"))
        (λ _ c. c)

  enqueue_job-Keeps : (t : Ticket) (r : Runtime) → Keeps (IsSigned s) r (enqueue_job s t r)
  unfolding enqueue_job
  enqueue_job-Keeps t r c = elim (Bool-cases (enqueue s.limits r.async_queue (job_of t)).1) [
    | inl taken ↦ rw (taken, enqueue_job) (record { tasks = c.tasks; receipts = c.receipts })
    | inr full ↦
        rw (full, enqueue_job)
          (record {
            tasks = delete-AllReceipts (IsSigned s) r.task_store t.envelope.task_id c.tasks;
            receipts = c.receipts;
          })
  ]

  start_async-Keeps : (t : Ticket) (r : Runtime) → Keeps (IsSigned s) r (start_async s m t r)
  unfolding start_async
  start_async-Keeps t r = elim (Bool-cases (has_capacity s.limits r.async_queue)) [
    | inl room ↦ rw room (
        save_append-Keeps (IsSigned s)
          (save_params t (running_result t) (build_receipt s m t "running")) m.stored_at
          (enqueue_job s t
            >> return (
                answered
                  (record { result = running_result t; receipt = build_receipt s m t "running" })))
          r (build_receipt-IsSigned s m t "running")
          (λ r'.
            >>=-Keeps (IsSigned s) (enqueue_job s t)
              (λ _. return (
                answered
                  (record { result = running_result t; receipt = build_receipt s m t "running" })))
              r' (enqueue_job-Keeps t r') (λ _ c. c)))
    | inr full ↦ rw full (λ c. c)
  ]

  refuse-Keeps :
      (e : TaskEnvelope) (reason : Option String) (r : Runtime)
      → Keeps (IsSigned s) r (refuse e reason r)
  unfolding refuse notify_webhook
  refuse-Keeps e reason r =
      same-Keeps (IsSigned s) r (refuse e reason r) (ground arith) (ground arith)

  start-Keeps : (t : Ticket) (r : Runtime) → Keeps (IsSigned s) r (start s m t r)
  unfolding start
  start-Keeps t r =
      elim (Bool-cases (
        is_async t.negotiation.selected.delivery_mode
        || is_true (metadata_value t.envelope "async"))) [
          | inl later ↦ rw later (start_async-Keeps t r)
          | inr now ↦ rw now (start_sync-Keeps t r)
        ]

  carry_out-Keeps :
      (e : TaskEnvelope) (plan : Plan) (r : Runtime) → Keeps (IsSigned s) r (carry_out s m e plan r)
  unfolding carry_out
  carry_out-Keeps e (stored x) r = λ c. c
  carry_out-Keeps e (polls task_id) r = λ c. c
  carry_out-Keeps e (refused reason) r = refuse-Keeps e reason r
  carry_out-Keeps e (held t) r = hold_for_approval-Keeps t r
  carry_out-Keeps e (started t) r = start-Keeps t r

  pub dispatch-Keeps : (q : DispatchRequest) (r : Runtime) → Keeps (IsSigned s) r (dispatch s m q r)
  unfolding dispatch dispatch_valid
  dispatch-Keeps q r = elim (Option-cases (s.validate_envelope q.envelope)) [
    | inl bad ↦ rw (bad, dispatch) (λ c. c)
    | inr (e, good) ↦ elim (Result-cases (prepare s m r (with_envelope q e))) [
      | inl (plan, h) ↦ rw (good, dispatch) (rw (h, dispatch_valid) (carry_out-Keeps e plan r))
      | inr (f, h) ↦ rw (good, dispatch) (rw (h, dispatch_valid) (λ c. c))
    ]
  ]
