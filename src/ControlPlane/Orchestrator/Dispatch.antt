-- ===== src/ControlPlane/Orchestrator/Dispatch.antt =====
-- control-plane/orchestrator.ts: `dispatch`, up to the await of the executor and after it, and the two
-- closures of an asynchronous job.
use micro_agent_protocol.Base.{
  String, Option, none, some, Bool, true, false, not, ◌||◌, [], ◌∷◌, ◌++◌, ok, err, if◌then◌else◌,
  or_else, resolve_tenant_id,
}
use micro_agent_protocol.Base.Json.{object, end, lookup}
use micro_agent_protocol.Protocol.{
  TaskStatus, failed, status_text, DeliveryMode, async, ResultPackage, ExecutionReceipt,
}
use micro_agent_protocol.Integration.Envelope.{TaskEnvelope, metadata_value, as_text}
use micro_agent_protocol.ControlPlane.TaskGuards.{Updates}
use micro_agent_protocol.ControlPlane.TaskStore.{SaveParams, get, delete}
use micro_agent_protocol.ControlPlane.AsyncQueue.State.{Job, has_capacity, enqueue}
use micro_agent_protocol.ControlPlane.Orchestrator.State.{
  Services, Moment, Ticket, InvokeResult, Failure, queue_full, invalid_result, invalid_envelope,
  policy_denied, Action, throw, return, ◌>>◌, save_task, update_task, append_receipt,
  notify_webhook,
}
use micro_agent_protocol.ControlPlane.Orchestrator.Negotiation.{is_true}
use micro_agent_protocol.ControlPlane.Orchestrator.Outputs.{
  approval_result, running_result, pending_result, dead_letter_result, build_receipt,
  approval_reference_of,
}
use micro_agent_protocol.ControlPlane.Orchestrator.Answers.{CoreAnswer, normalize_core_result}
use micro_agent_protocol.ControlPlane.Orchestrator.Plan.{
  DispatchRequest, Plan, stored, polls, refused, held, started, prepare, with_envelope,
}

-- What a call of `dispatch` has come to when it stops running: it returned, it waits for a stored
-- result, or for the executor.
pub data Reply : Type 0 where
  answered : InvokeResult → Reply
  waits_for : String → Reply
  awaits_executor : Ticket → Reply

abbrev pub save_params : Ticket → ResultPackage → ExecutionReceipt → SaveParams
save_params t result receipt = record {
  task_id = t.envelope.task_id;
  context_id = some t.context_id;
  requester_identity = t.envelope.requester_identity;
  idempotency_key = t.idempotency_key;
  capability = t.capability;
  target_agent = t.descriptor.agent_id;
  result = result;
  receipt = receipt;
}

-- `throw … if (test)`.
abbrev pub refuse_if : Bool → Failure → Action (Unit {0})
refuse_if test f r = (if test then err f else ok tt, r)

-- The policy denies the task: its requester is told, and the call throws.
unfoldable pub refuse : TaskEnvelope → Option String → Action Reply
unfolding notify_webhook
refuse e reason = do
  notify_webhook e "denied" (some (or_else reason "Task denied by policy.")) none
  throw (policy_denied (or_else reason "Task denied by policy."))

-- An intent that is no JSON text is shown as an empty object.
abbrev pub notify_approver : Services → Ticket → Action (Unit {0})
unfolding lookup
notify_approver s t r = (
  ok tt,
  record r {
    approval_notices =
        r.approval_notices
        ++ record {
          task_id = t.envelope.task_id;
          capability = t.capability;
          target_agent = t.descriptor.agent_id;
          reason = or_else t.decision.reason "Policy requires approval.";
          requester = t.envelope.requester_identity;
          risk_class = t.envelope.risk_class;
          input_summary = or_else (s.parse t.envelope.intent) (object end);
          approval_reference = approval_reference_of t.envelope;
          webhook_url = as_text (metadata_value t.envelope "webhook_url");
        }
          ∷ [];
  },
)

-- What validation leaves of a result: its schema lists neither the context nor the extensions.
abbrev pub validated_result : ResultPackage → ResultPackage
validated_result p = record p { context_id = none; extensions = none }

unfoldable pub hold_for_approval : Services → Moment → Ticket → Action Reply
unfolding approval_result build_receipt save_task append_receipt notify_approver
hold_for_approval s m t = do
  let result = validated_result (approval_result t)
  let receipt = build_receipt s m t "approval_required"
  refuse_if (not (s.is_valid_result (approval_result t))) invalid_result
  save_task (save_params t result receipt) m.stored_at
  append_receipt receipt
  notify_approver s t
  return (answered (record { result = result; receipt = receipt }))

abbrev pub job_of : Ticket → Job
job_of t = record {
  task_id = t.envelope.task_id;
  tenant_id = some (resolve_tenant_id t.envelope.requester_identity.tenant_id);
  attempt = 1;
  idempotency_token = t.envelope.idempotency_token;
}

-- The queue's `enqueue`; a job that is not accepted takes its task out of the store again.
unfoldable pub enqueue_job : Services → Ticket → Action (Unit {0})
unfolding enqueue delete resolve_tenant_id
enqueue_job s t r =
    let (queue, accepted) = enqueue s.limits r.async_queue (job_of t) in
    if accepted then (ok tt, record r { async_queue = queue; jobs = r.jobs ++ t ∷ [] }) else (
      err queue_full,
      record r { task_store = (delete r.task_store t.envelope.task_id).0; async_queue = queue },
    )

unfoldable pub start_async : Services → Moment → Ticket → Action Reply
unfolding running_result build_receipt save_task append_receipt enqueue_job has_capacity
start_async s m t r =
    if has_capacity s.limits r.async_queue
    then (do
      let result = running_result t
      let receipt = build_receipt s m t "running"
      save_task (save_params t result receipt) m.stored_at
      append_receipt receipt
      enqueue_job s t
      return (answered (record { result = result; receipt = receipt })))
        r
    else (err queue_full, r)

unfoldable pub start_sync : Services → Moment → Ticket → Action Reply
unfolding pending_result build_receipt save_task
start_sync s m t = do
  save_task (save_params t (pending_result t) (build_receipt s m t "accepted")) m.stored_at
  return (awaits_executor t)

abbrev pub is_async : DeliveryMode → Bool
is_async async = true
is_async _ = false

unfoldable pub start : Services → Moment → Ticket → Action Reply
unfolding start_async start_sync lookup
start s m t =
    if is_async t.negotiation.selected.delivery_mode || is_true (metadata_value t.envelope "async")
    then start_async s m t
    else start_sync s m t

unfoldable pub carry_out : Services → Moment → TaskEnvelope → Plan → Action Reply
unfolding refuse hold_for_approval start
carry_out s m e (stored x) = return (answered x)
carry_out s m e (polls task_id) = return (waits_for task_id)
carry_out s m e (refused reason) = refuse e reason
carry_out s m e (held t) = hold_for_approval s m t
carry_out s m e (started t) = start s m t

-- `dispatch` behind the validation of its envelope.
unfoldable pub dispatch_valid : Services → Moment → DispatchRequest → Action Reply
unfolding prepare carry_out
dispatch_valid s m q r = elim (prepare s m r q) [
  | err f ↦ (err f, r)
  | ok plan ↦ carry_out s m q.envelope plan r
]

unfoldable pub dispatch : Services → Moment → DispatchRequest → Action Reply
unfolding dispatch_valid
dispatch s m q r = elim (s.validate_envelope q.envelope) [
  | none ↦ (err invalid_envelope, r)
  | some e ↦ dispatch_valid s m (with_envelope q e) r
]

-- `{ status, result, receipt }`.
abbrev pub outcome : TaskStatus → ResultPackage → ExecutionReceipt → Updates
outcome status result receipt = record {
  order_id = none;
  context_id = none;
  requester_identity = none;
  idempotency_key = none;
  capability = none;
  target_agent = none;
  status = some status;
  result = some result;
  receipt = some receipt;
}

-- What `dispatch`, the job's `run` and `approve` do once they have a result.
unfoldable pub record_outcome : Moment → TaskEnvelope → InvokeResult → Action InvokeResult
unfolding update_task append_receipt notify_webhook status_text
record_outcome m e x = do
  update_task e.task_id (outcome x.result.status x.result x.receipt) m.stored_at
  append_receipt x.receipt
  notify_webhook e (status_text x.result.status) x.result.summary (some x.result.structured_output)
  return x

-- `dispatch` after the await, and the closure `run` of a job: the executor answered.
unfoldable pub settle : Services → Moment → Ticket → CoreAnswer → Action InvokeResult
unfolding record_outcome normalize_core_result
settle s m t x =
    record_outcome m t.envelope (normalize_core_result s m x t.envelope t.capability t.negotiation)

-- The receipt that is stored, if there is a task, is appended, and the requester is told.
unfoldable pub append_stored : Ticket → String → Action (Unit {0})
unfolding append_receipt notify_webhook get status_text
append_stored t error r = elim (get r.task_store t.envelope.task_id none) [
  | none ↦ (ok tt, r)
  | some q ↦ elim q.receipt [
    | none ↦ (ok tt, r)
    | some receipt ↦
        (do
          append_receipt receipt
          notify_webhook t.envelope (status_text failed) (some error) none)
          r
  ]
]

-- The closure `onDeadLetter`.
unfoldable pub on_dead_letter : Services → Moment → Ticket → String → Action (Unit {0})
unfolding dead_letter_result build_receipt update_task append_stored
on_dead_letter s m t error = do
  update_task t.envelope.task_id
      (outcome failed (dead_letter_result t error) (build_receipt s m t "dead_lettered"))
      m.stored_at
  append_stored t error
