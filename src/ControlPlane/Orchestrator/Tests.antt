-- ===== src/ControlPlane/Orchestrator/Tests.antt =====
-- The orchestrator on concrete requests.
use micro_agent_protocol.Base.{
  arith, ◌≡◌, ◌≢◌, ◌↔◌, refl, String, Option, none, some, true, List, [], ◌∷◌, map, length, Result,
  ok, err, is_blank, resolve_tenant_id,
}
use micro_agent_protocol.Base.Dict.{get as map_get, set as map_set, values}
use micro_agent_protocol.Base.Json.{lookup, boolean, Fields, fields_of}
use micro_agent_protocol.Protocol.{
  TaskRecord, TaskStatus, awaiting_approval, accepted, running, failed, completed, revoked,
  output_mode_text, ResultPackage, ExecutionReceipt, status_text, action_text,
  execution_status_text, executed,
}
use micro_agent_protocol.Protocol
use micro_agent_protocol.Core.Types.{allow, deny}
use micro_agent_protocol.Core.Intent.{normalize, trim}
use micro_agent_protocol.Core.Policy.Engine.{evaluate}
use micro_agent_protocol.Integration.Envelope.{TaskEnvelope}
use micro_agent_protocol.Integration.EcpBridge.{map_envelope_to_intent}
use micro_agent_protocol.ControlPlane.Registry.{get as get_agent, get_capability_descriptor}
use micro_agent_protocol.ControlPlane.TaskGuards.{is_terminal}
use micro_agent_protocol.ControlPlane.TaskStore.{
  save, get, check_existing, check_key, key_taken, index_key, store_saved, saved_record,
  find_by_idempotency_key,
}
use micro_agent_protocol.ControlPlane.TaskStore.Invariant.{IsValid}
use micro_agent_protocol.ControlPlane.TaskStore.Complete.{IsComplete}
use micro_agent_protocol.ControlPlane.TaskStore.History.{Follows}
use micro_agent_protocol.ControlPlane.ReceiptStore.{append, added}
use micro_agent_protocol.ControlPlane.AsyncQueue.State.{enqueue, has_capacity, kickoff}
use micro_agent_protocol.ControlPlane.Orchestrator.State.{
  Moment, Ticket, Runtime, InvokeResult, Failure, task_conflict, idempotency_conflict,
  policy_denied, invalid_envelope, save_task, append_receipt, notify_webhook,
}
use micro_agent_protocol.ControlPlane.Orchestrator.Negotiation.{
  negotiated, same_version, negotiate_invocation, negotiate_schema_version, includes_mode,
  delivery_mode_of,
}
use micro_agent_protocol.ControlPlane.Orchestrator.Outputs.{
  build_receipt, build_unsigned_receipt, core_action, occurs, approval_result, pending_result,
  running_result, ticket_result,
}
use micro_agent_protocol.ControlPlane.Orchestrator.Plan.{
  DispatchRequest, prepare, with_envelope, resolve_descriptor, check_extensions, recall_or_decide,
  recall_by_key, recall_found, recall, resolve_idempotency_key, same_identity, decide,
  evaluate_policy,
}
use micro_agent_protocol.ControlPlane.Orchestrator.Dispatch.{
  Reply, dispatch_valid, validated_result, awaits_executor, save_params, dispatch, carry_out,
  refuse, hold_for_approval, start, start_async, start_sync, enqueue_job,
}
use micro_agent_protocol.ControlPlane.Orchestrator.Events.{
  Event, dispatches, cancels, happen, happen_all,
}
use micro_agent_protocol.ControlPlane.Orchestrator.Approval.{
  Approved, approve_valid, with_valid, approve, find_pending, check_pending, expected_reference,
}
use micro_agent_protocol.ControlPlane.Orchestrator.Cancel.{cancel_task}
use micro_agent_protocol.ControlPlane.Orchestrator.Prepared.{policy_action, IsFor}
use micro_agent_protocol.ControlPlane.Orchestrator.Obedience.{NothingStarts, dispatch_obeys_policy}
use micro_agent_protocol.ControlPlane.Orchestrator.Redelivery.{
  Answers, known_answer, redelivery_exact,
}
use micro_agent_protocol.ControlPlane.Orchestrator.Approvals.{IsApprovable, approve_exact}
use micro_agent_protocol.ControlPlane.Orchestrator.Signatures.{IsSigned}
use micro_agent_protocol.ControlPlane.Orchestrator.Receipts.{receipts-IsSigned}
use micro_agent_protocol.ControlPlane.Orchestrator.History.{
  NamesTasks, orchestrated-IsValid, tasks_follow_table,
}
use micro_agent_protocol.ControlPlane.Orchestrator.Cancellation.{
  IsCancellable, cancelled_stays_revoked,
}
use micro_agent_protocol.ControlPlane.Orchestrator.Fixtures.{
  services, at, payer, new_runtime, keyed, request, approval,
}

abbrev async_asked : Option Fields
async_asked = some (fields_of (("async", boolean true) ∷ []))

abbrev statuses : Runtime → List TaskStatus
statuses r = map TaskRecord.status (values r.task_store.tasks)

-- A dispatch, opened down to the stores.
unfoldable send : Moment → DispatchRequest → Runtime → Result Failure Reply × Runtime
unfolding dispatch dispatch_valid prepare resolve_descriptor check_extensions recall_or_decide
    recall_by_key recall_found recall same_identity resolve_idempotency_key decide evaluate_policy
    get_agent get_capability_descriptor find_by_idempotency_key map_get map_set get
    negotiate_invocation negotiate_schema_version includes_mode output_mode_text delivery_mode_of
    map_envelope_to_intent normalize trim evaluate lookup is_blank carry_out refuse
    hold_for_approval start start_async start_sync enqueue_job save_task append_receipt
    notify_webhook save check_existing check_key key_taken index_key store_saved saved_record append
    added approval_result pending_result running_result ticket_result build_receipt
    build_unsigned_receipt core_action occurs new_runtime resolve_tenant_id has_capacity enqueue
    kickoff
send m q r = dispatch services m q r

abbrev large : DispatchRequest
large = request "t1" "payment.large" keyed

held : Runtime
unfolding send
held = (send (at "1") large new_runtime).1

held_status : statuses held ≡ awaiting_approval ∷ []
unfolding held send
held_status = refl

denied_status :
    (statuses (send (at "1") (request "t1" "payment.steal" none) new_runtime).1 ≡ [])
    × ((send (at "1") (request "t1" "payment.steal" none) new_runtime).0
        ≡ err (policy_denied "Default deny - no rules matched"))
unfolding send
denied_status = (refl, refl)

sent_status :
    statuses (send (at "1") (request "t1" "payment.send" none) new_runtime).1 ≡ accepted ∷ []
unfolding send
sent_status = refl

queued_status :
    let queued = (send (at "1") (request "t1" "payment.send" async_asked) new_runtime).1 in
    (statuses queued ≡ running ∷ []) × (length queued.jobs ≡ 1)
unfolding send
queued_status = (refl, refl)

-- The key is that of another task.
key_conflict :
    (send (at "2") (request "t2" "payment.send" keyed) held).0 ≡ err (idempotency_conflict "k1")
unfolding held send
key_conflict = refl

-- The ticket, the outcome and the record of the task that is held.
abbrev large_ticket : Ticket
unfolding delivery_mode_of evaluate_policy map_envelope_to_intent lookup
large_ticket = record {
  envelope = large.envelope;
  capability = "payment.large";
  descriptor = payer;
  context_id = "c";
  idempotency_key = some "k1";
  negotiation = negotiated large.envelope none (same_version none);
  decision = evaluate_policy services (at "1") new_runtime large.envelope "payment.large";
  intent = map_envelope_to_intent services.parse large.envelope "payment.large";
}

large_result : ResultPackage
unfolding approval_result
large_result = validated_result (approval_result large_ticket)

large_receipt : ExecutionReceipt
unfolding build_receipt
large_receipt = build_receipt services (at "1") large_ticket "approval_required"

large_task : TaskRecord
unfolding saved_record large_result large_receipt
large_task = saved_record (save_params large_ticket large_result large_receipt) "1"

abbrev first : List (Moment × Event)
first = (at "1", dispatches large) ∷ []

dispatch_obeys_policy_example :
    let call = dispatch services (at "1") large new_runtime in
    (services.validate_envelope large.envelope ≡ none → call ≡ (err invalid_envelope, new_runtime))
    × ((e : TaskEnvelope)
        → services.validate_envelope large.envelope ≡ some e
        → (policy_action services (at "1") new_runtime (with_envelope large e) ≢ allow
            → NothingStarts new_runtime call)
          × (policy_action services (at "1") new_runtime (with_envelope large e) ≡ deny
              → (call.1.task_store ≡ new_runtime.task_store)
                × (call.1.receipt_store ≡ new_runtime.receipt_store))
          × ((t : Ticket)
              → call.0 ≡ ok (awaits_executor t)
              → (services.is_valid_intent (map_envelope_to_intent services.parse e "payment.large")
                  ≡ true)
                × IsFor services (with_envelope large e) t))
dispatch_obeys_policy_example = dispatch_obeys_policy services (at "1") new_runtime large

redelivery_exact_example :
    let call = dispatch services (at "2") large held in
    let reply = known_answer large_task large_result large_receipt in
    ((key : String)
      → resolve_idempotency_key large.envelope ≡ some key
      → find_by_idempotency_key held.task_store key ≡ some large_task
      → Answers held large payer large_task (idempotency_conflict key) reply call)
    × (recall_by_key held large.envelope "payment.large" payer ≡ ok none
        → map_get "t1" held.task_store.tasks ≡ some large_task
        → Answers held large payer large_task (task_conflict "t1") reply call)
unfolding held send large_task
redelivery_exact_example =
    redelivery_exact services (at "2") held large large.envelope payer large_task large_result
      large_receipt refl refl refl refl refl

names_tasks : NamesTasks services
names_tasks e e' h = ground arith

orchestrated-IsValid_example :
    IsValid (happen_all services new_runtime first).task_store
    × IsComplete (happen_all services new_runtime first).task_store
unfolding new_runtime
orchestrated-IsValid_example = orchestrated-IsValid services names_tasks new_runtime first refl

receipts-IsSigned_example :
    ((k : String) (x : ExecutionReceipt)
      → map_get k (happen_all services new_runtime first).receipt_store.receipts ≡ some x
      → IsSigned services x)
    × ((k : String) (q : TaskRecord) (x : ExecutionReceipt)
        → map_get k (happen_all services new_runtime first).task_store.tasks ≡ some q
        → q.receipt ≡ some x
        → IsSigned services x)
unfolding new_runtime
receipts-IsSigned_example = receipts-IsSigned services new_runtime first refl refl

tasks_follow_table_example :
    let after =
      happen_all services
        (happen_all services new_runtime first)
        ((at "2", cancels "t1" none) ∷ []) in
    (q' : TaskRecord) × (map_get "t1" after.task_store.tasks ≡ some q')
    × Follows large_task.status q'.status
    × (is_terminal large_task.status ≡ true → q'.status ≡ large_task.status)
unfolding new_runtime held send large_task happen_all happen
tasks_follow_table_example =
    tasks_follow_table services names_tasks new_runtime first ((at "2", cancels "t1" none) ∷ [])
      "t1" large_task refl refl

approve_exact_example :
    ((x : Approved) × (approve services held (approval "approval:t1") ≡ ok x)) ↔ (
      (e : TaskEnvelope) × (services.validate_envelope (approval "approval:t1").envelope ≡ some e)
      × IsApprovable services held (with_valid (approval "approval:t1") e))
approve_exact_example = approve_exact services held (approval "approval:t1")

-- The reference that the held task was given is the one that is asked for.
approved_reference : (x : Approved) × (approve services held (approval "approval:t1") ≡ ok x)
unfolding held send approve approve_valid find_pending check_pending expected_reference
approved_reference = (_, refl)

cancelled_stays_revoked_example :
    let now = happen_all services new_runtime first in
    let (answer, left) = cancel_task services (at "2") "t1" none now in
    (((x : InvokeResult) × (answer ≡ ok x)) ↔ IsCancellable services (at "2") now "t1" none)
    × ((x : InvokeResult)
        → answer ≡ ok x
        → (q : TaskRecord) × (map_get "t1" (happen_all services left first).task_store.tasks
            ≡ some q)
          × (q.status ≡ revoked))
unfolding new_runtime
cancelled_stays_revoked_example =
    cancelled_stays_revoked services names_tasks new_runtime first first (at "2") "t1" none refl

-- The receipt of a job that failed for the last time says that it was executed, and went well.
dead_letter_receipt :
    let receipt = build_receipt services (at "3") large_ticket "dead_lettered" in
    (receipt.action ≡ executed) × (receipt.status ≡ Protocol.ExecutionStatus.ok)
unfolding send
dead_letter_receipt = (refl, refl)
