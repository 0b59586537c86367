-- ===== src/ControlPlane/Orchestrator/State.antt =====
-- The state that control-plane/orchestrator.ts works on, and how its code runs: a call that throws
-- keeps what it wrote before.
use micro_agent_protocol.Base.{
  String, Option, Bool, List, [], ◌∷◌, ◌++◌, Result, ok, err, if◌then◌else◌, is_blank,
}
use micro_agent_protocol.Base.Json.{Value, Fields, text}
use micro_agent_protocol.Protocol.{
  TaskStatus, RequesterIdentity, ResultPackage, ExecutionReceipt, InvocationNegotiation,
}
use micro_agent_protocol.Core.Types.{PolicyAction, Intent, PolicyDocument}
use micro_agent_protocol.Core.Executor.{Executor, ExecuteError, Surroundings}
use micro_agent_protocol.Core.Executor
use micro_agent_protocol.Integration.Envelope.{TaskEnvelope, metadata_value}
use micro_agent_protocol.ControlPlane.Agents.{AgentDescriptor}
use micro_agent_protocol.ControlPlane.Registry.{Registry}
use micro_agent_protocol.ControlPlane.TaskGuards.{TaskError, Updates}
use micro_agent_protocol.ControlPlane.TaskStore.{TaskStore, SaveParams, save, update}
use micro_agent_protocol.ControlPlane.ReceiptStore.{ReceiptStore, ReceiptError, append}
use micro_agent_protocol.ControlPlane.AsyncQueue.State.{Queue, Limits}

-- What the orchestrator's code relies on: schema validation, which deletes from an envelope what its
-- schema does not list and leaves the rest (none where it throws), the signature of receipts, `JSON.parse`,
-- and `String` on a value that is neither a text nor missing; and the limits of its queue.
pub record Services : Type 0 where
  pub validate_envelope : TaskEnvelope → Option TaskEnvelope
  pub is_valid_result : ResultPackage → Bool
  pub is_valid_intent : Intent → Bool
  pub sign_receipt : ExecutionReceipt → String
  pub parse : String → Option Value
  pub show : Value → String
  pub limits : Limits

-- What a piece of code that runs without a break finds: new ids, the time as a number, as the
-- receipts write it and as the task store writes it, and the surroundings of the executor.
pub record Moment : Type 0 where
  pub context_id : String
  pub receipt_id : String
  pub now : String
  pub timestamp : String
  pub stored_at : String
  pub core : Surroundings

pub record PolicyCheck : Type 0 where
  pub action : PolicyAction
  pub reason : Option String
  pub policy_checks : List String

-- What the code after the checks of `dispatch` has in scope, and the closures of a job too.
pub record Ticket : Type 0 where
  pub envelope : TaskEnvelope
  pub capability : String
  pub descriptor : AgentDescriptor
  pub context_id : String
  pub idempotency_key : Option String
  pub negotiation : InvocationNegotiation
  pub decision : PolicyCheck
  pub intent : Intent

-- A call of `notifyWebhook` that has a URL to post to.
pub record Notice : Type 0 where
  pub webhook_url : String
  pub task_id : String
  pub order_id : Option String
  pub status : String
  pub summary : Option String
  pub structured_output : Option Fields

pub record ApprovalNotice : Type 0 where
  pub task_id : String
  pub capability : String
  pub target_agent : String
  pub reason : String
  pub requester : RequesterIdentity
  pub risk_class : String
  pub input_summary : Value
  pub approval_reference : String
  pub webhook_url : Option String

-- `jobs` are the tickets of the jobs that were put into the queue, `notices` and `approval_notices`
-- what was sent out.
pub record Runtime : Type 0 where
  pub registry : Registry
  pub task_store : TaskStore
  pub receipt_store : ReceiptStore
  pub async_queue : Queue
  pub jobs : List Ticket
  pub core_executor : Executor
  pub policy : PolicyDocument
  pub notices : List Notice
  pub approval_notices : List ApprovalNotice

pub record InvokeResult : Type 0 where
  pub result : ResultPackage
  pub receipt : ExecutionReceipt

pub data Failure : Type 0 where
  invalid_envelope invalid_result invalid_intent queue_full : Failure
  no_agent agent_disabled : String → Failure
  capability_unsupported capability_disabled extension_missing : String → String → Failure
  idempotency_conflict task_conflict : String → Failure
  output_mode_unsupported : String → Failure
  schema_version_unsupported : String → String → Failure
  policy_denied : String → Failure
  approval_task_mismatch : Failure
  approval_not_found not_awaiting_approval : String → Failure
  capability_mismatch target_mismatch invalid_reference : String → Failure
  task_not_found timed_out : String → Failure
  not_cancellable : TaskStatus → Failure
  executor_failed : String → Failure
  task_store_failed : TaskError → Failure
  receipt_store_failed : ReceiptError → Failure

abbrev pub Action : Type 0 → Type 0
Action A = Runtime → Result Failure A × Runtime

abbrev pub throw : {A : Type 0} → Failure → Action A
throw f r = (err f, r)

abbrev pub return : {A : Type 0} → A → Action A
return a r = (ok a, r)

infixl 5 ◌>>=◌ ◌>>◌
abbrev pub ◌>>=◌ : {A B : Type 0} → Action A → (A → Action B) → Action B
◌>>=◌ code next r = let (x, r') = code r in elim x [ ok a ↦ next a r' | err f ↦ (err f, r') ]

abbrev pub ◌>>◌ : {B : Type 0} → Action (Unit {0}) → Action B → Action B
code >> next = code >>= λ _. next

-- `this.taskStore.save(params)`.
unfoldable pub save_task : SaveParams → String → Action (Unit {0})
save_task p now r = elim (save r.task_store p now) [
  | ok (store, saved) ↦ (ok tt, record r { task_store = store })
  | err e ↦ (err (task_store_failed e), r)
]

-- `this.taskStore.update(task_id, updates)`.
unfoldable pub update_task : String → Updates → String → Action (Unit {0})
update_task task_id u now r = elim (update r.task_store task_id u now) [
  | ok (store, stored) ↦ (ok tt, record r { task_store = store })
  | err e ↦ (err (task_store_failed e), r)
]

-- `this.receiptStore.append(receipt)`.
unfoldable pub append_receipt : ExecutionReceipt → Action (Unit {0})
append_receipt receipt r = elim (append r.receipt_store receipt) [
  | ok store ↦ (ok tt, record r { receipt_store = store })
  | err e ↦ (err (receipt_store_failed e), r)
]

-- `notifyWebhook`: nothing is posted where the envelope names no URL.
unfoldable pub notify_webhook :
    TaskEnvelope → String → Option String → Option Fields → Action (Unit {0})
unfolding is_blank
notify_webhook e status summary output r = elim (metadata_value e "webhook_url") [
  | text url ↦ (
    ok tt,
    if is_blank url then r else record r {
      notices =
          r.notices
          ++ record {
            webhook_url = url;
            task_id = e.task_id;
            order_id = e.order_id;
            status = status;
            summary = summary;
            structured_output = output;
          }
            ∷ [];
    },
  )
  | _ ↦ (ok tt, r)
]

-- `setPolicy`, which passes the document on to the executor.
abbrev pub set_policy : PolicyDocument → Runtime → Runtime
set_policy p r = record r { policy = p; core_executor = Executor.set_policy r.core_executor p }
