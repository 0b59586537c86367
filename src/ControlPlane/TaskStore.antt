-- ===== src/ControlPlane/TaskStore.antt =====
-- control-plane/task-store.ts, without the database and the file: the maps of the class, its guards
-- and its operations. A time stamp is an argument; a method that throws leaves the store as it was.
pub mod Transitions
pub mod Update
pub mod Invariant
pub mod History
pub mod Tenants
pub mod Accepts
pub mod Complete
pub mod Receipts
mod Tests
use micro_agent_protocol.Base.{
  ℕ, zero, suc, String, Option, none, some, Bool, true, false, not, ◌&&◌, ◌||◌, List, [], ◌∷◌, map,
  filter, find?, any, if◌then◌else◌, or_else, str_eq, truthy, resolve_tenant_id, Result, ok, err,
  ◌>>=◌, ◌>>◌, throw_if,
}
use micro_agent_protocol.Base.Dict.{Dict, values, get as map_get, set as map_set, remove}
use micro_agent_protocol.Base.Json.{same_json}
use micro_agent_protocol.Protocol.{
  TaskStatus, accepted, proposed, awaiting_approval, denied, running, completed, failed, revoked,
  status_eq, RequesterIdentity, requester_value, ResultPackage, result_value, ExecutionReceipt,
  receipt_value, TaskRecord,
}
use micro_agent_protocol.ControlPlane.TaskGuards.{
  TaskError, is_terminal, task_transitions, assert_valid_transition, Updates, key_changed,
  text_changed, requester_changed, check_result, receipt_foreign, result_changed, receipt_changed,
  is_missing, check_move, validate_transition, terminal_transition, invalid_transition,
  idempotency_key_exists, idempotency_key_immutable, requester_immutable, capability_immutable,
  target_agent_immutable, result_task_mismatch, result_status_mismatch, receipt_task_mismatch,
  terminal_immutable, transition_incomplete,
}

pub record TaskStore : Type 0 where
  pub tasks : Dict TaskRecord
  pub idempotency_index : Dict String

pub record SaveParams : Type 0 where
  pub task_id : String
  pub context_id : Option String
  pub requester_identity : RequesterIdentity
  pub idempotency_key : Option String
  pub capability : String
  pub target_agent : String
  pub result : ResultPackage
  pub receipt : ExecutionReceipt

-- A store with neither file nor database.
unfoldable pub empty : TaskStore
empty = record { tasks = []; idempotency_index = [] }

unfoldable pub check_existing : Option TaskRecord → TaskStatus → Result TaskError (Unit {0})
check_existing none next = ok tt
check_existing (some existing) next = assert_valid_transition existing.status next

-- `existingTaskId && existingTaskId !== params.task_id`, for a key that is given and not empty.
unfoldable pub key_taken : Option String → String → Bool
key_taken none task_id = false
key_taken (some other) task_id = truthy other && not (str_eq other task_id)

unfoldable pub check_key : Dict String → Option String → String → Result TaskError (Unit {0})
unfolding key_taken
check_key index none task_id = ok tt
check_key index (some key) task_id =
    throw_if (truthy key && key_taken (map_get key index) task_id) (idempotency_key_exists key)

unfoldable pub index_key : Option String → String → Dict String → Dict String
index_key none task_id index = index
index_key (some key) task_id index = if truthy key then map_set key task_id index else index

unfoldable pub saved_record : SaveParams → String → TaskRecord
saved_record p now = record {
  task_id = p.task_id;
  order_id = none;
  context_id = p.context_id;
  requester_identity = p.requester_identity;
  idempotency_key = p.idempotency_key;
  capability = p.capability;
  target_agent = p.target_agent;
  status = p.result.status;
  result = some p.result;
  receipt = some p.receipt;
  updated_at = now;
}

unfoldable pub store_saved : TaskStore → TaskRecord → TaskStore
unfolding index_key
store_saved s r = record {
  tasks = map_set r.task_id r s.tasks;
  idempotency_index = index_key r.idempotency_key r.task_id s.idempotency_index;
}

unfoldable pub save : TaskStore → SaveParams → String → Result TaskError (TaskStore × TaskRecord)
save s p now = do
  check_existing (map_get p.task_id s.tasks) p.result.status
  check_key s.idempotency_index p.idempotency_key p.task_id
  ok (store_saved s (saved_record p now), saved_record p now)

-- `applyHistoryLength`: 0 leaves the result and the receipt out.
pub apply_history_length : TaskRecord → Option ℕ → TaskRecord
apply_history_length r none = r
apply_history_length r (some zero) = record r { result = none; receipt = none }
apply_history_length r (some (suc n)) = r

unfoldable pub get : TaskStore → String → Option ℕ → Option TaskRecord
unfolding apply_history_length
get s task_id history = elim (map_get task_id s.tasks) [
  | none ↦ none
  | some r ↦ some (apply_history_length r history)
]

abbrev pub tenant_of : TaskRecord → String
tenant_of r = resolve_tenant_id r.requester_identity.tenant_id

unfoldable pub get_by_tenant : TaskStore → String → String → Option ℕ → Option TaskRecord
unfolding apply_history_length
get_by_tenant s task_id tenant_id history = elim (map_get task_id s.tasks) [
  | none ↦ none
  | some r ↦
      if str_eq (tenant_of r) (resolve_tenant_id (some tenant_id))
      then some (apply_history_length r history)
      else none
]

unfoldable pub list : TaskStore → Option ℕ → List TaskRecord
unfolding apply_history_length
list s none = values s.tasks
list s (some n) = map (λ r. apply_history_length r (some n)) (values s.tasks)

unfoldable pub list_by_tenant : TaskStore → String → Option ℕ → List TaskRecord
unfolding list
list_by_tenant s tenant_id history =
    filter (λ r. str_eq (tenant_of r) (resolve_tenant_id (some tenant_id))) (list s history)

unfoldable pub find_by_idempotency_key : TaskStore → String → Option TaskRecord
find_by_idempotency_key s key = elim (map_get key s.idempotency_index) [
  | none ↦ none
  | some task_id ↦ if truthy task_id then map_get task_id s.tasks else none
]

pub receipts_of : List TaskRecord → List ExecutionReceipt
receipts_of [] = []
receipts_of (r ∷ rs) = elim r.receipt [
  | none ↦ receipts_of rs
  | some receipt ↦ receipt ∷ receipts_of rs
]

-- A tenant that is not given, or empty, lists all.
unfoldable pub list_receipts : TaskStore → Option String → List ExecutionReceipt
unfolding receipts_of list_by_tenant list
list_receipts s none = receipts_of (list s none)
list_receipts s (some tenant_id) =
    receipts_of (if truthy tenant_id then list_by_tenant s tenant_id none else list s none)

unfoldable pub get_receipt : TaskStore → String → Option String → Option ExecutionReceipt
unfolding list_receipts
get_receipt s receipt_id tenant_id =
    find? (λ receipt. str_eq receipt.receipt_id receipt_id) (list_receipts s tenant_id)

unfoldable pub unindex_key : Option String → Dict String → Dict String
unindex_key none index = index
unindex_key (some key) index = if truthy key then remove key index else index

unfoldable pub delete : TaskStore → String → TaskStore × Bool
unfolding unindex_key
delete s task_id = elim (map_get task_id s.tasks) [
  | none ↦ (s, false)
  | some existing ↦ (
    record {
      tasks = remove task_id s.tasks;
      idempotency_index = unindex_key existing.idempotency_key s.idempotency_index;
    },
    true,
  )
]

-- `updates.k` where it is given, else the old value.
abbrev pub keep {ℓ} : {A : Type ℓ} → Option A → Option A → Option A
keep none old = old
keep (some new) old = some new

-- `{ ...existing, ...updates, task_id, status, updated_at }`.
unfoldable pub updated_record : TaskRecord → Updates → String → TaskRecord
updated_record existing u now = record {
  task_id = existing.task_id;
  order_id = keep u.order_id existing.order_id;
  context_id = keep u.context_id existing.context_id;
  requester_identity = or_else u.requester_identity existing.requester_identity;
  idempotency_key = keep u.idempotency_key existing.idempotency_key;
  capability = or_else u.capability existing.capability;
  target_agent = or_else u.target_agent existing.target_agent;
  status = or_else u.status existing.status;
  result = keep u.result existing.result;
  receipt = keep u.receipt existing.receipt;
  updated_at = now;
}

-- `undefined` where the task is not there.
unfoldable pub update :
    TaskStore → String → Updates → String → Result TaskError (TaskStore × Option TaskRecord)
update s task_id u now = elim (map_get task_id s.tasks) [
  | none ↦ ok (s, none)
  | some existing ↦ do
    validate_transition existing (or_else u.status existing.status) u
    ok (
      record s { tasks = map_set task_id (updated_record existing u now) s.tasks },
      some (updated_record existing u now),
    )
]

-- Reading the stored list back: `hydrate`, once the file is parsed.
pub hydrate_from : TaskStore → List TaskRecord → TaskStore
unfolding store_saved
hydrate_from s [] = s
hydrate_from s (r ∷ rs) = hydrate_from (if truthy r.task_id then store_saved s r else s) rs

unfoldable pub hydrate : List TaskRecord → TaskStore
unfolding hydrate_from empty
hydrate rs = hydrate_from empty rs
