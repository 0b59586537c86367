-- ===== src/ControlPlane/TaskGuards.antt =====
-- control-plane/task-store.ts: the statuses of a task, their transition table, and the guard that an
-- update of a task passes.
use micro_agent_protocol.Base.{
  String, Option, none, some, Bool, true, false, not, ◌||◌, List, [], ◌∷◌, any, if◌then◌else◌,
  str_eq, Result, ok, err, ◌>>◌, throw_if,
}
use micro_agent_protocol.Base.Json.{same_json}
use micro_agent_protocol.Protocol.{
  TaskStatus, accepted, proposed, awaiting_approval, denied, running, completed, failed, revoked,
  status_eq, RequesterIdentity, requester_value, ResultPackage, result_value, ExecutionReceipt,
  receipt_value, TaskRecord,
}

pub data TaskError : Type 0 where
  terminal_transition : TaskError
  invalid_transition : TaskStatus → TaskStatus → TaskError
  idempotency_key_exists idempotency_key_immutable : String → TaskError
  requester_immutable capability_immutable target_agent_immutable : String → TaskError
  result_task_mismatch result_status_mismatch receipt_task_mismatch : String → TaskError
  terminal_immutable transition_incomplete : String → TaskError

-- TERMINAL_TASK_STATUSES.
abbrev pub is_terminal : TaskStatus → Bool
is_terminal completed = true
is_terminal failed = true
is_terminal denied = true
is_terminal revoked = true
is_terminal _ = false

-- TASK_TRANSITIONS.
abbrev pub task_transitions : TaskStatus → List TaskStatus
task_transitions accepted = proposed ∷ running ∷ completed ∷ failed ∷ denied ∷ revoked ∷ []
task_transitions proposed = awaiting_approval ∷ running ∷ denied ∷ revoked ∷ []
task_transitions awaiting_approval = running ∷ completed ∷ failed ∷ denied ∷ revoked ∷ []
task_transitions running = completed ∷ failed ∷ revoked ∷ []
task_transitions _ = []

unfoldable pub assert_valid_transition : TaskStatus → TaskStatus → Result TaskError (Unit {0})
assert_valid_transition current next =
    if status_eq current next
    then ok tt
    else if is_terminal current
    then err terminal_transition
    else if any (status_eq next) (task_transitions current)
    then ok tt
    else err (invalid_transition current next)

-- `Partial<Omit<TaskRecord, "task_id">>`: a key that is left out is `none`. Callers that write a key
-- with the value undefined, which would erase the old one, are left out.
pub record Updates : Type 0 where
  pub order_id : Option String
  pub context_id : Option String
  pub requester_identity : Option RequesterIdentity
  pub idempotency_key : Option String
  pub capability : Option String
  pub target_agent : Option String
  pub status : Option TaskStatus
  pub result : Option ResultPackage
  pub receipt : Option ExecutionReceipt

-- `updates.k !== undefined && updates.k !== existing.k`, for a key that may be missing and for one
-- that may not.
unfoldable pub key_changed : Option String → Option String → Bool
key_changed none old = false
key_changed (some new) none = true
key_changed (some new) (some old) = not (str_eq new old)

unfoldable pub text_changed : Option String → String → Bool
text_changed none old = false
text_changed (some new) old = not (str_eq new old)

unfoldable pub requester_changed : Option RequesterIdentity → RequesterIdentity → Bool
requester_changed none old = false
requester_changed (some new) old = not (same_json (requester_value new) (requester_value old))

unfoldable pub check_result :
    String → TaskStatus → Option ResultPackage → Result TaskError (Unit {0})
check_result task_id next none = ok tt
check_result task_id next (some result) = do
  throw_if (not (str_eq result.task_id task_id)) (result_task_mismatch task_id)
  throw_if (not (status_eq result.status next)) (result_status_mismatch task_id)

unfoldable pub receipt_foreign : Option ExecutionReceipt → String → Bool
receipt_foreign none task_id = false
receipt_foreign (some receipt) task_id = elim receipt.task_id [
  | none ↦ true
  | some other ↦ not (str_eq other task_id)
]

unfoldable pub result_changed : Option ResultPackage → Option ResultPackage → Bool
result_changed none old = false
result_changed (some new) none = true
result_changed (some new) (some old) = not (same_json (result_value new) (result_value old))

unfoldable pub receipt_changed : Option ExecutionReceipt → Option ExecutionReceipt → Bool
receipt_changed none old = false
receipt_changed (some new) none = true
receipt_changed (some new) (some old) = not (same_json (receipt_value new) (receipt_value old))

abbrev pub is_missing {ℓ} : {A : Type ℓ} → Option A → Bool
is_missing none = true
is_missing (some _) = false

-- The end of `validateTransition`: the status stays, or moves by the table.
unfoldable pub check_move : TaskRecord → TaskStatus → Updates → Result TaskError (Unit {0})
check_move existing next u =
    if status_eq existing.status next
    then (if is_terminal existing.status
        then throw_if
            (result_changed u.result existing.result || receipt_changed u.receipt existing.receipt)
            (terminal_immutable existing.task_id)
        else ok tt)
    else do
      assert_valid_transition existing.status next
      throw_if (is_missing u.result || is_missing u.receipt)
          (transition_incomplete existing.task_id)

unfoldable pub validate_transition : TaskRecord → TaskStatus → Updates → Result TaskError (Unit {0})
validate_transition existing next u = do
  throw_if (key_changed u.idempotency_key existing.idempotency_key)
      (idempotency_key_immutable existing.task_id)
  throw_if (requester_changed u.requester_identity existing.requester_identity)
      (requester_immutable existing.task_id)
  throw_if (text_changed u.capability existing.capability) (capability_immutable existing.task_id)
  throw_if (text_changed u.target_agent existing.target_agent)
      (target_agent_immutable existing.task_id)
  check_result existing.task_id next u.result
  throw_if (receipt_foreign u.receipt existing.task_id) (receipt_task_mismatch existing.task_id)
  check_move existing next u
