-- ===== src/ControlPlane/TaskStore/Accepts.antt =====
-- An update that the guard of control-plane/task-store.ts lets through.
use micro_agent_protocol.Base.{◌≡◌, refl, some, none, false, ok, arith, str_eq_iff, str_eq_refl}
use micro_agent_protocol.Protocol.{
  TaskStatus, status_eq, ResultPackage, ExecutionReceipt, TaskRecord,
}
use micro_agent_protocol.ControlPlane.TaskGuards.{
  Updates, validate_transition, check_result, check_move, receipt_foreign, key_changed,
  text_changed, requester_changed,
}
use micro_agent_protocol.ControlPlane.TaskStore.Transitions.{Transition, propose, Transition-assert}

Transition-moves : {a b : TaskStatus} → Transition a b → status_eq a b ≡ false
Transition-moves propose = refl
Transition-moves _ = refl

-- A move along an arrow of the table, with a result and a receipt of the task, and nothing else.
pub validate-move :
    (r : TaskRecord) (next : TaskStatus) (u : Updates) (p : ResultPackage) (q : ExecutionReceipt)
    → Transition r.status next
    → u.idempotency_key ≡ none
    → u.requester_identity ≡ none
    → u.capability ≡ none
    → u.target_agent ≡ none
    → u.result ≡ some p
    → u.receipt ≡ some q
    → p.task_id ≡ r.task_id
    → p.status ≡ next
    → q.task_id ≡ some r.task_id
    → validate_transition r next u ≡ ok tt
unfolding validate_transition check_result check_move receipt_foreign key_changed text_changed
    requester_changed
validate-move r next u p q moves a b c d e f same is own =
    let allowed = Transition-assert moves in
    let apart = Transition-moves moves in
    ground (arith, str_eq_iff p.task_id r.task_id, str_eq_refl r.task_id)
