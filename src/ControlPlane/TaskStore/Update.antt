-- ===== src/ControlPlane/TaskStore/Update.antt =====
-- What `TaskStore.update` of control-plane/task-store.ts guarantees of the record that it stores.
use micro_agent_protocol.Base.{
  ◌≡◌, refl, sym, ap, ◌∙◌, subst, ◌⊎◌, inl, inr, ℕ, List, String, Option, none, some, true, false,
  ok, or_else, arith, Option-cases, str_eq_iff,
}
use micro_agent_protocol.Base.Dict.{get as map_get, set as map_set, get-set_self}
use micro_agent_protocol.Base.Json.{stringify, same_json_iff}
use micro_agent_protocol.Protocol.{
  TaskStatus, ResultPackage, result_value, ExecutionReceipt, receipt_value, TaskRecord,
  requester_value, RequesterIdentity,
}
use micro_agent_protocol.ControlPlane.TaskGuards.{
  Updates, is_terminal, assert_valid_transition, validate_transition, check_result, check_move,
  key_changed, text_changed, requester_changed, receipt_foreign, result_changed, receipt_changed,
}
use micro_agent_protocol.ControlPlane.TaskStore.{TaskStore, updated_record, update, keep}
use micro_agent_protocol.ControlPlane.TaskStore.Transitions.{
  Transition, status_eq→eq, assert-Transition,
}

-- An update that stores a record passed the guards on the record that was there.
pub update-stores :
    (s s' : TaskStore) (k : String) (u : Updates) (now : String) (r r' : TaskRecord)
    → map_get k s.tasks ≡ some r
    → update s k u now ≡ ok (s', some r')
    → (validate_transition r (or_else u.status r.status) u ≡ ok tt)
      × (s' ≡ record s { tasks = map_set k (updated_record r u now) s.tasks })
      × (r' ≡ updated_record r u now)
unfolding update
update-stores s s' k u now r r' found h = (ground arith, ground arith, ground arith)

pub update-found :
    (s s' : TaskStore) (k : String) (u : Updates) (now : String) (r' : TaskRecord)
    → update s k u now ≡ ok (s', some r')
    → (r : TaskRecord) × (map_get k s.tasks ≡ some r)
unfolding update
update-found s s' k u now r' h = elim (Option-cases (map_get k s.tasks)) [
  | inl e ↦ absurd (ground arith)
  | inr (r, e) ↦ (r, e)
]

-- The parts of the guard.
pub record Validated (r : TaskRecord) (next : TaskStatus) (u : Updates) : Type 0 where
  pub key_kept : key_changed u.idempotency_key r.idempotency_key ≡ false
  pub requester_kept : requester_changed u.requester_identity r.requester_identity ≡ false
  pub capability_kept : text_changed u.capability r.capability ≡ false
  pub target_kept : text_changed u.target_agent r.target_agent ≡ false
  pub result_checked : check_result r.task_id next u.result ≡ ok tt
  pub receipt_own : receipt_foreign u.receipt r.task_id ≡ false
  pub moved : check_move r next u ≡ ok tt

pub validate-Validated :
    (r : TaskRecord) (next : TaskStatus) (u : Updates)
    → validate_transition r next u ≡ ok tt
    → Validated r next u
unfolding validate_transition
validate-Validated r next u h = ground arith

-- The statuses before and after, once the move is allowed.
pub check_move-Transition :
    (r : TaskRecord) (next : TaskStatus) (u : Updates)
    → check_move r next u ≡ ok tt
    → (r.status ≡ next) ⊎ Transition r.status next
unfolding check_move
check_move-Transition r next u h =
    ground (arith, status_eq→eq r.status next, assert-Transition r.status next)

-- A move brings a result with it.
pub check_move-still :
    (r : TaskRecord) (next : TaskStatus) (u : Updates)
    → u.result ≡ none
    → check_move r next u ≡ ok tt
    → next ≡ r.status
unfolding check_move
check_move-still r next u e h = ground (arith, status_eq→eq r.status next)

check_move-terminal :
    (r : TaskRecord) (next : TaskStatus) (u : Updates)
    → is_terminal r.status ≡ true
    → check_move r next u ≡ ok tt
    → (next ≡ r.status)
      × (result_changed u.result r.result ≡ false)
      × (receipt_changed u.receipt r.receipt ≡ false)
unfolding check_move assert_valid_transition
check_move-terminal r next u t h = ground (arith, status_eq→eq r.status next)

-- The JSON text of a result and of a receipt, if there is one.
abbrev pub result_text : Option ResultPackage → Option (List ℕ)
result_text none = none
result_text (some p) = some (stringify (result_value p))

abbrev pub receipt_text : Option ExecutionReceipt → Option (List ℕ)
receipt_text none = none
receipt_text (some p) = some (stringify (receipt_value p))

keep-result :
    (new old : Option ResultPackage)
    → result_changed new old ≡ false
    → result_text (keep new old) ≡ result_text old
unfolding result_changed
keep-result none old h = refl
keep-result (some new) none h = cc
keep-result (some new) (some old) h =
    ground (arith, same_json_iff (result_value new) (result_value old))

keep-receipt :
    (new old : Option ExecutionReceipt)
    → receipt_changed new old ≡ false
    → receipt_text (keep new old) ≡ receipt_text old
unfolding receipt_changed
keep-receipt none old h = refl
keep-receipt (some new) none h = cc
keep-receipt (some new) (some old) h =
    ground (arith, same_json_iff (receipt_value new) (receipt_value old))

keep-key : (new old : Option String) → key_changed new old ≡ false → keep new old ≡ old
unfolding key_changed
keep-key none old h = refl
keep-key (some new) none h = cc
keep-key (some new) (some old) h = ground (arith, str_eq_iff new old)

keep-text :
    (new : Option String) (old : String) → text_changed new old ≡ false → or_else new old ≡ old
unfolding text_changed
keep-text none old h = refl
keep-text (some new) old h = ground (arith, str_eq_iff new old)

keep-requester :
    (new : Option RequesterIdentity) (old : RequesterIdentity)
    → requester_changed new old ≡ false
    → stringify (requester_value (or_else new old)) ≡ stringify (requester_value old)
unfolding requester_changed
keep-requester none old h = refl
keep-requester (some new) old h =
    ground (arith, same_json_iff (requester_value new) (requester_value old))

-- What no update changes: whose task it is, what it may do, and under which key it is found.
pub record SameTask (r r' : TaskRecord) : Type 0 where
  pub same_id : r'.task_id ≡ r.task_id
  pub same_key : r'.idempotency_key ≡ r.idempotency_key
  pub same_requester :
      stringify (requester_value r'.requester_identity)
      ≡ stringify (requester_value r.requester_identity)
  pub same_capability : r'.capability ≡ r.capability
  pub same_target : r'.target_agent ≡ r.target_agent

pub updated-SameTask :
    (r : TaskRecord) (u : Updates) (now : String)
    → Validated r (or_else u.status r.status) u
    → SameTask r (updated_record r u now)
unfolding updated_record
updated-SameTask r u now v = record {
  same_id = refl;
  same_key = keep-key u.idempotency_key r.idempotency_key v.key_kept;
  same_requester = keep-requester u.requester_identity r.requester_identity v.requester_kept;
  same_capability = keep-text u.capability r.capability v.capability_kept;
  same_target = keep-text u.target_agent r.target_agent v.target_kept;
}

-- An update that succeeds stores, under the task's id, a record of the same task whose status is
-- the old one or follows it by the transition table.
pub update-Transition :
    (s s' : TaskStore) (k : String) (u : Updates) (now : String) (r r' : TaskRecord)
    → map_get k s.tasks ≡ some r
    → update s k u now ≡ ok (s', some r')
    → (map_get k s'.tasks ≡ some r')
      × SameTask r r'
      × ((r.status ≡ r'.status) ⊎ Transition r.status r'.status)
unfolding updated_record
update-Transition s s' k u now r r' found h =
    let (valid, stored, is) = update-stores s s' k u now r r' found h in
    let v = validate-Validated r (or_else u.status r.status) u valid in
    (
      ground (arith, get-set_self k (updated_record r u now) s.tasks),
      subst (SameTask r) (sym is) (updated-SameTask r u now v),
      ground (arith, check_move-Transition r (or_else u.status r.status) u v.moved),
    )

-- An update of a task in a terminal status, if it succeeds at all, leaves its status and the JSON
-- texts of its result and of its receipt as they were.
pub update_terminal :
    (s s' : TaskStore) (k : String) (u : Updates) (now : String) (r r' : TaskRecord)
    → map_get k s.tasks ≡ some r
    → is_terminal r.status ≡ true
    → update s k u now ≡ ok (s', some r')
    → (r'.status ≡ r.status)
      × (result_text r'.result ≡ result_text r.result)
      × (receipt_text r'.receipt ≡ receipt_text r.receipt)
unfolding updated_record
update_terminal s s' k u now r r' found t h =
    let (valid, stored, is) = update-stores s s' k u now r r' found h in
    let v = validate-Validated r (or_else u.status r.status) u valid in
    let (same, result, receipt) = check_move-terminal r (or_else u.status r.status) u t v.moved in
    (
      ground arith,
      ap (λ (q : TaskRecord). result_text q.result) is ∙ keep-result u.result r.result result,
      ap (λ (q : TaskRecord). receipt_text q.receipt) is ∙ keep-receipt u.receipt r.receipt receipt,
    )

pub updated_record-status :
    (r : TaskRecord) (u : Updates) (now : String)
    → (updated_record r u now).status ≡ or_else u.status r.status
unfolding updated_record
updated_record-status r u now = refl
