-- ===== src/ControlPlane/TaskStore/Tests.antt =====
-- The task store on concrete tasks.
use micro_agent_protocol.Base.{
  ◌≡◌, refl, ◌≢◌, List, [], ◌∷◌, String, Option, none, some, false, ok, err, resolve_tenant_id,
  str_eq_iff, arith,
}
use micro_agent_protocol.Base.Dict.{get as map_get, set as map_set}
use micro_agent_protocol.Base.Json.{end, same_json}
use micro_agent_protocol.Protocol.{
  TaskStatus, accepted, running, completed, failed, revoked, awaiting_approval, RequesterIdentity,
  service, ResultPackage, ExecutionReceipt, executed, TaskRecord, result_value, receipt_value,
}
use micro_agent_protocol.Protocol
use micro_agent_protocol.ControlPlane.TaskGuards.{
  Updates, terminal_transition, terminal_immutable, validate_transition, check_move, check_result,
  key_changed, text_changed, requester_changed, receipt_foreign, result_changed, receipt_changed,
  assert_valid_transition,
}
use micro_agent_protocol.ControlPlane.TaskStore.{
  TaskStore, SaveParams, empty, save, update, updated_record, store_saved, saved_record,
  check_existing, check_key, index_key, get_by_tenant, find_by_idempotency_key,
}
use micro_agent_protocol.ControlPlane.TaskStore.Update.{result_text, receipt_text, update_terminal}
use micro_agent_protocol.ControlPlane.TaskStore.Invariant.{IsValid}
use micro_agent_protocol.ControlPlane.TaskStore.History.{
  Call, saves, updates, deletes, step, run, run-empty-IsValid, idempotency_key_unique, Follows,
  status_follows_table, terminal_absorbs,
}

abbrev acme : RequesterIdentity
acme = record { type = service; id = "svc"; tenant_id = some "acme" }

abbrev result_in : TaskStatus → ResultPackage
result_in status = record {
  task_id = "t1";
  context_id = none;
  status = status;
  summary = some "a";
  structured_output = end;
  negotiated_schema_version = none;
  requested_schema_version = none;
  executed_schema_version = none;
  negotiation = none;
  redactions_applied = [];
  followup_required = false;
  escalation_reason = none;
  extensions = none;
}

abbrev receipt_at : String → ExecutionReceipt
receipt_at now = record {
  receipt_id = "receipt:t1";
  intent_id = "t1";
  capability = "db.read.logs";
  action = executed;
  timestamp = now;
  status = Protocol.ok;
  signature = none;
  task_id = some "t1";
  order_id = none;
  tenant_id = some "acme";
  request_id = none;
  agent_id = "agent";
  resource_touched = none;
  policy_checks = none;
  approval_used = none;
  result_hash = none;
  requested_schema_version = none;
  executed_schema_version = none;
  negotiation = none;
  extensions = none;
}

abbrev params_in : TaskStatus → Option String → SaveParams
params_in status key = record {
  task_id = "t1";
  context_id = none;
  requester_identity = acme;
  idempotency_key = key;
  capability = "db.read.logs";
  target_agent = "agent";
  result = result_in status;
  receipt = receipt_at "0";
}

abbrev move_to : TaskStatus → Updates
move_to status = record {
  order_id = none;
  context_id = none;
  requester_identity = none;
  idempotency_key = none;
  capability = none;
  target_agent = none;
  status = some status;
  result = some (result_in status);
  receipt = some (receipt_at "1");
}

-- A store that holds one task.
abbrev holding : TaskStatus → TaskStore
unfolding saved_record
holding status = record {
  tasks = ("t1", saved_record (params_in status (some "k1")) "0") ∷ [];
  idempotency_index = ("k1", "t1") ∷ [];
}

abbrev record_in : TaskStatus → TaskRecord
unfolding saved_record
record_in status = saved_record (params_in status (some "k1")) "0"

save_first :
    save empty (params_in running (some "k1")) "0" ≡ ok (holding running, record_in running)
unfolding save empty check_existing check_key store_saved index_key saved_record map_get map_set
save_first = refl

abbrev updated_in : TaskStatus → TaskStatus → TaskRecord
unfolding saved_record updated_record
updated_in a b = updated_record (record_in a) (move_to b) "1"

move_completes :
    update (holding running) "t1" (move_to completed) "1"
    ≡ ok (
      record (holding running) { tasks = ("t1", updated_in running completed) ∷ [] },
      some (updated_in running completed),
    )
unfolding update validate_transition check_move check_result key_changed text_changed
    requester_changed receipt_foreign result_changed receipt_changed assert_valid_transition
    updated_record saved_record map_get map_set same_json result_value receipt_value
move_completes = refl

move_terminal : update (holding completed) "t1" (move_to failed) "1" ≡ err terminal_transition
unfolding update validate_transition check_move check_result key_changed text_changed
    requester_changed receipt_foreign result_changed receipt_changed assert_valid_transition
    updated_record saved_record map_get map_set same_json result_value receipt_value
move_terminal = refl

-- The receipt may not change once the task is completed; the same result and receipt may be written.
rewrite_refused :
    update (holding completed) "t1" (move_to completed) "1" ≡ err (terminal_immutable "t1")
unfolding update validate_transition check_move check_result key_changed text_changed
    requester_changed receipt_foreign result_changed receipt_changed assert_valid_transition
    updated_record saved_record map_get map_set same_json result_value receipt_value
rewrite_refused = refl

abbrev same_again : Updates
same_again = record (move_to completed) { receipt = some (receipt_at "0") }

abbrev rewritten : TaskRecord
unfolding saved_record updated_record
rewritten = updated_record (record_in completed) same_again "1"

rewrite_same :
    update (holding completed) "t1" same_again "1"
    ≡ ok (record (holding completed) { tasks = ("t1", rewritten) ∷ [] }, some rewritten)
unfolding update validate_transition check_move check_result key_changed text_changed
    requester_changed receipt_foreign result_changed receipt_changed assert_valid_transition
    updated_record saved_record map_get map_set same_json result_value receipt_value
rewrite_same = refl

found_in : (a : TaskStatus) → map_get "t1" (holding a).tasks ≡ some (record_in a)
unfolding map_get saved_record
found_in a = refl

update_terminal_example :
    (rewritten.status ≡ completed)
    × (result_text rewritten.result ≡ result_text (some (result_in completed)))
    × (receipt_text rewritten.receipt ≡ receipt_text (some (receipt_at "0")))
unfolding saved_record updated_record
update_terminal_example =
    update_terminal (holding completed)
      (record (holding completed) { tasks = ("t1", rewritten) ∷ [] }) "t1" same_again "1"
      (record_in completed) rewritten (found_in completed) refl rewrite_same

-- A task is accepted, runs, completes, and a second task takes another key.
abbrev second : SaveParams
second = record (params_in accepted (some "k2")) { task_id = "t2" }

abbrev history : List Call
history =
    saves (params_in accepted (some "k1")) "0"
    ∷ updates "t1" (move_to completed) "1"
    ∷ saves second "2"
    ∷ deletes "t2"
    ∷ []

run-empty-IsValid_example : IsValid (run empty history)
run-empty-IsValid_example = run-empty-IsValid history (refl, tt)

abbrev one_save : List Call
one_save = saves (params_in running (some "k1")) "0" ∷ []

run-one_save : run empty one_save ≡ holding running
unfolding run step empty save check_existing check_key store_saved index_key saved_record map_get
    map_set
run-one_save = refl

idempotency_key_unique_example :
    (◌≡◌ {A = String} "t1" "t1")
    × (find_by_idempotency_key (run empty one_save) "k1" ≡ some (record_in running))
unfolding saved_record
idempotency_key_unique_example =
    idempotency_key_unique one_save "t1" "t1" "k1" (record_in running) (record_in running) tt refl
      refl refl found found refl refl
  where
    found : map_get "t1" (run empty one_save).tasks ≡ some (record_in running)
    found = rw run-one_save (found_in running)

abbrev later_calls : List Call
later_calls = updates "t1" (move_to revoked) "1" ∷ deletes "t2" ∷ []

t2_other : ◌≢◌ {A = String} "t2" "t1"
t2_other = ground (arith, str_eq_iff "t2" "t1")

status_follows_table_example :
    (r' : TaskRecord) × (map_get "t1" (run (holding running) later_calls).tasks ≡ some r')
    × Follows running r'.status
unfolding saved_record
status_follows_table_example =
    status_follows_table (holding running) later_calls "t1" (record_in running) (t2_other, tt)
      (found_in running)

terminal_absorbs_example :
    (r' : TaskRecord) × (map_get "t1" (run (holding completed) later_calls).tasks ≡ some r')
    × (r'.status ≡ completed)
unfolding saved_record
terminal_absorbs_example =
    terminal_absorbs (holding completed) later_calls "t1" (record_in completed) (t2_other, tt)
      (found_in completed) refl

-- Another tenant sees nothing.
other_tenant : get_by_tenant (holding running) "t1" "globex" none ≡ none
unfolding get_by_tenant saved_record resolve_tenant_id map_get
other_tenant = refl
