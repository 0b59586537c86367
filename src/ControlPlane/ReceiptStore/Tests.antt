-- ===== src/ControlPlane/ReceiptStore/Tests.antt =====
-- The receipt store on concrete receipts.
use micro_agent_protocol.Base.{
  ◌≡◌, refl, ◌↔◌, ◌⊎◌, ◌≢◌, String, none, some, Bool, true, not, ◌&&◌, ok, err, List, [], ◌∷◌, ◌++◌,
  length, str_eq, resolve_tenant_id,
}
use mathlib.Core.List.{Memᴰ}
use micro_agent_protocol.Base.Dict.{get as map_get, set as map_set, get_all}
use micro_agent_protocol.Base.Json.{stringify, same_json}
use micro_agent_protocol.Protocol.{ExecutionReceipt, executed, receipt_value}
use micro_agent_protocol.Protocol
use micro_agent_protocol.ControlPlane.ReceiptStore.{
  ReceiptStore, receipt_conflict, empty, added, append, get, list, hydrate, tenant_of,
  verify_receipt_integrity, check_receipts, check_order, records,
}
use micro_agent_protocol.ControlPlane.ReceiptStore.Invariant.{
  IsValid, empty-IsValid, tenant_reads_exact,
}
use micro_agent_protocol.ControlPlane.ReceiptStore.History.{
  run, run-IsValid, receipts_append_only, append_exact,
}
use micro_agent_protocol.ControlPlane.ReceiptStore.Stored.{hydrate-list}
use micro_agent_protocol.ControlPlane.ReceiptStore.Integrity.{Sound, verify_exact}

abbrev receipt : String → String → String → ExecutionReceipt
receipt id tenant now = record {
  receipt_id = id;
  intent_id = "t1";
  capability = "pay";
  action = executed;
  timestamp = now;
  status = Protocol.ExecutionStatus.ok;
  signature = some "sig";
  task_id = some "t1";
  order_id = none;
  tenant_id = some tenant;
  request_id = none;
  agent_id = "agent";
  resource_touched = none;
  policy_checks = none;
  approval_used = none;
  result_hash = none;
  requested_schema_version = none;
  executed_schema_version = none;
  negotiation = none;
  extensions = none;
}

abbrev first : ExecutionReceipt
first = receipt "r1" "acme" "1"

abbrev second : ExecutionReceipt
second = receipt "r2" "umbrella" "2"

abbrev changed : ExecutionReceipt
changed = receipt "r1" "acme" "3"

abbrev two : ReceiptStore
two = run empty (first ∷ second ∷ [])

two-IsValid : IsValid two
two-IsValid = run-IsValid empty (first ∷ second ∷ []) empty-IsValid

-- A receipt that is there may come again, but not changed.
append_again : append two first ≡ ok two
unfolding run append added empty map_get map_set same_json receipt_value
append_again = refl

append-changed : append two changed ≡ err (receipt_conflict "r1")
unfolding run append added empty map_get map_set same_json receipt_value
append-changed = refl

-- The texts of these time stamps are one digit each.
abbrev is_before : String → String → Bool
is_before a b = str_eq a "1" && not (str_eq b "1")

list-two : list two none ≡ first ∷ second ∷ []
unfolding run append added empty map_get map_set get_all list records
list-two = refl

receipts_append_only_example :
    ((more : List ExecutionReceipt) × (list (run two (changed ∷ second ∷ [])) none
        ≡ list two none ++ more))
    × ((k : String) (r : ExecutionReceipt)
        → get two k none ≡ some r
        → get (run two (changed ∷ second ∷ [])) k none ≡ some r)
receipts_append_only_example = receipts_append_only two (changed ∷ second ∷ []) two-IsValid

append_exact_example :
    ((s' : ReceiptStore) × (q : ExecutionReceipt) × (append two changed ≡ ok s')
      × (get s' "r1" none ≡ some q)
      × (stringify (receipt_value q) ≡ stringify (receipt_value changed))
      × ((get two "r1" none ≡ some q) × (list s' none ≡ list two none)
          ⊎ (get two "r1" none ≡ none) × (list s' none ≡ list two none ++ changed ∷ [])))
    ⊎ ((q : ExecutionReceipt) × (append two changed ≡ err (receipt_conflict "r1"))
        × (get two "r1" none ≡ some q)
        × (stringify (receipt_value q) ≢ stringify (receipt_value changed)))
append_exact_example = append_exact two changed two-IsValid

tenant_reads_exact_example :
    (Memᴰ second (list two (some "umbrella")) ↔ (get two "r2" (some "umbrella") ≡ some second))
    × ((get two "r2" (some "umbrella") ≡ some second)
        ↔ (Memᴰ second (list two none) × (tenant_of second ≡ resolve_tenant_id (some "umbrella"))))
tenant_reads_exact_example = tenant_reads_exact two "umbrella" second two-IsValid refl

hydrate-list_example : hydrate (list two none) ≡ two
unfolding run append added empty map_get map_set get_all list records
hydrate-list_example = hydrate-list two two-IsValid (refl, (refl, tt))

verify_exact_example :
    (((verify_receipt_integrity is_before two).valid ≡ true) ↔ Sound is_before (list two none))
    × ((verify_receipt_integrity is_before two).total ≡ length (list two none))
verify_exact_example = verify_exact is_before two

verify_two : (verify_receipt_integrity is_before two).valid ≡ true
unfolding run append added empty map_get map_set get_all list records verify_receipt_integrity
    check_receipts check_order
verify_two = refl
