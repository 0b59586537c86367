-- ===== src/ControlPlane/ReceiptStore.antt =====
-- control-plane/receipt-store.ts, without the database and the file: the map of receipts, the order
-- in which they came, and the check of their integrity.
pub mod Invariant
pub mod History
pub mod Stored
pub mod Integrity
mod Tests
use micro_agent_protocol.Base.{
  ℕ, suc, String, Option, none, some, Bool, true, false, not, ◌&&◌, List, [], ◌∷◌, ◌++◌, filter,
  length, if◌then◌else◌, is_some, str_eq, truthy, resolve_tenant_id, Result, ok, err,
}
use micro_agent_protocol.Base.Dict.{Dict, get as map_get, set as map_set, get_all}
use micro_agent_protocol.Base.Json.{same_json}
use micro_agent_protocol.Protocol.{ExecutionReceipt, receipt_value}

pub record ReceiptStore : Type 0 where
  pub receipts : Dict ExecutionReceipt
  pub order : List String

pub data ReceiptError : Type 0 where
  receipt_conflict : String → ReceiptError

unfoldable pub empty : ReceiptStore
empty = record { receipts = []; order = [] }

unfoldable pub added : ReceiptStore → ExecutionReceipt → ReceiptStore
added s r = record {
  receipts = map_set r.receipt_id r s.receipts;
  order = s.order ++ r.receipt_id ∷ [];
}

unfoldable pub append : ReceiptStore → ExecutionReceipt → Result ReceiptError ReceiptStore
unfolding added
append s r = elim (map_get r.receipt_id s.receipts) [
  | none ↦ ok (added s r)
  | some existing ↦
      if same_json (receipt_value existing) (receipt_value r)
      then ok s
      else err (receipt_conflict r.receipt_id)
]

abbrev pub tenant_of : ExecutionReceipt → String
tenant_of r = resolve_tenant_id r.tenant_id

-- `tenantId && this.resolveTenantId(receipt.tenant_id) !== this.resolveTenantId(tenantId)`.
pub is_foreign : Option String → ExecutionReceipt → Bool
is_foreign none r = false
is_foreign (some tenant_id) r =
    truthy tenant_id && not (str_eq (tenant_of r) (resolve_tenant_id (some tenant_id)))

unfoldable pub get : ReceiptStore → String → Option String → Option ExecutionReceipt
unfolding is_foreign
get s receipt_id tenant_id = elim (map_get receipt_id s.receipts) [
  | none ↦ none
  | some r ↦ if is_foreign tenant_id r then none else some r
]

pub records : ReceiptStore → List ExecutionReceipt
records s = get_all s.receipts s.order

unfoldable pub list : ReceiptStore → Option String → List ExecutionReceipt
unfolding records
list s none = records s
list s (some tenant_id) =
    if truthy tenant_id
    then filter (λ r. str_eq (tenant_of r) (resolve_tenant_id (some tenant_id))) (records s)
    else records s

unfoldable pub list_by_tenant : ReceiptStore → String → List ExecutionReceipt
unfolding list
list_by_tenant s tenant_id = list s (some tenant_id)

pub data IntegrityError : Type 0 where
  missing_receipt_id : ℕ → IntegrityError
  missing_signature missing_timestamp missing_task_id : String → IntegrityError
  out_of_order : String → String → String → String → IntegrityError

pub record IntegrityReport : Type 0 where
  pub valid : Bool
  pub total : ℕ
  pub errors : List IntegrityError

-- `errors.length === 0`.
abbrev pub no_errors : List IntegrityError → Bool
no_errors [] = true
no_errors (e ∷ es) = false

-- `!o`, of a text that may be missing.
pub is_absent : Option String → Bool
is_absent none = true
is_absent (some s) = not (truthy s)

-- `if (test) errors.push(error)`, before the errors that follow.
abbrev pub push_if : Bool → IntegrityError → List IntegrityError → List IntegrityError
push_if test e es = if test then e ∷ es else es

-- `is_before a b` stands for `new Date(a) < new Date(b)`, whose answer for texts that are no ISO
-- dates depends on the engine and the local time zone.
module _ (is_before : String → String → Bool) where
  pub check_order :
      Option ExecutionReceipt → ExecutionReceipt → List IntegrityError → List IntegrityError
  check_order none r es = es
  check_order (some prev) r es =
      push_if
        ((truthy prev.timestamp && truthy r.timestamp) && is_before r.timestamp prev.timestamp)
        (out_of_order r.receipt_id r.timestamp prev.receipt_id prev.timestamp) es

  -- The loop from index `i` on, after the receipt `prev`.
  pub check_receipts : ℕ → Option ExecutionReceipt → List ExecutionReceipt → List IntegrityError
  unfolding is_absent check_order
  check_receipts i prev [] = []
  check_receipts i prev (r ∷ rs) =
      let rest = check_receipts (suc i) (some r) rs in
      if truthy r.receipt_id
      then push_if (is_absent r.signature) (missing_signature r.receipt_id) (
          push_if (not (truthy r.timestamp)) (missing_timestamp r.receipt_id) (
            push_if (is_absent r.task_id) (missing_task_id r.receipt_id) (check_order prev r rest)))
      else missing_receipt_id i ∷ rest

  unfoldable pub verify_receipt_integrity : ReceiptStore → IntegrityReport
  unfolding list check_receipts
  verify_receipt_integrity s =
      let errors = check_receipts 0 none (list s none) in
      record { valid = no_errors errors; total = length (list s none); errors = errors }

-- `receipt?.receipt_id && !this.receipts.has(receipt.receipt_id)`, over the stored list.
pub hydrate_from : ReceiptStore → List ExecutionReceipt → ReceiptStore
unfolding added
hydrate_from s [] = s
hydrate_from s (r ∷ rs) =
    hydrate_from
      (if truthy r.receipt_id && not (is_some (map_get r.receipt_id s.receipts))
        then added s r
        else s)
      rs

unfoldable pub hydrate : List ExecutionReceipt → ReceiptStore
unfolding hydrate_from empty
hydrate rs = hydrate_from empty rs
