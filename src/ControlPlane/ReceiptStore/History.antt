-- ===== src/ControlPlane/ReceiptStore/History.antt =====
-- Histories of appends to one ReceiptStore (control-plane/receipt-store.ts), and reading a stored
-- list back.
use micro_agent_protocol.Base.{
  ◌≡◌, refl, sym, ap, ◌∙◌, subst, ◌⊎◌, inl, inr, ◌≢◌, String, none, some, ok, err, Result,
  Result-cases, List, [], ◌∷◌, ◌++◌, arith, Bool-cases, Option-cases, str_eq_iff,
}
use mathlib.Core.List.{append_assoc, append-nil}
use micro_agent_protocol.Base.Dict.{get as map_get, get-set}
use micro_agent_protocol.Base.Json.{same_json, same_json_iff, stringify}
use micro_agent_protocol.Protocol.{ExecutionReceipt, receipt_value}
use micro_agent_protocol.ControlPlane.ReceiptStore.{
  ReceiptStore, ReceiptError, added, append, get, list, receipt_conflict,
}
use micro_agent_protocol.ControlPlane.ReceiptStore.Invariant.{
  IsValid, append-cases, append-IsValid, list-added,
}

-- An append that throws leaves the store as it was.
abbrev after : ReceiptStore → Result ReceiptError ReceiptStore → ReceiptStore
after s (ok s') = s'
after s (err e) = s

unfoldable pub run : ReceiptStore → List ExecutionReceipt → ReceiptStore
run s [] = s
run s (r ∷ rs) = run (after s (append s r)) rs

step-IsValid :
    (s : ReceiptStore) (r : ExecutionReceipt) → IsValid s → IsValid (after s (append s r))
step-IsValid s r v = elim (Result-cases (append s r)) [
  | inl (s', e) ↦ rw e (append-IsValid s s' r v e)
  | inr (x, e) ↦ rw e v
]

pub run-IsValid : (s : ReceiptStore) (rs : List ExecutionReceipt) → IsValid s → IsValid (run s rs)
unfolding run
run-IsValid s [] v = v
run-IsValid s (r ∷ rs) v = run-IsValid (after s (append s r)) rs (step-IsValid s r v)

-- What one append does to what is there.
record Grows (s s' : ReceiptStore) : Type 0 where
  more : List ExecutionReceipt
  listed : list s' none ≡ list s none ++ more
  kept :
      (k : String) (r : ExecutionReceipt)
      → map_get k s.receipts ≡ some r
      → map_get k s'.receipts ≡ some r

Grows-refl : (s : ReceiptStore) → Grows s s
Grows-refl s = record { more = []; listed = sym (append-nil (list s none)); kept = λ k r h. h }

Grows-added :
    (s : ReceiptStore) (r : ExecutionReceipt)
    → IsValid s
    → map_get r.receipt_id s.receipts ≡ none
    → Grows s (added s r)
unfolding added
Grows-added s r v new = record {
  more = r ∷ [];
  listed = list-added s r v new;
  kept = λ k q h. ground (arith, get-set r.receipt_id k r s.receipts, str_eq_iff r.receipt_id k);
}

step-Grows : (s : ReceiptStore) (r : ExecutionReceipt) → IsValid s → Grows s (after s (append s r))
step-Grows s r v = elim (Result-cases (append s r)) [
  | inr (x, e) ↦ rw e (Grows-refl s)
  | inl (s', e) ↦ rw e (elim (append-cases s s' r e) [
    | inl (new, is) ↦ subst (Grows s) (sym is) (Grows-added s r v new)
    | inr (q, found, same, is) ↦ subst (Grows s) (sym is) (Grows-refl s)
  ])
]

run-Grows : (s : ReceiptStore) (rs : List ExecutionReceipt) → IsValid s → Grows s (run s rs)
unfolding run
run-Grows s [] v = Grows-refl s
run-Grows s (r ∷ rs) v =
    let one = step-Grows s r v in
    let rest = run-Grows (after s (append s r)) rs (step-IsValid s r v) in
    record {
      more = one.more ++ rest.more;
      listed =
          rest.listed
          ∙ ap (λ l. l ++ rest.more) one.listed
          ∙ append_assoc (list s none) one.more rest.more;
      kept = λ k q h. rest.kept k q (one.kept k q h);
    }

-- Receipts are append-only. Whatever receipts are appended, those that are listed stay listed, in
-- the same order and in front of the new ones, and reading an id gives the receipt that it gave.
pub receipts_append_only :
    (s : ReceiptStore) (rs : List ExecutionReceipt)
    → IsValid s
    → ((more : List ExecutionReceipt) × (list (run s rs) none ≡ list s none ++ more))
      × ((k : String) (r : ExecutionReceipt)
          → get s k none ≡ some r
          → get (run s rs) k none ≡ some r)
unfolding get
receipts_append_only s rs v =
    let g = run-Grows s rs v in
    (
      (g.more, g.listed),
      λ k r h. elim (Option-cases (map_get k s.receipts)) [
        | inl e ↦ absurd (ground arith)
        | inr (q, e) ↦ ground (arith, g.kept k q e)
      ],
    )

-- An append to a valid store goes through exactly if no receipt with its id is kept, or one with the
-- same JSON text. Then the id reads back a receipt with that text, and the list has one more
-- receipt, at its end, if the id was new, and is the same if it was not. Else it throws a conflict.
pub append_exact :
    (s : ReceiptStore) (r : ExecutionReceipt)
    → IsValid s
    → ((s' : ReceiptStore) × (q : ExecutionReceipt) × (append s r ≡ ok s')
        × (get s' r.receipt_id none ≡ some q)
        × (stringify (receipt_value q) ≡ stringify (receipt_value r))
        × ((get s r.receipt_id none ≡ some q) × (list s' none ≡ list s none)
            ⊎ (get s r.receipt_id none ≡ none) × (list s' none ≡ list s none ++ r ∷ [])))
      ⊎ ((q : ExecutionReceipt) × (append s r ≡ err (receipt_conflict r.receipt_id))
          × (get s r.receipt_id none ≡ some q)
          × (stringify (receipt_value q) ≢ stringify (receipt_value r)))
unfolding append get added
append_exact s r v = elim (Option-cases (map_get r.receipt_id s.receipts)) [
  | inl e ↦ inl (
    added s r,
    r,
    ground arith,
    ground (
      arith,
      get-set r.receipt_id r.receipt_id r s.receipts,
      str_eq_iff r.receipt_id r.receipt_id,
    ),
    refl,
    inr (ground arith, list-added s r v e),
  )
  | inr (q, e) ↦ elim (Bool-cases (same_json (receipt_value q) (receipt_value r))) [
    | inl same ↦
        inl (s, q, ground arith, ground arith, (same_json_iff _ _).0 same, inl (ground arith, refl))
    | inr other ↦ inr (
      q,
      ground arith,
      ground arith,
      λ eq. ground (arith, same_json_iff (receipt_value q) (receipt_value r)),
    )
  ]
]
