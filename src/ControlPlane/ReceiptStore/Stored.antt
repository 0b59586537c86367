-- ===== src/ControlPlane/ReceiptStore/Stored.antt =====
-- Writing the receipts of a ReceiptStore (control-plane/receipt-store.ts) to a list and reading
-- them back.
use micro_agent_protocol.Base.{
  ◌≡◌, refl, sym, ap, ◌∙◌, subst, String, none, some, true, List, [], ◌∷◌, ◌++◌, All, arith, truthy,
  str_eq_iff, str_eq_refl,
}
use mathlib.Core.List.{append_assoc, append-nil}
use micro_agent_protocol.Base.Dict.{
  Dict, get as map_get, values, keys, Unique, set_new, Unique-append,
}
use micro_agent_protocol.Protocol.{ExecutionReceipt}
use micro_agent_protocol.ControlPlane.ReceiptStore.{
  ReceiptStore, empty, added, list, hydrate_from, hydrate,
}
use micro_agent_protocol.ControlPlane.ReceiptStore.Invariant.{IsValid, records-values}

-- Every entry stands under the id of its receipt, which is not empty.
abbrev Named : Dict ExecutionReceipt → Type 0
Named [] = Unit
Named ((k, r) ∷ m) = (k ≡ r.receipt_id) × (truthy k ≡ true) × Named m

store_of : Dict ExecutionReceipt → List String → ReceiptStore
store_of m ks = record { receipts = m; order = ks }

-- A receipt whose id is new goes to the end.
hydrate_from-cons :
    (m : Dict ExecutionReceipt) (ks : List String) (k : String) (r : ExecutionReceipt)
    (rs : List ExecutionReceipt)
    → k ≡ r.receipt_id
    → truthy k ≡ true
    → map_get k m ≡ none
    → hydrate_from (store_of m ks) (r ∷ rs)
      ≡ hydrate_from (store_of (m ++ (k, r) ∷ []) (ks ++ k ∷ [])) rs
unfolding hydrate_from added store_of
hydrate_from-cons m ks k r rs same t new = ground (arith, set_new k r m new)

hydrate_from-values :
    (m n : Dict ExecutionReceipt) (ks : List String)
    → Unique (m ++ n)
    → Named n
    → hydrate_from (store_of m ks) (values n) ≡ store_of (m ++ n) (ks ++ keys n)
unfolding hydrate_from store_of
hydrate_from-values m [] ks u named =
    ap (λ l. record { receipts = l; order = ks }) (sym (append-nil m))
    ∙ ap (λ l. record { receipts = m ++ []; order = l }) (sym (append-nil ks))
hydrate_from-values m ((k, r) ∷ n) ks u (same, t, named) =
    hydrate_from-cons m ks k r (values n) same t (Unique-append k r m n u)
    ∙ hydrate_from-values (m ++ (k, r) ∷ []) n (ks ++ k ∷ [])
        (subst Unique (sym (append_assoc m ((k, r) ∷ []) n)) u) named
    ∙ ap (λ l. store_of l ((ks ++ k ∷ []) ++ keys n)) (append_assoc m ((k, r) ∷ []) n)
    ∙ ap (store_of (m ++ (k, r) ∷ n)) (append_assoc ks (k ∷ []) (keys n))

filed-Named :
    (m : Dict ExecutionReceipt)
    → Unique m
    → ((k : String) (r : ExecutionReceipt) → map_get k m ≡ some r → r.receipt_id ≡ k)
    → All (λ r. truthy r.receipt_id ≡ true) (values m)
    → Named m
unfolding map_get
filed-Named [] u filed full = tt
filed-Named ((k, r) ∷ m) u filed (t, full) =
    let same = filed k r (rw (str_eq_refl k) refl) in
    (
      sym same,
      subst (λ j. truthy j ≡ true) same t,
      filed-Named m u.1 (λ j q h. filed j q (ground (arith, str_eq_iff k j, u.0))) full,
    )

-- A valid store, with no empty id, that is written out as its list of receipts and read back is the
-- store that it was: the same receipts under the same ids, in the same order.
pub hydrate-list :
    (s : ReceiptStore)
    → IsValid s
    → All (λ r. truthy r.receipt_id ≡ true) (list s none)
    → hydrate (list s none) ≡ s
unfolding hydrate list empty store_of
hydrate-list s v full =
    let listed = records-values s v in
    ap (hydrate_from empty) listed
    ∙ hydrate_from-values [] s.receipts [] v.distinct (
        filed-Named s.receipts v.distinct v.filed
          (subst (All (λ r. truthy r.receipt_id ≡ true)) listed full))
    ∙ ap (store_of s.receipts) (sym v.ordered)
