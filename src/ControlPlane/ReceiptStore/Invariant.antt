-- ===== src/ControlPlane/ReceiptStore/Invariant.antt =====
-- What holds of a ReceiptStore (control-plane/receipt-store.ts) between two calls, and the reads of
-- a store for which it holds.
use micro_agent_protocol.Base.{
  ◌≡◌, refl, sym, ap, ◌∙◌, subst, ◌↔◌, ◌⊎◌, inl, inr, String, none, some, true, ok, [], ◌∷◌, ◌++◌,
  arith, Option-cases, truthy, str_eq_iff, mem-filter, filter-mem, resolve_tenant_id,
}
use mathlib.Core.List.{Memᴰ}
use micro_agent_protocol.Base.Dict.{
  get as map_get, values, keys, Unique, set_new, set-Unique, get-set, keys-append, values-append,
  get_all-keys, get-Holds, Holds-get, mem_values, Holds-mem,
}
use micro_agent_protocol.Base.Json.{same_json}
use micro_agent_protocol.Protocol.{ExecutionReceipt, receipt_value}
use micro_agent_protocol.ControlPlane.ReceiptStore.{
  ReceiptStore, empty, added, append, get, list, records, tenant_of, is_foreign,
}

-- A receipt is filed under its id, once; the order names the ids that are there, in the map's order.
pub record IsValid (s : ReceiptStore) : Type 0 where
  pub distinct : Unique s.receipts
  pub ordered : s.order ≡ keys s.receipts
  pub filed : (k : String) (r : ExecutionReceipt) → map_get k s.receipts ≡ some r → r.receipt_id ≡ k

pub empty-IsValid : IsValid empty
unfolding empty map_get
empty-IsValid = record { distinct = tt; ordered = refl; filed = λ k r h. cc }

pub added-IsValid :
    (s : ReceiptStore) (r : ExecutionReceipt)
    → IsValid s
    → map_get r.receipt_id s.receipts ≡ none
    → IsValid (added s r)
unfolding added
added-IsValid s r v new = record {
  distinct = set-Unique r.receipt_id r s.receipts v.distinct;
  ordered =
      ap (λ ks. ks ++ r.receipt_id ∷ []) v.ordered
      ∙ sym (
          ap keys (set_new r.receipt_id r s.receipts new)
          ∙ keys-append s.receipts ((r.receipt_id, r) ∷ []));
  filed = λ k q h.
      ground (arith, get-set r.receipt_id k r s.receipts, str_eq_iff r.receipt_id k, v.filed k q);
}

-- What an append that goes through leaves: the store as it was, or the receipt added to it.
pub append-cases :
    (s s' : ReceiptStore) (r : ExecutionReceipt)
    → append s r ≡ ok s'
    → ((map_get r.receipt_id s.receipts ≡ none) × (s' ≡ added s r))
      ⊎ ((q : ExecutionReceipt) × (map_get r.receipt_id s.receipts ≡ some q)
          × (same_json (receipt_value q) (receipt_value r) ≡ true)
          × (s' ≡ s))
unfolding append
append-cases s s' r h = elim (Option-cases (map_get r.receipt_id s.receipts)) [
  | inl e ↦ inl (e, ground arith)
  | inr (q, e) ↦ inr (q, e, ground arith, ground arith)
]

pub append-IsValid :
    (s s' : ReceiptStore) (r : ExecutionReceipt) → IsValid s → append s r ≡ ok s' → IsValid s'
append-IsValid s s' r v h = elim (append-cases s s' r h) [
  | inl (new, e) ↦ subst IsValid (sym e) (added-IsValid s r v new)
  | inr (q, found, same, e) ↦ subst IsValid (sym e) v
]

-- Listing gives the receipts of the map, in its order.
pub records-values : (s : ReceiptStore) → IsValid s → records s ≡ values s.receipts
unfolding records
records-values s v = rw v.ordered (get_all-keys s.receipts v.distinct)

pub list-added :
    (s : ReceiptStore) (r : ExecutionReceipt)
    → IsValid s
    → map_get r.receipt_id s.receipts ≡ none
    → list (added s r) none ≡ list s none ++ r ∷ []
unfolding list added
list-added s r v new =
    records-values (added s r) (added-IsValid s r v new)
    ∙ ap values (set_new r.receipt_id r s.receipts new)
    ∙ values-append s.receipts ((r.receipt_id, r) ∷ [])
    ∙ ap (λ rs. rs ++ r ∷ []) (sym (records-values s v))

get-own :
    (s : ReceiptStore) (k tenant : String) (r : ExecutionReceipt)
    → truthy tenant ≡ true
    → (get s k (some tenant) ≡ some r)
      ↔ ((map_get k s.receipts ≡ some r) × (tenant_of r ≡ resolve_tenant_id (some tenant)))
unfolding get is_foreign
get-own s k tenant r t = (to, from)
  where
    to :
        get s k (some tenant) ≡ some r
        → (map_get k s.receipts ≡ some r) × (tenant_of r ≡ resolve_tenant_id (some tenant))
    to h = elim (Option-cases (map_get k s.receipts)) [
      | inl e ↦ absurd (ground arith)
      | inr (q, e) ↦
          (ground arith, ground (arith, str_eq_iff (tenant_of q) (resolve_tenant_id (some tenant))))
    ]

    from :
        (map_get k s.receipts ≡ some r) × (tenant_of r ≡ resolve_tenant_id (some tenant))
        → get s k (some tenant) ≡ some r
    from (e, own) = ground (arith, str_eq_iff (tenant_of r) (resolve_tenant_id (some tenant)))

-- For a tenant that is named, both reads give just its own receipts: a receipt is listed for the
-- tenant exactly if reading its id for the tenant gives it, and that is so exactly if it is kept
-- and belongs to the tenant.
pub tenant_reads_exact :
    (s : ReceiptStore) (tenant : String) (r : ExecutionReceipt)
    → IsValid s
    → truthy tenant ≡ true
    → (Memᴰ r (list s (some tenant)) ↔ (get s r.receipt_id (some tenant) ≡ some r))
      × ((get s r.receipt_id (some tenant) ≡ some r)
          ↔ (Memᴰ r (list s none) × (tenant_of r ≡ resolve_tenant_id (some tenant))))
unfolding list
tenant_reads_exact s tenant r v t = ((λ m. to (listed m), λ h. relisted (from h)), (from, to))
  where
    to :
        Memᴰ r (list s none) × (tenant_of r ≡ resolve_tenant_id (some tenant))
        → get s r.receipt_id (some tenant) ≡ some r
    to (m, own) =
        let (k, held) = mem_values s.receipts (subst (Memᴰ r) (records-values s v) m) in
        let found = Holds-get v.distinct held in
        (get-own s r.receipt_id tenant r t).1
          (subst (λ j. map_get j s.receipts ≡ some r) (sym (v.filed k r found)) found, own)

    from :
        get s r.receipt_id (some tenant) ≡ some r
        → Memᴰ r (list s none) × (tenant_of r ≡ resolve_tenant_id (some tenant))
    from h =
        let (found, own) = (get-own s r.receipt_id tenant r t).0 h in
        (
          subst (Memᴰ r) (sym (records-values s v)) (Holds-mem (get-Holds _ _ s.receipts found)),
          own,
        )

    listed :
        Memᴰ r (list s (some tenant))
        → Memᴰ r (list s none) × (tenant_of r ≡ resolve_tenant_id (some tenant))
    listed m =
        let (there, own) = filter-mem _ (records s) (rw (t, list) at m) in
        (there, (str_eq_iff _ _).0 own)

    relisted :
        Memᴰ r (list s none) × (tenant_of r ≡ resolve_tenant_id (some tenant))
        → Memᴰ r (list s (some tenant))
    relisted (m, own) = rw t (mem-filter _ (records s) m ((str_eq_iff _ _).1 own))
