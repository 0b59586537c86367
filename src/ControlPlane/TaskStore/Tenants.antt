-- ===== src/ControlPlane/TaskStore/Tenants.antt =====
-- Tenant partitioning of the reads of control-plane/task-store.ts.
use micro_agent_protocol.Base.{
  ◌≡◌, refl, sym, ap, ◌∙◌, subst, inl, inr, ◌↔◌, ℕ, List, [], ◌∷◌, String, Option, none, some, true,
  arith, Option-cases, str_eq_iff, truthy, mem-filter, filter-mem, resolve_tenant_id,
}
use mathlib.Core.List.{Memᴰ}
use micro_agent_protocol.Base.Dict.{
  get as map_get, values, get-Holds, Holds-get, mem_values, Holds-mem,
}
use micro_agent_protocol.Protocol.{TaskRecord, ExecutionReceipt}
use micro_agent_protocol.ControlPlane.TaskStore.{
  TaskStore, tenant_of, apply_history_length, get_by_tenant, list_by_tenant, list, list_receipts,
  receipts_of,
}
use micro_agent_protocol.ControlPlane.TaskStore.Invariant.{IsValid}

-- A read by tenant finds a task exactly if it is filed under that id and belongs to that tenant, and
-- then gives the record, cut down by the history length.
pub get_by_tenant_exact :
    (s : TaskStore) (k tenant : String) (history : Option ℕ) (r' : TaskRecord)
    → (get_by_tenant s k tenant history ≡ some r') ↔ (
        (r : TaskRecord) × (map_get k s.tasks ≡ some r)
        × (tenant_of r ≡ resolve_tenant_id (some tenant))
        × (r' ≡ apply_history_length r history))
unfolding get_by_tenant
get_by_tenant_exact s k tenant history r' = (to, from)
  where
    to :
        get_by_tenant s k tenant history ≡ some r'
        → (r : TaskRecord) × (map_get k s.tasks ≡ some r)
          × (tenant_of r ≡ resolve_tenant_id (some tenant))
          × (r' ≡ apply_history_length r history)
    to h = elim (Option-cases (map_get k s.tasks)) [
      | inl e ↦ absurd (ground arith)
      | inr (r, e) ↦ (
        r,
        e,
        ground (arith, str_eq_iff (tenant_of r) (resolve_tenant_id (some tenant))),
        ground arith,
      )
    ]

    from :
        ((r : TaskRecord) × (map_get k s.tasks ≡ some r)
          × (tenant_of r ≡ resolve_tenant_id (some tenant))
          × (r' ≡ apply_history_length r history))
        → get_by_tenant s k tenant history ≡ some r'
    from (r, e, own, is) =
        ground (arith, str_eq_iff (tenant_of r) (resolve_tenant_id (some tenant)))

-- Listing a tenant's tasks gives just the records that reading each id for that tenant gives.
pub list_by_tenant_exact :
    (s : TaskStore) (tenant : String) (r : TaskRecord)
    → IsValid s
    → (Memᴰ r (list_by_tenant s tenant none) → get_by_tenant s r.task_id tenant none ≡ some r)
      × (get_by_tenant s r.task_id tenant none ≡ some r → Memᴰ r (list_by_tenant s tenant none))
unfolding list_by_tenant list apply_history_length
list_by_tenant_exact s tenant r v = (listed, read)
  where
    listed : Memᴰ r (list_by_tenant s tenant none) → get_by_tenant s r.task_id tenant none ≡ some r
    listed m =
        let (there, own) = filter-mem _ (values s.tasks) m in
        let (k, held) = mem_values s.tasks there in
        let found = Holds-get v.distinct held in
        (get_by_tenant_exact s r.task_id tenant none r).1 (
          r,
          subst (λ j. map_get j s.tasks ≡ some r) (sym (v.filed k r found)) found,
          (str_eq_iff _ _).0 own,
          refl,
        )

    read : get_by_tenant s r.task_id tenant none ≡ some r → Memᴰ r (list_by_tenant s tenant none)
    read h =
        let (q, found, own, is) = (get_by_tenant_exact s r.task_id tenant none r).0 h in
        mem-filter _ (values s.tasks)
          (subst (λ x. Memᴰ x (values s.tasks)) (sym is) (Holds-mem (get-Holds _ _ s.tasks found)))
          ((str_eq_iff _ _).1 (ap tenant_of is ∙ own))

mem_receipts :
    (q : ExecutionReceipt) (rs : List TaskRecord)
    → Memᴰ q (receipts_of rs)
    → (r : TaskRecord) × Memᴰ r rs × (r.receipt ≡ some q)
unfolding receipts_of
mem_receipts q [] m = elim m [ ]
mem_receipts q (r ∷ rs) m = go r.receipt refl (mem_receipts q rs) m
  where
    Found : List TaskRecord → Type 0
    Found l = (r' : TaskRecord) × Memᴰ r' l × (r'.receipt ≡ some q)

    go :
        (o : Option ExecutionReceipt)
        → r.receipt ≡ o
        → (Memᴰ q (receipts_of rs) → Found rs)
        → Memᴰ q (elim o [ none ↦ receipts_of rs | some receipt ↦ receipt ∷ receipts_of rs ])
        → Found (r ∷ rs)
    go none e rest n = let (r', there, has) = rest n in (r', Memᴰ.tail there, has)
    go (some x) e rest (Memᴰ.head f) = (r, Memᴰ.head refl, e ∙ ap some (sym f))
    go (some x) e rest (Memᴰ.tail n) = let (r', there, has) = rest n in (r', Memᴰ.tail there, has)

-- A receipt listed for a tenant whose name is not empty is that of a stored task of this tenant.
pub list_receipts_own :
    (s : TaskStore) (tenant : String) (receipt : ExecutionReceipt)
    → truthy tenant ≡ true
    → Memᴰ receipt (list_receipts s (some tenant))
    → (r : TaskRecord) × Memᴰ r (list s none)
      × (r.receipt ≡ some receipt)
      × (tenant_of r ≡ resolve_tenant_id (some tenant))
unfolding list_receipts list_by_tenant
list_receipts_own s tenant receipt t m =
    let (r, there, has) =
      mem_receipts receipt (list_by_tenant s tenant none) (rw (t, list_receipts) at m) in
    let (listed, own) = filter-mem _ (list s none) there in (r, listed, has, (str_eq_iff _ _).0 own)
