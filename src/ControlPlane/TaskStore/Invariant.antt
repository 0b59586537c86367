-- ===== src/ControlPlane/TaskStore/Invariant.antt =====
-- What holds of a TaskStore (control-plane/task-store.ts) between two calls, whatever the calls are.
use micro_agent_protocol.Base.{
  ◌≡◌, sym, subst, inl, inr, String, some, true, ok, or_else, arith, Option-cases, str_eq_iff,
  truthy,
}
use micro_agent_protocol.Base.Dict.{
  get as map_get, set as map_set, remove, get-set, get-remove, Unique, set-Unique, remove-Unique,
}
use micro_agent_protocol.Protocol.{TaskStatus, ResultPackage, TaskRecord}
use micro_agent_protocol.ControlPlane.TaskGuards.{Updates, check_result}
use micro_agent_protocol.ControlPlane.TaskStore.{
  TaskStore, SaveParams, empty, check_existing, check_key, key_taken, index_key, unindex_key,
  saved_record, store_saved, save, delete, update, updated_record,
}
use micro_agent_protocol.ControlPlane.TaskStore.Transitions.{status_eq→eq}
use micro_agent_protocol.ControlPlane.TaskStore.Update.{
  check_move-still, updated-SameTask, SameTask, Validated, validate-Validated, update-stores,
  update-found,
}

-- No id stands twice; a record is filed under its id; the index leads from a record's key to that record; a stored
-- result has the status of its record.
pub record IsValid (s : TaskStore) : Type 0 where
  pub distinct : Unique s.tasks
  pub filed : (k : String) (r : TaskRecord) → map_get k s.tasks ≡ some r → r.task_id ≡ k
  pub indexed :
      (k key : String) (r : TaskRecord)
      → map_get k s.tasks ≡ some r
      → r.idempotency_key ≡ some key
      → truthy k ≡ true
      → truthy key ≡ true
      → map_get key s.idempotency_index ≡ some k
  pub agreed :
      (k : String) (r : TaskRecord) (p : ResultPackage)
      → map_get k s.tasks ≡ some r
      → r.result ≡ some p
      → p.status ≡ r.status

pub empty-IsValid : IsValid empty
unfolding empty map_get
empty-IsValid = record {
  distinct = tt;
  filed = λ k r h. cc;
  indexed = λ k key r h. cc;
  agreed = λ k r p h. cc;
}

-- A save that succeeds found the key free, or its own.
pub save-stores :
    (s s' : TaskStore) (p : SaveParams) (now : String) (r : TaskRecord)
    → save s p now ≡ ok (s', r)
    → (check_existing (map_get p.task_id s.tasks) p.result.status ≡ ok tt)
      × (check_key s.idempotency_index p.idempotency_key p.task_id ≡ ok tt)
      × (s' ≡ store_saved s (saved_record p now))
      × (r ≡ saved_record p now)
unfolding save
save-stores s s' p now r h = ground arith

module _ (s : TaskStore) (r : TaskRecord) (v : IsValid s) where
  -- The record whose key is free or its own may be stored.
  store_saved-indexed :
      (check_key s.idempotency_index r.idempotency_key r.task_id ≡ ok tt)
      → (k key : String) (q : TaskRecord) → map_get k (store_saved s r).tasks ≡ some q
      → q.idempotency_key ≡ some key
      → truthy k ≡ true
      → truthy key ≡ true
      → map_get key (store_saved s r).idempotency_index ≡ some k
  unfolding store_saved index_key check_key key_taken
  store_saved-indexed free k key q h e tk tkey = elim (Option-cases r.idempotency_key) [
    | inl bare ↦
        ground (arith, get-set r.task_id k r s.tasks, str_eq_iff r.task_id k, v.indexed k key q)
    | inr (own, e') ↦ ground (
      arith,
      get-set r.task_id k r s.tasks,
      str_eq_iff r.task_id k,
      str_eq_iff k r.task_id,
      str_eq_iff own key,
      get-set own key r.task_id s.idempotency_index,
      v.indexed k key q,
    )
  ]

  store_saved-IsValid :
      check_key s.idempotency_index r.idempotency_key r.task_id ≡ ok tt
      → ((p : ResultPackage) → r.result ≡ some p → p.status ≡ r.status)
      → IsValid (store_saved s r)
  unfolding store_saved
  store_saved-IsValid free same = record {
    distinct = set-Unique r.task_id r s.tasks v.distinct;
    filed =
        λ k q h. ground (arith, get-set r.task_id k r s.tasks, str_eq_iff r.task_id k, v.filed k q);
    indexed = store_saved-indexed free;
    agreed = λ k q p h e. ground (arith, get-set r.task_id k r s.tasks, v.agreed k q p, same p);
  }

pub save-IsValid :
    (s s' : TaskStore) (p : SaveParams) (now : String) (r : TaskRecord)
    → IsValid s
    → save s p now ≡ ok (s', r)
    → IsValid s'
unfolding saved_record
save-IsValid s s' p now r v h =
    let (_, free, stored, _) = save-stores s s' p now r h in
    subst IsValid (sym stored)
      (store_saved-IsValid s (saved_record p now) v free (λ q e. ground arith))

check_result-status :
    (k : String) (next : TaskStatus) (p : ResultPackage)
    → check_result k next (some p) ≡ ok tt
    → p.status ≡ next
unfolding check_result
check_result-status k next p h = ground (arith, status_eq→eq p.status next)

-- An update keeps the task's id and key, so only the status and the result are new.
module _ (s : TaskStore) (r : TaskRecord) (u : Updates) (now : String) (v : IsValid s) (k : String)
    (found : map_get k s.tasks ≡ some r) (ok_now : Validated r (or_else u.status r.status) u) where
  updated-agreed :
      (p : ResultPackage)
      → (updated_record r u now).result ≡ some p
      → p.status ≡ (updated_record r u now).status
  unfolding updated_record
  updated-agreed p e = elim (Option-cases u.result) [
    | inl old ↦
        ground
          (arith, check_move-still r (or_else u.status r.status) u old ok_now.moved, v.agreed k r p)
    | inr (new, e') ↦
        ground (
          arith,
          check_result-status r.task_id (or_else u.status r.status) p,
          ok_now.result_checked,
        )
  ]

  same : SameTask r (updated_record r u now)
  same = updated-SameTask r u now ok_now

  pub updated-IsValid : IsValid (record s { tasks = map_set k (updated_record r u now) s.tasks })
  updated-IsValid = record {
    distinct = set-Unique k (updated_record r u now) s.tasks v.distinct;
    filed = λ j q h. ground (
      arith,
      get-set k j (updated_record r u now) s.tasks,
      str_eq_iff k j,
      v.filed j q,
      v.filed k r,
      same.same_id,
    );
    indexed = λ j key q h e tk tkey. ground (
      arith,
      get-set k j (updated_record r u now) s.tasks,
      str_eq_iff k j,
      v.indexed j key q,
      v.indexed k key r,
      same.same_key,
    );
    agreed = λ j q p h e. ground (
      arith,
      get-set k j (updated_record r u now) s.tasks,
      str_eq_iff k j,
      v.agreed j q p,
      updated-agreed p,
    );
  }

pub update-IsValid :
    (s s' : TaskStore) (k : String) (u : Updates) (now : String) (r' : TaskRecord)
    → IsValid s
    → update s k u now ≡ ok (s', some r')
    → IsValid s'
update-IsValid s s' k u now r' v h =
    let (r, found) = update-found s s' k u now r' h in
    let (valid, stored, _) = update-stores s s' k u now r r' found h in
    subst IsValid (sym stored) (
      updated-IsValid s r u now v k found
        (validate-Validated r (or_else u.status r.status) u valid))

-- Removing the record of a task frees its key, and no other record has that key.
module _ (s : TaskStore) (v : IsValid s) (k : String) (named : truthy k ≡ true) (r : TaskRecord)
    (found : map_get k s.tasks ≡ some r) where
  deleted : TaskStore
  deleted = record {
    tasks = remove k s.tasks;
    idempotency_index = unindex_key r.idempotency_key s.idempotency_index;
  }

  deleted-indexed :
      (j key : String) (q : TaskRecord)
      → map_get j deleted.tasks ≡ some q
      → q.idempotency_key ≡ some key
      → truthy j ≡ true
      → truthy key ≡ true
      → map_get key deleted.idempotency_index ≡ some j
  unfolding deleted unindex_key
  deleted-indexed j key q h e tj tkey = elim (Option-cases r.idempotency_key) [
    | inl bare ↦ ground (arith, get-remove k j s.tasks, v.indexed j key q)
    | inr (own, e') ↦ ground (
      arith,
      get-remove k j s.tasks,
      get-remove own key s.idempotency_index,
      str_eq_iff own key,
      str_eq_iff k j,
      v.indexed j key q,
      v.indexed k key r,
    )
  ]

  deleted-IsValid : IsValid deleted
  unfolding deleted
  deleted-IsValid = record {
    distinct = remove-Unique k s.tasks v.distinct;
    filed = λ j q h. ground (arith, get-remove k j s.tasks, v.filed j q);
    indexed = deleted-indexed;
    agreed = λ j q p h e. ground (arith, get-remove k j s.tasks, v.agreed j q p);
  }

pub delete-IsValid :
    (s : TaskStore) (k : String) → truthy k ≡ true → IsValid s → IsValid (delete s k).0
unfolding delete deleted
delete-IsValid s k named v = elim (Option-cases (map_get k s.tasks)) [
  | inl e ↦ rw (e, delete) v
  | inr (r, e) ↦ rw (e, delete) (deleted-IsValid s v k named r e)
]
