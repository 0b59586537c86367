-- ===== src/ControlPlane/TaskStore/History.antt =====
-- Histories of calls on one TaskStore (control-plane/task-store.ts).
use micro_agent_protocol.Base.{
  ◌≡◌, refl, sym, subst, ◌⊎◌, inl, inr, List, [], ◌∷◌, String, none, some, true, ◌≢◌, Result, ok,
  err, Result-cases, arith, Bool-cases, str_eq, str_eq_iff, truthy,
}
use micro_agent_protocol.Base.Dict.{get as map_get, get-set, get-set_self, get-remove}
use micro_agent_protocol.Protocol.{TaskStatus, TaskRecord}
use micro_agent_protocol.ControlPlane.TaskGuards.{
  TaskError, Updates, assert_valid_transition, is_terminal,
}
use micro_agent_protocol.ControlPlane.TaskStore.{
  TaskStore, SaveParams, empty, check_existing, check_key, updated_record, saved_record,
  store_saved, save, delete, update, find_by_idempotency_key,
}
use micro_agent_protocol.ControlPlane.TaskStore.Transitions.{
  Transition, assert-Transition, Transition-live,
}
use micro_agent_protocol.ControlPlane.TaskStore.Update.{
  update-found, update-Transition, update-stores,
}
use micro_agent_protocol.ControlPlane.TaskStore.Invariant.{
  IsValid, empty-IsValid, save-stores, save-IsValid, update-IsValid, delete-IsValid,
}

-- The calls that change a store.
pub data Call : Type 0 where
  saves : SaveParams → String → Call
  updates : String → Updates → String → Call
  deletes : String → Call

-- What the store holds after a call; a call that throws leaves it as it was.
unfoldable pub after {ℓ} : {A : Type ℓ} → TaskStore → Result TaskError (TaskStore × A) → TaskStore
after s (ok (s', _)) = s'
after s (err e) = s

unfoldable pub step : TaskStore → Call → TaskStore
unfolding after
step s (saves p now) = after s (save s p now)
step s (updates k u now) = after s (update s k u now)
step s (deletes k) = (delete s k).0

unfoldable pub run : TaskStore → List Call → TaskStore
run s [] = s
run s (c ∷ cs) = run (step s c) cs

-- No call deletes the task whose id is the empty text.
abbrev pub IsNamed : List Call → Type 0
IsNamed [] = Unit
IsNamed (deletes k ∷ cs) = (truthy k ≡ true) × IsNamed cs
IsNamed (_ ∷ cs) = IsNamed cs

-- An update of a task that is not there changes nothing.
pub update_missing :
    (s s' : TaskStore) (k : String) (u : Updates) (now : String)
    → update s k u now ≡ ok (s', none)
    → s' ≡ s
unfolding update
update_missing s s' k u now h = ground arith

step-IsValid : (s : TaskStore) (c : Call) → IsNamed (c ∷ []) → IsValid s → IsValid (step s c)
unfolding step after
step-IsValid s (saves p now) n v = elim (Result-cases (save s p now)) [
  | inl ((s', r), e) ↦ rw (e, after) (save-IsValid s s' p now r v e)
  | inr (x, e) ↦ rw (e, after) v
]
step-IsValid s (updates k u now) n v = elim (Result-cases (update s k u now)) [
  | inl ((s', some r'), e) ↦ rw (e, after) (update-IsValid s s' k u now r' v e)
  | inl ((s', none), e) ↦ rw (e, after) (subst IsValid (sym (update_missing s s' k u now e)) v)
  | inr (x, e) ↦ rw (e, after) v
]
step-IsValid s (deletes k) n v = delete-IsValid s k n.0 v

pub run-IsValid : (s : TaskStore) (cs : List Call) → IsNamed cs → IsValid s → IsValid (run s cs)
unfolding run
run-IsValid s [] n v = v
run-IsValid s (saves p now ∷ cs) n v =
    run-IsValid (step s (saves p now)) cs n (step-IsValid s (saves p now) tt v)
run-IsValid s (updates k u now ∷ cs) n v =
    run-IsValid (step s (updates k u now)) cs n (step-IsValid s (updates k u now) tt v)
run-IsValid s (deletes k ∷ cs) n v =
    run-IsValid (step s (deletes k)) cs n.1 (step-IsValid s (deletes k) (n.0, tt) v)

-- After any calls on a new store, none of which deletes the empty id, no id is stored twice, each
-- record is filed under its own id, the index leads from the key of a record to that record, and a
-- stored result has the status of its record.
pub run-empty-IsValid : (cs : List Call) → IsNamed cs → IsValid (run empty cs)
run-empty-IsValid cs n = run-IsValid empty cs n empty-IsValid

-- After any calls on a new store, none of which deletes the empty id, no two tasks have one
-- idempotency key, where ids and keys are not empty, and looking the key up finds the task that has it.
pub idempotency_key_unique :
    (cs : List Call) (j k key : String) (q r : TaskRecord)
    → IsNamed cs
    → truthy j ≡ true
    → truthy k ≡ true
    → truthy key ≡ true
    → map_get j (run empty cs).tasks ≡ some q
    → map_get k (run empty cs).tasks ≡ some r
    → q.idempotency_key ≡ some key
    → r.idempotency_key ≡ some key
    → (j ≡ k) × (find_by_idempotency_key (run empty cs) key ≡ some r)
unfolding find_by_idempotency_key
idempotency_key_unique cs j k key q r n tj tk tkey hq hr eq er =
    let v = run-empty-IsValid cs n in
    let at_j = v.indexed j key q hq eq tj tkey in
    let at_k = v.indexed k key r hr er tk tkey in
    (ground arith, rw (at_k, find_by_idempotency_key) (rw tk hr))

-- Statuses that follow one another along arrows of the table.
pub data Follows : TaskStatus → TaskStatus → Type 0 where
  stay : {a : TaskStatus} → Follows a a
  move : {a b c : TaskStatus} → Transition a b → Follows b c → Follows a c

-- Calls that may do anything but delete the task.
abbrev pub Spares : String → List Call → Type 0
Spares k [] = Unit
Spares k (deletes j ∷ cs) = (j ≢ k) × Spares k cs
Spares k (_ ∷ cs) = Spares k cs

-- What one call makes of the record of a task.
abbrev Kept : TaskStore → String → TaskStatus → Type 0
Kept s k a =
    (r : TaskRecord) × (map_get k s.tasks ≡ some r) × ((a ≡ r.status) ⊎ Transition a r.status)

update-Kept :
    (s s' : TaskStore) (j : String) (u : Updates) (now k : String) (q r : TaskRecord)
    → map_get k s.tasks ≡ some r
    → update s j u now ≡ ok (s', some q)
    → Kept s' k r.status
update-Kept s s' j u now k q r found h =
    let (old, at_j) = update-found s s' j u now q h in
    let (stored, _, moved) = update-Transition s s' j u now old q at_j h in
    let (_, is, _) = update-stores s s' j u now old q at_j h in
    elim (Bool-cases (str_eq j k)) [
      | inl same ↦ (q, ground (arith, str_eq_iff j k), ground (arith, str_eq_iff j k))
      | inr other ↦ (r, ground (arith, get-set j k (updated_record old u now) s.tasks), inl refl)
    ]

save-Kept :
    (s s' : TaskStore) (p : SaveParams) (now k : String) (q r : TaskRecord)
    → map_get k s.tasks ≡ some r
    → save s p now ≡ ok (s', q)
    → Kept s' k r.status
unfolding store_saved saved_record check_existing
save-Kept s s' p now k q r found h =
    let (fits, _, stored, _) = save-stores s s' p now q h in
    let there = get-set p.task_id k (saved_record p now) s.tasks in
    elim (Bool-cases (str_eq p.task_id k)) [
      | inl same ↦ (
        saved_record p now,
        ground (arith, there),
        ground (arith, str_eq_iff p.task_id k, assert-Transition r.status p.result.status),
      )
      | inr other ↦ (r, ground (arith, there), inl refl)
    ]

delete_spares :
    (s : TaskStore) (j k : String) (r : TaskRecord)
    → j ≢ k
    → map_get k s.tasks ≡ some r
    → map_get k (delete s j).0.tasks ≡ some r
unfolding delete
delete_spares s j k r other found = ground (arith, get-remove j k s.tasks, str_eq_iff j k)

step-Kept :
    (s : TaskStore) (c : Call) (k : String) (r : TaskRecord)
    → Spares k (c ∷ [])
    → map_get k s.tasks ≡ some r
    → Kept (step s c) k r.status
unfolding step after
step-Kept s (saves p now) k r spared found = elim (Result-cases (save s p now)) [
  | inl ((s', q), e) ↦ rw (e, after) (save-Kept s s' p now k q r found e)
  | inr (x, e) ↦ rw (e, after) (r, found, inl refl)
]
step-Kept s (updates j u now) k r spared found = elim (Result-cases (update s j u now)) [
  | inl ((s', some q), e) ↦ rw (e, after) (update-Kept s s' j u now k q r found e)
  | inl ((s', none), e) ↦ rw (e, after, update_missing s s' j u now e) (r, found, inl refl)
  | inr (x, e) ↦ rw (e, after) (r, found, inl refl)
]
step-Kept s (deletes j) k r spared found = (r, delete_spares s j k r spared.0 found, inl refl)

Spares-cons :
    (k : String) (c : Call) (cs : List Call) → Spares k (c ∷ cs) → Spares k (c ∷ []) × Spares k cs
Spares-cons k (saves p now) cs h = (tt, h)
Spares-cons k (updates j u now) cs h = (tt, h)
Spares-cons k (deletes j) cs h = ((h.0, tt), h.1)

prepend : {a b c : TaskStatus} → (a ≡ b) ⊎ Transition a b → Follows b c → Follows a c
prepend {c = c} (inl e) f = subst (λ x. Follows x c) (sym e) f
prepend (inr m) f = move m f

-- Whatever calls are made, short of deleting the task, its record stays, and its status only moves
-- along arrows of the transition table.
pub status_follows_table :
    (s : TaskStore) (cs : List Call) (k : String) (r : TaskRecord)
    → Spares k cs
    → map_get k s.tasks ≡ some r
    → (r' : TaskRecord) × (map_get k (run s cs).tasks ≡ some r') × Follows r.status r'.status
unfolding run
status_follows_table s [] k r spared found = (r, found, stay)
status_follows_table s (c ∷ cs) k r spared found =
    let (first, rest) = Spares-cons k c cs spared in
    let (q, at_q, one) = step-Kept s c k r first found in
    let (r', at_r', more) = status_follows_table (step s c) cs k q rest at_q in
    (r', at_r', prepend one more)

pub Follows-terminal : {a b : TaskStatus} → is_terminal a ≡ true → Follows a b → b ≡ a
Follows-terminal t stay = refl
Follows-terminal t (move m f) = absurd (ground (arith, Transition-live m))

-- Once a task is in a terminal status, no calls but its deletion move it out of that status.
pub terminal_absorbs :
    (s : TaskStore) (cs : List Call) (k : String) (r : TaskRecord)
    → Spares k cs
    → map_get k s.tasks ≡ some r
    → is_terminal r.status ≡ true
    → (r' : TaskRecord) × (map_get k (run s cs).tasks ≡ some r') × (r'.status ≡ r.status)
terminal_absorbs s cs k r spared found t =
    let (r', at_r', f) = status_follows_table s cs k r spared found in
    (r', at_r', Follows-terminal t f)

-- A save, unlike an update, rewrites a task in a terminal status: with the same status and no
-- idempotency key it always succeeds, and the new result and receipt stand in the record.
pub save_rewrites_terminal :
    (s : TaskStore) (p : SaveParams) (now : String) (r : TaskRecord)
    → map_get p.task_id s.tasks ≡ some r
    → is_terminal r.status ≡ true
    → p.result.status ≡ r.status
    → p.idempotency_key ≡ none
    → (s' : TaskStore) × (r' : TaskRecord) × (save s p now ≡ ok (s', r'))
      × (map_get p.task_id s'.tasks ≡ some r')
      × (r'.result ≡ some p.result)
      × (r'.receipt ≡ some p.receipt)
unfolding save check_existing check_key store_saved saved_record assert_valid_transition
save_rewrites_terminal s p now r found t same bare = (
  store_saved s (saved_record p now),
  saved_record p now,
  ground arith,
  get-set_self p.task_id (saved_record p now) s.tasks,
  refl,
  refl,
)
