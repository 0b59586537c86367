-- ===== src/ControlPlane/TaskStore/Complete.antt =====
-- Every task that a TaskStore (control-plane/task-store.ts) holds has a result and a receipt.
use micro_agent_protocol.Base.{
  ◌≡◌, refl, sym, subst, inl, inr, String, none, some, List, [], ◌∷◌, Result-cases, Bool-cases,
  Option-cases, arith, str_eq,
}
use micro_agent_protocol.Base.Dict.{get as map_get, set as map_set, get-set, get-remove}
use micro_agent_protocol.Protocol.{TaskRecord, ResultPackage, ExecutionReceipt}
use micro_agent_protocol.ControlPlane.TaskGuards.{Updates}
use micro_agent_protocol.ControlPlane.TaskStore.{
  TaskStore, save, update, delete, store_saved, saved_record, updated_record, empty,
}
use micro_agent_protocol.ControlPlane.TaskStore.Invariant.{save-stores}
use micro_agent_protocol.ControlPlane.TaskStore.Update.{update-stores, update-found}
use micro_agent_protocol.ControlPlane.TaskStore.History.{
  Call, saves, updates, deletes, after, step, run, update_missing,
}

abbrev pub HasOutcome : TaskRecord → Type 0
HasOutcome q =
    (p : ResultPackage) × (x : ExecutionReceipt) × (q.result ≡ some p) × (q.receipt ≡ some x)

pub record IsComplete (s : TaskStore) : Type 0 where
  pub outcomes : (k : String) (q : TaskRecord) → map_get k s.tasks ≡ some q → HasOutcome q

pub empty-IsComplete : IsComplete empty
unfolding empty map_get
empty-IsComplete = record { outcomes = λ k q h. absurd (none_held k q h) }
  where
    none_held : (k : String) (q : TaskRecord) → map_get k [] ≡ some q → ⊥
    none_held k q h = cc

set-IsComplete :
    (s s' : TaskStore) (k : String) (q : TaskRecord)
    → IsComplete s
    → HasOutcome q
    → s'.tasks ≡ map_set k q s.tasks
    → IsComplete s'
set-IsComplete s s' k q c h e = record {
  outcomes = λ j p found. elim (Bool-cases (str_eq k j)) [
    | inl same ↦ subst HasOutcome {x = q} {y = p} (ground (arith, get-set k j q s.tasks)) h
    | inr other ↦ c.outcomes j p (ground (arith, get-set k j q s.tasks))
  ];
}

updated-HasOutcome :
    (q : TaskRecord) (u : Updates) (now : String)
    → HasOutcome q
    → HasOutcome (updated_record q u now)
unfolding updated_record
updated-HasOutcome q u now (p, x, hp, hx) = elim (Option-cases u.result) [
  | inl no_result ↦ elim (Option-cases u.receipt) [
    | inl no_receipt ↦ (p, x, ground arith, ground arith)
    | inr (x', e') ↦ (p, x', ground arith, ground arith)
  ]
  | inr (p', e) ↦ elim (Option-cases u.receipt) [
    | inl no_receipt ↦ (p', x, ground arith, ground arith)
    | inr (x', e') ↦ (p', x', ground arith, ground arith)
  ]
]

step-IsComplete : (s : TaskStore) (c : Call) → IsComplete s → IsComplete (step s c)
unfolding step after store_saved saved_record delete
step-IsComplete s (saves p now) c = elim (Result-cases (save s p now)) [
  | inl ((s', q), e) ↦
      let (_, _, stored, _) = save-stores s s' p now q e in
      rw (e, after)
        (set-IsComplete s s' p.task_id (saved_record p now) c (p.result, p.receipt, refl, refl)
          (ground arith))
  | inr (x, e) ↦ rw (e, after) c
]
step-IsComplete s (updates k u now) c = elim (Result-cases (update s k u now)) [
  | inl ((s', some q), e) ↦
      let (old, found) = update-found s s' k u now q e in
      let (_, stored, _) = update-stores s s' k u now old q found e in
      rw (e, after)
        (set-IsComplete s s' k (updated_record old u now) c
          (updated-HasOutcome old u now (c.outcomes k old found)) (ground arith))
  | inl ((s', none), e) ↦ rw (e, after) (subst IsComplete (sym (update_missing s s' k u now e)) c)
  | inr (x, e) ↦ rw (e, after) c
]
step-IsComplete s (deletes k) c = record {
  outcomes = λ j q found. c.outcomes j q (ground (arith, get-remove k j s.tasks));
}

pub run-IsComplete : (s : TaskStore) (cs : List Call) → IsComplete s → IsComplete (run s cs)
unfolding run
run-IsComplete s [] c = c
run-IsComplete s (d ∷ cs) c = run-IsComplete (step s d) cs (step-IsComplete s d c)
