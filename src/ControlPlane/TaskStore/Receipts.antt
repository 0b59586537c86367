-- ===== src/ControlPlane/TaskStore/Receipts.antt =====
-- What holds of the receipts that a TaskStore (control-plane/task-store.ts) keeps with its tasks.
use micro_agent_protocol.Base.{
  ◌≡◌, sym, subst, inl, inr, String, Option, some, none, Bool-cases, Option-cases, arith, str_eq,
  ok,
}
use micro_agent_protocol.Base.Dict.{get as map_get, set as map_set, get-set, get-remove}
use micro_agent_protocol.Protocol.{TaskRecord, ExecutionReceipt}
use micro_agent_protocol.ControlPlane.TaskGuards.{Updates}
use micro_agent_protocol.ControlPlane.TaskStore.{
  TaskStore, SaveParams, save, update, delete, store_saved, saved_record, updated_record,
}
use micro_agent_protocol.ControlPlane.TaskStore.Invariant.{save-stores}
use micro_agent_protocol.ControlPlane.TaskStore.Update.{update-stores, update-found}
use micro_agent_protocol.ControlPlane.TaskStore.History.{update_missing}

-- A property of the receipt of a task, if it has one.
abbrev pub OfReceipt : (ExecutionReceipt → Type 0) → Option ExecutionReceipt → Type 0
OfReceipt P o = (x : ExecutionReceipt) → o ≡ some x → P x

abbrev pub AllReceipts : (ExecutionReceipt → Type 0) → TaskStore → Type 0
AllReceipts P s = (k : String) (q : TaskRecord) → map_get k s.tasks ≡ some q → OfReceipt P q.receipt

module _ (P : ExecutionReceipt → Type 0) where
  set-AllReceipts :
      (s s' : TaskStore) (k : String) (q : TaskRecord)
      → AllReceipts P s
      → OfReceipt P q.receipt
      → s'.tasks ≡ map_set k q s.tasks
      → AllReceipts P s'
  set-AllReceipts s s' k q all h e j p found = elim (Bool-cases (str_eq k j)) [
    | inl same ↦
        subst (λ p. OfReceipt P p.receipt) {x = q} {y = p} (ground (arith, get-set k j q s.tasks)) h
    | inr other ↦ all j p (ground (arith, get-set k j q s.tasks))
  ]

  pub save-AllReceipts :
      (s s' : TaskStore) (p : SaveParams) (now : String) (q : TaskRecord)
      → AllReceipts P s
      → P p.receipt
      → save s p now ≡ ok (s', q)
      → AllReceipts P s'
  unfolding store_saved saved_record
  save-AllReceipts s s' p now q all h e =
      let (_, _, stored, _) = save-stores s s' p now q e in
      set-AllReceipts s s' p.task_id (saved_record p now) all
        (λ x same. subst P {x = p.receipt} {y = x} (ground arith) h) (ground arith)

  updated-OfReceipt :
      (q : TaskRecord) (u : Updates) (now : String)
      → OfReceipt P q.receipt
      → OfReceipt P u.receipt
      → OfReceipt P (updated_record q u now).receipt
  unfolding updated_record
  updated-OfReceipt q u now old new x e = elim (Option-cases u.receipt) [
    | inl no_receipt ↦ old x (ground arith)
    | inr (x', given) ↦ new x (ground arith)
  ]

  pub update-AllReceipts :
      (s s' : TaskStore) (k : String) (u : Updates) (now : String) (o : Option TaskRecord)
      → AllReceipts P s
      → OfReceipt P u.receipt
      → update s k u now ≡ ok (s', o)
      → AllReceipts P s'
  update-AllReceipts s s' k u now (some q) all h e =
      let (old, found) = update-found s s' k u now q e in
      let (_, stored, _) = update-stores s s' k u now old q found e in
      set-AllReceipts s s' k (updated_record old u now) all
        (updated-OfReceipt old u now (all k old found) h) (ground arith)
  update-AllReceipts s s' k u now none all h e =
      subst (AllReceipts P) (sym (update_missing s s' k u now e)) all

  pub delete-AllReceipts :
      (s : TaskStore) (k : String) → AllReceipts P s → AllReceipts P (delete s k).0
  unfolding delete
  delete-AllReceipts s k all = elim (Option-cases (map_get k s.tasks)) [
    | inl gone ↦ rw (gone, delete) all
    | inr (q, there) ↦
        rw (there, delete) (λ j p found. all j p (ground (arith, get-remove k j s.tasks)))
  ]
