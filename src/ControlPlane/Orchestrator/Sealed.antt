-- ===== src/ControlPlane/Orchestrator/Sealed.antt =====
-- Code of control-plane/orchestrator.ts that keeps a property of all receipts, those of the receipt
-- store and those that the tasks carry.
use micro_agent_protocol.Base.{
  ◌≡◌, sym, subst, inl, inr, String, Option, some, Result-cases, Bool-cases, arith, str_eq,
}
use micro_agent_protocol.Base.Dict.{get as map_get, get-set}
use micro_agent_protocol.Base.Json.{Fields}
use micro_agent_protocol.Protocol.{ExecutionReceipt}
use micro_agent_protocol.Integration.Envelope.{TaskEnvelope}
use micro_agent_protocol.ControlPlane.TaskGuards.{Updates}
use micro_agent_protocol.ControlPlane.TaskStore.{SaveParams, save, update}
use micro_agent_protocol.ControlPlane.TaskStore.Receipts.{
  OfReceipt, AllReceipts, save-AllReceipts, update-AllReceipts,
}
use micro_agent_protocol.ControlPlane.ReceiptStore.{ReceiptStore, added, append}
use micro_agent_protocol.ControlPlane.ReceiptStore.Invariant.{append-cases}
use micro_agent_protocol.ControlPlane.Orchestrator.State.{
  Runtime, Action, ◌>>=◌, ◌>>◌, save_task, update_task, append_receipt, notify_webhook,
}

abbrev pub StoredReceipts : (ExecutionReceipt → Type 0) → ReceiptStore → Type 0
StoredReceipts P s = (k : String) (x : ExecutionReceipt) → map_get k s.receipts ≡ some x → P x

-- The property of every receipt.
pub record Sealed (P : ExecutionReceipt → Type 0) (r : Runtime) : Type 0 where
  pub tasks : AllReceipts P r.task_store
  pub receipts : StoredReceipts P r.receipt_store

-- The property is kept.
abbrev pub Keeps {ℓ} : (ExecutionReceipt → Type 0) → Runtime → {A : Type ℓ} → A × Runtime → Type 0
Keeps P r (a, r') = Sealed P r → Sealed P r'

module _ (P : ExecutionReceipt → Type 0) where
  pub same-Keeps :
      {A : Type 0} (r : Runtime) (x : A × Runtime)
      → x.1.task_store ≡ r.task_store
      → x.1.receipt_store ≡ r.receipt_store
      → Keeps P r x
  same-Keeps r x e f c = record {
    tasks = subst (AllReceipts P) (sym e) c.tasks;
    receipts = subst (StoredReceipts P) (sym f) c.receipts;
  }

  pub >>=-Keeps :
      {A B : Type 0} (code : Action A) (next : A → Action B) (r : Runtime)
      → Keeps P r (code r)
      → ((a : A) → Keeps P (code r).1 (next a (code r).1))
      → Keeps P r ((code >>= next) r)
  >>=-Keeps code next r first rest c = elim (Result-cases (code r).0) [
    | inl (a, e) ↦ rw (e, ◌>>=◌) (rest a (first c))
    | inr (x, e) ↦ rw (e, ◌>>=◌) (first c)
  ]

  pub save_task-Keeps :
      (p : SaveParams) (now : String) (r : Runtime) → P p.receipt → Keeps P r (save_task p now r)
  unfolding save_task
  save_task-Keeps p now r h c = elim (Result-cases (save r.task_store p now)) [
    | inl ((store, q), e) ↦
        rw (e, save_task)
          (record {
            tasks = save-AllReceipts P r.task_store store p now q c.tasks h e;
            receipts = c.receipts;
          })
    | inr (x, e) ↦ rw (e, save_task) c
  ]

  pub update_task-Keeps :
      (task_id : String) (u : Updates) (now : String) (r : Runtime)
      → OfReceipt P u.receipt
      → Keeps P r (update_task task_id u now r)
  unfolding update_task
  update_task-Keeps task_id u now r h c = elim (Result-cases (update r.task_store task_id u now)) [
    | inl ((store, o), e) ↦
        rw (e, update_task)
          (record {
            tasks = update-AllReceipts P r.task_store store task_id u now o c.tasks h e;
            receipts = c.receipts;
          })
    | inr (x, e) ↦ rw (e, update_task) c
  ]

  added-StoredReceipts :
      (s : ReceiptStore) (x : ExecutionReceipt)
      → P x
      → StoredReceipts P s
      → StoredReceipts P (added s x)
  unfolding added
  added-StoredReceipts s x h all k y found = elim (Bool-cases (str_eq x.receipt_id k)) [
    | inl same ↦ subst P {x = x} {y = y} (ground (arith, get-set x.receipt_id k x s.receipts)) h
    | inr other ↦ all k y (ground (arith, get-set x.receipt_id k x s.receipts))
  ]

  pub append_receipt-Keeps :
      (x : ExecutionReceipt) (r : Runtime) → P x → Keeps P r (append_receipt x r)
  unfolding append_receipt
  append_receipt-Keeps x r h c = elim (Result-cases (append r.receipt_store x)) [
    | inl (store, e) ↦
        rw (e, append_receipt)
          (record {
            tasks = c.tasks;
            receipts = elim (append-cases r.receipt_store store x e) [
              | inl (new, same) ↦
                  subst (StoredReceipts P) (sym same)
                    (added-StoredReceipts r.receipt_store x h c.receipts)
              | inr (q, there, text, same) ↦ subst (StoredReceipts P) (sym same) c.receipts
            ];
          })
    | inr (f, e) ↦ rw (e, append_receipt) c
  ]

  pub notify_webhook-Keeps :
      (e : TaskEnvelope) (status : String) (summary : Option String) (output : Option Fields)
      (r : Runtime)
      → Keeps P r (notify_webhook e status summary output r)
  unfolding notify_webhook
  notify_webhook-Keeps e status summary output r =
      same-Keeps r (notify_webhook e status summary output r) (ground arith) (ground arith)

  -- The two ways in which the orchestrator stores a receipt, and what comes after.
  pub save_append-Keeps :
      {B : Type 0} (p : SaveParams) (now : String) (next : Action B) (r : Runtime)
      → P p.receipt
      → ((r' : Runtime) → Keeps P r' (next r'))
      → Keeps P r ((save_task p now >> (append_receipt p.receipt >> next)) r)
  save_append-Keeps p now next r h rest =
      >>=-Keeps (save_task p now) (λ _. append_receipt p.receipt >> next) r
        (save_task-Keeps p now r h)
        (λ _.
          >>=-Keeps (append_receipt p.receipt) (λ _. next) (save_task p now r).1
            (append_receipt-Keeps p.receipt (save_task p now r).1 h) (λ _. rest _))

  pub update_append-Keeps :
      {B : Type 0} (task_id : String) (u : Updates) (x : ExecutionReceipt) (now : String)
      (next : Action B) (r : Runtime)
      → u.receipt ≡ some x
      → P x
      → ((r' : Runtime) → Keeps P r' (next r'))
      → Keeps P r ((update_task task_id u now >> (append_receipt x >> next)) r)
  update_append-Keeps task_id u x now next r e h rest =
      >>=-Keeps (update_task task_id u now) (λ _. append_receipt x >> next) r
        (update_task-Keeps task_id u now r (λ y f. subst P {x = x} {y = y} (ground arith) h))
        (λ _.
          >>=-Keeps (append_receipt x) (λ _. next) (update_task task_id u now r).1
            (append_receipt-Keeps x (update_task task_id u now r).1 h) (λ _. rest _))
