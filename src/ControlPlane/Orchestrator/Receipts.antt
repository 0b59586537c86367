-- ===== src/ControlPlane/Orchestrator/Receipts.antt =====
-- All the receipts that the code of control-plane/orchestrator.ts leaves in its two stores.
use micro_agent_protocol.Base.{
  ◌≡◌, refl, sym, subst, inl, inr, String, Option, some, none, Bool-cases, Option-cases, arith,
  List, [], ◌∷◌, any,
}
use micro_agent_protocol.Base.Dict.{get as map_get}
use micro_agent_protocol.Protocol.{
  TaskRecord, ExecutionReceipt, status_eq, status_text, failed, revoked,
}
use micro_agent_protocol.Integration.Envelope.{TaskEnvelope}
use micro_agent_protocol.ControlPlane.TaskStore.{empty, get}
use micro_agent_protocol.ControlPlane.TaskStore.Receipts.{AllReceipts}
use micro_agent_protocol.ControlPlane.ReceiptStore
use micro_agent_protocol.ControlPlane.Orchestrator.State.{
  Services, Moment, Ticket, Runtime, InvokeResult, return, ◌>>◌, update_task, append_receipt,
  notify_webhook,
}
use micro_agent_protocol.ControlPlane.Orchestrator.Outputs.{build_receipt, dead_letter_result}
use micro_agent_protocol.ControlPlane.Orchestrator.Answers.{normalize_core_result}
use micro_agent_protocol.ControlPlane.Orchestrator.Dispatch.{
  record_outcome, settle, append_stored, on_dead_letter, outcome,
}
use micro_agent_protocol.ControlPlane.Orchestrator.Approval.{approved_result, settle_approval}
use micro_agent_protocol.ControlPlane.Orchestrator.Cancel.{
  revoke_task, cancel_task, find_task, cancel_receipt, cancel_result, cancellable_states,
}
use micro_agent_protocol.ControlPlane.Orchestrator.Events.{
  Event, dispatches, settles, dead_letters, settles_approval, cancels, sets_policy, registers,
  queue_steps, happen, happen_all,
}
use micro_agent_protocol.ControlPlane.Orchestrator.Sealed.{
  Sealed, StoredReceipts, Keeps, >>=-Keeps, update_task-Keeps, append_receipt-Keeps,
  notify_webhook-Keeps, update_append-Keeps,
}
use micro_agent_protocol.ControlPlane.Orchestrator.Signatures.{
  IsSigned, build_receipt-IsSigned, settled-IsSigned, approved-IsSigned, cancel_receipt-IsSigned,
  dispatch-Keeps,
}

module _ (s : Services) (m : Moment) where
  record_outcome-Keeps :
      (e : TaskEnvelope) (x : InvokeResult) (r : Runtime)
      → IsSigned s x.receipt
      → Keeps (IsSigned s) r (record_outcome m e x r)
  unfolding record_outcome
  record_outcome-Keeps e x r h =
      let status = status_text x.result.status in
      let told = notify_webhook e status x.result.summary (some x.result.structured_output) in
      update_append-Keeps (IsSigned s) e.task_id (outcome x.result.status x.result x.receipt)
        x.receipt m.stored_at (told >> return x) r refl h
        (λ r'.
          >>=-Keeps (IsSigned s) told (λ _. return x) r'
            (notify_webhook-Keeps (IsSigned s) e status x.result.summary
              (some x.result.structured_output) r')
            (λ _ c. c))

  append_stored-Keeps :
      (t : Ticket) (error : String) (r : Runtime) → Keeps (IsSigned s) r (append_stored t error r)
  unfolding append_stored get
  append_stored-Keeps t error r c =
      elim (Option-cases (map_get t.envelope.task_id r.task_store.tasks)) [
        | inl gone ↦ rw (gone, append_stored, get) c
        | inr (q, there) ↦ elim (Option-cases q.receipt) [
          | inl bare ↦ rw (there, append_stored, get) (rw bare c)
          | inr (x, has) ↦
              rw (there, append_stored, get)
                (rw has (
                  >>=-Keeps (IsSigned s) (append_receipt x)
                    (λ _. notify_webhook t.envelope (status_text failed) (some error) none) r
                    (append_receipt-Keeps (IsSigned s) x r
                      (c.tasks t.envelope.task_id q there x has))
                    (λ _.
                      notify_webhook-Keeps (IsSigned s) t.envelope (status_text failed) (some error)
                        none _)
                    c))
        ]
      ]

  on_dead_letter-Keeps :
      (t : Ticket) (error : String) (r : Runtime)
      → Keeps (IsSigned s) r (on_dead_letter s m t error r)
  unfolding on_dead_letter
  on_dead_letter-Keeps t error r =
      let receipt = build_receipt s m t "dead_lettered" in
      let u = outcome failed (dead_letter_result t error) receipt in
      >>=-Keeps (IsSigned s) (update_task t.envelope.task_id u m.stored_at)
        (λ _. append_stored t error) r
        (update_task-Keeps (IsSigned s) t.envelope.task_id u m.stored_at r (λ x e.
          subst (IsSigned s) {x = receipt} {y = x} (ground arith)
            (build_receipt-IsSigned s m t "dead_lettered")))
        (λ _. append_stored-Keeps t error _)

  cancel_task-Keeps :
      (task_id : String) (tenant_id : Option String) (r : Runtime)
      → Keeps (IsSigned s) r (cancel_task s m task_id tenant_id r)
  unfolding cancel_task revoke_task
  cancel_task-Keeps task_id tenant_id r = elim (Option-cases (find_task r task_id tenant_id)) [
    | inl none_found ↦ rw (none_found, cancel_task) (λ c. c)
    | inr (q, found) ↦ elim (Bool-cases (any (status_eq q.status) cancellable_states)) [
      | inr not_now ↦ rw (found, cancel_task) (rw not_now (λ c. c))
      | inl may ↦
          let receipt = cancel_receipt s m task_id q in
          let result = cancel_result task_id q in
          rw (found, cancel_task)
            (rw may (
              >>=-Keeps (IsSigned s)
                (update_task task_id (outcome revoked result receipt) m.stored_at)
                (λ _. return (record { result = result; receipt = receipt })) r
                (update_task-Keeps (IsSigned s) task_id (outcome revoked result receipt) m.stored_at
                  r
                  (λ x e.
                    subst (IsSigned s) {x = receipt} {y = x} (ground arith)
                      (cancel_receipt-IsSigned s m task_id q)))
                (λ _ c. c)))
    ]
  ]

  happen-Keeps :
      (r : Runtime) (e : Event) → Sealed (IsSigned s) r → Sealed (IsSigned s) (happen s m r e)
  unfolding happen settle settle_approval
  happen-Keeps r (dispatches q) c = dispatch-Keeps s m q r c
  happen-Keeps r (settles t x) c =
      record_outcome-Keeps t.envelope
        (normalize_core_result s m x t.envelope t.capability t.negotiation) r
        (settled-IsSigned s m t x) c
  happen-Keeps r (dead_letters t error) c = on_dead_letter-Keeps t error r c
  happen-Keeps r (settles_approval a x) c =
      record_outcome-Keeps a.envelope (approved_result s m a x) r (approved-IsSigned s m a x) c
  happen-Keeps r (cancels task_id tenant_id) c = cancel_task-Keeps task_id tenant_id r c
  happen-Keeps r (sets_policy p) c = record { tasks = c.tasks; receipts = c.receipts }
  happen-Keeps r (registers anchors checks d) c = record { tasks = c.tasks; receipts = c.receipts }
  happen-Keeps r (queue_steps now x) c = record { tasks = c.tasks; receipts = c.receipts }

happen_all-Sealed :
    (s : Services) (r : Runtime) (events : List (Moment × Event))
    → Sealed (IsSigned s) r
    → Sealed (IsSigned s) (happen_all s r events)
unfolding happen_all
happen_all-Sealed s r [] c = c
happen_all-Sealed s r ((m, e) ∷ events) c =
    happen_all-Sealed s (happen s m r e) events (happen-Keeps s m r e c)

empty-Sealed :
    (P : ExecutionReceipt → Type 0) (r : Runtime)
    → r.task_store ≡ empty
    → r.receipt_store ≡ ReceiptStore.empty
    → Sealed P r
unfolding empty ReceiptStore.empty map_get
empty-Sealed P r no_tasks no_receipts = record {
  tasks = subst (AllReceipts P) (sym no_tasks) (λ k q h. absurd (no_task k q h));
  receipts = subst (StoredReceipts P) (sym no_receipts) (λ k x h. absurd (no_receipt k x h));
}
  where
    no_task : (k : String) (q : TaskRecord) → map_get k [] ≡ some q → ⊥
    no_task k q h = cc

    no_receipt : (k : String) (x : ExecutionReceipt) → map_get k [] ≡ some x → ⊥
    no_receipt k x h = cc

-- Whatever is dispatched, approved, cancelled, settled and dead-lettered, in whatever order, over
-- stores that are empty at first: every receipt in the receipt store, and every receipt that a task
-- carries, has the signature of what it says, its own signature and the approval's reference left
-- out. So no receipt is stored unsigned, or changed after it was signed but for that reference.
pub receipts-IsSigned :
    (s : Services) (r : Runtime) (events : List (Moment × Event))
    → r.task_store ≡ empty
    → r.receipt_store ≡ ReceiptStore.empty
    → ((k : String) (x : ExecutionReceipt)
        → map_get k (happen_all s r events).receipt_store.receipts ≡ some x
        → IsSigned s x)
      × ((k : String) (q : TaskRecord) (x : ExecutionReceipt)
          → map_get k (happen_all s r events).task_store.tasks ≡ some q
          → q.receipt ≡ some x
          → IsSigned s x)
receipts-IsSigned s r events no_tasks no_receipts =
    let all = happen_all-Sealed s r events (empty-Sealed (IsSigned s) r no_tasks no_receipts) in
    (all.receipts, λ k q x there has. all.tasks k q there x has)
