-- ===== src/ControlPlane/ReceiptStore/Integrity.antt =====
-- What a clean integrity report of control-plane/receipt-store.ts says of the receipts.
use micro_agent_protocol.Base.{
  ◌≡◌, refl, ◌↔◌, ℕ, suc, String, Option, none, some, Bool, true, false, List, [], ◌∷◌, length,
  arith, truthy,
}
use micro_agent_protocol.Protocol.{ExecutionReceipt}
use micro_agent_protocol.ControlPlane.ReceiptStore.{
  ReceiptStore, list, no_errors, is_absent, check_order, check_receipts, verify_receipt_integrity,
}

-- The fields that a receipt must have are there, and not empty.
abbrev pub IsComplete : ExecutionReceipt → Type 0
IsComplete r =
    (truthy r.receipt_id ≡ true)
    × (is_absent r.signature ≡ false)
    × (truthy r.timestamp ≡ true)
    × (is_absent r.task_id ≡ false)

module _ (is_before : String → String → Bool) where
  -- The receipt is not before the one in front of it.
  abbrev Comes : Option ExecutionReceipt → ExecutionReceipt → Type 0
  Comes none r = Unit
  Comes (some prev) r = truthy prev.timestamp ≡ true → is_before r.timestamp prev.timestamp ≡ false

  abbrev SoundFrom : Option ExecutionReceipt → List ExecutionReceipt → Type 0
  SoundFrom prev [] = Unit
  SoundFrom prev (r ∷ rs) = IsComplete r × Comes prev r × SoundFrom (some r) rs

  -- Complete receipts, none before the one in front of it.
  abbrev pub Sound : List ExecutionReceipt → Type 0
  Sound rs = SoundFrom none rs

  clean-Sound :
      (i : ℕ) (prev : Option ExecutionReceipt) (rs : List ExecutionReceipt)
      → no_errors (check_receipts is_before i prev rs) ≡ true
      → SoundFrom prev rs
  unfolding check_receipts check_order
  clean-Sound i prev [] h = tt
  clean-Sound i none (r ∷ rs) h = ground (arith, clean-Sound (suc i) (some r) rs)
  clean-Sound i (some prev) (r ∷ rs) h = ground (arith, clean-Sound (suc i) (some r) rs)

  Sound-clean :
      (i : ℕ) (prev : Option ExecutionReceipt) (rs : List ExecutionReceipt)
      → SoundFrom prev rs
      → no_errors (check_receipts is_before i prev rs) ≡ true
  unfolding check_receipts check_order
  Sound-clean i prev [] h = refl
  Sound-clean i none (r ∷ rs) h = ground (arith, Sound-clean (suc i) (some r) rs)
  Sound-clean i (some prev) (r ∷ rs) h = ground (arith, Sound-clean (suc i) (some r) rs)

  -- The report counts the receipts that are listed, and says that they are valid exactly if each has
  -- an id, a signature, a time stamp and a task id, none of them empty, and none has a time stamp
  -- before that of the receipt in front of it. What a signature says is not looked at: any text does.
  pub verify_exact :
      (s : ReceiptStore)
      → (((verify_receipt_integrity is_before s).valid ≡ true) ↔ Sound (list s none))
        × ((verify_receipt_integrity is_before s).total ≡ length (list s none))
  unfolding verify_receipt_integrity
  verify_exact s = ((clean-Sound 0 none (list s none), Sound-clean 0 none (list s none)), refl)
