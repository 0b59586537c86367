-- ===== src/Base/Results.antt =====
-- Code that throws: the value, or the error that stands for what was thrown.
use mathlib.Core.Path.{◌≡◌, refl}
use mathlib.Core.Logic.{◌⊎◌, inl, inr}
use mathlib.Core.Bool.{Bool, true, false}

pub data Result {ℓ κ} (Thrown : Type ℓ) (Value : Type κ) : Type (ℓ ⊔ κ) where
  ok : Value → Result Thrown Value
  err : Thrown → Result Thrown Value

-- `if (test) throw thrown`.
abbrev pub throw_if {ℓ} : {Thrown : Type ℓ} → Bool → Thrown → Result Thrown (Unit {0})
throw_if false thrown = ok tt
throw_if true thrown = err thrown

module _ {ℓ κ} {Thrown : Type ℓ} where
  infixl 5 ◌>>=◌
  abbrev pub ◌>>=◌ :
      {Before After : Type κ}
      → Result Thrown Before
      → (Before → Result Thrown After)
      → Result Thrown After
  err thrown >>= next = err thrown
  ok value >>= next = next value

  -- A code that returned or threw.
  pub Result-cases :
      {Value : Type κ} (code : Result Thrown Value)
      → ((value : Value) × (code ≡ ok value)) ⊎ ((thrown : Thrown) × (code ≡ err thrown))
  Result-cases (err thrown) = inr (thrown, refl)
  Result-cases (ok value) = inl (value, refl)

  -- What follows ran only where the code before it returned.
  pub >>=-eq-ok :
      {Before After : Type κ} (code : Result Thrown Before) (next : Before → Result Thrown After)
      {after : After}
      → (code >>= next) ≡ ok after
      → (before : Before) × (code ≡ ok before) × (next before ≡ ok after)
  >>=-eq-ok (err thrown) next returned = cc
  >>=-eq-ok (ok value) next returned = (value, refl, returned)

infixl 5 ◌>>◌
abbrev pub ◌>>◌ {ℓ} :
    {Thrown : Type ℓ} {After : Type 0}
    → Result Thrown (Unit {0})
    → Result Thrown After
    → Result Thrown After
check >> next = check >>= λ _. next

pub throw_if-eq-ok {ℓ} :
    {Thrown : Type ℓ} (test : Bool) (thrown : Thrown) {u : Unit {0}}
    → throw_if test thrown ≡ ok u
    → test ≡ false
throw_if-eq-ok false thrown passed = refl
throw_if-eq-ok true thrown passed = cc
