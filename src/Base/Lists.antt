-- ===== src/Base/Lists.antt =====
-- Lists measured by native numbers, Boolean filters, and predicates by recursion.
use Prim.Native.Nat.{ℕ, zero, suc, ◌+◌, ◌-◌}
use mathlib.Core.Path.{◌≡◌, sym, subst}
use mathlib.Core.Logic.{inl, inr}
use mathlib.Core.Bool.{Bool, true, false, ◌&&◌, ◌||◌}
use mathlib.Core.List.{Memᴰ, List, [], ◌∷◌, ◌++◌}
use mathlib.Core.Option.{Option, none, some}
use native.Mathlib.Omega.{arith}
use micro_agent_protocol.Base.Tests.{Bool-cases, if◌then◌else◌}

module _ {ℓ} {A : Type ℓ} where
  abbrev pub length : List A → ℕ
  length [] = 0
  length (x ∷ xs) = suc (length xs)

  pub length-append : (xs ys : List A) → length (xs ++ ys) ≡ length xs + length ys
  length-append [] ys = omega arith
  length-append (x ∷ xs) ys = omega (arith, length-append xs ys)

  abbrev pub drop : ℕ → List A → List A
  drop zero xs = xs
  drop (suc n) [] = []
  drop (suc n) (x ∷ xs) = drop n xs

  pub length-drop : (n : ℕ) (xs : List A) → length (drop n xs) ≡ length xs - n
  length-drop zero xs = omega arith
  length-drop (suc n) [] = omega arith
  length-drop (suc n) (x ∷ xs) = omega (arith, length-drop n xs)

  -- `Array.prototype.filter`, on a test.
  abbrev pub filter : (A → Bool) → List A → List A
  filter p [] = []
  filter p (x ∷ xs) = let rest = filter p xs in if p x then x ∷ rest else rest

  -- `Array.prototype.find`.
  abbrev pub find? : (A → Bool) → List A → Option A
  find? p [] = none
  find? p (x ∷ xs) = if p x then some x else find? p xs

  -- `Array.prototype.some` and `every`.
  abbrev pub any : (A → Bool) → List A → Bool
  any p [] = false
  any p (x ∷ xs) = p x || any p xs

  abbrev pub every : (A → Bool) → List A → Bool
  every p [] = true
  every p (x ∷ xs) = p x && every p xs

  -- Predicates by recursion, which the tactics read and build.
  abbrev pub All {κ} : (A → Type κ) → List A → Type κ
  All P [] = Unit
  All P (x ∷ xs) = P x × All P xs

module _ {ℓ} {A : Type ℓ} (p : A → Bool) where
  pub mem-filter : {a : A} (xs : List A) → Memᴰ a xs → p a ≡ true → Memᴰ a (filter p xs)
  mem-filter {a} [] m h = elim m [ ]
  mem-filter {a} (x ∷ xs) (Memᴰ.head e) h = rw (subst (λ y. p y ≡ true) e h) (Memᴰ.head e)
  mem-filter {a} (x ∷ xs) (Memᴰ.tail m) h = elim (Bool-cases (p x)) [
    | inl t ↦ rw t (Memᴰ.tail (mem-filter xs m h))
    | inr f ↦ rw f (mem-filter xs m h)
  ]

  pub filter-mem : {a : A} (xs : List A) → Memᴰ a (filter p xs) → Memᴰ a xs × (p a ≡ true)
  filter-mem {a} [] m = elim m [ ]
  filter-mem {a} (x ∷ xs) m = elim (Bool-cases (p x)) [
    | inl t ↦ at_head t (filter-mem xs) (rw t at m)
    | inr f ↦ let (there, h) = filter-mem xs (rw f at m) in (Memᴰ.tail there, h)
  ]
    where
      at_head :
          p x ≡ true
          → (Memᴰ a (filter p xs) → Memᴰ a xs × (p a ≡ true))
          → Memᴰ a (x ∷ filter p xs)
          → Memᴰ a (x ∷ xs) × (p a ≡ true)
      at_head t rest (Memᴰ.head e) = (Memᴰ.head e, subst (λ y. p y ≡ true) (sym e) t)
      at_head t rest (Memᴰ.tail n) = (Memᴰ.tail (rest n).0, (rest n).1)
