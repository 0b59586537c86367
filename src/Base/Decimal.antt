-- ===== src/Base/Decimal.antt =====
-- Numbers as texts: `String(n)` of a whole number.
use Prim.Native.Nat.{ℕ, zero, suc, ◌/◌, ◌%◌, ◌<◌, ◌≤◌}
use Prim.Native.String.{String, ◌++◌}
use mathlib.Core.Path.{◌≡◌, refl}
use mathlib.Core.Logic.{inl, inr}
use native.Mathlib.Omega.{arith}
use micro_agent_protocol.Base.Tests.{ltb, if◌then◌else◌, Bool-cases}

-- The text of a digit.
digit : ℕ → String
digit zero = "0"
digit (suc zero) = "1"
digit (suc (suc zero)) = "2"
digit (suc (suc (suc zero))) = "3"
digit (suc (suc (suc (suc zero)))) = "4"
digit (suc (suc (suc (suc (suc zero))))) = "5"
digit (suc (suc (suc (suc (suc (suc zero)))))) = "6"
digit (suc (suc (suc (suc (suc (suc (suc zero))))))) = "7"
digit (suc (suc (suc (suc (suc (suc (suc (suc zero)))))))) = "8"
digit (suc (suc (suc (suc (suc (suc (suc (suc (suc d))))))))) = "9"

-- The digits of `n` in front of `rest`. A number has no more digits than `n + 1`, the fuel.
digits : ℕ → ℕ → String → String
unfolding digit
digits zero n rest = rest
digits (suc fuel) n rest =
    let rest' = digit (n % 10) ++ rest in
    let longer = digits fuel (n / 10) rest' in if ltb n 10 then rest' else longer

unfoldable pub decimal : ℕ → String
unfolding digits
decimal n = digits (suc n) n ""

-- Any fuel above the number gives the same digits.
digits_fuel : (f g n : ℕ) (rest : String) → n < f → n < g → digits f n rest ≡ digits g n rest
unfolding digits
digits_fuel zero g n rest a b = absurd (omega arith)
digits_fuel (suc f) zero n rest a b = absurd (omega arith)
digits_fuel (suc f) (suc g) n rest a b = elim (Bool-cases (ltb n 10)) [
  | inl small ↦ rw small refl
  | inr large ↦
      let tens : 10 ≤ n = ground arith in
      rw large (digits_fuel f g (n / 10) (digit (n % 10) ++ rest) (omega arith) (omega arith))
]
