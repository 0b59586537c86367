-- ===== src/Base/Split.antt =====
-- The parts of a text between its dots.
use Prim.Native.Char.{code}
use Prim.Native.String.{String, ◌++◌}
use Prim.Native.String.append
use mathlib.Core.Path.{◌≡◌, refl}
use mathlib.Core.List.{List, [], ◌∷◌}
use mathlib.Core.Bool.{Bool, true, not, ◌&&◌}
use native.Mathlib.Omega.{arith}
use micro_agent_protocol.Base.Tests.{◌==◌, if◌then◌else◌}

-- `s.split(".")`.
unfoldable pub split_dots : String → List String
split_dots String.[] = "" ∷ []
split_dots (String.◌∷◌ c s) = elim (split_dots s) [
  | [] ↦ []
  | p ∷ ps ↦ if code c == 46 then "" ∷ p ∷ ps else String.◌∷◌ c p ∷ ps
]

abbrev pub has_no_dot : String → Bool
has_no_dot String.[] = true
has_no_dot (String.◌∷◌ c s) = not (code c == 46) && has_no_dot s

abbrev pub IsParts : List String → Type 0
IsParts [] = ⊥
IsParts (p ∷ ps) = Unit {0}

split_dots-IsParts : (s : String) → IsParts (split_dots s)
unfolding split_dots
split_dots-IsParts String.[] = tt
split_dots-IsParts (String.◌∷◌ c s) = ground (arith, split_dots-IsParts s)

-- A text without dots, a dot and a rest: the text comes first.
pub split_dots-cons :
    (a b : String) → has_no_dot a ≡ true → split_dots (a ++ ("." ++ b)) ≡ a ∷ split_dots b
unfolding split_dots
split_dots-cons String.[] b h =
    rw (append.nil, append.cons) (rw (append.nil b) (ground (arith, split_dots-IsParts b)))
split_dots-cons (String.◌∷◌ c a) b h =
    rw (append.cons c a ("." ++ b)) (ground (arith, split_dots-cons a b))

pub split_dots_none : (a : String) → has_no_dot a ≡ true → split_dots a ≡ a ∷ []
unfolding split_dots
split_dots_none String.[] h = refl
split_dots_none (String.◌∷◌ c a) h = ground (arith, split_dots_none a)
