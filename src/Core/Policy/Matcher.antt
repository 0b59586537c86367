-- ===== src/Core/Policy/Matcher.antt =====
-- core/policy/index.ts: compiling the capability glob of a rule, and matching with it.
pub mod Glob
use micro_agent_protocol.Base.{
  ◌≡◌, ℕ, zero, suc, ◌+◌, ◌*◌, ◌-◌, String, Option, none, some, Bool, true, false, not, ◌&&◌, ◌||◌,
  List, [], ◌∷◌, map, any, if◌then◌else◌, or_else, str_eq, truthy, codes, ◌==◌, ltb, leb,
}

-- The characters with a meaning in regular expressions that the source does not escape.
abbrev pub is_special : ℕ → Bool
is_special c =
    c == b'\\'
    || c == b'^'
    || c == b'$'
    || c == b'+'
    || c == b'?'
    || c == b'('
    || c == b')'
    || c == b'['
    || c == b']'
    || c == b'{'
    || c == b'}'
    || c == b'|'

-- A glob whose pattern means what the glob says.
abbrev pub IsPlain : String → Type 0
IsPlain glob = any is_special (codes glob) ≡ false

-- What a `CompiledCapabilityMatcher` holds: one of its three fields is set.
pub data CapabilityMatcher : Type 0 where
  match_all : CapabilityMatcher
  exact : String → CapabilityMatcher
  regex : List ℕ → CapabilityMatcher

unfoldable pub compile_capability_matcher : String → CapabilityMatcher
compile_capability_matcher capability =
    if str_eq capability "*"
    then match_all
    else if not (any (λ c. c == b'*') (codes capability))
    then exact capability
    else regex (codes capability)

-- `.` of a regular expression: any character but the four line terminators.
unfoldable pub is_dot : ℕ → Bool
is_dot c = not (c == 10 || c == 13 || c == 8232 || c == 8233)

abbrev is_nil : List ℕ → Bool
is_nil [] = true
is_nil (c ∷ s) = false

-- `.*`, then what follows it.
pub star : (List ℕ → Bool) → List ℕ → Bool
star rest [] = rest []
star rest (c ∷ s) = rest (c ∷ s) || (is_dot c && star rest s)

pub literal : ℕ → (List ℕ → Bool) → List ℕ → Bool
literal x rest [] = false
literal x rest (c ∷ s) = x == c && rest s

-- `new RegExp("^" + pattern + "$").test(text)`, where `pattern` is the glob with each `.` escaped and
-- each `*` made `.*`. The other characters of the glob stand for themselves. The source does not
-- escape those with a meaning in regular expressions: this models globs that hold none of them.
unfoldable pub regex_test : List ℕ → List ℕ → Bool
unfolding star literal is_dot
regex_test [] s = is_nil s
regex_test (x ∷ p) s = if x == b'*' then star (regex_test p) s else literal x (regex_test p) s

unfoldable pub matches_capability : String → CapabilityMatcher → Bool
unfolding regex_test
matches_capability capability match_all = true
matches_capability capability (exact e) = str_eq e capability
matches_capability capability (regex p) = regex_test p (codes capability)
