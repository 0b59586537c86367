-- ===== src/Core/Policy/Condition.antt =====
-- core/policy/index.ts: field paths, the comparison operators and the compiled conditions.
pub mod Meaning
use micro_agent_protocol.Base.{
  ℕ, zero, suc, ◌+◌, ◌*◌, ◌-◌, String, Option, none, some, Bool, true, false, not, ◌&&◌, ◌||◌, List,
  [], ◌∷◌, map, any, if◌then◌else◌, or_else, str_eq, truthy, codes, ◌==◌, ltb, leb,
}
use Prim.Native.String.{◌++◌}
use Prim.Native.Char.{code}
use micro_agent_protocol.Base.Json.{
  ℤ, pos, Number, nan, int, Value, undefined, null, boolean, number, text, array, object, Items,
  nil, cons, lookup, get_item, count_items, int_eq, int_lt,
}
use micro_agent_protocol.Core.Types.{
  PolicyAction, allow, deny, require_approval, Intent, PolicyDecision, Operator, eq, neq, gt, gte,
  lt, lte, in_list, Condition, always, never, unrecognised, several, comparison, all_of, any_of,
  negation, field_ref, Conditions, PolicyRule, PolicyDocument, intent_value,
}

-- `path.split(".")`.
prepend : String → List String → List String
prepend c [] = c ∷ []
prepend c (w ∷ ws) = (c ++ w) ∷ ws

unfoldable pub split_path : String → List String
unfolding prepend
split_path String.[] = "" ∷ []
split_path (String.◌∷◌ c s) =
    let rest = split_path s in
    if code c == b'.' then "" ∷ rest else prepend (String.◌∷◌ c String.[]) rest

-- A canonical array index: decimal digits, with no zero in front of others.
index_from : ℕ → List ℕ → Option ℕ
index_from n [] = some n
index_from n (c ∷ s) = if leb b'0' c && leb c b'9' then index_from (n * 10 + (c - 48)) s else none

array_index : List ℕ → Option ℕ
unfolding index_from
array_index [] = none
array_index (c ∷ []) = index_from 0 (c ∷ [])
array_index (c ∷ d ∷ s) = if c == b'0' then none else index_from 0 (c ∷ d ∷ s)

-- `xs[part]`. Inherited properties, of arrays and of objects, are left out.
array_property : String → Items → Value
unfolding array_index get_item count_items
array_property part xs =
    if str_eq part "length"
    then number (int (pos (count_items xs)))
    else elim (array_index (codes part)) [ none ↦ undefined | some i ↦ get_item i xs ]

unfoldable pub get_field_value_from_parts : List String → Value → Value
unfolding array_property lookup
get_field_value_from_parts [] current = current
get_field_value_from_parts (part ∷ parts) null = undefined
get_field_value_from_parts (part ∷ parts) undefined = undefined
get_field_value_from_parts (part ∷ parts) (object fs) =
    get_field_value_from_parts parts (lookup part fs)
get_field_value_from_parts (part ∷ parts) (array xs) =
    get_field_value_from_parts parts (array_property part xs)
get_field_value_from_parts (part ∷ parts) _ = undefined

-- `===`. An object or array of the policy is never the one of the intent.
unfoldable pub strict_eq : Value → Value → Bool
strict_eq undefined undefined = true
strict_eq null null = true
strict_eq (boolean true) (boolean b) = b
strict_eq (boolean false) (boolean b) = not b
strict_eq (number (int a)) (number (int b)) = int_eq a b
strict_eq (text a) (text b) = str_eq a b
strict_eq _ _ = false

-- The equality of `includes`, for which NaN is NaN.
pub same_value_zero : Value → Value → Bool
unfolding strict_eq
same_value_zero (number nan) (number nan) = true
same_value_zero a b = strict_eq a b

unfoldable pub includes : Items → Value → Bool
unfolding same_value_zero
includes nil v = false
includes (cons x xs) v = same_value_zero x v || includes xs v

-- `typeof left === "number" && typeof right === "number" && test`; NaN passes no such test.
unfoldable pub both_numbers : (ℤ → ℤ → Bool) → Value → Value → Bool
both_numbers test (number (int a)) (number (int b)) = test a b
both_numbers test _ _ = false

unfoldable pub evaluate_op : Operator → Value → Value → Bool
unfolding strict_eq both_numbers includes
evaluate_op eq l r = strict_eq l r
evaluate_op neq l r = not (strict_eq l r)
evaluate_op gt l r = both_numbers (λ a b. int_lt b a) l r
evaluate_op gte l r = both_numbers (λ a b. not (int_lt a b)) l r
evaluate_op lt l r = both_numbers (λ a b. int_lt a b) l r
evaluate_op lte l r = both_numbers (λ a b. not (int_lt b a)) l r
evaluate_op in_list l (array xs) = includes xs l
evaluate_op in_list l _ = false

-- `Boolean(v)`.
unfoldable pub truthy_value : Value → Bool
truthy_value undefined = false
truthy_value null = false
truthy_value (boolean b) = b
truthy_value (number nan) = false
truthy_value (number (int n)) = not (int_eq n (pos 0))
truthy_value (text s) = truthy s
truthy_value _ = true

abbrev pub Evaluator : Type 0
Evaluator = Intent → Bool

unfoldable mutual
  unfolding split_path get_field_value_from_parts evaluate_op truthy_value intent_value

  pub compile_condition : Condition → Evaluator
  compile_condition always = λ i. true
  compile_condition never = λ i. false
  compile_condition unrecognised = λ i. false
  compile_condition (several op path value) = λ i. false
  compile_condition (comparison op path value) =
      let parts = split_path path in
      λ i. evaluate_op op (get_field_value_from_parts parts (intent_value i)) value
  compile_condition (all_of cs) = compile_every cs
  compile_condition (any_of cs) = compile_some cs
  compile_condition (negation c) = let compiled = compile_condition c in λ i. not (compiled i)
  compile_condition (field_ref path) =
      let parts = split_path path in
      λ i. truthy_value (get_field_value_from_parts parts (intent_value i))

  pub compile_every : Conditions → Evaluator
  compile_every Conditions.nil = λ i. true
  compile_every (Conditions.cons c cs) =
      let compiled = compile_condition c in let rest = compile_every cs in λ i. compiled i && rest i

  pub compile_some : Conditions → Evaluator
  compile_some Conditions.nil = λ i. false
  compile_some (Conditions.cons c cs) =
      let compiled = compile_condition c in let rest = compile_some cs in λ i. compiled i || rest i
