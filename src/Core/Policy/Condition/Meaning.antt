-- ===== src/Core/Policy/Condition/Meaning.antt =====
-- What the conditions of a policy mean, against their compiled form (core/policy/index.ts).
use micro_agent_protocol.Base.{
  ◌<◌, String, Bool, true, false, not, ◌&&◌, ◌||◌, ◌≡◌, refl, subst, ◌↔◌, ◌⊎◌, inl, inr, arith,
  Bool-cases, str_eq_iff,
}
use micro_agent_protocol.Base.Json.{
  ℤ, pos, negsuc, nan, int, Value, undefined, null, boolean, number, text, array, Items, nil, cons,
  int_eq, int_lt,
}
use micro_agent_protocol.Core.Types.{
  Intent, Operator, eq, neq, gt, gte, lt, lte, in_list, Condition, always, never, unrecognised,
  several, comparison, all_of, any_of, negation, field_ref, Conditions, intent_value,
}
use micro_agent_protocol.Core.Policy.Condition.{
  split_path, get_field_value_from_parts, strict_eq, same_value_zero, includes, both_numbers,
  evaluate_op, truthy_value, compile_condition, compile_every, compile_some,
}

infix 50 ◌<ℤ◌
abbrev pub ◌<ℤ◌ : ℤ → ℤ → Type 0
pos a <ℤ pos b = a < b
pos a <ℤ negsuc b = ⊥
negsuc a <ℤ pos b = Unit
negsuc a <ℤ negsuc b = b < a

int_lt-exact : (a b : ℤ) → (int_lt a b ≡ true) ↔ (a <ℤ b)
int_lt-exact (pos a) (pos b) = ground arith
int_lt-exact (pos a) (negsuc b) = (λ h. cc, λ h. absurd h)
int_lt-exact (negsuc a) (pos b) = (λ h. tt, λ h. refl)
int_lt-exact (negsuc a) (negsuc b) = ground arith

-- Values that `===` compares by what they are: all but NaN, objects and arrays.
pub data IsPlain : Value → Type 0 where
  undefined_plain : IsPlain undefined
  null_plain : IsPlain null
  boolean_plain : (b : Bool) → IsPlain (boolean b)
  number_plain : (n : ℤ) → IsPlain (number (int n))
  text_plain : (s : String) → IsPlain (text s)

int_eq→eq : (a b : ℤ) → int_eq a b ≡ true → a ≡ b
int_eq→eq (pos a) (pos b) h = ground arith
int_eq→eq (negsuc a) (negsuc b) h = ground arith
int_eq→eq _ _ h = cc

int_eq_refl : (a : ℤ) → int_eq a a ≡ true
int_eq_refl (pos a) = ground arith
int_eq_refl (negsuc a) = ground arith

strict_eq→eq : (a b : Value) → strict_eq a b ≡ true → IsPlain a × (a ≡ b)
unfolding strict_eq
strict_eq→eq undefined undefined h = (undefined_plain, refl)
strict_eq→eq null null h = (null_plain, refl)
strict_eq→eq (boolean true) (boolean b) h = (boolean_plain true, cc)
strict_eq→eq (boolean false) (boolean b) h = (boolean_plain false, ground arith)
strict_eq→eq (number (int a)) (number (int b)) h = (number_plain a, cc (int_eq→eq a b h))
strict_eq→eq (text a) (text b) h = (text_plain a, cc ((str_eq_iff a b).0 h))
strict_eq→eq _ _ h = cc

strict_eq_plain : {a : Value} → IsPlain a → strict_eq a a ≡ true
unfolding strict_eq
strict_eq_plain undefined_plain = refl
strict_eq_plain null_plain = refl
strict_eq_plain (boolean_plain true) = refl
strict_eq_plain (boolean_plain false) = refl
strict_eq_plain (number_plain n) = int_eq_refl n
strict_eq_plain (text_plain s) = (str_eq_iff s s).1 refl

-- `===` relates a plain value to itself and nothing else.
pub strict_eq-exact : (a b : Value) → (strict_eq a b ≡ true) ↔ (IsPlain a × (a ≡ b))
strict_eq-exact a b =
    (strict_eq→eq a b, λ h. subst (λ x. strict_eq a x ≡ true) h.1 (strict_eq_plain h.0))

-- A list of a policy that includes a value.
pub data Includes (v : Value) : Items → Type 0 where
  found : {x : Value} {xs : Items} → IsPlain x ⊎ (x ≡ number nan) → x ≡ v → Includes v (cons x xs)
  later : {x : Value} {xs : Items} → Includes v xs → Includes v (cons x xs)

same_value_zero→eq :
    (a b : Value) → same_value_zero a b ≡ true → (IsPlain a ⊎ (a ≡ number nan)) × (a ≡ b)
unfolding same_value_zero
same_value_zero→eq (number nan) (number nan) h = (inr refl, refl)
same_value_zero→eq a b h = let (plain, e) = strict_eq→eq a b h in (inl plain, e)

same_value_zero_refl : (a : Value) → IsPlain a ⊎ (a ≡ number nan) → same_value_zero a a ≡ true
unfolding same_value_zero
same_value_zero_refl a (inr e) = rw e
same_value_zero_refl a (inl undefined_plain) = refl
same_value_zero_refl a (inl null_plain) = refl
same_value_zero_refl a (inl (boolean_plain b)) = strict_eq_plain (boolean_plain b)
same_value_zero_refl a (inl (number_plain n)) = strict_eq_plain (number_plain n)
same_value_zero_refl a (inl (text_plain t)) = strict_eq_plain (text_plain t)

includes→Includes : (xs : Items) (v : Value) → includes xs v ≡ true → Includes v xs
unfolding includes
includes→Includes nil v h = cc
includes→Includes (cons x xs) v h = elim (Bool-cases (same_value_zero x v)) [
  | inl t ↦ let (plain, e) = same_value_zero→eq x v t in found plain e
  | inr f ↦ later (includes→Includes xs v (ground arith))
]

Includes→includes : {v : Value} {xs : Items} → Includes v xs → includes xs v ≡ true
unfolding includes
Includes→includes {v = v} (found {x} {xs} plain e) =
    let h = subst (λ y. same_value_zero x y ≡ true) e (same_value_zero_refl x plain) in rw h
Includes→includes {v = v} (later {x} {xs} i) = ground (arith, Includes→includes i)

-- Two whole numbers in an order.
abbrev pub Numbers : (ℤ → ℤ → Type 0) → Value → Value → Type 0
Numbers R l r = (a : ℤ) × (b : ℤ) × (l ≡ number (int a)) × (r ≡ number (int b)) × R a b

-- What each operator says of the field's value and the value in the policy.
abbrev pub OperatorHolds : Operator → Value → Value → Type 0
OperatorHolds eq l r = IsPlain l × (l ≡ r)
OperatorHolds neq l r = ¬ (IsPlain l × (l ≡ r))
OperatorHolds gt l r = Numbers (λ a b. b <ℤ a) l r
OperatorHolds gte l r = Numbers (λ a b. ¬ (a <ℤ b)) l r
OperatorHolds lt l r = Numbers (λ a b. a <ℤ b) l r
OperatorHolds lte l r = Numbers (λ a b. ¬ (b <ℤ a)) l r
OperatorHolds in_list l r = (xs : Items) × (r ≡ array xs) × Includes l xs

both_numbers→Numbers :
    (test : ℤ → ℤ → Bool) (R : ℤ → ℤ → Type 0)
    → ((a b : ℤ) → (test a b ≡ true) ↔ R a b)
    → (l r : Value) → both_numbers test l r ≡ true
    → Numbers R l r
unfolding both_numbers
both_numbers→Numbers test R e (number (int a)) (number (int b)) h = (a, b, refl, refl, (e a b).0 h)
both_numbers→Numbers test R e _ _ h = cc

not-exact {ℓ} : {P : Type ℓ} (b : Bool) → (b ≡ true) ↔ P → (not b ≡ true) ↔ (¬ P)
not-exact true e = (λ h. cc, λ n. absurd (n (e.0 refl)))
not-exact false e = (λ h p. cc (e.1 p), λ n. refl)

both_numbers-exact :
    (test : ℤ → ℤ → Bool) (R : ℤ → ℤ → Type 0)
    → ((a b : ℤ) → (test a b ≡ true) ↔ R a b)
    → (l r : Value) → (both_numbers test l r ≡ true) ↔ Numbers R l r
unfolding both_numbers
both_numbers-exact test R e l r = (both_numbers→Numbers test R e l r, back)
  where
    back : Numbers R l r → both_numbers test l r ≡ true
    back (a, b, is_l, is_r, holds) = rw (is_l, is_r) ((e a b).1 holds)

in_list→Includes : (l r : Value) → evaluate_op in_list l r ≡ true → OperatorHolds in_list l r
unfolding evaluate_op
in_list→Includes l (array xs) h = (xs, refl, includes→Includes xs l h)
in_list→Includes l _ h = cc

evaluate_op-exact :
    (op : Operator) (l r : Value) → (evaluate_op op l r ≡ true) ↔ OperatorHolds op l r
unfolding evaluate_op
evaluate_op-exact eq l r = strict_eq-exact l r
evaluate_op-exact neq l r = not-exact (strict_eq l r) (strict_eq-exact l r)
evaluate_op-exact gt l r = both_numbers-exact _ _ (λ a b. int_lt-exact b a) l r
evaluate_op-exact gte l r =
    both_numbers-exact _ _ (λ a b. not-exact (int_lt a b) (int_lt-exact a b)) l r
evaluate_op-exact lt l r = both_numbers-exact _ _ int_lt-exact l r
evaluate_op-exact lte l r =
    both_numbers-exact _ _ (λ a b. not-exact (int_lt b a) (int_lt-exact b a)) l r
evaluate_op-exact in_list l r = (in_list→Includes l r, back)
  where
    back : OperatorHolds in_list l r → evaluate_op in_list l r ≡ true
    back (xs, is, i) = rw is (Includes→includes i)

-- The values that are false as a condition.
pub data IsFalsy : Value → Type 0 where
  undefined_falsy : IsFalsy undefined
  null_falsy : IsFalsy null
  false_falsy : IsFalsy (boolean false)
  nan_falsy : IsFalsy (number nan)
  zero_falsy : {n : ℤ} → n ≡ pos 0 → IsFalsy (number (int n))
  empty_falsy : {s : String} → s ≡ "" → IsFalsy (text s)

IsFalsy-false : {v : Value} → IsFalsy v → truthy_value v ≡ false
unfolding truthy_value
IsFalsy-false undefined_falsy = refl
IsFalsy-false null_falsy = refl
IsFalsy-false false_falsy = refl
IsFalsy-false nan_falsy = refl
IsFalsy-false (zero_falsy {n} e) = rw e
IsFalsy-false (empty_falsy {s} e) = rw e

false-IsFalsy : (v : Value) → truthy_value v ≡ false → IsFalsy v
unfolding truthy_value
false-IsFalsy undefined h = undefined_falsy
false-IsFalsy null h = null_falsy
false-IsFalsy (boolean b) h = rw h false_falsy
false-IsFalsy (number nan) h = nan_falsy
false-IsFalsy (number (int n)) h = zero_falsy (int_eq→eq n (pos 0) (ground arith))
false-IsFalsy (text s) h = empty_falsy ((str_eq_iff s "").0 (ground arith))
false-IsFalsy _ h = cc

truthy_value-exact : (v : Value) → (truthy_value v ≡ true) ↔ (¬ IsFalsy v)
truthy_value-exact v = (
  λ h f. cc (h, IsFalsy-false f),
  λ n. elim (Bool-cases (truthy_value v)) [ inl t ↦ t | inr f ↦ absurd (n (false-IsFalsy v f)) ],
)

abbrev pub field_of : String → Intent → Value
field_of path i = get_field_value_from_parts (split_path path) (intent_value i)

-- What a condition says of an intent.
abbrev mutual
  pub ConditionHolds : Condition → Intent → Type 0
  ConditionHolds always i = Unit
  ConditionHolds never i = ⊥
  ConditionHolds unrecognised i = ⊥
  ConditionHolds (several op path value) i = ⊥
  ConditionHolds (comparison op path value) i = OperatorHolds op (field_of path i) value
  ConditionHolds (all_of cs) i = AllHold cs i
  ConditionHolds (any_of cs) i = SomeHolds cs i
  ConditionHolds (negation c) i = ¬ ConditionHolds c i
  ConditionHolds (field_ref path) i = ¬ IsFalsy (field_of path i)

  pub AllHold : Conditions → Intent → Type 0
  AllHold Conditions.nil i = Unit
  AllHold (Conditions.cons c cs) i = ConditionHolds c i × AllHold cs i

  pub SomeHolds : Conditions → Intent → Type 0
  SomeHolds Conditions.nil i = ⊥
  SomeHolds (Conditions.cons c cs) i = ConditionHolds c i ⊎ SomeHolds cs i

pub and-exact {ℓ κ} :
    {P : Type ℓ} {Q : Type κ} (a b : Bool)
    → (a ≡ true) ↔ P
    → (b ≡ true) ↔ Q
    → ((a && b) ≡ true) ↔ (P × Q)
and-exact true true e f = (λ _. (e.0 refl, f.0 refl), λ _. refl)
and-exact true false e f = (λ h. cc, λ h. cc (f.1 h.1))
and-exact false b e f = (λ h. cc, λ h. cc (e.1 h.0))

or-exact {ℓ κ} :
    {P : Type ℓ} {Q : Type κ} (a b : Bool)
    → (a ≡ true) ↔ P
    → (b ≡ true) ↔ Q
    → ((a || b) ≡ true) ↔ (P ⊎ Q)
or-exact true b e f = (λ _. inl (e.0 refl), λ _. refl)
or-exact false true e f = (λ _. inr (f.0 refl), λ _. refl)
or-exact false false e f = (λ h. cc, λ h. elim h [ inl p ↦ cc (e.1 p) | inr q ↦ cc (f.1 q) ])

mutual
  unfolding compile_condition

  condition-exact :
      (c : Condition) (i : Intent) → (compile_condition c i ≡ true) ↔ ConditionHolds c i
  condition-exact always i = (λ _. tt, λ _. refl)
  condition-exact never i = (λ h. cc, λ h. absurd h)
  condition-exact unrecognised i = (λ h. cc, λ h. absurd h)
  condition-exact (several op path value) i = (λ h. cc, λ h. absurd h)
  condition-exact (comparison op path value) i = evaluate_op-exact op (field_of path i) value
  condition-exact (all_of cs) i = every-exact cs i
  condition-exact (any_of cs) i = some-exact cs i
  condition-exact (negation c) i = not-exact (compile_condition c i) (condition-exact c i)
  condition-exact (field_ref path) i = truthy_value-exact (field_of path i)

  every-exact : (cs : Conditions) (i : Intent) → (compile_every cs i ≡ true) ↔ AllHold cs i
  every-exact Conditions.nil i = (λ _. tt, λ _. refl)
  every-exact (Conditions.cons c cs) i =
      and-exact (compile_condition c i) (compile_every cs i) (condition-exact c i)
        (every-exact cs i)

  some-exact : (cs : Conditions) (i : Intent) → (compile_some cs i ≡ true) ↔ SomeHolds cs i
  some-exact Conditions.nil i = (λ h. cc, λ h. absurd h)
  some-exact (Conditions.cons c cs) i =
      or-exact (compile_condition c i) (compile_some cs i) (condition-exact c i) (some-exact cs i)

-- A compiled condition accepts an intent exactly if the condition holds of it.
pub compile_condition_exact :
    (c : Condition) (i : Intent) → (compile_condition c i ≡ true) ↔ ConditionHolds c i
compile_condition_exact c i = condition-exact c i
