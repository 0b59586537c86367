-- ===== src/Core/Execute/Agreement.antt =====
-- Where the interpreter of core/execute.ts and the compiled policies of core/policy/index.ts agree, and
-- where they do not.
use micro_agent_protocol.Base.{
  ◌≡◌, ◌≢◌, refl, ap, inl, inr, ℕ, String, none, not, List, [], ◌∷◌, All, map, str_eq, str_eq_iff,
  codes, ◌==◌, ==_iff, arith, Bool-cases, or_else,
}
use micro_agent_protocol.Base.Json.{Value, array}
use micro_agent_protocol.Core.Types.{
  PolicyAction, allow, deny, Intent, Operator, eq, neq, gt, gte, lt, lte, in_list, Condition,
  always, never, unrecognised, several, comparison, all_of, any_of, negation, field_ref, Conditions,
  nil, cons, PolicyRule, PolicyDocument,
}
use micro_agent_protocol.Core.Policy.Matcher
use micro_agent_protocol.Core.Policy.Matcher.{IsPlain, compile_capability_matcher, regex_test}
use micro_agent_protocol.Core.Policy.Matcher.Glob.{
  Globs, done, same, skip, more, IsLine, Globs-regex,
}
use micro_agent_protocol.Core.Policy.Condition.{
  compile_condition, compile_every, compile_some, evaluate_op,
}
use micro_agent_protocol.Core.Policy.Engine
use micro_agent_protocol.Core.Policy.Engine.{compile_rule, compile_policy, evaluate}
use micro_agent_protocol.Core.Execute.{
  matches_capability, compare_values, evaluate_condition, every_condition, some_condition,
  evaluate_rules, evaluate_policy,
}

-- The condition `always` stands nowhere in it, nor one with several keys or of no known form.
unfoldable mutual
  pub Definite : Condition → Type 0
  Definite always = ⊥
  Definite unrecognised = ⊥
  Definite (several op path value) = ⊥
  Definite (all_of cs) = DefiniteAll cs
  Definite (any_of cs) = DefiniteAll cs
  Definite (negation c) = Definite c
  Definite _ = Unit

  pub DefiniteAll : Conditions → Type 0
  DefiniteAll nil = Unit
  DefiniteAll (cons c cs) = Definite c × DefiniteAll cs

compare-evaluate : (op : Operator) (l r : Value) → compare_values op l r ≡ evaluate_op op l r
unfolding compare_values evaluate_op
compare-evaluate eq l r = refl
compare-evaluate neq l r = refl
compare-evaluate gt l r = refl
compare-evaluate gte l r = refl
compare-evaluate lt l r = refl
compare-evaluate lte l r = refl
compare-evaluate in_list l (array xs) = refl
compare-evaluate in_list l _ = refl

mutual
  unfolding evaluate_condition compile_condition Definite

  conditions_agree :
      (c : Condition) (i : Intent) → Definite c → evaluate_condition c i ≡ compile_condition c i
  conditions_agree always i d = absurd d
  conditions_agree never i d = refl
  conditions_agree unrecognised i d = absurd d
  conditions_agree (several op path value) i d = absurd d
  conditions_agree (comparison op path value) i d = compare-evaluate op _ value
  conditions_agree (all_of cs) i d = every_agree cs i d
  conditions_agree (any_of cs) i d = some_agree cs i d
  conditions_agree (negation c) i d = ap not (conditions_agree c i d)
  conditions_agree (field_ref path) i d = refl

  every_agree :
      (cs : Conditions) (i : Intent) → DefiniteAll cs → every_condition cs i ≡ compile_every cs i
  every_agree nil i d = refl
  every_agree (cons c cs) i d = ground (arith, conditions_agree c i d.0, every_agree cs i d.1)

  some_agree :
      (cs : Conditions) (i : Intent) → DefiniteAll cs → some_condition cs i ≡ compile_some cs i
  some_agree nil i d = refl
  some_agree (cons c cs) i d = ground (arith, conditions_agree c i d.0, some_agree cs i d.1)

-- A glob matches itself.
Globs-self : (p : List ℕ) → Globs p p
Globs-self [] = done
Globs-self (x ∷ p) = elim (Bool-cases (x == b'*')) [
  | inl star ↦ more ((==_iff x b'*').0 star) (skip ((==_iff x b'*').0 star) (Globs-self p))
  | inr plain ↦ same (λ e. cc (plain, (==_iff x b'*').1 e)) refl (Globs-self p)
]

matchers_agree :
    (glob capability : String)
    → IsLine (codes capability)
    → matches_capability capability glob
      ≡ Matcher.matches_capability capability (compile_capability_matcher glob)
unfolding matches_capability compile_capability_matcher Matcher.matches_capability
matchers_agree glob capability l = elim (Bool-cases (str_eq glob capability)) [
  | inr other ↦ ground arith
  | inl equal ↦
      let whole = Globs-regex l (Globs-self (codes capability)) in
      ground (arith, str_eq_iff glob capability)
]

rules_agree :
    (i : Intent) (rs : List PolicyRule) (default_action : PolicyAction)
    → IsLine (codes i.capability)
    → All (λ r. Definite r.condition) rs
    → ((Engine.evaluate_rules i (map compile_rule rs) default_action).matched_rule ≢ none
        → (evaluate_rules i rs).action
          ≡ (Engine.evaluate_rules i (map compile_rule rs) default_action).action)
      × ((Engine.evaluate_rules i (map compile_rule rs) default_action).matched_rule ≡ none
          → ((evaluate_rules i rs).action ≡ allow)
            × ((Engine.evaluate_rules i (map compile_rule rs) default_action).action
                ≡ default_action))
unfolding evaluate_rules Engine.evaluate_rules compile_rule Engine.default_decision
    Engine.rule_decision
rules_agree i [] default_action l d = ((λ n. absurd (n refl)), (λ e. (refl, refl)))
rules_agree i (r ∷ rs) default_action l d = ground (
  arith,
  matchers_agree r.capability i.capability l,
  conditions_agree r.condition i d.0,
  rules_agree i rs default_action l d.1,
)

-- On an intent whose capability has no line terminator, and a policy whose globs have no character
-- that means something else in a regular expression, and whose conditions are of a known form, with
-- one key, and do not use `always`: the two interpreters take the same action wherever a rule
-- decides. Where none does, the one of core/execute.ts allows the intent, whatever the document's
-- default is.
pub interpreters_agree :
    (p : PolicyDocument) (i : Intent)
    → IsLine (codes i.capability)
    → All (λ r. IsPlain r.capability) p.rules
    → All (λ r. Definite r.condition) p.rules
    → ((evaluate i p).matched_rule ≢ none → (evaluate_policy i p).action ≡ (evaluate i p).action)
      × ((evaluate i p).matched_rule ≡ none
          → ((evaluate_policy i p).action ≡ allow)
            × ((evaluate i p).action ≡ or_else p.default_action deny))
unfolding evaluate compile_policy
interpreters_agree p i l plain d = rules_agree i p.rules (or_else p.default_action deny) l d
