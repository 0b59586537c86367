-- ===== src/Core/Execute.antt =====
-- core/execute.ts: the second interpreter of policies, which walks a document without compiling it, and
-- the call that is built on it.
pub mod Agreement
use micro_agent_protocol.Base.{
  ℕ, String, Option, none, some, Bool, true, false, not, ◌&&◌, ◌||◌, List, [], ◌∷◌, any,
  if◌then◌else◌, str_eq, codes, ◌==◌, or_else,
}
use Prim.Native.String.{◌++◌}
use micro_agent_protocol.Base.Dict.{Dict, get}
use micro_agent_protocol.Base.Json.{Value, array, Items, int_lt}
use micro_agent_protocol.Protocol.{denied, approval_required}
use micro_agent_protocol.Core.Types.{
  PolicyAction, allow, deny, require_approval, Intent, Operator, eq, neq, gt, gte, lt, lte, in_list,
  Condition, always, never, unrecognised, several, comparison, all_of, any_of, negation, field_ref,
  Conditions, nil, cons, PolicyRule, PolicyDocument, intent_value,
}
use micro_agent_protocol.Core.Policy.Matcher.{regex_test}
use micro_agent_protocol.Core.Policy.Condition.{
  split_path, get_field_value_from_parts, strict_eq, both_numbers, includes, truthy_value,
}
use micro_agent_protocol.Core.Intent.{normalize}
use micro_agent_protocol.Core.Executor.{
  Outcome, returns, runs, ExecutionAdapter, Surroundings, unsigned, intent_id_of,
}

pub record Decision : Type 0 where
  pub action : PolicyAction
  pub reason : String

unfoldable pub matches_capability : String → String → Bool
unfolding regex_test
matches_capability intent_capability rule_capability =
    if str_eq rule_capability "*"
    then true
    else if str_eq rule_capability intent_capability
    then true
    else any (λ c. c == b'*') (codes rule_capability)
      && regex_test (codes rule_capability) (codes intent_capability)

abbrev pub get_field_value : String → Intent → Value
unfolding split_path get_field_value_from_parts intent_value
get_field_value path i = get_field_value_from_parts (split_path path) (intent_value i)

-- The `switch` over the operators.
unfoldable pub compare_values : Operator → Value → Value → Bool
unfolding strict_eq both_numbers includes
compare_values eq l r = strict_eq l r
compare_values neq l r = not (strict_eq l r)
compare_values gt l r = both_numbers (λ a b. int_lt b a) l r
compare_values gte l r = both_numbers (λ a b. not (int_lt a b)) l r
compare_values lt l r = both_numbers (λ a b. int_lt a b) l r
compare_values lte l r = both_numbers (λ a b. not (int_lt b a)) l r
compare_values in_list l (array xs) = includes xs l
compare_values in_list l _ = false

-- `always` and `never` are keys that this interpreter does not know.
unfoldable mutual
  unfolding get_field_value compare_values truthy_value

  pub evaluate_condition : Condition → Intent → Bool
  evaluate_condition always i = false
  evaluate_condition never i = false
  evaluate_condition unrecognised i = false
  evaluate_condition (several op path value) i = compare_values op (get_field_value path i) value
  evaluate_condition (comparison op path value) i = compare_values op (get_field_value path i) value
  evaluate_condition (all_of cs) i = every_condition cs i
  evaluate_condition (any_of cs) i = some_condition cs i
  evaluate_condition (negation c) i = not (evaluate_condition c i)
  evaluate_condition (field_ref path) i = truthy_value (get_field_value path i)

  pub every_condition : Conditions → Intent → Bool
  every_condition nil i = true
  every_condition (cons c cs) i = evaluate_condition c i && every_condition cs i

  pub some_condition : Conditions → Intent → Bool
  some_condition nil i = false
  some_condition (cons c cs) i = evaluate_condition c i || some_condition cs i

-- The loop over the rules; the document's default is not read.
unfoldable pub evaluate_rules : Intent → List PolicyRule → Decision
evaluate_rules i [] = record { action = allow; reason = "Default allow" }
evaluate_rules i (r ∷ rs) =
    if matches_capability i.capability r.capability && evaluate_condition r.condition i
    then record { action = r.action; reason = "Rule: " ++ r.id }
    else evaluate_rules i rs

abbrev pub evaluate_policy : Intent → PolicyDocument → Decision
evaluate_policy i p = evaluate_rules i p.rules

-- After the decision; a missing adapter, or an input that it does not take, is a denial.
abbrev run_adapter : Dict ExecutionAdapter → Surroundings → Intent → Outcome
run_adapter adapters w i = elim (get i.capability adapters) [
  | none ↦ returns (unsigned w i denied)
  | some adapter ↦
      if adapter.validate i.input
      then runs i.capability i.input
          (record { intent_id = intent_id_of w i; requester = i.requester })
      else returns (unsigned w i denied)
]

abbrev act_on : Dict ExecutionAdapter → Surroundings → Intent → PolicyAction → Outcome
act_on adapters w i deny = returns (unsigned w i denied)
act_on adapters w i require_approval = returns (unsigned w i approval_required)
act_on adapters w i allow = run_adapter adapters w i

-- `execute`, less the callback that is told the decision.
unfoldable pub execute : PolicyDocument → Dict ExecutionAdapter → Surroundings → Intent → Outcome
execute policy adapters w i =
    let n = normalize w.to_lower i in act_on adapters w n (evaluate_policy n policy).action
