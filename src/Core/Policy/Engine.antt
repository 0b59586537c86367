-- ===== src/Core/Policy/Engine.antt =====
-- core/policy/index.ts: compiling a policy document and evaluating an intent against it. The cache of
-- compiled documents is left out: compiling is a function of the document.
pub mod Decisions
use micro_agent_protocol.Base.{
  ℕ, zero, suc, ◌+◌, ◌*◌, ◌-◌, String, Option, none, some, Bool, true, false, not, ◌&&◌, ◌||◌, List,
  [], ◌∷◌, map, any, if◌then◌else◌, or_else, str_eq, truthy, codes, ◌==◌, ltb, leb,
}
use Prim.Native.String.{◌++◌}
use Prim.Native.Char.{code}
use micro_agent_protocol.Base.Json.{
  ℤ, pos, Number, nan, int, Value, undefined, null, boolean, number, text, array, object, Items,
  nil, cons, lookup, get_item, count_items, int_eq, int_lt,
}
use micro_agent_protocol.Core.Types.{
  PolicyAction, allow, deny, require_approval, Intent, PolicyDecision, Operator, eq, neq, gt, gte,
  lt, lte, in_list, Condition, always, never, unrecognised, several, comparison, all_of, any_of,
  negation, field_ref, Conditions, PolicyRule, PolicyDocument, intent_value,
}
use micro_agent_protocol.Core.Policy.Matcher.{
  CapabilityMatcher, compile_capability_matcher, matches_capability,
}
use micro_agent_protocol.Core.Policy.Condition.{Evaluator, compile_condition}

pub record CompiledRule : Type 0 where
  pub id : String
  pub action : PolicyAction
  pub capability_matcher : CapabilityMatcher
  pub condition : Evaluator

pub record CompiledPolicy : Type 0 where
  pub rules : List CompiledRule
  pub default_action : PolicyAction

unfoldable pub compile_rule : PolicyRule → CompiledRule
compile_rule r = record {
  id = r.id;
  action = r.action;
  capability_matcher = compile_capability_matcher r.capability;
  condition = compile_condition r.condition;
}

unfoldable pub compile_policy : PolicyDocument → CompiledPolicy
compile_policy p = record {
  rules = map compile_rule p.rules;
  default_action = or_else p.default_action deny;
}

default_reason : PolicyAction → String
default_reason allow = "Default allow - no rules matched"
default_reason _ = "Default deny - no rules matched"

unfoldable pub default_decision : PolicyAction → PolicyDecision
unfolding default_reason
default_decision action = record {
  action = action;
  reason = some (default_reason action);
  matched_rule = none;
}

unfoldable pub rule_decision : PolicyAction → String → PolicyDecision
rule_decision action id = record {
  action = action;
  reason = some ("Rule matched: " ++ id);
  matched_rule = some id;
}

-- The loop of `evaluateCompiled` over the rules that are left.
unfoldable pub evaluate_rules : Intent → List CompiledRule → PolicyAction → PolicyDecision
evaluate_rules i [] default_action = default_decision default_action
evaluate_rules i (r ∷ rs) default_action =
    if matches_capability i.capability r.capability_matcher && r.condition i
    then rule_decision r.action r.id
    else evaluate_rules i rs default_action

unfoldable pub evaluate : Intent → PolicyDocument → PolicyDecision
unfolding compile_policy compile_rule evaluate_rules rule_decision default_decision
    matches_capability compile_capability_matcher compile_condition
evaluate i p =
    let compiled = compile_policy p in evaluate_rules i compiled.rules compiled.default_action
