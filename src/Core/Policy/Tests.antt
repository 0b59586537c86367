-- ===== src/Core/Policy/Tests.antt =====
-- The policy engine on concrete documents.
use micro_agent_protocol.Base.{String, Option, none, true, [], ◌∷◌, ◌≡◌, refl, ◌↔◌, codes}
use mathlib.Core.List.{Memᴰ}
use micro_agent_protocol.Base.Json.{pos, int, nan, Value, number, text, end, field}
use micro_agent_protocol.Core.Types.{
  allow, deny, require_approval, user, Intent, gt, always, comparison, PolicyRule, PolicyDocument,
  Condition,
}
use micro_agent_protocol.Core.Policy.Matcher.{
  is_dot, compile_capability_matcher, regex_test, matches_capability,
}
use micro_agent_protocol.Core.Policy.Matcher.Glob.{
  Globs, IsLine, every-IsLine, matches_capability_exact,
}
use micro_agent_protocol.Core.Policy.Condition.{compile_condition}
use micro_agent_protocol.Core.Policy.Condition.Meaning.{ConditionHolds, compile_condition_exact}
use micro_agent_protocol.Core.Policy.Engine.{evaluate}
use micro_agent_protocol.Core.Policy.Engine.Decisions.{
  Applies, FirstMatch, decided, evaluate-FirstMatch, allow_needs_rule,
}

abbrev intent_of : String → Value → Intent
intent_of capability amount = record {
  capability = capability;
  input = field "amount" amount end;
  requester = record { type = user; id = "u"; tenant_id = none };
  constraints = none;
  metadata = none;
  risk_class = none;
}

abbrev large : Condition
large = comparison gt "input.amount" (number (int (pos 1000)))

abbrev large_payment : PolicyRule
large_payment = record {
  id = "large";
  capability = "payment.*";
  condition = large;
  action = require_approval;
}

abbrev any_payment : PolicyRule
any_payment = record { id = "pay"; capability = "payment.*"; condition = always; action = allow }

abbrev payments : PolicyDocument
payments = record { rules = large_payment ∷ any_payment ∷ []; default_action = none }

abbrev amount : Value → Intent
amount v = intent_of "payment.execute" v

large_asks : (evaluate (amount (number (int (pos 5000)))) payments).action ≡ require_approval
unfolding evaluate
large_asks = refl

small_allowed : (evaluate (amount (number (int (pos 10)))) payments).action ≡ allow
unfolding evaluate
small_allowed = refl

-- A number given as a text passes no comparison, so the approval rule is passed over.
text_allowed : (evaluate (amount (text "5000")) payments).action ≡ allow
unfolding evaluate
text_allowed = refl

other_denied : (evaluate (intent_of "db.write" (number nan)) payments).action ≡ deny
unfolding evaluate
other_denied = refl

is_line : IsLine (codes "payment.execute")
unfolding is_dot
is_line = every-IsLine (codes "payment.execute") refl

matches_capability_exact_example :
    (matches_capability "payment.execute" (compile_capability_matcher "payment.*") ≡ true)
    ↔ Globs (codes "payment.*") (codes "payment.execute")
matches_capability_exact_example =
    matches_capability_exact "payment.*" "payment.execute" refl is_line

glob_whole : regex_test (codes "a.*c") (codes "a.bcc") ≡ true
unfolding regex_test
glob_whole = refl

compile_condition_exact_example :
    (compile_condition large (amount (number nan)) ≡ true)
    ↔ ConditionHolds large (amount (number nan))
compile_condition_exact_example = compile_condition_exact large (amount (number nan))

evaluate-FirstMatch_example :
    (m : Option PolicyRule) × FirstMatch (amount (number nan)) (large_payment ∷ any_payment ∷ []) m
    × (evaluate (amount (number nan)) payments ≡ decided payments m)
evaluate-FirstMatch_example =
    evaluate-FirstMatch payments (amount (number nan)) (refl, (refl, tt)) is_line

allow_needs_rule_example :
    (r : PolicyRule) × Memᴰ r (large_payment ∷ any_payment ∷ [])
    × Applies r (amount (number (int (pos 10))))
    × (r.action ≡ allow)
allow_needs_rule_example =
    allow_needs_rule payments (amount (number (int (pos 10)))) (refl, (refl, tt)) is_line (λ e. cc)
      small_allowed
