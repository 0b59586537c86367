-- ===== src/Core/Tests.antt =====
-- The executor and the second interpreter on concrete intents.
use micro_agent_protocol.Base.{◌≡◌, ◌≢◌, refl, String, none, true, false, [], ◌∷◌, codes, or_else}
use micro_agent_protocol.Base.Json.{text, end, field, Fields}
use micro_agent_protocol.Core.Types.{
  PolicyAction, allow, deny, user, Intent, eq, always, several, comparison, PolicyDocument,
  Condition,
}
use micro_agent_protocol.Core.Policy.Matcher.{is_dot}
use micro_agent_protocol.Core.Policy.Matcher.Glob.{every-IsLine}
use micro_agent_protocol.Core.Policy.Condition.{compile_condition}
use micro_agent_protocol.Core.Policy.Engine.{evaluate}
use micro_agent_protocol.Core.Intent.{normalize}
use micro_agent_protocol.Core.Executor.{
  ExecutionContext, Executor, Surroundings, runs, execute, Ready, execute_exact,
}
use micro_agent_protocol.Core.Execute.{
  evaluate_policy, evaluate_rules, matches_capability, evaluate_condition,
}
use micro_agent_protocol.Core.Execute.Agreement.{Definite, interpreters_agree}

abbrev read_logs : Intent
read_logs = record {
  capability = "logs.read";
  input = field "env" (text "prod") end;
  requester = record { type = user; id = " u "; tenant_id = none };
  constraints = none;
  metadata = none;
  risk_class = none;
}

abbrev policy_of : Condition → PolicyAction → PolicyDocument
policy_of condition action = record {
  rules = record { id = "r"; capability = "logs.*"; condition = condition; action = action } ∷ [];
  default_action = none;
}

-- The same document denies an intent, and lets it run through core/execute.ts.
always_denied : (evaluate read_logs (policy_of always deny)).action ≡ deny
unfolding evaluate
always_denied = refl

always_passed_over : (evaluate_policy read_logs (policy_of always deny)).action ≡ allow
unfolding evaluate_rules matches_capability evaluate_condition
always_passed_over = refl

abbrev in_prod : Condition
in_prod = comparison eq "input.env" (text "prod")

-- A condition with two operator keys, of which the first in order is `eq`.
abbrev logs_and_more : Condition
logs_and_more = several eq "capability" (text "logs.read")

several_disagree :
    (evaluate_condition logs_and_more read_logs ≡ true)
    × (compile_condition logs_and_more read_logs ≡ false)
unfolding evaluate_condition compile_condition
several_disagree = (refl, refl)

interpreters_agree_example :
    ((evaluate read_logs (policy_of in_prod deny)).matched_rule ≢ none
      → (evaluate_policy read_logs (policy_of in_prod deny)).action
        ≡ (evaluate read_logs (policy_of in_prod deny)).action)
    × ((evaluate read_logs (policy_of in_prod deny)).matched_rule ≡ none
        → ((evaluate_policy read_logs (policy_of in_prod deny)).action ≡ allow)
          × ((evaluate read_logs (policy_of in_prod deny)).action ≡ or_else none deny))
unfolding Definite is_dot
interpreters_agree_example =
    interpreters_agree (policy_of in_prod deny) read_logs (every-IsLine (codes "logs.read") refl)
      (refl, tt) (tt, tt)

-- Capabilities are in lower case already.
abbrev now : Surroundings
now = record { to_lower = λ s. s; new_id = "i1"; now = "0"; timestamp = "1970" }

abbrev executor : Executor
executor = record {
  policy = policy_of in_prod allow;
  adapters = ("logs.read", record { validate = λ input. true }) ∷ [];
  sign_receipt = none;
}

execute_exact_example :
    ((capability : String) (input : Fields) (context : ExecutionContext)
      → execute (λ i. true) executor now read_logs ≡ runs capability input context
      → (true ≡ true)
        × ((evaluate (normalize (λ s. s) read_logs) executor.policy).action ≡ allow)
        × (capability ≡ (normalize (λ s. s) read_logs).capability)
        × Ready executor.adapters (normalize (λ s. s) read_logs))
    × (true ≡ true
        → (evaluate (normalize (λ s. s) read_logs) executor.policy).action ≡ allow
        → Ready executor.adapters (normalize (λ s. s) read_logs)
        → (context : ExecutionContext) × (execute (λ i. true) executor now read_logs
            ≡ runs
                (normalize (λ s. s) read_logs).capability
                (normalize (λ s. s) read_logs).input
                context))
execute_exact_example = execute_exact (λ i. true) executor now read_logs
