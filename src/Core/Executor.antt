-- ===== src/Core/Executor.antt =====
-- core/execution/index.ts: the executor, up to the call of an adapter. The schema validation of an
-- intent, the adapters, the new ids, the time and the signature are arguments.
use micro_agent_protocol.Base.{
  ◌≡◌, refl, inl, inr, String, Option, none, some, Bool, true, if◌then◌else◌, truthy, arith,
  Option-cases, Bool-cases,
}
use Prim.Native.String.{◌++◌}
use micro_agent_protocol.Base.Dict.{Dict, get}
use micro_agent_protocol.Base.Json.{Fields}
use micro_agent_protocol.Protocol.{
  ReceiptAction, executed, denied, approval_required, ExecutionStatus,
}
use micro_agent_protocol.Protocol
use micro_agent_protocol.Core.Types.{
  PolicyAction, allow, deny, require_approval, RequesterIdentity, Intent, PolicyDocument,
}
use micro_agent_protocol.Core.Policy.Engine.{evaluate}
use micro_agent_protocol.Core.Intent.{normalize}

pub record ExecutionContext : Type 0 where
  pub intent_id : String
  pub requester : RequesterIdentity

pub record ExecutionReceipt : Type 0 where
  pub receipt_id : String
  pub intent_id : String
  pub capability : String
  pub action : ReceiptAction
  pub timestamp : String
  pub status : ExecutionStatus
  pub signature : Option String

-- What an adapter says of an input.
pub record ExecutionAdapter : Type 0 where
  pub validate : Fields → Bool

pub data ExecuteError : Type 0 where
  invalid_intent invalid_input : ExecuteError
  no_adapter : String → ExecuteError

-- A receipt is returned, the adapter of a capability is run, whose answer is then returned, or an
-- error is thrown.
pub data Outcome : Type 0 where
  returns : ExecutionReceipt → Outcome
  runs : String → Fields → ExecutionContext → Outcome
  throws : ExecuteError → Outcome

-- What a call finds around it: a new id, the time as a number and as a text.
pub record Surroundings : Type 0 where
  pub to_lower : String → String
  pub new_id : String
  pub now : String
  pub timestamp : String

-- `intent.metadata?.intent_id || generateId()`.
abbrev pub intent_id_of : Surroundings → Intent → String
intent_id_of w i = elim i.metadata [
  | none ↦ w.new_id
  | some m ↦ if truthy m.intent_id then m.intent_id else w.new_id
]

abbrev pub unsigned : Surroundings → Intent → ReceiptAction → ExecutionReceipt
unsigned w i action = record {
  receipt_id = "receipt:" ++ (intent_id_of w i ++ (":" ++ w.now));
  intent_id = intent_id_of w i;
  capability = i.capability;
  action = action;
  timestamp = w.timestamp;
  status = Protocol.ExecutionStatus.error;
  signature = none;
}

pub record Executor : Type 0 where
  pub policy : PolicyDocument
  pub adapters : Dict ExecutionAdapter
  pub sign_receipt : Option (ExecutionReceipt → String)

abbrev pub set_policy : Executor → PolicyDocument → Executor
set_policy x p = record x { policy = p }

-- `buildReceipt`, for the two refusals; an executor that cannot sign writes an empty signature.
unfoldable pub build_receipt : Executor → Surroundings → Intent → ReceiptAction → ExecutionReceipt
build_receipt x w i action = record (unsigned w i action) {
  signature = some (elim x.sign_receipt [ none ↦ "" | some sign ↦ sign (unsigned w i action) ]);
}

unfoldable pub execute_normalized_intent : Executor → Surroundings → Intent → Outcome
execute_normalized_intent x w i = elim (get i.capability x.adapters) [
  | none ↦ throws (no_adapter i.capability)
  | some adapter ↦
      if adapter.validate i.input
      then runs i.capability i.input
          (record { intent_id = intent_id_of w i; requester = i.requester })
      else throws invalid_input
]

-- What is done after the decision.
abbrev pub carry_out : Executor → Surroundings → Intent → PolicyAction → Outcome
unfolding execute_normalized_intent
carry_out x w i deny = returns (build_receipt x w i denied)
carry_out x w i require_approval = returns (build_receipt x w i approval_required)
carry_out x w i allow = execute_normalized_intent x w i

unfoldable pub execute : (Intent → Bool) → Executor → Surroundings → Intent → Outcome
unfolding carry_out
execute is_valid x w i =
    if is_valid i
    then carry_out x w (normalize w.to_lower i) (evaluate (normalize w.to_lower i) x.policy).action
    else throws invalid_intent

unfoldable pub execute_approved : (Intent → Bool) → Executor → Surroundings → Intent → Outcome
execute_approved is_valid x w i =
    if is_valid i
    then execute_normalized_intent x w (normalize w.to_lower i)
    else throws invalid_intent

-- An adapter for the intent takes its input.
abbrev pub Ready : Dict ExecutionAdapter → Intent → Type 0
Ready adapters i =
    (a : ExecutionAdapter) × (get i.capability adapters ≡ some a) × (a.validate i.input ≡ true)

normalized_runs :
    (x : Executor) (w : Surroundings) (i : Intent) (capability : String) (input : Fields)
    (context : ExecutionContext)
    → execute_normalized_intent x w i ≡ runs capability input context
    → (capability ≡ i.capability) × Ready x.adapters i
unfolding execute_normalized_intent
normalized_runs x w i capability input context h =
    elim (Option-cases (get i.capability x.adapters)) [
      | inl e ↦ absurd (ground arith)
      | inr (a, e) ↦ (ground arith, (a, e, ground arith))
    ]

carried_out :
    (x : Executor) (w : Surroundings) (i : Intent) (action : PolicyAction) (capability : String)
    (input : Fields) (context : ExecutionContext)
    → carry_out x w i action ≡ runs capability input context
    → (action ≡ allow) × (capability ≡ i.capability) × Ready x.adapters i
unfolding carry_out
carried_out x w i deny capability input context h = absurd (ground arith)
carried_out x w i require_approval capability input context h = absurd (ground arith)
carried_out x w i allow capability input context h =
    let (same, ready) = normalized_runs x w i capability input context h in (refl, same, ready)

execute-runs :
    (is_valid : Intent → Bool) (x : Executor) (w : Surroundings) (i : Intent) (capability : String)
    (input : Fields) (context : ExecutionContext)
    → execute is_valid x w i ≡ runs capability input context
    → (is_valid i ≡ true)
      × ((evaluate (normalize w.to_lower i) x.policy).action ≡ allow)
      × (capability ≡ (normalize w.to_lower i).capability)
      × Ready x.adapters (normalize w.to_lower i)
unfolding execute
execute-runs is_valid x w i capability input context h = elim (Bool-cases (is_valid i)) [
  | inr bad ↦ absurd (ground arith)
  | inl good ↦
      let (allowed, same, ready) =
        carried_out x w (normalize w.to_lower i) _ capability input context (ground arith) in
      (good, allowed, same, ready)
]

-- The executor runs an adapter only for a valid intent that the policy allows once it is normalised,
-- the one of the normalised capability, which takes the input; and it does run it then.
pub execute_exact :
    (is_valid : Intent → Bool) (x : Executor) (w : Surroundings) (i : Intent)
    → ((capability : String) (input : Fields) (context : ExecutionContext)
        → execute is_valid x w i ≡ runs capability input context
        → (is_valid i ≡ true)
          × ((evaluate (normalize w.to_lower i) x.policy).action ≡ allow)
          × (capability ≡ (normalize w.to_lower i).capability)
          × Ready x.adapters (normalize w.to_lower i))
      × (is_valid i ≡ true
          → (evaluate (normalize w.to_lower i) x.policy).action ≡ allow
          → Ready x.adapters (normalize w.to_lower i)
          → (context : ExecutionContext) × (execute is_valid x w i
              ≡ runs (normalize w.to_lower i).capability (normalize w.to_lower i).input context))
unfolding execute execute_normalized_intent
execute_exact is_valid x w i =
    let n = normalize w.to_lower i in
    (
      execute-runs is_valid x w i,
      λ good allowed ready.
          let (a, found, takes) = ready in
          (record { intent_id = intent_id_of w n; requester = n.requester }, ground arith),
    )
