-- ===== src/Runtime/Tests.antt =====
-- A micro agent on a concrete token and task.
use micro_agent_protocol.Base.{
  ◌≡◌, ◌≢◌, refl, ◌↔◌, String, Option, none, some, true, false, [], ◌∷◌, ok, err, arith, str_eq,
  resolve_tenant_id,
}
use micro_agent_protocol.Base.Dict.{get, set}
use micro_agent_protocol.Base.Json.{end, text, field, Fields, stringify, quote}
use micro_agent_protocol.Protocol.{
  running, completed, service, RequesterIdentity, full, TaskRecord, ExecutionReceipt,
}
use micro_agent_protocol.ControlPlane.TaskGuards.{validate_transition}
use micro_agent_protocol.ControlPlane.TaskStore.Transitions.{complete}
use micro_agent_protocol.ControlPlane.ReceiptStore.{tenant_of}
use micro_agent_protocol.Runtime.Envelope.{DelegationToken, TaskEnvelope}
use micro_agent_protocol.Runtime.Scope.{scope_matches}
use micro_agent_protocol.Runtime.MicroAgent.{
  Checks, assert_authorized, check_token, check_task, cleanup_seen_token_uses, replay_detected,
  signature_invalid,
}
use micro_agent_protocol.Runtime.MicroAgent.Replay.{uses, replay_refused}
use micro_agent_protocol.Runtime.MicroAgent.Authorization.{MayRun, authorized_exact}
use micro_agent_protocol.Runtime.Outputs.{build_receipt}
use micro_agent_protocol.Runtime.Outputs.Accepted.{outcome, built_accepted}

-- Tokens are well formed and signed, and all expire at 100; keys stay in their order.
abbrev checks : Checks
checks = record {
  validate_token = λ token. some token;
  verify_signature = λ token. str_eq token.signature "sig";
  parse_date = λ text. some 100;
  before = λ a b. false;
}

abbrev requester : RequesterIdentity
requester = record { type = service; id = "svc"; tenant_id = some "acme" }

abbrev scope : Fields
scope = field "resource_id" (text "db") end

abbrev token : DelegationToken
token = record {
  issuer = "map";
  subject_agent = "agent";
  allowed_actions = "db.read" ∷ [];
  resource_scope = scope;
  constraints = record { common = end; domain = end; expires_at = "100" };
  approval_reference = none;
  requester_identity = some requester;
  signature = "sig";
}

abbrev envelope : Option String → TaskEnvelope
envelope capability = record {
  task_id = "t1";
  requester_identity = requester;
  target_agent = "agent";
  intent = "read";
  constraints = scope;
  requested_output_mode = full;
  metadata = some (record {
    capability = capability;
    request_id = none;
    requested_schema_version = some "1";
    executed_schema_version = none;
    schema_version = some "2";
    negotiation = none;
  });
}

authorized : (assert_authorized checks "agent" 10 [] (envelope (some "db.read")) token).1 ≡ ok tt
unfolding assert_authorized check_token check_task cleanup_seen_token_uses scope_matches get
    stringify quote resolve_tenant_id
authorized = refl

-- A call that is refused for its task has used the token up for that task.
used_up :
    (assert_authorized checks "agent" 11
      (assert_authorized checks "agent" 10 [] (envelope none) token).0
      (envelope (some "db.read"))
      token).1
    ≡ err replay_detected
unfolding assert_authorized check_token check_task cleanup_seen_token_uses scope_matches get set
used_up = refl

-- Signatures that tell whether the constraints hold a common key.
abbrev signature_of : Fields → String
signature_of end = "bare"
signature_of (field k v fs) = "windowed"

-- Validation deletes the common keys, as it does with those that the schema of tokens does not list.
abbrev strict : Checks
strict = record checks {
  validate_token =
      λ token. some (record token { constraints = record token.constraints { common = end } });
  verify_signature = λ token. str_eq token.signature (signature_of token.constraints.common);
}

abbrev windowed : DelegationToken
windowed = record token {
  constraints = record token.constraints { common = field "time_window" (text "night") end };
  signature = "windowed";
}

-- A token that was signed with such a key is refused, and one that was signed without it passes
-- also where the key was added later.
stripped_refused :
    (strict.verify_signature windowed ≡ true)
    × ((assert_authorized strict "agent" 10 [] (envelope (some "db.read")) windowed).1
        ≡ err signature_invalid)
    × ((assert_authorized strict "agent" 10 []
          (envelope (some "db.read"))
          (record windowed { signature = "bare" })).1
        ≡ ok tt)
unfolding assert_authorized check_token check_task cleanup_seen_token_uses scope_matches get
    stringify quote resolve_tenant_id
stripped_refused = (refl, refl, refl)

authorized_exact_example :
    ((assert_authorized checks "agent" 10 [] (envelope (some "db.read")) token).1 ≡ ok tt) ↔ (
      (kept : DelegationToken) × (checks.validate_token token ≡ some kept)
      × MayRun checks "agent" 10 [] (envelope (some "db.read")) kept)
authorized_exact_example = authorized_exact checks "agent" 10 [] (envelope (some "db.read")) token

replay_refused_example :
    (assert_authorized checks "agent" 60
      (uses checks
        (assert_authorized checks "agent" 10 [] (envelope (some "db.read")) token).0
        (record { agent_id = "other"; at = 50; envelope = envelope none; token = token } ∷ []))
      (envelope (some "db.read"))
      token).1
    ≢ ok tt
replay_refused_example =
    replay_refused checks "agent" "agent" 10 60 [] (envelope (some "db.read"))
      (envelope (some "db.read")) token
      (record { agent_id = "other"; at = 50; envelope = envelope none; token = token } ∷ [])
      authorized (omega arith, tt) refl

abbrev stored : TaskRecord
stored = record {
  task_id = "t1";
  order_id = none;
  context_id = none;
  requester_identity = requester;
  idempotency_key = none;
  capability = "db.read";
  target_agent = "agent";
  status = running;
  result = none;
  receipt = none;
  updated_at = "0";
}

abbrev receipt : ExecutionReceipt
receipt = build_receipt (λ r. "signed") "agent" "1" (envelope (some "db.read")) "read" "db" [] none

built_accepted_example :
    (validate_transition stored completed
        (outcome completed (envelope (some "db.read")) end none receipt)
      ≡ ok tt)
    × (tenant_of receipt ≡ resolve_tenant_id (some "acme"))
built_accepted_example =
    built_accepted (λ r. "signed") "agent" "1" "read" "db" [] none (envelope (some "db.read"))
      stored completed end none refl complete
