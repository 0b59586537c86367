-- ===== src/ControlPlane/Delegation/Tests.antt =====
-- A token for one read of a database.
use micro_agent_protocol.Base.{◌≡◌, refl, none, some, true, false, [], ◌∷◌, str_eq, ok, arith}
use micro_agent_protocol.Base.Dict.{get}
use micro_agent_protocol.Base.Json.{field, text, end, Fields}
use micro_agent_protocol.Protocol.{service, RequesterIdentity, full}
use micro_agent_protocol.Core.Types.{allow}
use micro_agent_protocol.Runtime.Envelope.{TaskEnvelope}
use micro_agent_protocol.Runtime.MicroAgent.{Checks, assert_authorized, cleanup_seen_token_uses}
use micro_agent_protocol.ControlPlane.Delegation.{DelegationRequest, issue}
use micro_agent_protocol.ControlPlane.Delegation.Issued.{issued_authorized}

abbrev checks : Checks
checks = record {
  validate_token = λ token. some token;
  verify_signature = λ token. str_eq token.signature "sig";
  parse_date = λ date. some 100;
  before = λ a b. false;
}

abbrev requester : RequesterIdentity
requester = record { type = service; id = "svc"; tenant_id = none }

abbrev scope : Fields
scope = field "resource_id" (text "db") end

abbrev request : DelegationRequest
request = record {
  subject_agent = "agent";
  allowed_actions = "db.read" ∷ [];
  resource_scope = scope;
  requester_identity = requester;
  policy = record {
    allowed = true;
    action = allow;
    policy_checks = [];
    reason = none;
    approval_reference = none;
    scoped_constraints = none;
  };
  expires_at = "100";
}

abbrev task : TaskEnvelope
task = record {
  task_id = "t1";
  requester_identity = requester;
  target_agent = "agent";
  intent = "read";
  constraints = scope;
  requested_output_mode = full;
  metadata = some (record {
    capability = some "db.read";
    request_id = none;
    requested_schema_version = none;
    executed_schema_version = none;
    schema_version = none;
    negotiation = none;
  });
}

issued_authorized_example :
    (assert_authorized checks "agent" 10 [] task (issue (λ token. "sig") "map" request)).1 ≡ ok tt
unfolding get cleanup_seen_token_uses
issued_authorized_example =
    issued_authorized checks (λ token. "sig") "map" request 10 100 [] task (λ token. refl) refl refl
      (omega arith) refl refl refl refl refl
