-- ===== src/Server/Auth/Tests.antt =====
-- The checks of requests on a few requests: dates are the length of their text, and a part of a token
-- decodes to an object that expires in the year 2100.
use micro_agent_protocol.Base.{
  ◌≡◌, ◌↔◌, refl, arith, none, some, true, false, [], ◌∷◌, ok, str_eq, is_blank,
}
use micro_agent_protocol.Base.Json.{nan, int, pos, number, object_of, lookup}
use micro_agent_protocol.Core.Intent.{trim}
use micro_agent_protocol.Server.Auth.{oauth2, signed_request, Request, Outside, AuthConfig}
use micro_agent_protocol.Server.Auth.Bearer.{
  bearer_token, exp_of, check_exp, check_payload, check_jwt, check_token, get_bearer_token_error,
}
use micro_agent_protocol.Server.Auth.Mutations.{
  required_auth_scheme, requires_signed_request, authenticate,
}
use micro_agent_protocol.Server.Auth.Signed.{IsSigned, signature_needed}

-- A signature is the path that it signs.
abbrev simple : Outside
simple = record {
  parse_date = λ s. some 1000;
  normalize_path = λ s. s;
  verify_compact_signature = λ s p. str_eq s p.path;
  digest = λ s. s;
  decode_json = λ s. some (object_of (("exp", number (int (pos 4102444800))) ∷ []));
  to_number = λ v. nan;
}

abbrev config : AuthConfig
config = record {
  enforce_signed_requests = false;
  enforce_bearer_auth = true;
  revoked_key_ids = "k2" ∷ [];
  request_max_age_ms = 1000;
  static_token = none;
  jwks_url = some "https://keys";
}

abbrev signed : Request
signed = record {
  method = some "POST";
  url = some "/dispatch";
  auth_scheme = some "signed_request";
  key_id = some "k1";
  timestamp = some "2026";
  request_signature = some "/dispatch";
  authorization = none;
  body = "{}";
}

signed_is_required : requires_signed_request config (some signed_request) signed ≡ true
unfolding requires_signed_request required_auth_scheme
signed_is_required = refl

signature_needed_example :
    (authenticate simple config 1500 (some signed_request) signed ≡ ok none)
    ↔ IsSigned simple config 1500 signed
signature_needed_example =
    signature_needed simple config 1500 (some signed_request) signed signed_is_required

signed_passes : authenticate simple config 1500 (some signed_request) signed ≡ ok none
signed_passes =
    (signature_needed simple config 1500 (some signed_request) signed signed_is_required).1 (
      refl,
      (
        "k1",
        "2026",
        "/dispatch",
        1000,
        refl,
        refl,
        refl,
        refl,
        refl,
        omega arith,
        omega arith,
        omega arith,
        omega arith,
        refl,
      ),
    )

-- A token whose signature is made up goes through: nothing reads its third part.
abbrev forged : Request
forged = record signed {
  auth_scheme = none;
  key_id = none;
  timestamp = none;
  request_signature = none;
  authorization = some "Bearer head.payload.forged";
}

forged_passes : authenticate simple config 1500 (some oauth2) forged ≡ ok none
unfolding authenticate required_auth_scheme requires_signed_request get_bearer_token_error
    bearer_token trim check_token check_jwt check_payload check_exp exp_of lookup is_blank
forged_passes = refl

-- Without the option that enforces bearer tokens, a capability that requires one is open to all.
unauthenticated_passes :
    authenticate simple
      (record config { enforce_bearer_auth = false })
      1500
      (some oauth2)
      (record forged { authorization = none })
    ≡ ok none
unfolding authenticate required_auth_scheme requires_signed_request
unauthenticated_passes = refl
