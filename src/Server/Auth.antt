-- ===== src/Server/Auth.antt =====
-- server/middleware/auth.ts and the part of server/mutation-routes.ts that decides whether a request
-- may dispatch, with verifyHttpRequestSignature of security/signing.ts. What is only logged (audit
-- events, the subject of a bearer token) is left out.
mod Bearer
mod Mutations
pub mod Signed
mod Tests
use Prim.Native.Char.{code}
use micro_agent_protocol.Base.{
  ℕ, ◌+◌, ◌-◌, ◌*◌, ◌/◌, String, Option, none, some, Bool, true, false, not, ◌&&◌, ◌||◌, List, [],
  ◌∷◌, ltb, leb, ◌==◌, if◌then◌else◌, or_else, str_eq, includes_text, is_blank, truthy, Result, ok,
  err,
}
use micro_agent_protocol.Base.Dict.{Dict}
use micro_agent_protocol.Base.Json.{
  Number, nan, int, pos, int_lt, Value, undefined, null, number, object, lookup,
}
use micro_agent_protocol.Core.Intent.{trim}
use micro_agent_protocol.Security.Nonces.{verify_nonce}

pub data AuthScheme : Type 0 where
  unsecured bearer mtls signed_request oauth2 : AuthScheme

abbrev pub is_signed_request : AuthScheme → Bool
is_signed_request signed_request = true
is_signed_request _ = false

-- What a signature of a request covers.
pub record SignedRequestPayload : Type 0 where
  pub method : String
  pub path : String
  pub timestamp : String
  pub key_id : String
  pub body : String

-- The headers that are read; one that is missing is none.
pub record Request : Type 0 where
  pub method : Option String
  pub url : Option String
  pub auth_scheme : Option String
  pub key_id : Option String
  pub timestamp : Option String
  pub request_signature : Option String
  pub authorization : Option String
  pub body : String

-- Code outside: `Date.parse` (none where it is NaN), `new URL(url, ..).pathname`, the comparison of a
-- compact signature with the payload, the SHA-256 digest, `JSON.parse` of a decoded part of a token
-- (none where it throws), and `Number`.
pub record Outside : Type 0 where
  pub parse_date : String → Option ℕ
  pub normalize_path : String → String
  pub verify_compact_signature : String → SignedRequestPayload → Bool
  pub digest : String → String
  pub decode_json : String → Option Value
  pub to_number : Value → Number

-- The options of the server and the environment, with the ids of revoked keys.
pub record AuthConfig : Type 0 where
  pub enforce_signed_requests : Bool
  pub enforce_bearer_auth : Bool
  pub revoked_key_ids : List String
  pub request_max_age_ms : ℕ
  pub static_token : Option String
  pub jwks_url : Option String

pub data AuthCode : Type 0 where
  auth_required invalid_auth token_expired : AuthCode

pub record AuthError : Type 0 where
  pub code : AuthCode
  pub message : String

abbrev pub refuse : AuthCode → String → Option AuthError
refuse code message = some (record { code = code; message = message })

-- NONCE_MAX_AGE_MS.
abbrev pub nonce_max_age_ms : ℕ
nonce_max_age_ms = 5 * 60 * 1000

-- `Math.abs(now - t)`.
abbrev pub distance : ℕ → ℕ → ℕ
distance now t = (now - t) + (t - now)

-- The nonces afterwards, and the answer.
unfoldable pub verify_http_request_signature :
    Outside
    → AuthConfig
    → (now : ℕ) → SignedRequestPayload
    → (signature : String) → (nonce : Option String) → Dict ℕ
    → Dict ℕ × Bool
verify_http_request_signature o c now p signature nonce nonces = elim (o.parse_date p.timestamp) [
  | none ↦ (nonces, false)
  | some t ↦
      if ltb c.request_max_age_ms (distance now t)
      then (nonces, false)
      else (let n = or_else nonce "" in
          let (nonces', unused) = verify_nonce nonce_max_age_ms now n nonces in
          if truthy n
          then (if unused
              then (nonces', o.verify_compact_signature signature p)
              else (nonces', false))
          else (nonces, o.verify_compact_signature signature p))
]

abbrev pub wants_signed_request_auth : Request → Bool
wants_signed_request_auth r = str_eq (or_else r.auth_scheme "") "signed_request"

-- `timestampAgeMs > FIVE_MINUTES_MS || timestampAgeMs < -FIVE_MINUTES_MS`, which NaN does not satisfy.
abbrev pub is_outside_window : (now : ℕ) → Option ℕ → Bool
is_outside_window now none = false
is_outside_window now (some t) = ltb (5 * 60 * 1000) (now - t) || ltb (5 * 60 * 1000) (t - now)

-- The payload that the signature of a request must cover.
abbrev pub payload_of : Outside → Request → (key_id timestamp : String) → SignedRequestPayload
payload_of o r key_id timestamp = record {
  method = or_else r.method "GET";
  path = o.normalize_path (or_else r.url "/");
  timestamp = timestamp;
  key_id = key_id;
  body = r.body;
}

-- The checks of the headers that are there. No nonce is passed on.
unfoldable pub check_signed_headers :
    Outside → AuthConfig → ℕ → Request → (key_id timestamp signature : String) → Option AuthError
unfolding verify_http_request_signature
check_signed_headers o c now r key_id timestamp signature =
    if includes_text c.revoked_key_ids key_id
    then refuse invalid_auth "MAP signed_request key has been revoked."
    else (if is_outside_window now (o.parse_date timestamp)
        then refuse token_expired "MAP signed_request timestamp is outside acceptable window."
        else (if (verify_http_request_signature o c now (payload_of o r key_id timestamp) signature
              none []).1
            then none
            else refuse invalid_auth "Invalid MAP signed_request signature."))

unfoldable pub get_signed_request_error : Outside → AuthConfig → ℕ → Request → Option AuthError
unfolding check_signed_headers
get_signed_request_error o c now r =
    if not (wants_signed_request_auth r)
    then refuse auth_required "MAP signed_request authentication is required."
    else elim r.key_id [
      | none ↦ refuse invalid_auth "Missing MAP signed_request authentication headers."
      | some key_id ↦ elim r.timestamp [
        | none ↦ refuse invalid_auth "Missing MAP signed_request authentication headers."
        | some timestamp ↦ elim r.request_signature [
          | none ↦ refuse invalid_auth "Missing MAP signed_request authentication headers."
          | some signature ↦ check_signed_headers o c now r key_id timestamp signature
        ]
      ]
    ]
