-- ===== src/Security/Signatures.antt =====
-- security/signing.ts: compact signatures, from the choice of the key to the comparison of the bytes.
-- The keys and the environment are arguments; the metrics that are counted on the way are left out.
mod Verified
mod Tests
use Prim.Native.String.{◌++◌ as ◌⧺◌}
use micro_agent_protocol.Base.{
  ℕ, String, Option, none, some, Bool, true, false, not, ◌&&◌, ◌||◌, List, [], ◌∷◌, find?,
  if◌then◌else◌, or_else, str_eq, includes_text, is_blank, Result, ok, err, ◌>>=◌, ◌>>◌, throw_if,
}
use micro_agent_protocol.Base.Split.{split_dots}
use micro_agent_protocol.Base.Json.{Value, undefined, text, object, object_of, lookup, stringify}
use micro_agent_protocol.Core.Intent.{trim}

pub data Alg : Type 0 where
  hs256 rs256 : Alg

pub data KeyStatus : Type 0 where
  active retiring revoked : KeyStatus

pub data Material : Type 0 where
  hmac : (secret : String) → Material
  rsa : (private_key_pem : Option String) → (public_key_pem : String) → Material

pub record SigningKey : Type 0 where
  pub kid : String
  pub alg : Alg
  pub status : KeyStatus
  pub scopes : List String
  pub material : Material

pub data Profile : Type 0 where
  open_profile verified regulated : Profile

-- `base64url` of a text, given by its code points; the HMAC and the RSA signature of a text, in
-- base64url; verification with a public key, false where it throws; `timingSafeEqual` of two decoded
-- texts, false where it throws; and `JSON.parse` of a decoded text, none where it throws.
pub record Primitives : Type 0 where
  pub base64url : List ℕ → String
  pub hmac_sha256 : (secret input : String) → String
  pub rsa_sign : (private_key_pem input : String) → String
  pub rsa_verify : (public_key_pem input signature : String) → Bool
  pub same_bytes : String → String → Bool
  pub parse_json : String → Option Value

-- The keys, MAP_SIGNING_ACTIVE_KID and MAP_DEPLOYMENT_PROFILE.
pub record Keys : Type 0 where
  pub signing_keys : List SigningKey
  pub active_kid : Option String
  pub profile : Profile

abbrev pub is_revoked : KeyStatus → Bool
is_revoked revoked = true
is_revoked _ = false

abbrev pub alg_text : Alg → String
alg_text hs256 = "HS256"
alg_text rs256 = "RS256"

unfoldable pub get_signing_key_by_kid : List SigningKey → String → Option SigningKey
get_signing_key_by_kid keys kid = find? (λ k. str_eq k.kid kid) keys

pub data SigningError : Type 0 where
  no_active_key no_signing_key algorithm_not_allowed : SigningError
  key_is_revoked not_authorized no_private_key : (kid : String) → SigningError

-- `keys.find((key) => key.status !== "revoked")`, or the error that none is there.
abbrev pub first_signable : List SigningKey → Result SigningError SigningKey
first_signable keys = elim (find? (λ k. not (is_revoked k.status)) keys) [
  | none ↦ err no_active_key
  | some k ↦ ok k
]

-- The key that is named, unless it is missing or revoked.
abbrev pub named_key : Option SigningKey → List SigningKey → Result SigningError SigningKey
named_key none keys = first_signable keys
named_key (some k) keys = if is_revoked k.status then first_signable keys else ok k

unfoldable pub get_active_signing_key : Keys → Result SigningError SigningKey
unfolding get_signing_key_by_kid is_blank trim
get_active_signing_key ks =
    let active = or_else ks.active_kid "" in
    if is_blank active
    then first_signable ks.signing_keys
    else named_key (get_signing_key_by_kid ks.signing_keys (trim active)) ks.signing_keys

abbrev pub requested_key : Option SigningKey → Result SigningError SigningKey
requested_key none = err no_signing_key
requested_key (some k) = ok k

unfoldable pub choose_key : Keys → (requested_kid : Option String) → Result SigningError SigningKey
unfolding get_active_signing_key get_signing_key_by_kid is_blank trim
choose_key ks requested_kid =
    let requested = or_else requested_kid "" in
    if is_blank requested
    then get_active_signing_key ks
    else requested_key (get_signing_key_by_kid ks.signing_keys (trim requested))

-- getAllowedAlgorithms and assertAlgorithmAllowed: only the open profile takes HS256.
unfoldable pub algorithm_allowed : Alg → Profile → Bool
algorithm_allowed rs256 profile = true
algorithm_allowed hs256 open_profile = true
algorithm_allowed hs256 _ = false

unfoldable pub header_value : SigningKey → Value
header_value k =
    object_of (("alg", text (alg_text k.alg)) ∷ ("kid", text k.kid) ∷ ("typ", text "MAPSIG") ∷ [])

unfoldable pub encoded_header : Primitives → SigningKey → String
encoded_header p k = p.base64url (stringify (header_value k))

unfoldable pub signing_input : Primitives → SigningKey → List ℕ → String
signing_input p k payload = encoded_header p k ⧺ ("." ⧺ p.base64url payload)

unfoldable pub sign_input :
    Primitives → (kid : String) → Material → (input : String) → Result SigningError String
sign_input p kid (hmac secret) input = ok (p.hmac_sha256 secret input)
sign_input p kid (rsa (some private) public) input = ok (p.rsa_sign private input)
sign_input p kid (rsa none public) input = err (no_private_key kid)

-- The signature of a payload in canonical form, for a scope.
unfoldable pub create_compact_signature :
    Primitives
    → Keys
    → (payload : List ℕ) → (requested_kid : Option String) → (scope : String)
    → Result SigningError String
unfolding choose_key algorithm_allowed sign_input
create_compact_signature p ks payload requested_kid scope = do
  k ← choose_key ks requested_kid
  throw_if (is_revoked k.status) (key_is_revoked k.kid)
  throw_if (not (includes_text k.scopes scope)) (not_authorized k.kid)
  throw_if (not (algorithm_allowed k.alg ks.profile)) algorithm_not_allowed
  signature ← sign_input p k.kid k.material (signing_input p k payload)
  ok (encoded_header p k ⧺ ("." ⧺ (p.base64url payload ⧺ ("." ⧺ signature))))

abbrev pub as_alg : Value → Option Alg
as_alg (text t) =
    if str_eq t "HS256" then some hs256 else if str_eq t "RS256" then some rs256 else none
as_alg v = none

abbrev pub is_mapsig : Value → Bool
is_mapsig (text t) = str_eq t "MAPSIG"
is_mapsig v = false

abbrev pub alg_eq : Alg → Alg → Bool
alg_eq hs256 hs256 = true
alg_eq rs256 rs256 = true
alg_eq _ _ = false

-- The key that a header names, if the header is one of a compact signature.
unfoldable pub key_of_header : List SigningKey → Option Value → Option SigningKey
unfolding get_signing_key_by_kid lookup
key_of_header keys (some (object fs)) =
    if is_mapsig (lookup "typ" fs)
    then elim (as_alg (lookup "alg" fs)) [
      | none ↦ none
      | some alg ↦ elim (lookup "kid" fs) [
        | text kid ↦ elim (get_signing_key_by_kid keys kid) [
          | none ↦ none
          | some k ↦ if not (is_revoked k.status) && alg_eq k.alg alg then some k else none
        ]
        | _ ↦ none
      ]
    ]
    else none
key_of_header keys _ = none

unfoldable pub check_bytes : Primitives → Material → (input signature : String) → Bool
check_bytes p (hmac secret) input signature = p.same_bytes signature (p.hmac_sha256 secret input)
check_bytes p (rsa private public) input signature = p.rsa_verify public input signature

-- The comparison of the three parts with a payload in canonical form.
unfoldable pub check_parts :
    Primitives → List SigningKey → List ℕ → (scope header payload signature : String) → Bool
unfolding key_of_header check_bytes
check_parts p keys canonical scope header payload signature =
    elim (key_of_header keys (p.parse_json header)) [
      | none ↦ false
      | some k ↦
          includes_text k.scopes scope
          && str_eq payload (p.base64url canonical)
          && check_bytes p k.material (header ⧺ ("." ⧺ payload)) signature
    ]

abbrev pub check_split :
    Primitives → List SigningKey → List ℕ → (scope : String) → List String → Bool
check_split p keys canonical scope (header ∷ payload ∷ signature ∷ []) =
    check_parts p keys canonical scope header payload signature
check_split p keys canonical scope _ = false

unfoldable pub verify_compact_signature :
    Primitives → List SigningKey → (signature : String) → List ℕ → (scope : String) → Bool
unfolding check_parts split_dots
verify_compact_signature p keys signature canonical scope =
    check_split p keys canonical scope (split_dots signature)
