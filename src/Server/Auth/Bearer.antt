-- ===== src/Server/Auth/Bearer.antt =====
-- server/middleware/auth.ts: the check of a bearer token.
use Prim.Native.Char.{code}
use micro_agent_protocol.Base.{
  ℕ, ◌+◌, ◌/◌, String, Option, none, some, Bool, true, false, not, ◌&&◌, List, [], ◌∷◌, leb, ◌==◌,
  if◌then◌else◌, or_else, str_eq, is_blank, truthy, Result, ok, err,
}
use micro_agent_protocol.Base.Split.{split_dots}
use micro_agent_protocol.Base.Json.{
  Number, nan, int, pos, int_lt, Value, undefined, null, number, object, lookup,
}
use micro_agent_protocol.Core.Intent.{trim}
use micro_agent_protocol.Server.Auth.{
  Request, Outside, AuthConfig, AuthError, auth_required, invalid_auth, token_expired, refuse,
}

-- Reading a property of null or undefined.
pub data Thrown : Type 0 where
  type_error : Thrown

-- Lower case, of the letters that "bearer " has.
lower : ℕ → ℕ
lower c = if leb 65 c && leb c 90 then c + 32 else c

-- What follows a prefix in lower case.
after_prefix : List ℕ → String → Option String
unfolding lower
after_prefix [] s = some s
after_prefix (p ∷ ps) String.[] = none
after_prefix (p ∷ ps) (String.◌∷◌ c s) =
    let rest = after_prefix ps s in if lower (code c) == p then rest else none

-- The token behind "bearer ", in any case, without the white space around it.
unfoldable pub bearer_token : Request → Option String
unfolding after_prefix trim
bearer_token r =
    elim (after_prefix (b'b' ∷ b'e' ∷ b'a' ∷ b'r' ∷ b'e' ∷ b'r' ∷ b' ' ∷ [])
      (or_else r.authorization "")) [ none ↦ none | some rest ↦ some (trim rest) ]

-- `payload.exp`.
unfoldable pub exp_of : Value → Result Thrown Value
unfolding lookup
exp_of undefined = err type_error
exp_of null = err type_error
exp_of (object fs) = ok (lookup "exp" fs)
exp_of v = ok undefined

abbrev pub is_undefined : Value → Bool
is_undefined undefined = true
is_undefined v = false

-- `typeof exp === "number" ? exp : Number(exp)`.
abbrev pub number_of : Outside → Value → Number
number_of o (number n) = n
number_of o v = o.to_number v

-- The check of a finite expiry, in seconds.
unfoldable pub check_exp : (now : ℕ) → Number → Option AuthError
check_exp now nan = refuse invalid_auth "JWT `exp` claim is not a valid number."
check_exp now (int e) =
    if int_lt e (pos (now / 1000))
    then refuse token_expired "OAuth 2.0 Bearer token has expired."
    else none

unfoldable pub check_payload : Outside → (now : ℕ) → Option Value → Result Thrown (Option AuthError)
unfolding check_exp exp_of
check_payload o now none = ok (refuse invalid_auth "Failed to decode JWT payload.")
check_payload o now (some payload) = elim (exp_of payload) [
  | err e ↦ err e
  | ok exp ↦
      if is_undefined exp
      then ok (refuse invalid_auth "JWT is missing required `exp` claim.")
      else ok (check_exp now (number_of o exp))
]

-- A token in three parts. Only the second one is read.
unfoldable pub check_jwt : Outside → (now : ℕ) → List String → Result Thrown (Option AuthError)
unfolding check_payload
check_jwt o now (header ∷ payload ∷ signature ∷ []) = check_payload o now (o.decode_json payload)
check_jwt o now _ = ok (refuse invalid_auth "Invalid JWT format in Bearer token.")

-- `token && token.trim().length > 0`.
abbrev pub is_set : Option String → Bool
is_set t = not (is_blank (or_else t ""))

unfoldable pub check_token :
    Outside → AuthConfig → (now : ℕ) → String → Result Thrown (Option AuthError)
unfolding check_jwt split_dots is_blank
check_token o c now token =
    if is_set c.static_token
    then ok (
        if str_eq (o.digest token) (o.digest (or_else c.static_token ""))
        then none
        else refuse invalid_auth "Invalid OAuth 2.0 Bearer token.")
    else (if truthy (or_else c.jwks_url "")
        then check_jwt o now (split_dots token)
        else ok (
            refuse invalid_auth
              "OAuth 2.0 Bearer validation is not configured. Set MAP_OAUTH_STATIC_TOKEN or MAP_OAUTH_JWKS_URL."))

unfoldable pub get_bearer_token_error :
    Outside → AuthConfig → (now : ℕ) → Request → Result Thrown (Option AuthError)
unfolding check_token bearer_token
get_bearer_token_error o c now r = elim (bearer_token r) [
  | none ↦ ok (refuse auth_required "OAuth 2.0 Bearer token is required.")
  | some token ↦
      if truthy token
      then check_token o c now token
      else ok (refuse invalid_auth "Bearer token is empty.")
]
