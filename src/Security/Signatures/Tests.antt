-- ===== src/Security/Signatures/Tests.antt =====
-- Compact signatures with one shared key, and an encoding that counts.
use Prim.Native.Char.{code}
use Prim.Native.String.{◌++◌ as ◌⧺◌}
use micro_agent_protocol.Base.{
  ◌≡◌, refl, ap, Bool, ◌==◌, ℕ, zero, suc, String, none, some, true, false, List, [], ◌∷◌, ok, err,
  str_eq, str_eq_refl, is_blank, All,
}
use micro_agent_protocol.Base.Split.{has_no_dot}
use micro_agent_protocol.Base.Json.{stringify}
use micro_agent_protocol.Security.Signatures.{
  hs256, active, hmac, SigningKey, Primitives, Keys, Profile, open_profile, verified,
  algorithm_not_allowed, get_signing_key_by_kid, get_active_signing_key, choose_key,
  algorithm_allowed, header_value, encoded_header, signing_input, sign_input,
  create_compact_signature, verify_compact_signature,
}
use micro_agent_protocol.Security.Signatures.Verified.{IsFaithful, IsUsable, verify-create}

-- A number as so many letters `a` and a `b`.
abbrev put : ℕ → String → String
put zero rest = String.◌∷◌ "b" rest
put (suc n) rest = String.◌∷◌ "a" (put n rest)

abbrev encode : List ℕ → String
encode [] = ""
encode (n ∷ t) = put n (encode t)

starts_b : String → Bool
starts_b String.[] = false
starts_b (String.◌∷◌ c s) = code c == 98

put-injective : (n m : ℕ) (r s : String) → put n r ≡ put m s → (n ≡ m) × (r ≡ s)
unfolding starts_b
put-injective zero zero r s h = (refl, cc)
put-injective zero (suc m) r s h = let apart : true ≡ false = ap starts_b h in absurd (cc)
put-injective (suc n) zero r s h = let apart : false ≡ true = ap starts_b h in absurd (cc)
put-injective (suc n) (suc m) r s h =
    let (same, rest) = put-injective n m r s (cc) in (ap suc same, rest)

encode-injective : (t u : List ℕ) → encode t ≡ encode u → t ≡ u
encode-injective [] [] h = refl
encode-injective [] (zero ∷ u) h = cc
encode-injective [] (suc m ∷ u) h = cc
encode-injective (zero ∷ t) [] h = cc
encode-injective (suc n ∷ t) [] h = cc
encode-injective (n ∷ t) (m ∷ u) h =
    let (same, rest) = put-injective n m (encode t) (encode u) h in
    cc (same, encode-injective t u rest)

put-plain : (n : ℕ) (s : String) → has_no_dot s ≡ true → has_no_dot (put n s) ≡ true
put-plain zero s h = h
put-plain (suc n) s h = put-plain n s h

encode-plain : (t : List ℕ) → has_no_dot (encode t) ≡ true
encode-plain [] = refl
encode-plain (n ∷ t) = put-plain n (encode t) (encode-plain t)

abbrev shared : SigningKey
shared = record {
  kid = "k1";
  alg = hs256;
  status = active;
  scopes = "receipt" ∷ [];
  material = hmac "secret";
}

abbrev simple : Primitives
simple = record {
  base64url = encode;
  hmac_sha256 = λ secret input. "mac";
  rsa_sign = λ pem input. "";
  rsa_verify = λ pem input signature. false;
  same_bytes = str_eq;
  parse_json = λ s. some (header_value shared);
}

simple-IsFaithful : IsFaithful simple
simple-IsFaithful = record {
  base64url_injective = encode-injective;
  base64url_plain = encode-plain;
  hmac_plain = λ secret input. refl;
  rsa_plain = λ pem input. refl;
  same = str_eq_refl;
}

abbrev keys : Profile → Keys
keys profile = record { signing_keys = shared ∷ []; active_kid = none; profile = profile }

abbrev payload : List ℕ
payload = 1 ∷ 0 ∷ []

abbrev signature : String
signature = encode (stringify (header_value shared)) ⧺ ("." ⧺ (encode payload ⧺ ".mac"))

made : create_compact_signature simple (keys open_profile) payload none "receipt" ≡ ok signature
unfolding create_compact_signature choose_key get_active_signing_key get_signing_key_by_kid is_blank
    algorithm_allowed sign_input signing_input encoded_header
made = refl

usable : All (IsUsable simple (shared ∷ [])) (shared ∷ [])
unfolding get_signing_key_by_kid
usable = ((refl, refl, tt), tt)

verify-create_example :
    (verify_compact_signature simple (shared ∷ []) signature payload "receipt" ≡ true)
    × ((other : List ℕ)
        → verify_compact_signature simple (shared ∷ []) signature other "receipt" ≡ true
        → other ≡ payload)
verify-create_example =
    verify-create simple (keys open_profile) payload none "receipt" signature simple-IsFaithful
      usable made

-- In the profile `verified` a shared secret may not sign.
not_signed :
    create_compact_signature simple (keys verified) payload none "receipt"
    ≡ err algorithm_not_allowed
unfolding create_compact_signature choose_key get_active_signing_key get_signing_key_by_kid is_blank
    algorithm_allowed
not_signed = refl
