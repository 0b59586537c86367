-- ===== src/Security/Signatures/Verified.antt =====
-- A signature that security/signing.ts makes is one that it takes.
use Prim.Native.String.{◌++◌ as ◌⧺◌}
use micro_agent_protocol.Base.{
  ◌⊎◌, ◌≡◌, ◌≢◌, refl, ◌∙◌, ap, subst, arith, inl, inr, ℕ, String, Option, none, some, Bool, true,
  false, not, List, [], ◌∷◌, find?, All, or_else, str_eq_refl, str_eq_iff, includes_text, is_blank,
  Bool-cases, Option-cases, Result, ok, err, Result-cases, some-injective,
}
use micro_agent_protocol.Base.Split.{split_dots, has_no_dot, split_dots-cons, split_dots_none}
use micro_agent_protocol.Base.Json.{lookup}
use micro_agent_protocol.Core.Intent.{trim}
use micro_agent_protocol.Security.Signatures.{
  Alg, hs256, rs256, Material, hmac, rsa, SigningKey, Primitives, Keys, is_revoked,
  get_signing_key_by_kid, SigningError, first_signable, named_key, get_active_signing_key,
  requested_key, choose_key, algorithm_allowed, header_value, encoded_header, signing_input,
  sign_input, create_compact_signature, key_of_header, check_bytes, check_parts, check_split,
  verify_compact_signature,
}

-- What the primitives do: base64url has no dot and keeps texts apart and comparison finds
-- equal bytes equal.
pub record IsFaithful (p : Primitives) : Type 0 where
  pub base64url_injective : (t u : List ℕ) → p.base64url t ≡ p.base64url u → t ≡ u
  pub base64url_plain : (t : List ℕ) → has_no_dot (p.base64url t) ≡ true
  pub hmac_plain : (secret input : String) → has_no_dot (p.hmac_sha256 secret input) ≡ true
  pub rsa_plain : (pem input : String) → has_no_dot (p.rsa_sign pem input) ≡ true
  pub same : (s : String) → p.same_bytes s s ≡ true

-- The two halves of an RSA key belong together.
abbrev pub IsPair : Primitives → Material → Type 0
IsPair p (rsa (some private) public) =
    (input : String) → p.rsa_verify public input (p.rsa_sign private input) ≡ true
IsPair p _ = Unit {0}

-- A key that its kid finds, whose header is read as it was written, and whose halves belong together.
abbrev pub IsUsable : Primitives → List SigningKey → SigningKey → Type 0
IsUsable p keys k =
    (get_signing_key_by_kid keys k.kid ≡ some k)
    × (p.parse_json (encoded_header p k) ≡ some (header_value k))
    × IsPair p k.material

module _ (P : SigningKey → Type 0) (test : SigningKey → Bool) where
  All-find : (keys : List SigningKey) {k : SigningKey} → All P keys → find? test keys ≡ some k → P k
  All-find [] all found = cc
  All-find (j ∷ keys) all found = elim (Bool-cases (test j)) [
    | inl t ↦ subst P (some-injective _ _ (rw t at found)) all.0
    | inr f ↦ All-find keys all.1 (rw f at found)
  ]

ok-injective : (j k : SigningKey) → ◌≡◌ {A = Result SigningError SigningKey} (ok j) (ok k) → j ≡ k
ok-injective j k h = cc

-- The key that is chosen is one of the keys.
module _ (P : SigningKey → Type 0) (ks : Keys) (all : All P ks.signing_keys) (k : SigningKey) where
  first_signable-All : first_signable ks.signing_keys ≡ ok k → P k
  first_signable-All chosen =
      elim (Option-cases (find? (λ j. not (is_revoked j.status)) ks.signing_keys)) [
        | inl missing ↦ absurd (ground arith)
        | inr (j, found) ↦
            subst P (ok-injective j k (rw (found, first_signable) at chosen))
              (All-find P _ ks.signing_keys all found)
      ]

  by_kid-All : (kid : String) → get_signing_key_by_kid ks.signing_keys kid ≡ some k → P k
  unfolding get_signing_key_by_kid
  by_kid-All kid found = All-find P _ ks.signing_keys all found

  active-All : get_active_signing_key ks ≡ ok k → P k
  unfolding get_active_signing_key
  active-All chosen = elim (Bool-cases (is_blank (or_else ks.active_kid ""))) [
    | inl blank ↦ first_signable-All (rw blank at chosen)
    | inr set ↦ named (rw set at chosen)
  ]
    where
      kid : String
      kid = trim (or_else ks.active_kid "")

      named : named_key (get_signing_key_by_kid ks.signing_keys kid) ks.signing_keys ≡ ok k → P k
      named chosen = elim (Option-cases (get_signing_key_by_kid ks.signing_keys kid)) [
        | inl missing ↦ first_signable-All (rw missing at chosen)
        | inr (j, found) ↦ elim (Bool-cases (is_revoked j.status)) [
          | inl bad ↦ first_signable-All (rw bad at (rw found at chosen))
          | inr good ↦
              by_kid-All kid (found ∙ ap some (ok-injective j k (rw good at (rw found at chosen))))
        ]
      ]

  choose_key-All : (requested : Option String) → choose_key ks requested ≡ ok k → P k
  unfolding choose_key
  choose_key-All requested chosen = elim (Bool-cases (is_blank (or_else requested ""))) [
    | inl blank ↦ active-All (rw blank at chosen)
    | inr set ↦ named (rw set at chosen)
  ]
    where
      kid : String
      kid = trim (or_else requested "")

      named : requested_key (get_signing_key_by_kid ks.signing_keys kid) ≡ ok k → P k
      named chosen = elim (Option-cases (get_signing_key_by_kid ks.signing_keys kid)) [
        | inl missing ↦ absurd (ground arith)
        | inr (j, found) ↦ by_kid-All kid (found ∙ ap some (ok-injective j k (rw found at chosen)))
      ]

Alg-cases : (a : Alg) → (a ≡ hs256) ⊎ (a ≡ rs256)
Alg-cases hs256 = inl refl
Alg-cases rs256 = inr refl

-- The header of a key's signature names the key.
key_of_header-own :
    (keys : List SigningKey) (k : SigningKey)
    → get_signing_key_by_kid keys k.kid ≡ some k
    → is_revoked k.status ≡ false
    → key_of_header keys (some (header_value k)) ≡ some k
unfolding key_of_header header_value lookup
key_of_header-own keys k found good = elim (Alg-cases k.alg) [
  | inl a ↦ rw a (rw found (rw (good, a) refl))
  | inr a ↦ rw a (rw found (rw (good, a) refl))
]

module _ (p : Primitives) (faithful : IsFaithful p) where
  sign_input-checked :
      (kid : String) (m : Material) (input signature : String)
      → IsPair p m
      → sign_input p kid m input ≡ ok signature
      → (check_bytes p m input signature ≡ true) × (has_no_dot signature ≡ true)
  unfolding sign_input check_bytes
  sign_input-checked kid (hmac secret) input signature pair signed =
      ground (arith, faithful.same (p.hmac_sha256 secret input), faithful.hmac_plain secret input)
  sign_input-checked kid (rsa (some private) public) input signature pair signed =
      ground (arith, pair input, faithful.rsa_plain private input)
  sign_input-checked kid (rsa none public) input signature pair signed = cc

  module _ (keys : List SigningKey) (k : SigningKey) (usable : IsUsable p keys k) where
    faithful_header : has_no_dot (encoded_header p k) ≡ true
    unfolding encoded_header
    faithful_header = faithful.base64url_plain _

    check_parts-own :
        (payload : List ℕ) (scope signature : String)
        → is_revoked k.status ≡ false
        → includes_text k.scopes scope ≡ true
        → check_bytes p k.material (signing_input p k payload) signature ≡ true
        → check_parts p keys payload scope (encoded_header p k) (p.base64url payload) signature
          ≡ true
    unfolding check_parts signing_input
    check_parts-own payload scope signature good scoped checked =
        ground (
          arith,
          usable.1,
          key_of_header-own keys k usable.0 good,
          str_eq_refl (p.base64url payload),
        )

    -- What a key has signed is verified, with the scope that it was signed for.
    verify_own :
        (payload : List ℕ) (scope signature : String)
        → is_revoked k.status ≡ false
        → includes_text k.scopes scope ≡ true
        → sign_input p k.kid k.material (signing_input p k payload) ≡ ok signature
        → verify_compact_signature p keys
            (encoded_header p k ⧺ ("." ⧺ (p.base64url payload ⧺ ("." ⧺ signature))))
            payload
            scope
          ≡ true
    unfolding verify_compact_signature
    verify_own payload scope signature good scoped signed =
        let (checked, plain) = sign_input-checked k.kid k.material _ signature usable.2 signed in
        rw
          (
            split_dots-cons (encoded_header p k) _ faithful_header,
            split_dots-cons (p.base64url payload) signature (faithful.base64url_plain payload),
            split_dots_none signature plain,
          )
          (check_parts-own payload scope signature good scoped checked)

module _ (p : Primitives) (ks : Keys) (payload : List ℕ) (scope : String) where
  -- A signature that was returned was made by the key that was chosen.
  signature_made :
      (requested : Option String) (k : SigningKey) (s : String)
      → choose_key ks requested ≡ ok k
      → create_compact_signature p ks payload requested scope ≡ ok s
      → (is_revoked k.status ≡ false)
        × (includes_text k.scopes scope ≡ true)
        × (algorithm_allowed k.alg ks.profile ≡ true)
        × ((signature : String) × (sign_input p k.kid k.material (signing_input p k payload)
              ≡ ok signature)
            × (s ≡ encoded_header p k ⧺ ("." ⧺ (p.base64url payload ⧺ ("." ⧺ signature)))))
  unfolding create_compact_signature
  signature_made requested k s chosen made =
      elim (Result-cases (sign_input p k.kid k.material (signing_input p k payload))) [
        | inl (signature, signed) ↦ ground arith
        | inr (e, failed) ↦ absurd (ground arith)
      ]

  made_of_chosen :
      (requested : Option String) (s : String) (e : SigningError)
      → choose_key ks requested ≡ err e
      → create_compact_signature p ks payload requested scope ≢ ok s
  unfolding create_compact_signature
  made_of_chosen requested s e failed = ground arith

module _ (p : Primitives) (keys : List SigningKey) (faithful : IsFaithful p) (scope : String) where
  parts-payload :
      (t u : List ℕ) (parts : List String)
      → check_split p keys t scope parts ≡ true
      → check_split p keys u scope parts ≡ true
      → t ≡ u
  unfolding check_parts
  parts-payload t u (h ∷ b ∷ signature ∷ []) one other =
      faithful.base64url_injective t u
        (ground (arith, str_eq_iff b (p.base64url t), str_eq_iff b (p.base64url u)))
  parts-payload t u [] one other = cc
  parts-payload t u (h ∷ []) one other = cc
  parts-payload t u (h ∷ b ∷ []) one other = cc
  parts-payload t u (h ∷ b ∷ signature ∷ c ∷ more) one other = cc

  -- A signature is verified for one payload.
  verify-payload :
      (t u : List ℕ) (s : String)
      → verify_compact_signature p keys s t scope ≡ true
      → verify_compact_signature p keys s u scope ≡ true
      → t ≡ u
  unfolding verify_compact_signature
  verify-payload t u s one other = parts-payload t u (split_dots s) one other

-- If each key is the first with its kid, its header is read as it was written, the halves of each RSA
-- key belong together, and base64url has no dots and keeps texts apart: what create_compact_signature returns, with the key that is active or
-- requested and for a scope, is verified for the same payload and scope, and for no other payload.
pub verify-create :
    (p : Primitives) (ks : Keys) (payload : List ℕ) (requested : Option String) (scope s : String)
    → IsFaithful p
    → All (IsUsable p ks.signing_keys) ks.signing_keys
    → create_compact_signature p ks payload requested scope ≡ ok s
    → (verify_compact_signature p ks.signing_keys s payload scope ≡ true)
      × ((other : List ℕ)
          → verify_compact_signature p ks.signing_keys s other scope ≡ true
          → other ≡ payload)
verify-create p ks payload requested scope s faithful usable made =
    let passes : verify_compact_signature p ks.signing_keys s payload scope ≡ true =
      elim (Result-cases (choose_key ks requested)) [
        | inl (k, chosen) ↦
            let (good, scoped, allowed, (signature, signed, is)) =
              signature_made p ks payload scope requested k s chosen made in
            rw is (
              verify_own p faithful ks.signing_keys k
                (choose_key-All (IsUsable p ks.signing_keys) ks usable k requested chosen) payload
                scope signature good scoped signed)
        | inr (e, failed) ↦ absurd (made_of_chosen p ks payload scope requested s e failed made)
      ] in
    (
      passes,
      λ other passed. verify-payload p ks.signing_keys faithful scope other payload s passed passes,
    )
