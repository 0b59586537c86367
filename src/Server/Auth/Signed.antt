-- ===== src/Server/Auth/Signed.antt =====
-- Which signed requests of server/mutation-routes.ts go on.
use micro_agent_protocol.Base.{
  ◌≡◌, ◌≢◌, ◌↔◌, refl, sym, arith, ℕ, ◌+◌, ◌*◌, ◌≤◌, String, Option, none, some, true, false,
  str_eq_iff, includes_text, Result, ok, Bool-cases, Option-cases, inl, inr, ap, ◌∙◌,
}
use micro_agent_protocol.Server.Auth.{
  AuthScheme, AuthError, Request, Outside, AuthConfig, payload_of, verify_http_request_signature,
  check_signed_headers, get_signed_request_error, wants_signed_request_auth,
}
use micro_agent_protocol.Server.Auth.Bearer.{Thrown}
use micro_agent_protocol.Server.Auth.Mutations.{requires_signed_request, authenticate}

-- The request says that it is signed, and has a key that is not revoked, a time that is near enough,
-- and the signature of its payload by that key.
abbrev pub IsSigned : Outside → AuthConfig → ℕ → Request → Type 0
IsSigned o c now r =
    (r.auth_scheme ≡ some "signed_request")
    × ((key_id : String) × (timestamp : String) × (signature : String) × (t : ℕ) × (r.key_id
          ≡ some key_id)
        × (r.timestamp ≡ some timestamp)
        × (r.request_signature ≡ some signature)
        × (includes_text c.revoked_key_ids key_id ≡ false)
        × (o.parse_date timestamp ≡ some t)
        × (now ≤ t + 5 * 60 * 1000)
        × (t ≤ now + 5 * 60 * 1000)
        × (now ≤ t + c.request_max_age_ms)
        × (t ≤ now + c.request_max_age_ms)
        × (o.verify_compact_signature signature (payload_of o r key_id timestamp) ≡ true))

module _ (o : Outside) (c : AuthConfig) (now : ℕ) (r : Request) where
  verify-none :
      (key_id timestamp signature : String)
      → o.parse_date timestamp ≡ none
      → check_signed_headers o c now r key_id timestamp signature ≢ none
  unfolding check_signed_headers verify_http_request_signature
  verify-none key_id timestamp signature unread = ground arith

  check-some :
      (key_id timestamp signature : String) (t : ℕ)
      → o.parse_date timestamp ≡ some t
      → (check_signed_headers o c now r key_id timestamp signature ≡ none) ↔ (
          (includes_text c.revoked_key_ids key_id ≡ false)
          × (now ≤ t + 5 * 60 * 1000)
          × (t ≤ now + 5 * 60 * 1000)
          × (now ≤ t + c.request_max_age_ms)
          × (t ≤ now + c.request_max_age_ms)
          × (o.verify_compact_signature signature (payload_of o r key_id timestamp) ≡ true))
  unfolding check_signed_headers verify_http_request_signature
  check-some key_id timestamp signature t read = ground arith

  wants-scheme : wants_signed_request_auth r ≡ true → r.auth_scheme ≡ some "signed_request"
  wants-scheme wants = elim (Option-cases r.auth_scheme) [
    | inl missing ↦ cc
    | inr (scheme, is) ↦ is ∙ ap some ((str_eq_iff scheme "signed_request").0 (rw is at wants))
  ]

  -- The headers are all there.
  abbrev IsComplete : Type 0
  IsComplete =
      (wants_signed_request_auth r ≡ true)
      × ((key_id : String) × (timestamp : String) × (signature : String) × (r.key_id ≡ some key_id)
          × (r.timestamp ≡ some timestamp)
          × (r.request_signature ≡ some signature))

  get-IsComplete : get_signed_request_error o c now r ≡ none → IsComplete
  unfolding get_signed_request_error
  get-IsComplete passed = elim (Bool-cases (wants_signed_request_auth r)) [
    | inr other ↦ absurd (ground arith)
    | inl wants ↦ elim (Option-cases r.key_id) [
      | inl missing ↦ absurd (ground arith)
      | inr (key_id, k) ↦ elim (Option-cases r.timestamp) [
        | inl missing ↦ absurd (ground arith)
        | inr (timestamp, t) ↦ elim (Option-cases r.request_signature) [
          | inl missing ↦ absurd (ground arith)
          | inr (signature, s) ↦ (wants, (key_id, timestamp, signature, k, t, s))
        ]
      ]
    ]
  ]

  get_complete :
      (key_id timestamp signature : String)
      → wants_signed_request_auth r ≡ true
      → r.key_id ≡ some key_id
      → r.timestamp ≡ some timestamp
      → r.request_signature ≡ some signature
      → get_signed_request_error o c now r
        ≡ check_signed_headers o c now r key_id timestamp signature
  unfolding get_signed_request_error
  get_complete key_id timestamp signature wants k t s =
      rw (k, t, s, get_signed_request_error) (rw wants refl)

  get-IsSigned : get_signed_request_error o c now r ≡ none → IsSigned o c now r
  get-IsSigned passed =
      let (wants, (key_id, timestamp, signature, k, t, s)) = get-IsComplete passed in
      let checked : check_signed_headers o c now r key_id timestamp signature ≡ none =
        sym (get_complete key_id timestamp signature wants k t s) ∙ passed in
      elim (Option-cases (o.parse_date timestamp)) [
        | inl unread ↦ absurd (verify-none key_id timestamp signature unread checked)
        | inr (ms, read) ↦
            let (fresh, a, b, d, e, signed) =
              (check-some key_id timestamp signature ms read).0 checked in
            (
              wants-scheme wants,
              (key_id, timestamp, signature, ms, k, t, s, fresh, read, a, b, d, e, signed),
            )
      ]

  IsSigned-get : IsSigned o c now r → get_signed_request_error o c now r ≡ none
  IsSigned-get
        (scheme, (key_id, timestamp, signature, ms, k, t, s, fresh, read, a, b, d, e, signed)) =
      get_complete key_id timestamp signature (rw scheme refl) k t s
      ∙ (check-some key_id timestamp signature ms read).1 (fresh, a, b, d, e, signed)

asks_signature :
    (o : Outside) (c : AuthConfig) (now : ℕ) (descriptor : Option AuthScheme) (r : Request)
    → requires_signed_request c descriptor r ≡ true
    → authenticate o c now descriptor r ≡ ok (get_signed_request_error o c now r)
unfolding authenticate requires_signed_request
asks_signature o c now descriptor r required = ground arith

-- A request to a capability that requires signed requests, or to a server that does, or that says it is
-- signed, goes on exactly if it says that it is signed, its key is not revoked, its time can be read
-- and lies within five minutes of the clock and within the configured age, and its signature is that
-- of its method, path, time, key and body. No bearer token replaces the signature.
pub signature_needed :
    (o : Outside) (c : AuthConfig) (now : ℕ) (descriptor : Option AuthScheme) (r : Request)
    → requires_signed_request c descriptor r ≡ true
    → (authenticate o c now descriptor r ≡ ok none) ↔ IsSigned o c now r
signature_needed o c now descriptor r required =
    let same : authenticate o c now descriptor r ≡ ok (get_signed_request_error o c now r) =
      asks_signature o c now descriptor r required in
    (
      λ passed. get-IsSigned o c now r (ok-injective (sym same ∙ passed)),
      λ signed. same ∙ ap ok (IsSigned-get o c now r signed),
    )
  where
    ok-injective :
        {x y : Option AuthError} → ◌≡◌ {A = Result Thrown (Option AuthError)} (ok x) (ok y) → x ≡ y
    ok-injective h = cc
