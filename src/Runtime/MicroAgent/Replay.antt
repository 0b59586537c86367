-- ===== src/Runtime/MicroAgent/Replay.antt =====
-- Which calls of a micro agent (runtime/micro-agent.ts) are authorised, and that none is twice.
use micro_agent_protocol.Base.{
  ◌≡◌, ◌≢◌, refl, sym, ap, subst, inl, inr, ℕ, ◌≤◌, ◌<◌, String, some, List, [], ◌∷◌, All, arith,
  Result-cases, Option-cases, str_eq_iff, ok,
}
use Prim.Native.String.{◌++◌ as ◌⧺◌}
use micro_agent_protocol.Base.Dict.{Dict, get, get-set, get-set_self}
use micro_agent_protocol.Runtime.Envelope.{DelegationToken, TaskEnvelope}
use micro_agent_protocol.Runtime.MicroAgent.{
  Checks, check_token, cleanup_seen_token_uses, replay_key, authorize_valid, assert_authorized,
}

-- A use whose token has not expired is remembered.
get-cleanup :
    (key : String) (now exp : ℕ) (seen : Dict ℕ)
    → now < exp
    → get key seen ≡ some exp
    → get key (cleanup_seen_token_uses now seen) ≡ some exp
unfolding get cleanup_seen_token_uses
get-cleanup key now exp [] late h = cc
get-cleanup key now exp ((k, v) ∷ seen) late h = ground (arith, get-cleanup key now exp seen)

-- The answer of the check in front of the guard.
pub check_token-live :
    (c : Checks) (agent_id : String) (now exp : ℕ) (token : DelegationToken)
    → check_token c agent_id now token ≡ ok exp
    → (c.parse_date token.constraints.expires_at ≡ some exp) × (now < exp)
unfolding check_token
check_token-live c agent_id now exp token h = ground arith

-- A call of `assertAuthorized`, by any agent.
pub record Use : Type 0 where
  pub agent_id : String
  pub at : ℕ
  pub envelope : TaskEnvelope
  pub token : DelegationToken

unfoldable pub uses : Checks → Dict ℕ → List Use → Dict ℕ
uses c seen [] = seen
uses c seen (u ∷ us) = uses c (assert_authorized c u.agent_id u.at seen u.envelope u.token).0 us

remembers-valid :
    (c : Checks) (agent_id key : String) (now exp : ℕ) (seen : Dict ℕ) (e : TaskEnvelope)
    (token : DelegationToken)
    → now < exp
    → get key seen ≡ some exp
    → get key (authorize_valid c agent_id now seen e token).0 ≡ some exp
unfolding authorize_valid
remembers-valid c agent_id key now exp seen e token late h =
    elim (Result-cases (check_token c agent_id now token)) [
      | inr (x, bad) ↦ rw (bad, authorize_valid) h
      | inl (other, good) ↦ ground (
        arith,
        get-cleanup key now exp seen late h,
        get-set (replay_key token e) key other (cleanup_seen_token_uses now seen),
        str_eq_iff (replay_key token e) key,
      )
    ]

remembers-call :
    (c : Checks) (agent_id key : String) (now exp : ℕ) (seen : Dict ℕ) (e : TaskEnvelope)
    (token : DelegationToken)
    → now < exp
    → get key seen ≡ some exp
    → get key (assert_authorized c agent_id now seen e token).0 ≡ some exp
unfolding assert_authorized
remembers-call c agent_id key now exp seen e token late h =
    elim (Option-cases (c.validate_token token)) [
      | inl bad ↦ rw (bad, assert_authorized) h
      | inr (kept, good) ↦
          rw (good, assert_authorized) (remembers-valid c agent_id key now exp seen e kept late h)
    ]

uses-remember :
    (c : Checks) (key : String) (exp : ℕ) (us : List Use) (seen : Dict ℕ)
    → All (λ u. u.at < exp) us
    → get key seen ≡ some exp
    → get key (uses c seen us) ≡ some exp
unfolding uses
uses-remember c key exp [] seen late h = h
uses-remember c key exp (u ∷ us) seen late h =
    uses-remember c key exp us (assert_authorized c u.agent_id u.at seen u.envelope u.token).0
      late.1 (remembers-call c u.agent_id key u.at exp seen u.envelope u.token late.0 h)

-- A call that gets past the guard leaves its use remembered.
authorized-remembered :
    (c : Checks) (agent_id : String) (now : ℕ) (seen : Dict ℕ) (e : TaskEnvelope)
    (token : DelegationToken)
    → (authorize_valid c agent_id now seen e token).1 ≡ ok tt
    → (exp : ℕ) × (c.parse_date token.constraints.expires_at ≡ some exp)
      × (get (replay_key token e) (authorize_valid c agent_id now seen e token).0 ≡ some exp)
unfolding authorize_valid
authorized-remembered c agent_id now seen e token h =
    elim (Result-cases (check_token c agent_id now token)) [
      | inr (x, bad) ↦ absurd (ground arith)
      | inl (exp, good) ↦ (
        exp,
        (check_token-live c agent_id now exp token good).0,
        ground (arith, get-set_self (replay_key token e) exp (cleanup_seen_token_uses now seen)),
      )
    ]

-- A use that is remembered, or a token that has expired, is refused.
remembered-refused :
    (c : Checks) (agent_id : String) (now exp : ℕ) (seen : Dict ℕ) (e : TaskEnvelope)
    (token : DelegationToken)
    → c.parse_date token.constraints.expires_at ≡ some exp
    → (now < exp → get (replay_key token e) seen ≡ some exp)
    → (authorize_valid c agent_id now seen e token).1 ≢ ok tt
unfolding authorize_valid
remembered-refused c agent_id now exp seen e token parsed there h =
    elim (Result-cases (check_token c agent_id now token)) [
      | inr (x, bad) ↦ ground arith
      | inl (other, good) ↦
          let (same, live) = check_token-live c agent_id now other token good in
          let kept = get-cleanup (replay_key token e) now exp seen in ground (arith, kept)
    ]

All-earlier :
    (later exp : ℕ) (us : List Use)
    → later < exp
    → All (λ u. u.at ≤ later) us
    → All (λ u. u.at < exp) us
All-earlier later exp [] late all = tt
All-earlier later exp (u ∷ us) late all =
    (omega (arith, late, all.0), All-earlier later exp us late all.1)

valid_refused :
    (c : Checks) (agent_id agent_id' : String) (now later : ℕ) (seen : Dict ℕ) (e e' : TaskEnvelope)
    (token : DelegationToken) (us : List Use)
    → (authorize_valid c agent_id now seen e token).1 ≡ ok tt
    → All (λ u. u.at ≤ later) us
    → e'.task_id ≡ e.task_id
    → (authorize_valid c agent_id' later
        (uses c (authorize_valid c agent_id now seen e token).0 us)
        e'
        token).1
      ≢ ok tt
valid_refused c agent_id agent_id' now later seen e e' token us passed earlier same =
    let (exp, parsed, there) = authorized-remembered c agent_id now seen e token passed in
    remembered-refused c agent_id' later exp _ e' token parsed (λ late.
      uses-remember c (replay_key token e') exp us _ (All-earlier later exp us late earlier) (
        subst (λ k. get k (authorize_valid c agent_id now seen e token).0 ≡ some exp)
          (ap (λ t. token.signature ⧺ (":" ⧺ t)) (sym same)) there))

-- A call goes by the token that validation leaves.
by_kept :
    (c : Checks) (agent_id : String) (now : ℕ) (seen : Dict ℕ) (e : TaskEnvelope)
    (token kept : DelegationToken)
    → c.validate_token token ≡ some kept
    → assert_authorized c agent_id now seen e token ≡ authorize_valid c agent_id now seen e kept
unfolding assert_authorized
by_kept c agent_id now seen e token kept good = rw (good, assert_authorized) refl

-- A delegation token is good for a task once. After a call that was authorised, and any other calls
-- of any agents of the process, none of them later, no agent is authorised again by the same token for
-- a task with the same id.
pub replay_refused :
    (c : Checks) (agent_id agent_id' : String) (now later : ℕ) (seen : Dict ℕ) (e e' : TaskEnvelope)
    (token : DelegationToken) (us : List Use)
    → (assert_authorized c agent_id now seen e token).1 ≡ ok tt
    → All (λ u. u.at ≤ later) us
    → e'.task_id ≡ e.task_id
    → (assert_authorized c agent_id' later
        (uses c (assert_authorized c agent_id now seen e token).0 us)
        e'
        token).1
      ≢ ok tt
unfolding assert_authorized
replay_refused c agent_id agent_id' now later seen e e' token us passed earlier same =
    elim (Option-cases (c.validate_token token)) [
      | inl bad ↦ absurd (ground arith)
      | inr (kept, good) ↦
          let first = by_kept c agent_id now seen e token kept good in
          rw (first, by_kept c agent_id' later _ e' token kept good)
            (valid_refused c agent_id agent_id' now later seen e e' kept us (rw first at passed)
              earlier same)
    ]
