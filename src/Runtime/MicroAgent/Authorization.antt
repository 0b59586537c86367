-- ===== src/Runtime/MicroAgent/Authorization.antt =====
-- Exactly which calls of a micro agent (runtime/micro-agent.ts) are authorised.
use micro_agent_protocol.Base.{
  ◌≡◌, refl, ◌↔◌, inl, inr, ℕ, ◌<◌, String, Option, none, some, true, any, arith, Option-cases,
  Result-cases, or_else, str_eq, str_eq_iff, truthy, resolve_tenant_id, ok,
}
use micro_agent_protocol.Base.Dict.{Dict, get}
use micro_agent_protocol.Protocol.{RequesterIdentity, RequesterType}
use micro_agent_protocol.Runtime.Envelope.{DelegationToken, Metadata, TaskEnvelope, meta}
use micro_agent_protocol.Runtime.Scope.{scope_matches}
use micro_agent_protocol.Runtime.MicroAgent.{
  Checks, check_token, check_requester, check_task, type_eq, cleanup_seen_token_uses, replay_key,
  authorize_valid, assert_authorized,
}
use micro_agent_protocol.Runtime.MicroAgent.Replay.{check_token-live}

-- What an authorised call shows of the token, the task and the uses that were remembered.
pub record MayRun (c : Checks) (agent_id : String) (now : ℕ) (seen : Dict ℕ) (e : TaskEnvelope)
    (token : DelegationToken) : Type 0 where
  pub subject : token.subject_agent ≡ agent_id
  pub signed : c.verify_signature token ≡ true
  pub live : (exp : ℕ) × (c.parse_date token.constraints.expires_at ≡ some exp) × (now < exp)
  pub fresh : get (replay_key token e) (cleanup_seen_token_uses now seen) ≡ none
  pub named : truthy (or_else (meta Metadata.capability e) "") ≡ true
  pub allowed : any (str_eq (or_else (meta Metadata.capability e) "")) token.allowed_actions ≡ true
  pub scoped : scope_matches c.before token.resource_scope e.constraints ≡ true
  pub requested :
      (r : RequesterIdentity) × (token.requester_identity ≡ some r)
      × (r.type ≡ e.requester_identity.type)
      × (r.id ≡ e.requester_identity.id)
      × (resolve_tenant_id r.tenant_id ≡ resolve_tenant_id e.requester_identity.tenant_id)

type_eq_iff : (a b : RequesterType) → (type_eq a b ≡ true) ↔ (a ≡ b)
type_eq_iff a b = ground arith

requester-exact :
    (t : Option RequesterIdentity) (r : RequesterIdentity)
    → (check_requester t r ≡ ok tt) ↔ (
        (q : RequesterIdentity) × (t ≡ some q)
        × (q.type ≡ r.type)
        × (q.id ≡ r.id)
        × (resolve_tenant_id q.tenant_id ≡ resolve_tenant_id r.tenant_id))
requester-exact none r = ((λ h. absurd (ground arith)), (λ (q, h, _, _, _). absurd (ground arith)))
requester-exact (some q) r = (
  (λ h. (
    q,
    refl,
    (type_eq_iff q.type r.type).0 (ground arith),
    ground (arith, str_eq_iff q.id r.id),
    ground (arith, str_eq_iff (resolve_tenant_id q.tenant_id) (resolve_tenant_id r.tenant_id)),
  )),
  (λ (p, e, a, b, d). ground (
    arith,
    type_eq_iff q.type r.type,
    str_eq_iff q.id r.id,
    str_eq_iff (resolve_tenant_id q.tenant_id) (resolve_tenant_id r.tenant_id),
  )),
)

authorized-live :
    (c : Checks) (agent_id : String) (now : ℕ) (seen : Dict ℕ) (e : TaskEnvelope)
    (token : DelegationToken)
    → (authorize_valid c agent_id now seen e token).1 ≡ ok tt
    → (exp : ℕ) × (c.parse_date token.constraints.expires_at ≡ some exp) × (now < exp)
unfolding authorize_valid
authorized-live c agent_id now seen e token h =
    elim (Result-cases (check_token c agent_id now token)) [
      | inr (x, bad) ↦ absurd (ground arith)
      | inl (exp, good) ↦
          let (parsed, late) = check_token-live c agent_id now exp token good in (exp, parsed, late)
    ]

authorized-fresh :
    (c : Checks) (agent_id : String) (now : ℕ) (seen : Dict ℕ) (e : TaskEnvelope)
    (token : DelegationToken)
    → (authorize_valid c agent_id now seen e token).1 ≡ ok tt
    → get (replay_key token e) (cleanup_seen_token_uses now seen) ≡ none
unfolding authorize_valid
authorized-fresh c agent_id now seen e token h =
    elim (Option-cases (get (replay_key token e) (cleanup_seen_token_uses now seen))) [
      | inl free ↦ free
      | inr (exp, used) ↦ absurd (ground arith)
    ]

authorized-MayRun :
    (c : Checks) (agent_id : String) (now : ℕ) (seen : Dict ℕ) (e : TaskEnvelope)
    (token : DelegationToken)
    → (authorize_valid c agent_id now seen e token).1 ≡ ok tt
    → MayRun c agent_id now seen e token
unfolding authorize_valid check_token check_task
authorized-MayRun c agent_id now seen e token h = record {
  subject = ground (arith, str_eq_iff token.subject_agent agent_id);
  signed = ground arith;
  live = authorized-live c agent_id now seen e token h;
  fresh = authorized-fresh c agent_id now seen e token h;
  named = ground arith;
  allowed = ground arith;
  scoped = ground arith;
  requested = (requester-exact token.requester_identity e.requester_identity).0 (ground arith);
}

MayRun-authorized :
    (c : Checks) (agent_id : String) (now : ℕ) (seen : Dict ℕ) (e : TaskEnvelope)
    (token : DelegationToken)
    → MayRun c agent_id now seen e token
    → (authorize_valid c agent_id now seen e token).1 ≡ ok tt
unfolding authorize_valid check_token check_task
MayRun-authorized c agent_id now seen e token a =
    let (exp, parsed, late) = a.live in
    ground (
      arith,
      a.subject,
      a.signed,
      a.fresh,
      a.named,
      a.allowed,
      a.scoped,
      str_eq_iff token.subject_agent agent_id,
      (requester-exact token.requester_identity e.requester_identity).1 a.requested,
    )

-- A call is authorised exactly if the token is well formed and, as validation leaves it, names this
-- agent, is signed and has not expired, was not used for the task while it is remembered, allows the
-- capability that the task names, has the scope of the task's constraints, and was issued for the
-- task's requester and tenant.
pub authorized_exact :
    (c : Checks) (agent_id : String) (now : ℕ) (seen : Dict ℕ) (e : TaskEnvelope)
    (token : DelegationToken)
    → ((assert_authorized c agent_id now seen e token).1 ≡ ok tt) ↔ (
        (kept : DelegationToken) × (c.validate_token token ≡ some kept)
        × MayRun c agent_id now seen e kept)
unfolding assert_authorized
authorized_exact c agent_id now seen e token = (
  λ passed. elim (Option-cases (c.validate_token token)) [
    | inl bad ↦ absurd (ground arith)
    | inr (kept, good) ↦ (
      kept,
      good,
      authorized-MayRun c agent_id now seen e kept (rw (good, assert_authorized) at passed),
    )
  ],
  λ (kept, good, may).
      rw (good, assert_authorized) (MayRun-authorized c agent_id now seen e kept may),
)
