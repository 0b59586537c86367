-- ===== src/Runtime/MicroAgent.antt =====
-- runtime/micro-agent.ts: a micro agent's check of a delegation token, with the guard against replays
-- that all agents of a process share.
pub mod Replay
pub mod Authorization
use micro_agent_protocol.Base.{
  ℕ, String, Option, none, some, Bool, true, false, not, ◌&&◌, ◌||◌, List, [], ◌∷◌, ◌++◌, any,
  filter, leb, ◌==◌, if◌then◌else◌, is_some, or_else, str_eq, codes, truthy, is_blank,
  resolve_tenant_id, Result, ok, err, ◌>>=◌, ◌>>◌, throw_if,
}
use Prim.Native.String.{◌++◌ as ◌⧺◌}
use micro_agent_protocol.Base.Dict.{Dict, get, set}
use micro_agent_protocol.Base.Json.{
  Value, undefined, array, object, Items, nil, cons, Fields, end, field, stringify, quote,
}
use micro_agent_protocol.Protocol.{
  TaskStatus, RequesterType, user, service, agent, RequesterIdentity, VisibilityMode, DeliveryMode,
  sync, async, NegotiationSide, InvocationNegotiation, ResultPackage, ReceiptAction, executed,
  denied, approval_required, ExecutionStatus, ExecutionReceipt,
}
use micro_agent_protocol.Protocol
use micro_agent_protocol.Runtime.Envelope.{
  TokenConstraints, DelegationToken, PartialSide, PartialNegotiation, Metadata, TaskEnvelope, meta,
}
use micro_agent_protocol.Runtime.Scope.{scope_matches}

pub data AgentError : Type 0 where
  invalid_token subject_mismatch signature_invalid token_expired replay_detected : AgentError
  missing_capability scope_mismatch requester_missing requester_mismatch tenant_mismatch :
      AgentError
  action_not_allowed : String → AgentError

abbrev pub type_eq : RequesterType → RequesterType → Bool
type_eq user user = true
type_eq service service = true
type_eq agent agent = true
type_eq _ _ = false

-- `cleanupSeenTokenUses`.
unfoldable pub cleanup_seen_token_uses : ℕ → Dict ℕ → Dict ℕ
cleanup_seen_token_uses now [] = []
cleanup_seen_token_uses now ((key, expires_at) ∷ seen) =
    let rest = cleanup_seen_token_uses now seen in
    if leb expires_at now then rest else (key, expires_at) ∷ rest

abbrev pub replay_key : DelegationToken → TaskEnvelope → String
replay_key token e = token.signature ⧺ (":" ⧺ e.task_id)

-- What the check uses of other code: the schema validation, which deletes from a token what its schema
-- does not list and leaves the rest (none where it throws), the verification of signatures,
-- `Date.parse` (a date before 1970 counts as 1970, and both have expired), and `localeCompare`.
pub record Checks : Type 0 where
  pub validate_token : DelegationToken → Option DelegationToken
  pub verify_signature : DelegationToken → Bool
  pub parse_date : String → Option ℕ
  pub before : String → String → Bool

-- The checks between the validation and the replay guard, with the expiry that they read.
unfoldable pub check_token : Checks → String → ℕ → DelegationToken → Result AgentError ℕ
check_token c agent_id now token = do
  throw_if (not (str_eq token.subject_agent agent_id)) subject_mismatch
  throw_if (not (c.verify_signature token)) signature_invalid
  elim (c.parse_date token.constraints.expires_at) [
    | none ↦ err token_expired
    | some expires_at ↦ if leb expires_at now then err token_expired else ok expires_at
  ]

abbrev pub check_requester :
    Option RequesterIdentity → RequesterIdentity → Result AgentError (Unit {0})
check_requester none r = err requester_missing
check_requester (some t) r = do
  throw_if (not (type_eq t.type r.type) || not (str_eq t.id r.id)) requester_mismatch
  throw_if (not (str_eq (resolve_tenant_id t.tenant_id) (resolve_tenant_id r.tenant_id)))
      tenant_mismatch

-- The checks after it.
unfoldable pub check_task : Checks → DelegationToken → TaskEnvelope → Result AgentError (Unit {0})
unfolding scope_matches
check_task c token e = do
  throw_if (not (truthy (or_else (meta Metadata.capability e) ""))) missing_capability
  throw_if (not (any (str_eq (or_else (meta Metadata.capability e) "")) token.allowed_actions))
      (action_not_allowed (or_else (meta Metadata.capability e) ""))
  throw_if (not (scope_matches c.before token.resource_scope e.constraints)) scope_mismatch
  check_requester token.requester_identity e.requester_identity

-- What follows the validation: the uses that are remembered afterwards, and the answer. A use is
-- remembered before the checks that follow.
unfoldable pub authorize_valid :
    Checks
    → String
    → ℕ
    → Dict ℕ
    → TaskEnvelope
    → DelegationToken
    → Dict ℕ × Result AgentError (Unit {0})
authorize_valid c agent_id now seen e token = elim (check_token c agent_id now token) [
  | err x ↦ (seen, err x)
  | ok expires_at ↦
      let cleaned = cleanup_seen_token_uses now seen in
      if is_some (get (replay_key token e) cleaned)
      then (cleaned, err replay_detected)
      else (set (replay_key token e) expires_at cleaned, check_task c token e)
]

-- `assertAuthorized`, which goes by the token that validation leaves.
unfoldable pub assert_authorized :
    Checks
    → String
    → ℕ
    → Dict ℕ
    → TaskEnvelope
    → DelegationToken
    → Dict ℕ × Result AgentError (Unit {0})
unfolding authorize_valid
assert_authorized c agent_id now seen e token = elim (c.validate_token token) [
  | none ↦ (seen, err invalid_token)
  | some kept ↦ authorize_valid c agent_id now seen e kept
]
