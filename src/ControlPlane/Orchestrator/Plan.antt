-- ===== src/ControlPlane/Orchestrator/Plan.antt =====
-- control-plane/orchestrator.ts: what `dispatch` finds out before it changes anything.
use micro_agent_protocol.Base.{
  String, Option, none, some, Bool, true, false, not, ◌&&◌, ◌==◌, ℕ, List, [], ◌∷◌, if◌then◌else◌,
  or_else, str_eq, truthy, is_blank, includes_text, resolve_tenant_id, Result, ok, err, ◌>>=◌, ◌>>◌,
  throw_if,
}
use Prim.Native.String.{◌++◌ as ◌⧺◌}
use micro_agent_protocol.Base.Json.{text, lookup}
use micro_agent_protocol.Protocol.{
  accepted, status_eq, RequesterType, user, service, agent, TaskRecord,
}
use micro_agent_protocol.Core.Types.{PolicyAction, allow, deny, require_approval}
use micro_agent_protocol.Core.Intent.{normalize}
use micro_agent_protocol.Core.Policy.Engine.{evaluate}
use micro_agent_protocol.Integration.Envelope.{TaskEnvelope, metadata_value}
use micro_agent_protocol.Integration.EcpBridge.{map_envelope_to_intent}
use micro_agent_protocol.ControlPlane.Agents.{
  AgentDescriptor, AgentExtension, RegistryStatus, disabled, CapabilityDescriptor,
}
use micro_agent_protocol.ControlPlane.Registry.{
  Registry, get as get_agent, get_capability_descriptor,
}
use micro_agent_protocol.ControlPlane.TaskStore.{get, find_by_idempotency_key}
use micro_agent_protocol.ControlPlane.Orchestrator.State.{
  Services, Moment, PolicyCheck, Ticket, Runtime, InvokeResult, Failure, invalid_intent, no_agent,
  agent_disabled, capability_unsupported, capability_disabled, extension_missing,
  idempotency_conflict, task_conflict,
}
use micro_agent_protocol.ControlPlane.Orchestrator.Negotiation.{
  InvocationNegotiationRequest, negotiate_invocation,
}

pub record DispatchRequest : Type 0 where
  pub envelope : TaskEnvelope
  pub capability : String
  pub requested_schema_version : Option String
  pub negotiation : Option InvocationNegotiationRequest

-- The request with its envelope as validation leaves it.
abbrev pub with_envelope : DispatchRequest → TaskEnvelope → DispatchRequest
with_envelope q e = record q { envelope = e }

abbrev pub is_disabled : Option RegistryStatus → Bool
is_disabled (some disabled) = true
is_disabled _ = false

abbrev pub capability_off : Option CapabilityDescriptor → Bool
capability_off none = false
capability_off (some c) = is_disabled c.status

unfoldable pub resolve_descriptor : Registry → String → String → Result Failure AgentDescriptor
unfolding get_agent get_capability_descriptor
resolve_descriptor agents target capability = elim (get_agent agents target) [
  | none ↦ err (no_agent target)
  | some d ↦ do
    throw_if (is_disabled d.registry_status) (agent_disabled target)
    throw_if (not (includes_text d.capabilities capability))
        (capability_unsupported target capability)
    throw_if (capability_off (get_capability_descriptor agents target capability))
        (capability_disabled target capability)
    ok d
]

abbrev is_required : AgentExtension → Bool
is_required x = or_else x.required false

check_each : List AgentExtension → List String → String → Result Failure (Unit {0})
check_each [] declared agent_id = ok tt
check_each (x ∷ xs) declared agent_id =
    let rest = check_each xs declared agent_id in
    if is_required x && not (includes_text declared x.uri)
    then err (extension_missing x.uri agent_id)
    else rest

unfoldable pub check_extensions : AgentDescriptor → TaskEnvelope → Result Failure (Unit {0})
unfolding check_each
check_extensions d e = check_each (or_else d.extensions []) (or_else e.extensions []) d.agent_id

-- `resolveIdempotencyKey`.
unfoldable pub resolve_idempotency_key : TaskEnvelope → Option String
unfolding is_blank lookup
resolve_idempotency_key e = elim (metadata_value e "idempotency_key") [
  | text key ↦ if is_blank key then none else some key
  | _ ↦ none
]

abbrev type_rank : RequesterType → ℕ
type_rank user = 0
type_rank service = 1
type_rank agent = 2

-- The task of a record is the one that is dispatched: requester, tenant, capability and agent.
unfoldable pub same_identity : TaskRecord → TaskEnvelope → String → AgentDescriptor → Bool
unfolding resolve_tenant_id
same_identity q e capability d =
    type_rank q.requester_identity.type == type_rank e.requester_identity.type
    && str_eq q.requester_identity.id e.requester_identity.id
    && str_eq (resolve_tenant_id q.requester_identity.tenant_id)
        (resolve_tenant_id e.requester_identity.tenant_id)
    && str_eq q.capability capability
    && str_eq q.target_agent d.agent_id

-- What is done with a dispatch: an earlier result is returned, or waited for; the policy refuses it;
-- it is held for approval, or started.
pub data Plan : Type 0 where
  stored : InvokeResult → Plan
  polls : String → Plan
  refused : Option String → Plan
  held started : Ticket → Plan

-- A record that was found for a dispatch of the same task. One without a result is passed over.
unfoldable pub recall : TaskRecord → Option Plan
recall q = elim q.result [
  | none ↦ none
  | some result ↦ elim q.receipt [
    | none ↦ none
    | some receipt ↦ some (
        if status_eq q.status accepted
        then polls q.task_id
        else stored (record { result = result; receipt = receipt }))
  ]
]

unfoldable pub recall_found :
    Option TaskRecord
    → Failure
    → TaskEnvelope
    → String
    → AgentDescriptor
    → Result Failure (Option Plan)
unfolding same_identity recall
recall_found none conflict e capability d = ok none
recall_found (some q) conflict e capability d = do
  throw_if (not (same_identity q e capability d)) conflict
  ok (recall q)

unfoldable pub recall_by_key :
    Runtime → TaskEnvelope → String → AgentDescriptor → Result Failure (Option Plan)
unfolding resolve_idempotency_key recall_found find_by_idempotency_key
recall_by_key r e capability d = elim (resolve_idempotency_key e) [
  | none ↦ ok none
  | some key ↦
      recall_found (find_by_idempotency_key r.task_store key) (idempotency_conflict key) e
        capability d
]

-- `policy_checks` of `evaluatePolicy`.
default_check : PolicyAction → List String
default_check allow = "Default allow" ∷ []
default_check _ = "Default deny" ∷ []

checks_of : PolicyAction → Option String → List String
unfolding default_check
checks_of action none = default_check action
checks_of action (some rule) = if truthy rule then ("Rule: " ⧺ rule) ∷ [] else default_check action

unfoldable pub evaluate_policy : Services → Moment → Runtime → TaskEnvelope → String → PolicyCheck
unfolding checks_of
evaluate_policy s m r e capability =
    let d =
      evaluate (normalize m.core.to_lower (map_envelope_to_intent s.parse e capability)) r.policy in
    record {
      action = d.action;
      reason = d.reason;
      policy_checks = checks_of d.action d.matched_rule;
    }

abbrev pub plan_of : Services → PolicyAction → Ticket → Result Failure Plan
plan_of s deny t = ok (refused t.decision.reason)
plan_of s require_approval t = ok (held t)
plan_of s allow t = throw_if (not (s.is_valid_intent t.intent)) invalid_intent >> ok (started t)

-- From the negotiation to the policy's decision.
unfoldable pub decide :
    Services → Moment → Runtime → DispatchRequest → AgentDescriptor → Result Failure Plan
unfolding evaluate_policy
decide s m r q d = do
  negotiation ←
      negotiate_invocation d.visibility_modes
        (get_capability_descriptor r.registry q.envelope.target_agent q.capability) q.envelope
        q.capability q.requested_schema_version q.negotiation
  let decision = evaluate_policy s m r q.envelope q.capability
  plan_of s decision.action (record {
    envelope = q.envelope;
    capability = q.capability;
    descriptor = d;
    context_id = or_else q.envelope.context_id m.context_id;
    idempotency_key = resolve_idempotency_key q.envelope;
    negotiation = negotiation;
    decision = decision;
    intent = map_envelope_to_intent s.parse q.envelope q.capability;
  })

-- The task id is looked up once nothing was found for the idempotency key.
unfoldable pub recall_or_decide :
    Services → Moment → Runtime → DispatchRequest → AgentDescriptor → Result Failure Plan
recall_or_decide s m r q d = do
  by_key ← recall_by_key r q.envelope q.capability d
  elim by_key [
    | some plan ↦ ok plan
    | none ↦ do
      by_id ←
          recall_found (get r.task_store q.envelope.task_id none) (task_conflict q.envelope.task_id)
            q.envelope q.capability d
      elim by_id [ some plan ↦ ok plan | none ↦ decide s m r q d ]
  ]

-- From the envelope that is validated to the plan.
unfoldable pub prepare : Services → Moment → Runtime → DispatchRequest → Result Failure Plan
prepare s m r q = do
  d ← resolve_descriptor r.registry q.envelope.target_agent q.capability
  check_extensions d q.envelope
  recall_or_decide s m r q d
