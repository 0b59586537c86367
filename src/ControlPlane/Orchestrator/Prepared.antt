-- ===== src/ControlPlane/Orchestrator/Prepared.antt =====
-- What `dispatch` of control-plane/orchestrator.ts has found out when it starts or holds a task.
use micro_agent_protocol.Base.{
  ◌≡◌, refl, sym, subst, inl, inr, String, Option, none, some, Bool, true, false, ok, Result-cases,
  Option-cases, arith, or_else, >>=-eq-ok,
}
use micro_agent_protocol.Base.Dict.{get as map_get}
use micro_agent_protocol.Protocol.{TaskRecord, InvocationNegotiation}
use micro_agent_protocol.Core.Types.{PolicyAction, allow, deny, require_approval}
use micro_agent_protocol.Core.Intent.{normalize}
use micro_agent_protocol.Core.Policy.Engine.{evaluate}
use micro_agent_protocol.Integration.Envelope.{TaskEnvelope}
use micro_agent_protocol.Integration.EcpBridge.{map_envelope_to_intent}
use micro_agent_protocol.ControlPlane.Agents.{AgentDescriptor}
use micro_agent_protocol.ControlPlane.Registry.{get_capability_descriptor}
use micro_agent_protocol.ControlPlane.TaskStore.{get}
use micro_agent_protocol.ControlPlane.TaskStore.Complete.{IsComplete}
use micro_agent_protocol.ControlPlane.Orchestrator.State.{
  Services, Moment, Ticket, Runtime, Failure, task_conflict,
}
use micro_agent_protocol.ControlPlane.Orchestrator.Negotiation.{negotiate_invocation}
use micro_agent_protocol.ControlPlane.Orchestrator.Plan.{
  DispatchRequest, Plan, stored, polls, held, started, resolve_descriptor, resolve_idempotency_key,
  check_extensions, recall, recall_found, recall_by_key, evaluate_policy, plan_of, decide,
  recall_or_decide, prepare,
}

-- A plan for a task that is not known.
abbrev pub is_new : Plan → Bool
is_new (stored x) = false
is_new (polls task_id) = false
is_new _ = true

recall-old : (q : TaskRecord) (plan : Plan) → recall q ≡ some plan → is_new plan ≡ false
unfolding recall
recall-old q plan h = ground arith

recall_found-old :
    (o : Option TaskRecord) (f : Failure) (e : TaskEnvelope) (capability : String)
    (d : AgentDescriptor) (plan : Plan)
    → recall_found o f e capability d ≡ ok (some plan)
    → is_new plan ≡ false
unfolding recall_found
recall_found-old none f e capability d plan h = cc
recall_found-old (some q) f e capability d plan h = ground (arith, recall-old q plan)

recall_by_key-old :
    (r : Runtime) (e : TaskEnvelope) (capability : String) (d : AgentDescriptor) (plan : Plan)
    → recall_by_key r e capability d ≡ ok (some plan)
    → is_new plan ≡ false
unfolding recall_by_key
recall_by_key-old r e capability d plan h = elim (Option-cases (resolve_idempotency_key e)) [
  | inl bare ↦ absurd (ground arith)
  | inr (key, e') ↦ recall_found-old _ _ e capability d plan (rw (e', recall_by_key) at h)
]

-- Nothing is recalled for a record only where there is none.
recall_found-none :
    (r : Runtime) (q : DispatchRequest) (f : Failure) (d : AgentDescriptor)
    → IsComplete r.task_store
    → recall_found (get r.task_store q.envelope.task_id none) f q.envelope q.capability d ≡ ok none
    → map_get q.envelope.task_id r.task_store.tasks ≡ none
unfolding recall_found recall get
recall_found-none r q f d c h =
    elim (Option-cases (map_get q.envelope.task_id r.task_store.tasks)) [
      | inl e ↦ e
      | inr (old, e) ↦
          let (p, x, hp, hx) = c.outcomes q.envelope.task_id old e in absurd (ground arith)
    ]

recall_or_decide-new :
    (s : Services) (m : Moment) (r : Runtime) (q : DispatchRequest) (d : AgentDescriptor)
    (plan : Plan)
    → is_new plan ≡ true
    → recall_or_decide s m r q d ≡ ok plan
    → (recall_found
          (get r.task_store q.envelope.task_id none)
          (task_conflict q.envelope.task_id)
          q.envelope
          q.capability
          d
        ≡ ok none)
      × (decide s m r q d ≡ ok plan)
unfolding recall_or_decide
recall_or_decide-new s m r q d plan new h =
    elim (Result-cases (recall_by_key r q.envelope q.capability d)) [
      | inr (f, e) ↦ absurd (ground arith)
      | inl (some old, e) ↦
          absurd (ground (arith, recall_by_key-old r q.envelope q.capability d old))
      | inl (none, e) ↦
          let f = task_conflict q.envelope.task_id in
          let o = get r.task_store q.envelope.task_id none in
          elim (Result-cases (recall_found o f q.envelope q.capability d)) [
            | inr (g, e') ↦ absurd (ground arith)
            | inl (some old, e') ↦
                absurd (ground (arith, recall_found-old o f q.envelope q.capability d old))
            | inl (none, e') ↦ (e', ground arith)
          ]
    ]

-- What was found of a task that is new.
pub record Found (s : Services) (m : Moment) (r : Runtime) (q : DispatchRequest) (plan : Plan)
    : Type 0 where
  pub agent : AgentDescriptor
  pub resolved : resolve_descriptor r.registry q.envelope.target_agent q.capability ≡ ok agent
  pub declared : check_extensions agent q.envelope ≡ ok tt
  pub not_recalled :
      recall_found
        (get r.task_store q.envelope.task_id none)
        (task_conflict q.envelope.task_id)
        q.envelope
        q.capability
        agent
      ≡ ok none
  pub decided : decide s m r q agent ≡ ok plan

pub prepare-Found :
    (s : Services) (m : Moment) (r : Runtime) (q : DispatchRequest) (plan : Plan)
    → is_new plan ≡ true
    → prepare s m r q ≡ ok plan
    → Found s m r q plan
unfolding prepare
prepare-Found s m r q plan new h =
    elim (Result-cases (resolve_descriptor r.registry q.envelope.target_agent q.capability)) [
      | inr (f, e) ↦ absurd (ground arith)
      | inl (d, e) ↦ elim (Result-cases (check_extensions d q.envelope)) [
        | inr (f, e') ↦ absurd (ground arith)
        | inl (u, e') ↦
            let (not_recalled, decided) = recall_or_decide-new s m r q d plan new (ground arith) in
            record {
              agent = d;
              resolved = e;
              declared = e';
              not_recalled = not_recalled;
              decided = decided;
            }
      ]
    ]

-- So no task has its id, in a store whose tasks have results.
pub Found-unknown :
    {s : Services} {m : Moment} {r : Runtime} {q : DispatchRequest} {plan : Plan}
    → IsComplete r.task_store
    → Found s m r q plan
    → map_get q.envelope.task_id r.task_store.tasks ≡ none
Found-unknown {r = r} {q = q} c found =
    recall_found-none r q (task_conflict q.envelope.task_id) found.agent c found.not_recalled

-- The decision of the policy about the intent that the envelope stands for.
abbrev pub policy_action : Services → Moment → Runtime → DispatchRequest → PolicyAction
policy_action s m r q =
    (evaluate (normalize m.core.to_lower (map_envelope_to_intent s.parse q.envelope q.capability))
      r.policy).action

-- A ticket is for the task that was dispatched.
pub record IsFor (s : Services) (q : DispatchRequest) (t : Ticket) : Type 0 where
  pub same_envelope : t.envelope ≡ q.envelope
  pub same_capability : t.capability ≡ q.capability
  pub same_intent : t.intent ≡ map_envelope_to_intent s.parse q.envelope q.capability

plan_of-started :
    (s : Services) (action : PolicyAction) (t u : Ticket)
    → plan_of s action t ≡ ok (started u)
    → (action ≡ allow) × (s.is_valid_intent t.intent ≡ true) × (u ≡ t)
plan_of-started s deny t u h = cc
plan_of-started s require_approval t u h = cc
plan_of-started s allow t u h = (refl, ground arith, ground arith)

plan_of-held :
    (s : Services) (action : PolicyAction) (t u : Ticket)
    → plan_of s action t ≡ ok (held u)
    → (action ≡ require_approval) × (u ≡ t)
plan_of-held s deny t u h = cc
plan_of-held s require_approval t u h = (refl, ground arith)
plan_of-held s allow t u h = absurd (ground arith)

-- The ticket of a dispatch, once the negotiation has come to its end.
module _ (s : Services) (m : Moment) (r : Runtime) (q : DispatchRequest) (d : AgentDescriptor) where
  ticket : InvocationNegotiation → Ticket
  ticket n = record {
    envelope = q.envelope;
    capability = q.capability;
    descriptor = d;
    context_id = or_else q.envelope.context_id m.context_id;
    idempotency_key = resolve_idempotency_key q.envelope;
    negotiation = n;
    decision = evaluate_policy s m r q.envelope q.capability;
    intent = map_envelope_to_intent s.parse q.envelope q.capability;
  }

  decide-plan :
      (plan : Plan)
      → decide s m r q d ≡ ok plan
      → (n : InvocationNegotiation) × (plan_of s (policy_action s m r q) (ticket n) ≡ ok plan)
  unfolding decide ticket evaluate_policy
  decide-plan plan h =
      let (n, negotiated, rest) =
        >>=-eq-ok
          (negotiate_invocation d.visibility_modes
            (get_capability_descriptor r.registry q.envelope.target_agent q.capability) q.envelope
            q.capability q.requested_schema_version q.negotiation)
          _ h in
      (n, rest)

  pub decide-started :
      (t : Ticket)
      → decide s m r q d ≡ ok (started t)
      → (policy_action s m r q ≡ allow)
        × (s.is_valid_intent (map_envelope_to_intent s.parse q.envelope q.capability) ≡ true)
        × IsFor s q t
  unfolding ticket
  decide-started t h =
      let (n, planned) = decide-plan (started t) h in
      let (allowed, valid, is) = plan_of-started s (policy_action s m r q) (ticket n) t planned in
      (
        allowed,
        valid,
        subst (IsFor s q) (sym is)
            (record { same_envelope = refl; same_capability = refl; same_intent = refl }),
      )

  pub decide-held :
      (t : Ticket)
      → decide s m r q d ≡ ok (held t)
      → (policy_action s m r q ≡ require_approval) × IsFor s q t
  unfolding ticket
  decide-held t h =
      let (n, planned) = decide-plan (held t) h in
      let (asked, is) = plan_of-held s (policy_action s m r q) (ticket n) t planned in
      (
        asked,
        subst (IsFor s q) (sym is)
            (record { same_envelope = refl; same_capability = refl; same_intent = refl }),
      )
