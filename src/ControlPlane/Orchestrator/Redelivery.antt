-- ===== src/ControlPlane/Orchestrator/Redelivery.antt =====
-- A dispatch that control-plane/orchestrator.ts has seen before.
use micro_agent_protocol.Base.{
  ◌≡◌, ◌↔◌, refl, ◌∙◌, inl, inr, String, none, some, Bool, true, false, Result, ok, err,
  if◌then◌else◌, arith, Bool-cases, str_eq_iff, resolve_tenant_id,
}
use micro_agent_protocol.Base.Dict.{get as map_get}
use micro_agent_protocol.Protocol.{ResultPackage, ExecutionReceipt, TaskRecord, accepted, status_eq}
use micro_agent_protocol.Integration.Envelope.{TaskEnvelope}
use micro_agent_protocol.ControlPlane.Agents.{AgentDescriptor}
use micro_agent_protocol.ControlPlane.TaskStore.{find_by_idempotency_key, get}
use micro_agent_protocol.ControlPlane.Orchestrator.State.{
  Services, Moment, Runtime, Failure, idempotency_conflict, task_conflict,
}
use micro_agent_protocol.ControlPlane.Orchestrator.Plan.{
  DispatchRequest, Plan, stored, polls, resolve_descriptor, check_extensions,
  resolve_idempotency_key, same_identity, recall, recall_found, recall_by_key, recall_or_decide,
  prepare, with_envelope,
}
use micro_agent_protocol.ControlPlane.Orchestrator.Dispatch.{
  Reply, answered, waits_for, carry_out, dispatch_valid, dispatch,
}

-- The task of a record is the one that is dispatched.
pub record IsSameTask (old : TaskRecord) (q : DispatchRequest) (d : AgentDescriptor) : Type 0 where
  pub same_type : old.requester_identity.type ≡ q.envelope.requester_identity.type
  pub same_requester : old.requester_identity.id ≡ q.envelope.requester_identity.id
  pub same_tenant :
      resolve_tenant_id old.requester_identity.tenant_id
      ≡ resolve_tenant_id q.envelope.requester_identity.tenant_id
  pub same_capability : old.capability ≡ q.capability
  pub same_agent : old.target_agent ≡ d.agent_id

same_identity-exact :
    (old : TaskRecord) (q : DispatchRequest) (d : AgentDescriptor)
    → (same_identity old q.envelope q.capability d ≡ true) ↔ IsSameTask old q d
unfolding same_identity
same_identity-exact old q d =
    let a = str_eq_iff old.requester_identity.id q.envelope.requester_identity.id in
    let b =
      str_eq_iff (resolve_tenant_id old.requester_identity.tenant_id)
        (resolve_tenant_id q.envelope.requester_identity.tenant_id) in
    let c = str_eq_iff old.capability q.capability in
    let e = str_eq_iff old.target_agent d.agent_id in (λ h. ground arith, λ h. ground arith)

-- What a dispatch of a known task is answered with: the stored outcome, or a wait for it as long as
-- the task is only accepted.
abbrev pub known_answer : TaskRecord → ResultPackage → ExecutionReceipt → Reply
known_answer old p x =
    if status_eq old.status accepted
    then waits_for old.task_id
    else answered (record { result = p; receipt = x })

-- The call is answered from the record, or throws a conflict, and changes nothing.
abbrev pub Answers :
    Runtime
    → DispatchRequest
    → AgentDescriptor
    → TaskRecord
    → Failure
    → Reply
    → Result Failure Reply × Runtime
    → Type 0
Answers r q d old conflict reply call =
    (IsSameTask old q d → call ≡ (ok reply, r)) × (¬ IsSameTask old q d → call ≡ (err conflict, r))

-- The checks in front pass.
prepare-checked :
    (s : Services) (m : Moment) (r : Runtime) (q : DispatchRequest) (d : AgentDescriptor)
    → resolve_descriptor r.registry q.envelope.target_agent q.capability ≡ ok d
    → check_extensions d q.envelope ≡ ok tt
    → prepare s m r q ≡ recall_or_decide s m r q d
unfolding prepare
prepare-checked s m r q d resolved declared = rw (resolved, prepare) (rw declared refl)

module _ (s : Services) (m : Moment) (r : Runtime) (q : DispatchRequest) (d : AgentDescriptor)
    (old : TaskRecord) (p : ResultPackage) (x : ExecutionReceipt) where
  -- The plan for a record with this outcome.
  known_plan : Plan
  known_plan =
      if status_eq old.status accepted
      then polls old.task_id
      else stored (record { result = p; receipt = x })

  carry_out-known : carry_out s m q.envelope known_plan r ≡ (ok (known_answer old p x), r)
  unfolding carry_out known_plan
  carry_out-known = ground arith

  recall-known : old.result ≡ some p → old.receipt ≡ some x → recall old ≡ some known_plan
  unfolding recall known_plan
  recall-known has_result has_receipt = ground arith

  -- What recalling the record comes to, as a plan.
  tested : Failure → Result Failure Plan
  tested conflict =
      if same_identity old q.envelope q.capability d then ok known_plan else err conflict

  tested-Answers :
      (conflict : Failure)
      → prepare s m r q ≡ tested conflict
      → Answers r q d old conflict (known_answer old p x) (dispatch_valid s m q r)
  unfolding dispatch_valid tested
  tested-Answers conflict h =
      let (sound, complete) = same_identity-exact old q d in
      elim (Bool-cases (same_identity old q.envelope q.capability d)) [
        | inl t ↦
            let planned : prepare s m r q ≡ ok known_plan = rw t at h in
            (
              λ same. rw (planned, dispatch_valid) carry_out-known,
              λ other. absurd (other (sound t)),
            )
        | inr f ↦
            let failed : prepare s m r q ≡ err conflict = rw f at h in
            (λ same. absurd (clash f (complete same)), λ other. rw (failed, dispatch_valid) refl)
      ]
    where
      clash : {b : Bool} → b ≡ false → b ≡ true → ⊥
      clash a b = cc

  module _ (has_result : old.result ≡ some p) (has_receipt : old.receipt ≡ some x) where
    by_key :
        (key : String)
        → resolve_idempotency_key q.envelope ≡ some key
        → find_by_idempotency_key r.task_store key ≡ some old
        → recall_or_decide s m r q d ≡ tested (idempotency_conflict key)
    unfolding recall_or_decide recall_by_key recall_found tested
    by_key key has_key found = ground (arith, recall-known has_result has_receipt)

    by_id :
        recall_by_key r q.envelope q.capability d ≡ ok none
        → map_get q.envelope.task_id r.task_store.tasks ≡ some old
        → recall_or_decide s m r q d ≡ tested (task_conflict q.envelope.task_id)
    unfolding recall_or_decide recall_found tested get
    by_id no_key found = ground (arith, recall-known has_result has_receipt)

  valid_redelivery :
      resolve_descriptor r.registry q.envelope.target_agent q.capability ≡ ok d
      → check_extensions d q.envelope ≡ ok tt
      → old.result ≡ some p
      → old.receipt ≡ some x
      → let call = dispatch_valid s m q r in
        ((key : String)
          → resolve_idempotency_key q.envelope ≡ some key
          → find_by_idempotency_key r.task_store key ≡ some old
          → Answers r q d old (idempotency_conflict key) (known_answer old p x) call)
        × (recall_by_key r q.envelope q.capability d ≡ ok none
            → map_get q.envelope.task_id r.task_store.tasks ≡ some old
            → Answers r q d old (task_conflict q.envelope.task_id) (known_answer old p x) call)
  valid_redelivery resolved declared has_result has_receipt = (
    λ key has_key found.
        tested-Answers (idempotency_conflict key)
          (prepared ∙ by_key has_result has_receipt key has_key found),
    λ no_key found.
        tested-Answers (task_conflict q.envelope.task_id)
          (prepared ∙ by_id has_result has_receipt no_key found),
  )
    where
      prepared : prepare s m r q ≡ recall_or_decide s m r q d
      prepared = prepare-checked s m r q d resolved declared

-- A dispatch whose envelope is valid, and is `e` once validation has deleted what the schema does not
-- list, for an agent that has the capability, and every extension that the agent requires is declared
-- in `e`. If the idempotency key of `e`, or else its task id, is that of a task with an outcome, the
-- dispatch changes nothing, neither a store nor the queue, and starts nothing. The call is answered
-- by the stored outcome, or waits for it while the task is only accepted, if requester, tenant,
-- capability and agent are those of the task. If not, it throws a conflict of the key, or of the id.
pub redelivery_exact :
    (s : Services) (m : Moment) (r : Runtime) (q : DispatchRequest) (e : TaskEnvelope)
    (d : AgentDescriptor) (old : TaskRecord) (p : ResultPackage) (x : ExecutionReceipt)
    → s.validate_envelope q.envelope ≡ some e
    → resolve_descriptor r.registry e.target_agent q.capability ≡ ok d
    → check_extensions d e ≡ ok tt
    → old.result ≡ some p
    → old.receipt ≡ some x
    → let call = dispatch s m q r in
      let q' = with_envelope q e in
      ((key : String)
        → resolve_idempotency_key e ≡ some key
        → find_by_idempotency_key r.task_store key ≡ some old
        → Answers r q' d old (idempotency_conflict key) (known_answer old p x) call)
      × (recall_by_key r e q.capability d ≡ ok none
          → map_get e.task_id r.task_store.tasks ≡ some old
          → Answers r q' d old (task_conflict e.task_id) (known_answer old p x) call)
unfolding dispatch
redelivery_exact s m r q e d old p x valid resolved declared has_result has_receipt =
    let (by_key, by_id) =
      valid_redelivery s m r (with_envelope q e) d old p x resolved declared has_result
        has_receipt in
    (
      λ key has_key found. rw (valid, dispatch) (by_key key has_key found),
      λ no_key found. rw (valid, dispatch) (by_id no_key found),
    )
