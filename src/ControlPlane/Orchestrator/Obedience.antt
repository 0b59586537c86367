-- ===== src/ControlPlane/Orchestrator/Obedience.antt =====
-- `dispatch` of control-plane/orchestrator.ts does what the policy says.
use micro_agent_protocol.Base.{
  ◌≡◌, ◌≢◌, refl, sym, ◌∙◌, subst, inl, inr, String, Option, none, some, true, Result, ok, err,
  Result-cases, arith,
}
use micro_agent_protocol.Core.Types.{allow, deny, require_approval}
use micro_agent_protocol.Integration.Envelope.{TaskEnvelope}
use micro_agent_protocol.Integration.EcpBridge.{map_envelope_to_intent}
use micro_agent_protocol.ControlPlane.Orchestrator.State.{
  Services, Moment, Ticket, Runtime, Failure, invalid_envelope, save_task, append_receipt,
  notify_webhook,
}
use micro_agent_protocol.ControlPlane.Orchestrator.Plan.{
  DispatchRequest, Plan, stored, polls, refused, held, started, prepare, with_envelope,
}
use micro_agent_protocol.ControlPlane.Orchestrator.Dispatch.{
  Reply, answered, waits_for, awaits_executor, refuse, hold_for_approval, start, carry_out,
  dispatch_valid, dispatch, start_async, start_sync, enqueue_job,
}
use micro_agent_protocol.ControlPlane.Orchestrator.Prepared.{
  policy_action, IsFor, prepare-Found, decide-started, decide-held,
}

-- No execution was started: no job is new, and the call does not wait for the executor.
pub record NothingStarts (r : Runtime) (x : Result Failure Reply × Runtime) : Type 0 where
  pub same_jobs : x.1.jobs ≡ r.jobs
  pub same_queue : x.1.async_queue ≡ r.async_queue
  pub no_execution : (t : Ticket) → x.0 ≢ ok (awaits_executor t)

refuse-NothingStarts :
    (e : TaskEnvelope) (reason : Option String) (r : Runtime)
    → NothingStarts r (refuse e reason r)
      × ((refuse e reason r).1.task_store ≡ r.task_store)
      × ((refuse e reason r).1.receipt_store ≡ r.receipt_store)
unfolding refuse notify_webhook
refuse-NothingStarts e reason r = (
  record {
    same_jobs = ground arith;
    same_queue = ground arith;
    no_execution = λ t h. absurd (ground arith);
  },
  ground arith,
  ground arith,
)

hold_for_approval-NothingStarts :
    (s : Services) (m : Moment) (t : Ticket) (r : Runtime)
    → NothingStarts r (hold_for_approval s m t r)
unfolding hold_for_approval save_task append_receipt
hold_for_approval-NothingStarts s m t r = record {
  same_jobs = ground arith;
  same_queue = ground arith;
  no_execution = λ u h. absurd (ground arith);
}

-- The call waits for the executor with the ticket that it started.
start-awaits :
    (s : Services) (m : Moment) (t u : Ticket) (r : Runtime)
    → (start s m t r).0 ≡ ok (awaits_executor u)
    → t ≡ u
unfolding start start_async start_sync save_task append_receipt enqueue_job
start-awaits s m t u r h = ground arith

same-NothingStarts :
    (r : Runtime) (x : Result Failure Reply)
    → ((t : Ticket) → x ≢ ok (awaits_executor t))
    → NothingStarts r (x, r)
same-NothingStarts r x h = record { same_jobs = refl; same_queue = refl; no_execution = h }

module _ (s : Services) (m : Moment) (r : Runtime) (q : DispatchRequest) where
  carry_out-NothingStarts :
      (plan : Plan)
      → prepare s m r q ≡ ok plan
      → policy_action s m r q ≢ allow
      → NothingStarts r (carry_out s m q.envelope plan r)
  unfolding carry_out
  carry_out-NothingStarts (stored x) h n =
      same-NothingStarts r (ok (answered x)) (λ t e. absurd (ground arith))
  carry_out-NothingStarts (polls task_id) h n =
      same-NothingStarts r (ok (waits_for task_id)) (λ t e. absurd (ground arith))
  carry_out-NothingStarts (refused reason) h n = (refuse-NothingStarts q.envelope reason r).0
  carry_out-NothingStarts (held t) h n = hold_for_approval-NothingStarts s m t r
  carry_out-NothingStarts (started t) h n =
      let found = prepare-Found s m r q (started t) refl h in
      absurd (n (decide-started s m r q found.agent t found.decided).0)

  carry_out-keeps :
      (plan : Plan)
      → prepare s m r q ≡ ok plan
      → policy_action s m r q ≡ deny
      → ((carry_out s m q.envelope plan r).1.task_store ≡ r.task_store)
        × ((carry_out s m q.envelope plan r).1.receipt_store ≡ r.receipt_store)
  unfolding carry_out
  carry_out-keeps (stored x) h e = (refl, refl)
  carry_out-keeps (polls task_id) h e = (refl, refl)
  carry_out-keeps (refused reason) h e =
      let (_, tasks, receipts) = refuse-NothingStarts q.envelope reason r in (tasks, receipts)
  carry_out-keeps (held t) h e =
      let found = prepare-Found s m r q (held t) refl h in
      absurd (other (sym e ∙ (decide-held s m r q found.agent t found.decided).0))
    where
      other : deny ≡ require_approval → ⊥
      other h = cc
  carry_out-keeps (started t) h e =
      let found = prepare-Found s m r q (started t) refl h in
      absurd (other (sym e ∙ (decide-started s m r q found.agent t found.decided).0))
    where
      other : deny ≡ allow → ⊥
      other h = cc

  carry_out-awaits :
      (plan : Plan) (t : Ticket)
      → prepare s m r q ≡ ok plan
      → (carry_out s m q.envelope plan r).0 ≡ ok (awaits_executor t)
      → (s.is_valid_intent (map_envelope_to_intent s.parse q.envelope q.capability) ≡ true)
        × IsFor s q t
  unfolding carry_out
  carry_out-awaits (stored x) t h e = absurd (ground arith)
  carry_out-awaits (polls task_id) t h e = absurd (ground arith)
  carry_out-awaits (refused reason) t h e =
      absurd ((refuse-NothingStarts q.envelope reason r).0.no_execution t e)
  carry_out-awaits (held u) t h e =
      absurd ((hold_for_approval-NothingStarts s m u r).no_execution t e)
  carry_out-awaits (started u) t h e =
      let found = prepare-Found s m r q (started u) refl h in
      let (_, valid, same) = decide-started s m r q found.agent u found.decided in
      (valid, subst (IsFor s q) (start-awaits s m u t r e) same)

  dispatch_valid_obeys :
      (policy_action s m r q ≢ allow → NothingStarts r (dispatch_valid s m q r))
      × (policy_action s m r q ≡ deny
          → ((dispatch_valid s m q r).1.task_store ≡ r.task_store)
            × ((dispatch_valid s m q r).1.receipt_store ≡ r.receipt_store))
      × ((t : Ticket)
          → (dispatch_valid s m q r).0 ≡ ok (awaits_executor t)
          → (s.is_valid_intent (map_envelope_to_intent s.parse q.envelope q.capability) ≡ true)
            × IsFor s q t)
  unfolding dispatch_valid
  dispatch_valid_obeys = elim (Result-cases (prepare s m r q)) [
    | inl (plan, e) ↦ (
      λ n. rw (e, dispatch_valid) (carry_out-NothingStarts plan e n),
      λ d. rw (e, dispatch_valid) (carry_out-keeps plan e d),
      λ t h. carry_out-awaits plan t e (rw (e, dispatch_valid) at h),
    )
    | inr (f, e) ↦ (
      λ n. rw (e, dispatch_valid) (same-NothingStarts r (err f) (λ t h. cc)),
      λ d. rw (e, dispatch_valid) (refl, refl),
      λ t h. absurd (failed f t (rw (e, dispatch_valid) at h)),
    )
  ]
    where
      failed : (f : Failure) (t : Ticket) → err f ≡ ok (awaits_executor t) → ⊥
      failed f t h = cc

-- A dispatch of an envelope that is not valid throws and changes nothing. Any other goes by the
-- envelope that validation leaves: it starts an execution, at once or as a job, only if the policy
-- allows the intent that this envelope stands for. If the policy denies it, no task and no receipt is
-- written either. And a call that goes on to the executor has a valid intent, the one of this envelope.
pub dispatch_obeys_policy :
    (s : Services) (m : Moment) (r : Runtime) (q : DispatchRequest)
    → (s.validate_envelope q.envelope ≡ none → dispatch s m q r ≡ (err invalid_envelope, r))
      × ((e : TaskEnvelope)
          → s.validate_envelope q.envelope ≡ some e
          → (policy_action s m r (with_envelope q e) ≢ allow → NothingStarts r (dispatch s m q r))
            × (policy_action s m r (with_envelope q e) ≡ deny
                → ((dispatch s m q r).1.task_store ≡ r.task_store)
                  × ((dispatch s m q r).1.receipt_store ≡ r.receipt_store))
            × ((t : Ticket)
                → (dispatch s m q r).0 ≡ ok (awaits_executor t)
                → (s.is_valid_intent (map_envelope_to_intent s.parse e q.capability) ≡ true)
                  × IsFor s (with_envelope q e) t))
unfolding dispatch
dispatch_obeys_policy s m r q = (
  λ bad. rw (bad, dispatch) refl,
  λ e good. rw (good, dispatch) (dispatch_valid_obeys s m r (with_envelope q e)),
)
