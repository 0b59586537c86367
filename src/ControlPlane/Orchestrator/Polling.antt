-- ===== src/ControlPlane/Orchestrator/Polling.antt =====
-- control-plane/orchestrator.ts: `waitForStoredResult`, which looks at the task every 5 milliseconds.
use micro_agent_protocol.Base.{
  ℕ, zero, suc, String, Option, none, some, if◌then◌else◌, Result, ok, err,
}
use micro_agent_protocol.Protocol.{accepted, status_eq, TaskRecord}
use micro_agent_protocol.ControlPlane.TaskStore.{TaskStore, get}
use micro_agent_protocol.ControlPlane.Orchestrator.State.{InvokeResult, Failure, timed_out}

-- `record?.result && record.receipt && record.status !== "accepted"`.
unfoldable pub ready : TaskRecord → Option InvokeResult
ready q = elim q.result [
  | none ↦ none
  | some result ↦ elim q.receipt [
    | none ↦ none
    | some receipt ↦
        if status_eq q.status accepted
        then none
        else some (record { result = result; receipt = receipt })
  ]
]

unfoldable pub poll : TaskStore → String → Option InvokeResult
unfolding ready get
poll store task_id = elim (get store task_id none) [ none ↦ none | some q ↦ ready q ]

abbrev pub max_attempts : ℕ
max_attempts = 200

-- The loop with so many attempts left, from one attempt on. Other code runs between the attempts:
-- `stores n` is the store at the attempt `n`.
unfoldable pub poll_from : (ℕ → TaskStore) → String → ℕ → ℕ → Result Failure InvokeResult
unfolding poll
poll_from stores task_id attempt zero = err (timed_out task_id)
poll_from stores task_id attempt (suc left) = elim (poll (stores attempt) task_id) [
  | some x ↦ ok x
  | none ↦ poll_from stores task_id (suc attempt) left
]

unfoldable pub wait_for_stored_result : (ℕ → TaskStore) → String → Result Failure InvokeResult
unfolding poll_from
wait_for_stored_result stores task_id = poll_from stores task_id 0 max_attempts
