-- ===== src/Runtime/Outputs/Accepted.antt =====
-- The task store and the receipt store take what a micro agent (runtime/micro-agent.ts) builds.
use micro_agent_protocol.Base.{
  ◌≡◌, refl, sym, ap, String, Option, none, some, List, ok, arith, resolve_tenant_id,
}
use micro_agent_protocol.Base.Json.{Fields}
use micro_agent_protocol.Protocol.{TaskStatus, ExecutionReceipt, TaskRecord}
use micro_agent_protocol.ControlPlane.TaskGuards.{Updates, validate_transition}
use micro_agent_protocol.ControlPlane.TaskStore.Accepts.{validate-move}
use micro_agent_protocol.ControlPlane.TaskStore.Transitions.{Transition}
use micro_agent_protocol.ControlPlane.ReceiptStore.{tenant_of}
use micro_agent_protocol.Runtime.Envelope.{TaskEnvelope}
use micro_agent_protocol.Runtime.Outputs.{
  unsigned_receipt, build_receipt, build_result, tenant_if_named,
}

-- A tenant that is blank, and so left out, is the default one.
tenant-kept : (t : Option String) → resolve_tenant_id (tenant_if_named t) ≡ resolve_tenant_id t
unfolding resolve_tenant_id
tenant-kept none = refl
tenant-kept (some t) = ground arith

-- An update with nothing but a status, a result and a receipt, as the orchestrator makes after a run.
abbrev pub outcome : TaskStatus → TaskEnvelope → Fields → Option String → ExecutionReceipt → Updates
outcome status e output summary receipt = record {
  order_id = none;
  context_id = none;
  requester_identity = none;
  idempotency_key = none;
  capability = none;
  target_agent = none;
  status = some status;
  result = some (build_result e status output summary);
  receipt = some receipt;
}

-- The result and the receipt that an agent builds for a task pass the task store's guard: if the
-- record is that of the task, and its status moves to the new one along an arrow of the table, the
-- update goes through. And the receipt belongs to the tenant of the task's requester.
pub built_accepted :
    (sign : ExecutionReceipt → String) (agent_id now action touched : String) (checks : List String)
    (approval : Option String) (e : TaskEnvelope) (r : TaskRecord) (status : TaskStatus)
    (output : Fields) (summary : Option String)
    → r.task_id ≡ e.task_id
    → Transition r.status status
    → (validate_transition r status (
          outcome status e output summary
            (build_receipt sign agent_id now e action touched checks approval))
        ≡ ok tt)
      × (tenant_of (build_receipt sign agent_id now e action touched checks approval)
          ≡ resolve_tenant_id e.requester_identity.tenant_id)
unfolding build_receipt unsigned_receipt build_result resolve_tenant_id
built_accepted sign agent_id now action touched checks approval e r status output summary same
      moves =
    (
      validate-move r status _ (build_result e status output summary)
          (build_receipt sign agent_id now e action touched checks approval) moves refl refl refl
          refl refl refl (sym same) refl (ap some (sym same)),
      tenant-kept e.requester_identity.tenant_id,
    )
