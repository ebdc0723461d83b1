-- ===== src/Store/Ops.antt =====
-- The operations of the memory store that change state, as one type: the traits `ExecutionStore`,
-- `RunQueueRepository` and `ApprovalRepository` as `InMemoryExecutionStore` implements them
-- (crates/openwork-execution/src/store/mod.rs).
use openwork.Common.{ℕ, String, Option, List, [], ◌∷◌}
use openwork.Common.Int.{ℤ}
use openwork.Common.Exec.{Exec, pure, ◌>>=◌}
use openwork.Contract.{RunId, AuditEventId, ApprovalId, UtcTimestamp, ActorId}
use openwork.Contract.External.{External}
use openwork.Contract.Run.{RunStatus, Run, Artifact}
use openwork.Contract.Audit.{AuditEventType}
use openwork.Contract.Action.{ActionRequest}
use openwork.Contract.Approval.{ApprovalRequest, ApprovalDecision}
use openwork.Audit.{AuditAppend}
use openwork.Store.{State, RunLease, LeaseToken}
use openwork.Store.Records as Records
use openwork.Store.Records.{ActionExecutionReceipt}
use openwork.Store.Approvals as Approvals
use openwork.Store.Queue.{CancellationEvidence}
use openwork.Store.Queue.Ops as Queue

-- An operation with its arguments, the identifiers that it draws among them.
pub data Op : Type 0 where
  create_run : AuditEventId → Run → AuditAppend → Op
  transition_run : AuditEventId → RunId → ℕ → RunStatus → Option String → AuditAppend → Op
  append_audit : AuditEventId → RunId → AuditEventType → AuditAppend → Op
  record_artifacts : (ℕ → AuditEventId) → RunId → List Artifact → AuditAppend → Op
  reconcile_action_execution : AuditEventId → ActionExecutionReceipt → AuditAppend → Op
  claim_next_run : AuditEventId → LeaseToken → ActorId → UtcTimestamp → ℤ → Op
  heartbeat_lease : RunLease → UtcTimestamp → ℤ → Op
  transition_leased_run : AuditEventId → RunLease → ℕ → RunStatus → UtcTimestamp → Op
  complete_leased_run : AuditEventId → RunLease → ℕ → RunStatus → Option String → UtcTimestamp → Op
  append_leased_runtime_audit : AuditEventId → RunLease → ℕ → AuditEventType → UtcTimestamp → Op
  record_leased_artifacts : (ℕ → AuditEventId) → RunLease → ℕ → List Artifact → UtcTimestamp → Op
  request_cancel : AuditEventId → RunId → ActorId → UtcTimestamp → Op
  confirm_cancel : AuditEventId → RunLease → UtcTimestamp → CancellationEvidence → Op
  recover_expired_leases : (ℕ → AuditEventId) → ActorId → UtcTimestamp → Op
  create_approval : AuditEventId → ApprovalRequest → ActorId → UtcTimestamp → Op
  decide_approval :
      AuditEventId → ApprovalId → ℕ → ApprovalDecision → ActorId → Option String → UtcTimestamp → Op
  expire_approval : AuditEventId → ApprovalId → ℕ → ActorId → UtcTimestamp → Op
  consume_approval :
      AuditEventId → AuditEventId → ApprovalId → ℕ → ActionRequest → ActorId → UtcTimestamp → Op

-- What an operation does, its value left out.
unfoldable pub discard : {A : Type 0} → Exec State A → Exec State Unit
discard m = m >>= λ _. pure tt

unfoldable pub perform : External → Op → Exec State Unit
perform x (create_run e r a) = discard (Records.create_run x e r a)
perform x (transition_run e i n s m a) = discard (Records.transition_run x e i n s m a)
perform x (append_audit e i t a) = discard (Records.append_audit x e i t a)
perform x (record_artifacts es i fs a) = discard (Records.record_artifacts x es i fs a)
perform x (reconcile_action_execution e r a) = discard (Records.reconcile_action_execution x e r a)
perform x (claim_next_run e k o t d) = discard (Queue.claim_next_run x e k o t d)
perform x (heartbeat_lease l t d) = discard (Queue.heartbeat_lease x l t d)
perform x (transition_leased_run e l n s t) = discard (Queue.transition_leased_run x e l n s t)
perform x (complete_leased_run e l n s m t) = discard (Queue.complete_leased_run x e l n s m t)
perform x (append_leased_runtime_audit e l n y t) =
    discard (Queue.append_leased_runtime_audit x e l n y t)
perform x (record_leased_artifacts es l n fs t) =
    discard (Queue.record_leased_artifacts x es l n fs t)
perform x (request_cancel e i o t) = discard (Queue.request_cancel x e i o t)
perform x (confirm_cancel e l t v) = discard (Queue.confirm_cancel x e l t v)
perform x (recover_expired_leases es o t) = discard (Queue.recover_expired_leases x es o t)
perform x (create_approval e a o t) = discard (Approvals.create_approval x e a o t)
perform x (decide_approval e p n d o m t) = discard (Approvals.decide_approval x e p n d o m t)
perform x (expire_approval e p n o t) = discard (Approvals.expire_approval x e p n o t)
perform x (consume_approval e f p n a o t) = discard (Approvals.consume_approval x e f p n a o t)

-- A history of calls, failed ones among them, from one state.
unfoldable pub run_ops : External → List Op → State → State
run_ops x [] s = s
run_ops x (op ∷ ops) s = run_ops x ops (perform x op s).1
