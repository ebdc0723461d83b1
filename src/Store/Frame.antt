-- ===== src/Store/Frame.antt =====
-- The approvals and the claims under the operations of the memory store
-- (crates/openwork-execution/src/store/mod.rs) on runs and leases.
use openwork.Common.{◌≡◌, refl, true, ℕ, String, Option, List, [], ◌∷◌, none, some, suc}
use openwork.Common.Map.{Map, get, insert}
use openwork.Common.Exec.Leaves.{Leaves, leaving, Leaves-bind}
use openwork.Contract.{RunId, AuditEventId, UtcTimestamp, ActorId}
use openwork.Contract.External.{External}
use openwork.Contract.Run.{RunStatus, Run, Artifact}
use openwork.Contract.Audit.{AuditEventType, AuditEvent}
use openwork.Contract.Approval.{ApprovalRequest}
use openwork.Audit.{AuditAppend}
use openwork.Store.{
  State, RunLease, ActionClaim, push_events, append_memory_audit,
  apply_memory_transition_with_reason,
}
use openwork.Common.Int.{ℤ}
use openwork.Store.{LeaseToken}
use openwork.Store.Records.{
  ActionExecutionReceipt, create_run, transition_run, append_audit, record_artifacts,
  append_receipt, reconcile_action_execution,
}
use openwork.Store.Queue.{CancellationEvidence, validate_memory_lease}
use openwork.Store.Queue.Ops.{
  mark_cancelled, claim_chosen, claim_next_run, heartbeat_lease, transition_leased_run,
  complete_leased_run, append_leased_runtime_audit, record_leased_artifacts, request_leased_cancel,
  cancel_waiting, request_cancel, confirm_cancel, recover_lease, recover_leases,
  recover_expired_leases,
}

abbrev pub authority : State → Map ApprovalRequest × Map ActionClaim
authority s = (s.approvals, s.action_claims)

push_events-Leaves : (id : RunId) (new : List AuditEvent) → Leaves authority (push_events id new)
unfolding push_events
push_events-Leaves id new = search leaving

module _ (x : External) where
  append_memory_audit-Leaves :
      (e : AuditEventId) (id : RunId) (o : ActorId) (at : UtcTimestamp) (t : AuditEventType)
      → Leaves authority (append_memory_audit x e id o at t)
  unfolding append_memory_audit
  append_memory_audit-Leaves e id o at t = search (leaving, push_events-Leaves) depth 16

  transition-Leaves :
      (e : AuditEventId) (r : Run) (n : RunStatus) (m : Option String) (at : UtcTimestamp)
      (o : ActorId) (t : AuditEventType)
      → Leaves authority (apply_memory_transition_with_reason x e r n m at o t)
  unfolding apply_memory_transition_with_reason
  transition-Leaves e r n m at o t = search (leaving, append_memory_audit-Leaves) depth 16

  ruleset steps = (leaving, push_events-Leaves, append_memory_audit-Leaves, transition-Leaves)

  pub create_run-Leaves :
      (e : AuditEventId) (r : Run) (a : AuditAppend) → Leaves authority (create_run x e r a)
  unfolding create_run
  create_run-Leaves e r a = search steps depth 24

  pub transition_run-Leaves :
      (e : AuditEventId) (id : RunId) (k : ℕ) (n : RunStatus) (m : Option String) (a : AuditAppend)
      → Leaves authority (transition_run x e id k n m a)
  unfolding transition_run
  transition_run-Leaves e id k n m a = search steps depth 24

  pub append_audit-Leaves :
      (e : AuditEventId) (id : RunId) (t : AuditEventType) (a : AuditAppend)
      → Leaves authority (append_audit x e id t a)
  unfolding append_audit
  append_audit-Leaves e id t a = search steps depth 24

  pub record_artifacts-Leaves :
      (es : ℕ → AuditEventId) (id : RunId) (fs : List Artifact) (a : AuditAppend)
      → Leaves authority (record_artifacts x es id fs a)
  unfolding record_artifacts
  record_artifacts-Leaves es id fs a = search steps depth 24

  pub append_receipt-Leaves :
      (e : AuditEventId) (r : ActionExecutionReceipt) (a : AuditAppend) (events : List AuditEvent)
      → Leaves authority (append_receipt x e r a events)
  unfolding append_receipt
  append_receipt-Leaves e r a events = search steps depth 24

  pub reconcile_action_execution-Leaves :
      (e : AuditEventId) (r : ActionExecutionReceipt) (a : AuditAppend)
      → Leaves authority (reconcile_action_execution x e r a)
  unfolding reconcile_action_execution
  reconcile_action_execution-Leaves e r a = search (steps, append_receipt-Leaves) depth 24

  claim_chosen-Leaves :
      (e : AuditEventId) (k : LeaseToken) (o : ActorId) (now late : UtcTimestamp) (s : State)
      (c : Option (RunId × Run))
      → Leaves authority (claim_chosen x e k o now late s c)
  unfolding claim_chosen
  claim_chosen-Leaves e k o now late s none = search steps depth 24
  claim_chosen-Leaves e k o now late s (some (id, r)) = search steps depth 24

  pub claim_next_run-Leaves :
      (e : AuditEventId) (k : LeaseToken) (o : ActorId) (now : UtcTimestamp) (d : ℤ)
      → Leaves authority (claim_next_run x e k o now d)
  unfolding claim_next_run
  claim_next_run-Leaves e k o now d = search (steps, claim_chosen-Leaves) depth 24

  pub heartbeat_lease-Leaves :
      (l : RunLease) (now : UtcTimestamp) (d : ℤ) → Leaves authority (heartbeat_lease x l now d)
  unfolding heartbeat_lease
  heartbeat_lease-Leaves l now d = search steps depth 24

  validate_memory_lease-Leaves :
      (s : State) (l : RunLease) (k : ℕ) (now : UtcTimestamp)
      → Leaves authority (validate_memory_lease s l k now)
  unfolding validate_memory_lease
  validate_memory_lease-Leaves s l k now = search leaving depth 24

  ruleset leased_steps = (steps, validate_memory_lease-Leaves)

  pub transition_leased_run-Leaves :
      (e : AuditEventId) (l : RunLease) (k : ℕ) (n : RunStatus) (now : UtcTimestamp)
      → Leaves authority (transition_leased_run x e l k n now)
  unfolding transition_leased_run
  transition_leased_run-Leaves e l k n now = search leased_steps depth 24

  pub complete_leased_run-Leaves :
      (e : AuditEventId) (l : RunLease) (k : ℕ) (n : RunStatus) (m : Option String)
      (now : UtcTimestamp)
      → Leaves authority (complete_leased_run x e l k n m now)
  unfolding complete_leased_run
  complete_leased_run-Leaves e l k n m now = search leased_steps depth 24

  pub append_leased_runtime_audit-Leaves :
      (e : AuditEventId) (l : RunLease) (k : ℕ) (t : AuditEventType) (now : UtcTimestamp)
      → Leaves authority (append_leased_runtime_audit x e l k t now)
  unfolding append_leased_runtime_audit
  append_leased_runtime_audit-Leaves e l k t now = search leased_steps depth 24

  pub record_leased_artifacts-Leaves :
      (es : ℕ → AuditEventId) (l : RunLease) (k : ℕ) (fs : List Artifact) (now : UtcTimestamp)
      → Leaves authority (record_leased_artifacts x es l k fs now)
  unfolding record_leased_artifacts
  record_leased_artifacts-Leaves es l k fs now = search leased_steps depth 24

  mark_cancelled-same : (id : RunId) (s : State) → authority (mark_cancelled id s) ≡ authority s
  mark_cancelled-same id s = go (get id s.leases)
    where
      go :
          (o : Option RunLease)
          → authority (elim o [
            | none ↦ s
            | some lease ↦ record s {
              leases = insert id (record lease { cancel_requested = true }) s.leases;
            }
          ])
            ≡ authority s
      go none = refl
      go (some lease) = refl

  pub request_leased_cancel-Leaves :
      (e : AuditEventId) (id : RunId) (o : ActorId) (now : UtcTimestamp) (r : Run) (s : State)
      → Leaves authority (request_leased_cancel x e id o now r s)
  unfolding request_leased_cancel
  request_leased_cancel-Leaves e id o now r s = search (steps, mark_cancelled-same) depth 24

  pub cancel_waiting-Leaves :
      (e : AuditEventId) (id : RunId) (o : ActorId) (now : UtcTimestamp) (r : Run) (s : State)
      → Leaves authority (cancel_waiting x e id o now r s)
  unfolding cancel_waiting
  cancel_waiting-Leaves e id o now r s = search steps depth 24

  pub request_cancel-Leaves :
      (e : AuditEventId) (id : RunId) (o : ActorId) (now : UtcTimestamp)
      → Leaves authority (request_cancel x e id o now)
  unfolding request_cancel
  request_cancel-Leaves e id o now =
      search (steps, request_leased_cancel-Leaves, cancel_waiting-Leaves) depth 24

  pub confirm_cancel-Leaves :
      (e : AuditEventId) (l : RunLease) (now : UtcTimestamp) (v : CancellationEvidence)
      → Leaves authority (confirm_cancel x e l now v)
  unfolding confirm_cancel
  confirm_cancel-Leaves e l now v = search steps depth 24

  pub recover_lease-Leaves :
      (e : AuditEventId) (o : ActorId) (now : UtcTimestamp) (id : RunId)
      → Leaves authority (recover_lease x e o now id)
  unfolding recover_lease
  recover_lease-Leaves e o now id = search steps depth 24

  recover_leases-Leaves :
      (es : ℕ → AuditEventId) (o : ActorId) (now : UtcTimestamp) (ids : List RunId)
      → Leaves authority (recover_leases x es o now ids)
  unfolding recover_leases
  recover_leases-Leaves es o now [] = search leaving
  recover_leases-Leaves es o now (id ∷ ids) =
      Leaves-bind _ _ (recover_lease-Leaves (es 0) o now id)
        λ _. recover_leases-Leaves (λ i. es (suc i)) o now ids

  pub recover_expired_leases-Leaves :
      (es : ℕ → AuditEventId) (o : ActorId) (now : UtcTimestamp)
      → Leaves authority (recover_expired_leases x es o now)
  unfolding recover_expired_leases
  recover_expired_leases-Leaves es o now = search (steps, recover_leases-Leaves) depth 24
