-- ===== src/Store/Queue/Ops.antt =====
-- The operations of `RunQueueRepository` on the memory store
-- (crates/openwork-execution/src/store/mod.rs).
use openwork.Common.{
  ℕ, suc, String, Bool, true, not, ◌&&◌, ◌||◌, Option, none, some, List, [], ◌∷◌, ◌++◌, ltb, leb,
  ◌==◌, str_eq, if◌then◌else◌,
}
use openwork.Common.Int.{ℤ}
use openwork.Common.Map.{Map, get, insert, contains_key}
use openwork.Common.Result.{state_error}
use openwork.Common.Exec.{
  Exec, pure, lift, with_lock, require, refuse_if, modify, get_state, ◌>>=◌, ◌>>◌,
}
use openwork.Contract.{RunId, AuditEventId, UtcTimestamp, ActorId}
use openwork.Contract.External.{External}
use openwork.Contract.Run.{
  RunStatus, planning, failed, cancelled, is_terminal, is_succeeded, Run, Artifact,
}
use openwork.Contract.Audit.{
  AuditEventType, runtime_selected, run_failed, cancel_requested, cancel_confirmed, AuditEvent,
}
use openwork.Audit.{new_append, build}
use openwork.Store.{
  State, RunLease, LeaseToken, run_missing, audit_missing, or_empty, next_sequence, last_hash,
  push_events, transition_event, append_memory_audit, apply_memory_transition_with_reason,
}
use openwork.Store.Records.{validate_artifact_batch, artifact_events}
use openwork.Store.Queue.{
  CancelRequest, cancelled_now, requested, already_terminal, CancellationEvidence,
  checked_lease_expiry, ensure_memory_audit_time, lease_missing, validate_memory_lease, least,
  is_worker_runtime_event, is_completion, is_waiting, is_active, release,
}

-- The leases that `filter(|(_, lease)| lease.expires_at <= now)` keeps, by their keys.
unfoldable pub expired_leases : UtcTimestamp → Map RunLease → List RunId
expired_leases now [] = []
expired_leases now ((id, lease) ∷ leases) =
    let rest = expired_leases now leases in if leb lease.expires_at now then id ∷ rest else rest

-- `if let Some(lease) = state.leases.get_mut(run_id) { lease.cancel_requested = true; }`
abbrev pub mark_cancelled : RunId → State → State
mark_cancelled run_id s = elim (get run_id s.leases) [
  | none ↦ s
  | some lease ↦ record s {
    leases = insert run_id (record lease { cancel_requested = true }) s.leases;
  }
]

module _ (x : External) where
  -- The part of `claim_next_run` after the choice of a run.
  unfoldable pub claim_chosen :
      AuditEventId
      → LeaseToken
      → ActorId
      → UtcTimestamp
      → UtcTimestamp
      → State
      → Option (RunId × Run)
      → Exec State (Option RunLease)
  claim_chosen event_id token owner now expires_at state none = pure none
  claim_chosen event_id token owner now expires_at state (some (run_id, _)) = do
    current ← require (get run_id state.runs) run_missing
    refuse_if (ltb now current.updated_at) (state_error "claim timestamp cannot move backwards")
    updated ←
        apply_memory_transition_with_reason x event_id current planning none now owner
          runtime_selected
    let lease : RunLease = record {
      run = updated;
      token = token;
      owner = owner;
      acquired_at = now;
      expires_at = expires_at;
      cancel_requested = Bool.false;
    }
    modify (λ s. record s { leases = insert run_id lease s.leases })
    pure (some lease)

  unfoldable pub claim_next_run :
      AuditEventId → LeaseToken → ActorId → UtcTimestamp → ℤ → Exec State (Option RunLease)
  claim_next_run event_id token owner now ttl = do
    expires_at ← lift (checked_lease_expiry x now ttl)
    with_lock λ state.
        claim_chosen event_id token owner now expires_at state (least state.leases state.runs none)

  unfoldable pub heartbeat_lease : RunLease → UtcTimestamp → ℤ → Exec State RunLease
  heartbeat_lease lease now ttl = do
    expires_at ← lift (checked_lease_expiry x now ttl)
    with_lock λ state. do
      current ← require (get lease.run.id state.runs) run_missing
      stored ← require (get lease.run.id state.leases) lease_missing
      refuse_if
          (not (stored.token == lease.token)
            || not (str_eq stored.owner lease.owner)
            || not (stored.run.revision == lease.run.revision)
            || not (current.revision == lease.run.revision)
            || ltb now stored.acquired_at
            || leb stored.expires_at now
            || ltb now current.updated_at)
          (state_error "lease is not current")
      let renewed : RunLease = record stored {
        expires_at = expires_at;
        cancel_requested = contains_key lease.run.id state.cancel_requested;
      }
      modify (λ s. record s { leases = insert lease.run.id renewed s.leases })
      pure renewed

  unfoldable pub transition_leased_run :
      AuditEventId → RunLease → ℕ → RunStatus → UtcTimestamp → Exec State RunLease
  transition_leased_run event_id lease expected_revision next now = do
    refuse_if (is_terminal next) (state_error "leased transition target must be non-terminal")
    with_lock λ state. do
      current ← validate_memory_lease state lease expected_revision now
      updated ←
          apply_memory_transition_with_reason x event_id current next none now lease.owner
            (transition_event next)
      state' ← get_state
      stored ← require (get lease.run.id state'.leases) lease_missing
      let refreshed : RunLease = record stored {
        run = updated;
        cancel_requested = contains_key lease.run.id state'.cancel_requested;
      }
      modify (λ s. record s { leases = insert lease.run.id refreshed s.leases })
      pure refreshed

  unfoldable pub complete_leased_run :
      AuditEventId → RunLease → ℕ → RunStatus → Option String → UtcTimestamp → Exec State Run
  complete_leased_run event_id lease expected_revision next reason now = do
    refuse_if (not (is_completion next))
        (state_error "leased completion must be succeeded, failed, or timed_out")
    with_lock λ state. do
      current ← validate_memory_lease state lease expected_revision now
      refuse_if (is_succeeded next && contains_key lease.run.id state.cancel_requested)
          (state_error "cannot complete a cancellation-requested run successfully")
      updated ←
          apply_memory_transition_with_reason x event_id current next reason now lease.owner
            (transition_event next)
      modify (release lease.run.id)
      pure updated

  unfoldable pub append_leased_runtime_audit :
      AuditEventId → RunLease → ℕ → AuditEventType → UtcTimestamp → Exec State AuditEvent
  append_leased_runtime_audit event_id lease expected_revision event_type now = do
    refuse_if (not (is_worker_runtime_event event_type))
        (state_error "leased worker audit event must describe runtime or sandbox activity")
    with_lock λ state. do
      _current ← validate_memory_lease state lease expected_revision now
      events ← require (get lease.run.id state.audits) audit_missing
      sequence ← lift (next_sequence events)
      event ← lift (
          build x event_id (new_append lease.owner now) lease.run.id sequence event_type
            (last_hash events))
      push_events lease.run.id (event ∷ [])
      pure event

  unfoldable pub record_leased_artifacts :
      (ℕ → AuditEventId) → RunLease → ℕ → List Artifact → UtcTimestamp → Exec State Unit
  record_leased_artifacts event_ids lease expected_revision artifacts now = with_lock λ state. do
    _current ← validate_memory_lease state lease expected_revision now
    validate_artifact_batch state lease.run.id artifacts
    chain ← require (get lease.run.id state.audits) audit_missing
    sequence ← lift (next_sequence chain)
    events ← lift (
        artifact_events x (new_append lease.owner now) lease.run.id event_ids sequence
          (last_hash chain) artifacts)
    modify λ s. record s {
      artifacts =
          insert lease.run.id (or_empty (get lease.run.id s.artifacts) ++ artifacts) s.artifacts;
    }
    push_events lease.run.id events

  unfoldable pub request_leased_cancel :
      AuditEventId → RunId → ActorId → UtcTimestamp → Run → State → Exec State CancelRequest
  request_leased_cancel event_id run_id actor now current state = do
    ensure_memory_audit_time state run_id now current.updated_at
    append_memory_audit x event_id run_id actor now cancel_requested
    modify (λ s. record s { cancel_requested = insert run_id now s.cancel_requested })
    modify (mark_cancelled run_id)
    pure requested

  unfoldable pub cancel_waiting :
      AuditEventId → RunId → ActorId → UtcTimestamp → Run → State → Exec State CancelRequest
  cancel_waiting event_id run_id actor now current state = do
    ensure_memory_audit_time state run_id now current.updated_at
    apply_memory_transition_with_reason x event_id current cancelled none now actor cancel_confirmed
        >>= λ _. pure cancelled_now

  unfoldable pub request_cancel :
      AuditEventId → RunId → ActorId → UtcTimestamp → Exec State CancelRequest
  request_cancel event_id run_id actor now = with_lock λ state. do
    current ← require (get run_id state.runs) run_missing
    if is_terminal current.status
        then pure (already_terminal current.status)
        else if is_waiting current.status && not (contains_key run_id state.leases)
        then cancel_waiting event_id run_id actor now current state
        else do
          refuse_if (not (is_active current.status))
              (state_error "only active runs may request cancellation")
          refuse_if (not (contains_key run_id state.leases))
              (state_error "active run has no current worker lease for cancellation")
          if contains_key run_id state.cancel_requested
              then pure requested
              else request_leased_cancel event_id run_id actor now current state

  unfoldable pub lease_cancel_requested : RunLease → UtcTimestamp → Exec State Bool
  lease_cancel_requested lease now = with_lock λ state. do
    stored ← require (get lease.run.id state.leases) lease_missing
    refuse_if
        (not (stored.token == lease.token)
          || not (str_eq stored.owner lease.owner)
          || not (stored.run.revision == lease.run.revision)
          || ltb now stored.acquired_at
          || leb stored.expires_at now)
        (state_error "lease is not current")
    pure (contains_key lease.run.id state.cancel_requested)

  unfoldable pub confirm_cancel :
      AuditEventId → RunLease → UtcTimestamp → CancellationEvidence → Exec State Run
  confirm_cancel event_id lease now evidence = do
    refuse_if
        (not (evidence.run_id == lease.run.id)
          || str_eq evidence.sandbox_id ""
          || not (evidence.lease_token == lease.token)
          || not (str_eq evidence.lease_owner lease.owner))
        (state_error "cancellation evidence does not match lease")
    with_lock λ state. do
      stored ← require (get lease.run.id state.leases) lease_missing
      refuse_if
          (not (stored.token == lease.token)
            || not (str_eq stored.owner lease.owner)
            || not (stored.run.revision == lease.run.revision)
            || leb stored.expires_at now
            || not (contains_key lease.run.id state.cancel_requested))
          (state_error "lease is not eligible to confirm cancellation")
      current ← require (get lease.run.id state.runs) run_missing
      refuse_if (not (current.revision == lease.run.revision) || ltb now stored.acquired_at)
          (state_error "lease capability, revision, or time is not current")
      ensure_memory_audit_time state lease.run.id now current.updated_at
      updated ←
          apply_memory_transition_with_reason x event_id current cancelled none now lease.owner
            cancel_confirmed
      modify (release lease.run.id)
      pure updated

  -- The body of the loop of `recover_expired_leases`.
  unfoldable pub recover_lease : AuditEventId → ActorId → UtcTimestamp → RunId → Exec State Unit
  recover_lease event_id actor now id = with_lock λ state. do
    current ← require (get id state.runs) run_missing
    ensure_memory_audit_time state id now current.updated_at
    if is_terminal current.status
        then modify (release id)
        else apply_memory_transition_with_reason x event_id current failed none now actor run_failed
          >>= λ _. modify (release id)

  -- The loop, with the identifiers drawn in its rounds. What a round wrote stays when a later one fails.
  unfoldable pub recover_leases :
      (ℕ → AuditEventId) → ActorId → UtcTimestamp → List RunId → Exec State Unit
  recover_leases event_ids actor now [] = pure tt
  recover_leases event_ids actor now (id ∷ ids) = recover_lease (event_ids 0) actor now id >>= λ _.
      recover_leases (λ i. event_ids (suc i)) actor now ids

  unfoldable pub recover_expired_leases :
      (ℕ → AuditEventId) → ActorId → UtcTimestamp → Exec State (List RunId)
  recover_expired_leases event_ids actor now = with_lock λ state. do
    let expired = expired_leases now state.leases
    recover_leases event_ids actor now expired
    pure expired
