-- ===== src/Store/Queue.antt =====
-- `impl RunQueueRepository for InMemoryExecutionStore` of crates/openwork-execution/src/store/mod.rs:
-- worker leases, and cancellation.
pub mod Ops
use openwork.Common.{
  ℕ, suc, ◌+◌, ◌-◌, String, Bool, true, false, not, ◌&&◌, ◌||◌, Option, none, some, List, [], ◌∷◌,
  ltb, leb, ◌==◌, str_eq, is_some, if◌then◌else◌,
}
use openwork.Common.Int.{ℤ, pos, negsuc}
use openwork.Common.Map.{Map, get, insert, remove, contains_key}
use openwork.Common.Result
use openwork.Common.Result.{OpenWorkError, Result, ok, err, state_error}
use openwork.Common.Exec.{
  Exec, pure, raise, lift, with_lock, require, refuse_if, modify, get_state, ◌>>=◌, ◌>>◌,
}
use openwork.Contract.{RunId, AuditEventId, UtcTimestamp, ActorId}
use openwork.Contract.External.{External}
use openwork.Contract.Run.{
  RunStatus, queued, planning, awaiting_approval, running, succeeded, failed, cancelled, timed_out,
  is_terminal, is_queued, is_succeeded, Run, Artifact,
}
use openwork.Contract.Audit.{
  AuditEventType, runtime_selected, sandbox_created, runtime_started, runtime_output,
  runtime_completed, sandbox_destroyed, run_failed, cancel_requested, cancel_confirmed, AuditEvent,
}
use openwork.Contract.Sandbox
use openwork.Contract.Sandbox.{SandboxTermination, SandboxCleanupStatus, SandboxResult, validate}
use openwork.Audit.{new_append, build}
use openwork.Store.{
  State, RunLease, LeaseToken, run_missing, audit_missing, or_empty, next_sequence, last_hash,
  precedes_last, push_events, transition_event, append_memory_audit,
  apply_memory_transition_with_reason,
}
use openwork.Store.Records.{validate_artifact_batch, artifact_events}

pub data CancelRequest : Type 0 where
  cancelled_now : CancelRequest
  requested : CancelRequest
  already_terminal : RunStatus → CancelRequest

pub record CancellationEvidence : Type 0 where
  pub run_id : RunId
  pub sandbox_id : String
  pub lease_token : LeaseToken
  pub lease_owner : ActorId

abbrev is_cancelled : SandboxTermination → Bool
is_cancelled SandboxTermination.cancelled = true
is_cancelled _ = false

abbrev is_clean : SandboxCleanupStatus → Bool
is_clean SandboxCleanupStatus.succeeded = true
is_clean (SandboxCleanupStatus.failed c) = false

-- `CancellationEvidence::verify`
unfoldable pub verify_evidence : RunLease → SandboxResult → Result CancellationEvidence
verify_evidence lease result = Result.◌>>=◌ (validate result) λ _.
    if not (result.run_id == lease.run.id)
      || not (is_cancelled result.termination)
      || is_some result.exit_code
      || not (is_clean result.cleanup)
    then err (state_error "sandbox result is not cancellation evidence for this lease")
    else ok (record {
      run_id = result.run_id;
      sandbox_id = result.sandbox_id;
      lease_token = lease.token;
      lease_owner = lease.owner;
    })

-- one hour in nanoseconds
abbrev pub max_lease_nanos : ℕ
max_lease_nanos = 3600000000000

-- `ttl` is a signed `Duration` in nanoseconds
unfoldable pub checked_lease_expiry : External → UtcTimestamp → ℤ → Result UtcTimestamp
checked_lease_expiry x now (negsuc n) =
    err (state_error "lease ttl must be positive and no more than one hour")
checked_lease_expiry x now (pos n) =
    if n == 0 || ltb max_lease_nanos n
    then err (state_error "lease ttl must be positive and no more than one hour")
    else if leb (now + n) x.max_timestamp
    then ok (now + n)
    else err (state_error "lease expiry overflows timestamp")

-- `ensure_memory_audit_time`
abbrev pub ensure_memory_audit_time : State → RunId → UtcTimestamp → UtcTimestamp → Exec State Unit
ensure_memory_audit_time state run_id timestamp updated_at =
    refuse_if
      (ltb timestamp updated_at || precedes_last timestamp (or_empty (get run_id state.audits)))
      (state_error "audit timestamps cannot move backwards")

-- The conditions of `validate_memory_lease`, joined by `||`.
unfoldable pub lease_not_current : RunLease → RunLease → Run → ℕ → UtcTimestamp → Bool
lease_not_current stored lease current expected_revision now =
    not (stored.token == lease.token)
    || not (str_eq stored.owner lease.owner)
    || not (lease.run.revision == expected_revision)
    || not (current.revision == expected_revision)
    || ltb now stored.acquired_at
    || leb stored.expires_at now
    || ltb now current.updated_at

abbrev pub lease_missing : OpenWorkError
lease_missing = state_error "lease does not exist"

unfoldable pub validate_memory_lease : State → RunLease → ℕ → UtcTimestamp → Exec State Run
validate_memory_lease state lease expected_revision now = do
  stored ← require (get lease.run.id state.leases) lease_missing
  current ← require (get lease.run.id state.runs) run_missing
  refuse_if (lease_not_current stored lease current expected_revision now)
      (state_error "lease capability, revision, or time is not current")
  ensure_memory_audit_time state lease.run.id now current.updated_at
  pure current

-- Whether a run is at an earlier place of the queue: by creation, then by identifier.
abbrev pub before : RunId × Run → RunId × Run → Bool
before (i, a) (j, b) = ltb a.created_at b.created_at || (a.created_at == b.created_at && ltb i j)

-- `filter(..)` of `claim_next_run`
abbrev pub is_claimable : Map RunLease → RunId × Run → Bool
is_claimable leases (id, run) = is_queued run.status && not (contains_key id leases)

-- `min_by(..)`: `best` is the least entry so far, the first of equals.
unfoldable pub least :
    Map RunLease → List (RunId × Run) → Option (RunId × Run) → Option (RunId × Run)
least leases [] best = best
least leases (entry ∷ entries) best = least leases entries (
    if is_claimable leases entry
    then elim best [ none ↦ some entry | some b ↦ if before entry b then some entry else some b ]
    else best)

-- `ensure_worker_runtime_event`
unfoldable pub is_worker_runtime_event : AuditEventType → Bool
is_worker_runtime_event sandbox_created = true
is_worker_runtime_event runtime_started = true
is_worker_runtime_event runtime_output = true
is_worker_runtime_event runtime_completed = true
is_worker_runtime_event sandbox_destroyed = true
is_worker_runtime_event _ = false

-- `matches!(next, Succeeded | Failed | TimedOut)`
abbrev pub is_completion : RunStatus → Bool
is_completion succeeded = true
is_completion failed = true
is_completion timed_out = true
is_completion _ = false

-- `matches!(status, Queued | AwaitingApproval)`
abbrev pub is_waiting : RunStatus → Bool
is_waiting queued = true
is_waiting awaiting_approval = true
is_waiting _ = false

-- `matches!(status, Planning | AwaitingApproval | Running)`
abbrev pub is_active : RunStatus → Bool
is_active planning = true
is_active awaiting_approval = true
is_active running = true
is_active _ = false

-- `state.leases.remove(id); state.cancel_requested.remove(id);`
abbrev pub release : RunId → State → State
release id s = record s {
  leases = remove id s.leases;
  cancel_requested = remove id s.cancel_requested;
}
