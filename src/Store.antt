-- ===== src/Store.antt =====
-- The memory store (crates/openwork-execution/src/store/mod.rs): its state and the steps that its
-- operations share. `with_lock` is the mutex, which is never poisoned: no code panics under it. UUIDs
-- that the code draws are arguments.
pub mod Records
pub mod Queue
pub mod Approvals
pub mod Chains
pub mod Slots
pub mod Authority
pub mod Validity
pub mod Refines
pub mod Frame
pub mod Ops
pub mod Reach
pub mod Grants
pub mod Came
use openwork.Common.{
  ℕ, ◌+◌, String, Bool, true, false, not, ◌&&◌, ◌||◌, Option, none, some, List, [], ◌∷◌, ◌++◌,
  length, last, ltb, is_some, is_some_and, if◌then◌else◌,
}
use openwork.Common.Map.{Map, get, insert}
use openwork.Common.Result.{OpenWorkError, Result, ok, state_error, internal_error, ok_or_else}
use openwork.Common.Exec.{Exec, pure, lift, with_lock, require, refuse_if, modify, ◌>>=◌, ◌>>◌}
use openwork.Contract.{RunId, AuditEventId, ActionId, UtcTimestamp, Sha256Digest, ActorId, u64_max}
use openwork.Contract.External.{External}
use openwork.Contract.Run.{
  RunStatus, queued, planning, awaiting_approval, running, succeeded, failed, cancelled, timed_out,
  can_transition_to, is_terminal, is_running, is_succeeded, Run, Artifact,
}
use openwork.Contract.Audit.{
  AuditEventType, runtime_selected, action_requested, runtime_started, run_completed, run_failed,
  AuditEvent,
}
use openwork.Contract.Approval.{ApprovalRequest}
use openwork.Audit.{new_append, build}

-- `LeaseToken`, a random UUID
abbrev pub LeaseToken : Type 0
LeaseToken = ℕ

pub record RunLease : Type 0 where
  pub run : Run
  pub token : LeaseToken
  pub owner : ActorId
  pub acquired_at : UtcTimestamp
  pub expires_at : UtcTimestamp
  pub cancel_requested : Bool

pub record ActionClaim : Type 0 where
  pub run_id : RunId
  pub action_id : ActionId
  pub parameter_hash : Sha256Digest
  pub actor : ActorId
  pub claimed_at : UtcTimestamp

pub record State : Type 0 where
  pub runs : Map Run
  pub audits : Map (List AuditEvent)
  pub artifacts : Map (List Artifact)
  pub approvals : Map ApprovalRequest
  pub approval_windows : Map ℕ
  pub action_claims : Map ActionClaim
  pub leases : Map RunLease
  pub cancel_requested : Map UtcTimestamp

-- `State::default`
abbrev pub empty : State
empty = record {
  runs = [];
  audits = [];
  artifacts = [];
  approvals = [];
  approval_windows = [];
  action_claims = [];
  leases = [];
  cancel_requested = [];
}

abbrev pub run_missing : OpenWorkError
run_missing = state_error "run does not exist"

abbrev pub audit_missing : OpenWorkError
audit_missing = internal_error "run audit chain does not exist"

abbrev pub or_empty {ℓ} : {A : Type ℓ} → Option (List A) → List A
or_empty none = []
or_empty (some xs) = xs

unfoldable pub transition_event : RunStatus → AuditEventType
transition_event planning = runtime_selected
transition_event awaiting_approval = action_requested
transition_event running = runtime_started
transition_event succeeded = run_completed
transition_event failed = run_failed
transition_event cancelled = run_failed
transition_event timed_out = run_failed
transition_event queued = run_failed

-- `u64::checked_add(1)`
abbrev pub checked_suc : ℕ → Option ℕ
checked_suc n = if ltb n u64_max then some (n + 1) else none

-- The length of a chain plus one; `usize` has 64 bits.
unfoldable pub next_sequence : List AuditEvent → Result ℕ
next_sequence events =
    ok_or_else (checked_suc (length events)) (internal_error "audit sequence overflow")

-- `events.last().map(|event| event.event_hash().clone())`
unfoldable pub last_hash : List AuditEvent → Option Sha256Digest
last_hash events = elim (last events) [ none ↦ none | some e ↦ some e.event_hash ]

-- `events.last().is_some_and(|event| timestamp < event.timestamp)`
unfoldable pub precedes_last : UtcTimestamp → List AuditEvent → Bool
precedes_last timestamp events = is_some_and (last events) (λ e. ltb timestamp e.timestamp)

-- `audits.get_mut(run_id).ok_or_else(audit_missing)?.extend(events)`
unfoldable pub push_events : RunId → List AuditEvent → Exec State Unit
push_events run_id new = with_lock λ state. do
  events ← require (get run_id state.audits) audit_missing
  modify (λ s. record s { audits = insert run_id (events ++ new) s.audits })
  pure tt

-- The two fields that the final state of a run has.
unfoldable pub terminal_reason_of : External → RunStatus → Option String → Option String
terminal_reason_of x next reason =
    if is_succeeded next
    then none
    else some (elim reason [ none ↦ "unspecified" | some r ↦ x.redact_text r ])

-- The new revision of a run, as `transition_run` and `apply_memory_transition_with_reason` write it.
unfoldable pub advance : External → Run → RunStatus → Option String → UtcTimestamp → Result Run
unfolding terminal_reason_of is_terminal
advance x current next reason timestamp =
    let started =
      if is_running next && not (is_some current.started_at)
      then some timestamp
      else current.started_at in
    let moved = λ (revision : ℕ). record current {
      status = next;
      revision = revision;
      updated_at = timestamp;
      started_at = started;
      completed_at = if is_terminal next then some timestamp else current.completed_at;
      terminal_reason =
          if is_terminal next then terminal_reason_of x next reason else current.terminal_reason;
    } in
    elim (checked_suc current.revision) [
      | none ↦ Result.err (state_error "run revision overflow")
      | some revision ↦ ok (moved revision)
    ]

module _ (x : External) where
  unfoldable pub append_memory_audit :
      AuditEventId → RunId → ActorId → UtcTimestamp → AuditEventType → Exec State Unit
  append_memory_audit event_id run_id actor timestamp event_type = with_lock λ state. do
    events ← require (get run_id state.audits) audit_missing
    refuse_if (precedes_last timestamp events)
        (state_error "audit timestamps cannot move backwards")
    sequence ← lift (next_sequence events)
    event ← lift (
        build x event_id (new_append actor timestamp) run_id sequence event_type (last_hash events))
    push_events run_id (event ∷ [])

  -- With no reason it is `apply_memory_transition`.
  unfoldable pub apply_memory_transition_with_reason :
      AuditEventId
      → Run
      → RunStatus
      → Option String
      → UtcTimestamp
      → ActorId
      → AuditEventType
      → Exec State Run
  apply_memory_transition_with_reason event_id current next reason timestamp actor event_type = do
    refuse_if (not (can_transition_to current.status next) || ltb timestamp current.updated_at)
        (state_error "run transition is illegal or timestamps move backwards")
    updated ← lift (advance x current next reason timestamp)
    append_memory_audit event_id current.id actor timestamp event_type
    modify (λ s. record s { runs = insert current.id updated s.runs })
    pure updated
