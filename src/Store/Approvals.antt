-- ===== src/Store/Approvals.antt =====
-- `impl ApprovalRepository for InMemoryExecutionStore` of crates/openwork-execution/src/store/mod.rs.
use Prim.Native.String.{len}
use openwork.Common.{
  ℕ, String, Bool, true, false, not, ◌&&◌, ◌||◌, Option, none, some, [], ◌∷◌, ◌++◌, any, ltb, ◌==◌,
  str_eq, is_some_and, if◌then◌else◌,
}
use openwork.Common.Map.{get, insert, contains_key, values}
use openwork.Common.Result.{
  OpenWorkError, Result, state_error, approval_error, internal_error, ok_or_else,
}
use openwork.Common.Exec.{
  Exec, pure, raise, lift, with_lock, require, refuse_if, modify, ◌>>=◌, ◌>>◌,
}
use openwork.Core.Json.{string, integer, Entries, end, insert_entry}
use openwork.Contract.{AuditEventId, ApprovalId, UtcTimestamp, ActorId}
use openwork.Contract.External.{External}
use openwork.Contract.Run.{running, is_awaiting_approval, Run}
use openwork.Contract.Audit.{
  AuditEventType, approval_requested, approval_approved, approval_denied, approval_expired,
  approval_consumed, approval_binding_mismatch, runtime_started, AuditEvent, from_untrusted,
  new_event,
}
use openwork.Contract.Action.{ActionRequest}
use openwork.Contract.Approval.{
  ApprovalStatus, pending, approved, denied, expired, consumed, is_pending, is_approved,
  ApprovalDecision, approve, deny, is_approve, ApprovalRequest, validate, is_expired_at,
  binding_matches, can_consume_at,
}
use openwork.Audit.{new_append, with_run_status, build}
use openwork.Store.{
  State, ActionClaim, run_missing, audit_missing, checked_suc, next_sequence, last_hash,
  precedes_last, push_events,
}

-- `ApprovalConsumption` of approval/mod.rs
pub record ApprovalConsumption : Type 0 where
  pub approval : ApprovalRequest
  pub action_claim : ActionClaim

abbrev pub approval_missing : OpenWorkError
approval_missing = approval_error "approval does not exist"

unfoldable pub next_revision : ℕ → Result ℕ
next_revision revision =
    ok_or_else (checked_suc revision) (approval_error "approval revision overflow")

status_name : ApprovalStatus → String
status_name pending = "pending"
status_name approved = "approved"
status_name denied = "denied"
status_name expired = "expired"
status_name consumed = "consumed"

-- `Some(&run.revision)` compared with the window of an approval
abbrev pub in_window : Option ℕ → ℕ → Bool
in_window window revision = is_some_and window (λ w. w == revision)

unfoldable pub approval_window_run : State → ApprovalRequest → Exec State Run
approval_window_run state approval = do
  run ← require (get approval.run_id state.runs) run_missing
  refuse_if
      (not (is_awaiting_approval run.status)
        || not (in_window (get approval.id state.approval_windows) run.revision))
      (approval_error "approval does not belong to the current awaiting-approval window")
  pure run

abbrev pub decided_status : ApprovalDecision → ApprovalStatus
decided_status approve = approved
decided_status deny = denied

abbrev pub decided_event : ApprovalDecision → AuditEventType
decided_event approve = approval_approved
decided_event deny = approval_denied

-- The states from which `expire_approval` starts.
abbrev pub can_expire : ApprovalStatus → Bool
can_expire pending = true
can_expire approved = true
can_expire _ = false

-- An approval that `create_approval` takes for a duplicate of the request.
abbrev pub same_action : ApprovalRequest → ApprovalRequest → Bool
same_action request stored =
    stored.action_id == request.action_id
    || (stored.run_id == request.run_id
        && stored.action_id == request.action_id
        && str_eq stored.parameter_hash request.parameter_hash
        && can_expire stored.status)

module _ (x : External) where
  metadata_of_approval : ApprovalRequest → Entries
  unfolding status_name insert_entry
  metadata_of_approval a = insert_entry "approval_id" (string (x.to_hyphenated a.id)) (
      insert_entry "action_id" (string (x.to_hyphenated a.action_id)) (
        insert_entry "parameter_hash" (string a.parameter_hash) (
          insert_entry "revision" (integer a.revision)
            (insert_entry "status" (string (status_name a.status)) end))))

  unfoldable pub approval_event :
      AuditEventId
      → State
      → ApprovalRequest
      → AuditEventType
      → ActorId
      → UtcTimestamp
      → Exec State AuditEvent
  unfolding metadata_of_approval
  approval_event event_id state approval event_type actor timestamp = do
    events ← require (get approval.run_id state.audits) audit_missing
    refuse_if (precedes_last timestamp events)
        (approval_error "approval audit timestamp moved backwards")
    sequence ← lift (next_sequence events)
    lift (
        new_event x event_id approval.run_id sequence event_type actor timestamp
          (from_untrusted x (metadata_of_approval approval)) (last_hash events))

  -- `audits.get_mut(..)?`, then the approval and the event are written.
  unfoldable pub commit_approval : ApprovalRequest → AuditEvent → Exec State Unit
  commit_approval approval event = with_lock λ state. do
    events ← require (get approval.run_id state.audits) audit_missing
    modify λ s. record s {
      approvals = insert approval.id approval s.approvals;
      audits = insert approval.run_id (events ++ event ∷ []) s.audits;
    }
    pure tt

  unfoldable pub create_approval :
      AuditEventId → ApprovalRequest → ActorId → UtcTimestamp → Exec State ApprovalRequest
  create_approval event_id submitted trusted_actor trusted_now = do
    refuse_if
        (not (is_pending submitted.status)
          || not (submitted.revision == 0)
          || not (str_eq submitted.requested_by trusted_actor)
          || not (submitted.created_at == trusted_now)
          || ltb 2048 (len submitted.request_reason))
        (approval_error "new approval invariants are invalid")
    let request = record submitted { request_reason = x.redact_text submitted.request_reason }
    _valid ← lift (validate request)
    with_lock λ state. do
      run ← require (get request.run_id state.runs) run_missing
      refuse_if (not (is_awaiting_approval run.status))
          (approval_error "approval run is not awaiting approval")
      refuse_if
          (contains_key request.id state.approvals
            || contains_key request.action_id state.action_claims
            || any (same_action request) (values state.approvals))
          (approval_error "approval already exists")
      event ← approval_event event_id state request approval_requested trusted_actor trusted_now
      commit_approval request event
      modify λ s. record s { approval_windows = insert request.id run.revision s.approval_windows }
      pure request

  -- The part of `decide_approval` after its checks of the current approval.
  unfoldable pub decide_current :
      AuditEventId
      → State
      → ApprovalRequest
      → ApprovalDecision
      → ActorId
      → Option String
      → UtcTimestamp
      → Exec State ApprovalRequest
  decide_current event_id state current decision trusted_actor reason trusted_now = do
    revision ← lift (next_revision current.revision)
    let updated : ApprovalRequest = record current {
      status = decided_status decision;
      revision = revision;
      decision = some (record {
        decision = decision;
        actor = trusted_actor;
        reason = elim reason [ none ↦ none | some r ↦ some (x.redact_text r) ];
        decided_at = trusted_now;
      });
    }
    _valid ← lift (validate updated)
    event ← approval_event event_id state updated (decided_event decision) trusted_actor trusted_now
    commit_approval updated event
    pure updated

  unfoldable pub decide_approval :
      AuditEventId
      → ApprovalId
      → ℕ
      → ApprovalDecision
      → ActorId
      → Option String
      → UtcTimestamp
      → Exec State ApprovalRequest
  decide_approval event_id approval_id expected_revision decision trusted_actor reason trusted_now =
      do
        refuse_if (is_some_and reason (λ r. ltb 2048 (len r)))
            (approval_error "approval decision reason is too long")
        with_lock λ state. do
          current ← require (get approval_id state.approvals) approval_missing
          refuse_if
              (not (is_pending current.status)
                || not (current.revision == expected_revision)
                || is_expired_at current trusted_now)
              (approval_error "approval is expired, stale, or no longer pending")
          if is_approve decision
              then (approval_window_run state current >>= λ _.
                  decide_current event_id state current decision trusted_actor reason trusted_now)
              else decide_current event_id state current decision trusted_actor reason trusted_now

  unfoldable pub expire_approval :
      AuditEventId → ApprovalId → ℕ → ActorId → UtcTimestamp → Exec State ApprovalRequest
  expire_approval event_id approval_id expected_revision trusted_actor trusted_now =
      with_lock λ state. do
        current ← require (get approval_id state.approvals) approval_missing
        refuse_if
            (not (can_expire current.status)
              || not (current.revision == expected_revision)
              || not (is_expired_at current trusted_now))
            (approval_error "approval cannot expire at this revision and time")
        revision ← lift (next_revision current.revision)
        let updated : ApprovalRequest = record current { status = expired; revision = revision }
        _valid ← lift (validate updated)
        event ← approval_event event_id state updated approval_expired trusted_actor trusted_now
        commit_approval updated event
        pure updated

  -- The branch of `consume_approval` that records a mismatch and fails.
  unfoldable pub record_mismatch :
      AuditEventId
      → State
      → ApprovalRequest
      → ActorId
      → UtcTimestamp
      → Exec State ApprovalConsumption
  record_mismatch event_id state current trusted_actor trusted_now = do
    event ←
        approval_event event_id state current approval_binding_mismatch trusted_actor trusted_now
    push_events current.run_id (event ∷ [])
    raise (approval_error "approval binding does not match action")

  -- The branch of `consume_approval` that claims the action.
  unfoldable pub consume_matching :
      AuditEventId
      → AuditEventId
      → State
      → ApprovalRequest
      → Run
      → ℕ
      → ActionRequest
      → ActorId
      → UtcTimestamp
      → Exec State ApprovalConsumption
  consume_matching event_id runtime_event_id state current run expected_revision action
        trusted_actor trusted_now =
      do
        _ready ← lift (can_consume_at x current action expected_revision trusted_now)
        refuse_if (contains_key action.id state.action_claims)
            (approval_error "action was already claimed")
        revision ← lift (next_revision current.revision)
        let updated : ApprovalRequest = record current {
          status = consumed;
          revision = revision;
          consumed_at = some trusted_now;
        }
        _valid ← lift (validate updated)
        let claim : ActionClaim = record {
          run_id = action.run_id;
          action_id = action.id;
          parameter_hash = action.parameter_hash;
          actor = trusted_actor;
          claimed_at = trusted_now;
        }
        event ← approval_event event_id state updated approval_consumed trusted_actor trusted_now
        run_revision ← require (checked_suc run.revision) (state_error "run revision overflow")
        let updated_run : Run = record run {
          status = running;
          revision = run_revision;
          updated_at = trusted_now;
          started_at = elim run.started_at [ none ↦ some trusted_now | some t ↦ some t ];
        }
        next_sequence ←
            require (checked_suc event.sequence) (internal_error "audit sequence overflow")
        runtime_event ← lift (
            build x runtime_event_id
              (with_run_status running (new_append trusted_actor trusted_now)) updated_run.id
              next_sequence runtime_started (some event.event_hash))
        events ← require (get updated.run_id state.audits) audit_missing
        modify λ s. record s {
          approvals = insert updated.id updated s.approvals;
          runs = insert updated_run.id updated_run s.runs;
          audits = insert updated.run_id (events ++ event ∷ runtime_event ∷ []) s.audits;
          action_claims = insert claim.action_id claim s.action_claims;
        }
        pure (record { approval = updated; action_claim = claim })

  unfoldable pub consume_approval :
      AuditEventId
      → AuditEventId
      → ApprovalId
      → ℕ
      → ActionRequest
      → ActorId
      → UtcTimestamp
      → Exec State ApprovalConsumption
  consume_approval event_id runtime_event_id approval_id expected_revision action trusted_actor
        trusted_now =
      with_lock λ state. do
        current ← require (get approval_id state.approvals) approval_missing
        run ← approval_window_run state current
        if is_approved current.status
              && current.revision == expected_revision
              && not (is_expired_at current trusted_now)
              && not (binding_matches x current action)
            then record_mismatch event_id state current trusted_actor trusted_now
            else consume_matching event_id runtime_event_id state current run expected_revision
                action trusted_actor trusted_now
