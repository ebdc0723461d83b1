-- ===== src/Store/Records.antt =====
-- `impl ExecutionStore for InMemoryExecutionStore` of crates/openwork-execution/src/store/mod.rs.
use Prim.Native.String.{len}
use openwork.Common.{
  ℕ, zero, suc, ◌+◌, String, Bool, true, false, not, ◌||◌, Option, none, some, List, [], ◌∷◌, ◌++◌,
  any, count_if, ltb, ◌==◌, str_eq, is_some, if◌then◌else◌,
}
use openwork.Common.Map.{get, insert, contains_key}
use openwork.Common.Result
use openwork.Common.Result.{
  Result, ok, err, state_error, approval_error, artifact_error, internal_error, ok_or_else,
}
use openwork.Common.Exec.{Exec, pure, lift, with_lock, require, refuse_if, modify, ◌>>=◌, ◌>>◌}
use openwork.Core.Text.{is_blank}
use openwork.Core.Json.{get_entry, as_str}
use openwork.Contract.{RunId, AuditEventId, ActionId, Sha256Digest}
use openwork.Contract.External.{External}
use openwork.Contract.Run.{RunStatus, can_transition_to, is_queued, Run, Artifact}
use openwork.Contract.Audit.{
  AuditEventType, run_created, artifact_created, action_executed, AuditEvent,
}
use openwork.Audit.{AuditAppend, with_run_status, with_artifact, with_action_execution, build}
use openwork.Store.{
  State, run_missing, audit_missing, or_empty, checked_suc, next_sequence, last_hash, precedes_last,
  push_events, advance, transition_event,
}

-- `ActionExecutionReceipt` of action_executor.rs
pub record ActionExecutionReceipt : Type 0 where
  pub run_id : RunId
  pub action_id : ActionId
  pub parameter_hash : Sha256Digest

-- The conditions of `validate_new_run`, joined by `||`.
unfoldable pub invalid_new_run : Run → Bool
invalid_new_run run =
    not (is_queued run.status)
    || not (run.revision == 0)
    || is_blank run.runtime
    || ltb 128 (len run.runtime)
    || str_eq run.workspace ""
    || not (run.updated_at == run.created_at)
    || is_some run.started_at
    || is_some run.completed_at
    || is_some run.terminal_reason

-- `reject_unbound_leased_write`
abbrev pub reject_unbound_leased_write : State → RunId → Exec State Unit
reject_unbound_leased_write state run_id =
    refuse_if (contains_key run_id state.leases)
      (state_error "leased runs must use a lease-capability-bound worker write")

-- A candidate's path is stored already, or stands in the batch twice.
abbrev pub duplicate_path : List Artifact → List Artifact → List Artifact → Bool
duplicate_path existing all candidates =
    any
      (λ c.
        any (λ stored. str_eq stored.path c.path) existing
        || ltb 1 (count_if (λ item. str_eq item.path c.path) all))
      candidates

-- The checks of `record_artifacts` and of `validate_artifact_batch`.
abbrev pub validate_artifact_batch : State → RunId → List Artifact → Exec State Unit
validate_artifact_batch state run_id artifacts = do
  refuse_if (not (contains_key run_id state.runs) || any (λ a. not (a.run_id == run_id)) artifacts)
      (artifact_error "artifact run mismatch")
  refuse_if (any (λ a. is_blank a.media_type) artifacts)
      (artifact_error "artifact media type is empty")
  refuse_if (duplicate_path (or_empty (get run_id state.artifacts)) artifacts artifacts)
      (artifact_error "duplicate artifact path")
  pure tt

-- `action_claims.get(..)` of `verify_execution_claim`
abbrev pub verify_execution_claim : State → ActionExecutionReceipt → Exec State Unit
verify_execution_claim state receipt = do
  claim ←
      require (get receipt.action_id state.action_claims)
        (approval_error "action execution has no durable claim")
  refuse_if
      (not (claim.run_id == receipt.run_id)
        || not (str_eq claim.parameter_hash receipt.parameter_hash))
      (approval_error "action execution receipt does not match its durable claim")
  pure tt

abbrev is_action_executed : AuditEventType → Bool
is_action_executed action_executed = true
is_action_executed _ = false

-- A text of an event's metadata.
abbrev text_of : AuditEvent → String → Result String
text_of event key =
    ok_or_else (elim (get_entry key event.metadata.as_map) [ none ↦ none | some v ↦ as_str v ])
      (approval_error "action execution audit metadata is invalid")

module _ (x : External) where
  -- One round of the loop of `execution_receipt_was_audited`; `matches` is a `u8`.
  unfoldable pub count_receipt : ActionExecutionReceipt → AuditEvent → ℕ → Result ℕ
  unfolding get_entry
  count_receipt receipt event matches =
      if not (is_action_executed event.event_type)
      then ok matches
      else Result.◌>>=◌ (text_of event "action_id") λ action_id.
        Result.◌>>=◌ (text_of event "parameter_hash") λ parameter_hash.
          if not (str_eq action_id (x.to_hyphenated receipt.action_id))
          then ok matches
          else if not (event.run_id == receipt.run_id)
              || not (str_eq parameter_hash receipt.parameter_hash)
          then err (approval_error "action execution audit binding is invalid")
          else if ltb matches 255
          then ok (matches + 1)
          else err (approval_error "duplicate action execution audit")

  unfoldable pub count_receipts : ActionExecutionReceipt → List AuditEvent → ℕ → Result ℕ
  count_receipts receipt [] matches = ok matches
  count_receipts receipt (event ∷ events) matches =
      Result.◌>>=◌ (count_receipt receipt event matches) (count_receipts receipt events)

  -- The match on `exact_matches`.
  abbrev audited_once : ℕ → Result Bool
  audited_once zero = ok false
  audited_once (suc zero) = ok true
  audited_once (suc (suc n)) = err (approval_error "duplicate action execution audit")

  unfoldable pub execution_receipt_was_audited :
      List AuditEvent → ActionExecutionReceipt → Result Bool
  execution_receipt_was_audited events receipt =
      Result.◌>>=◌ (count_receipts receipt events 0) audited_once

  -- The loop of `record_artifacts`: one event for each file, each bound to the one before. `sequence`
  -- is that of the first; `event_ids i` is the identifier drawn in round `i`.
  unfoldable pub artifact_events :
      AuditAppend
      → RunId
      → (ℕ → AuditEventId)
      → ℕ
      → Option Sha256Digest
      → List Artifact
      → Result (List AuditEvent)
  artifact_events audit run_id event_ids sequence previous [] = ok []
  artifact_events audit run_id event_ids sequence previous (file ∷ files) =
      Result.◌>>=◌
        (build x (event_ids 0) (with_artifact file audit) run_id sequence artifact_created previous)
        λ event.
          Result.◌>>=◌
            (ok_or_else (checked_suc sequence) (internal_error "audit sequence overflow"))
            λ next.
              Result.◌>>=◌
                (artifact_events audit run_id (λ i. event_ids (suc i)) next (some event.event_hash)
                  files)
                λ events. ok (event ∷ events)

  unfoldable pub create_run : AuditEventId → Run → AuditAppend → Exec State Run
  create_run event_id run audit = do
    refuse_if (invalid_new_run run) (state_error "new run invariants are invalid")
    refuse_if (not (audit.timestamp == run.created_at))
        (state_error "genesis audit timestamp must match run creation")
    with_lock λ state. do
      refuse_if (contains_key run.id state.runs) (state_error "run already exists")
      event ← lift (build x event_id audit run.id 1 run_created none)
      modify (λ s. record s { audits = insert run.id (event ∷ []) s.audits })
      modify (λ s. record s { runs = insert run.id run s.runs })
      pure run

  unfoldable pub transition_run :
      AuditEventId → RunId → ℕ → RunStatus → Option String → AuditAppend → Exec State Run
  transition_run event_id run_id expected_revision next reason audit = with_lock λ state. do
    refuse_if (contains_key run_id state.leases)
        (state_error "leased runs must use a lease-capability-bound transition")
    current ← require (get run_id state.runs) run_missing
    refuse_if
        (not (current.revision == expected_revision) || not (can_transition_to current.status next))
        (state_error "run revision is stale or transition is illegal")
    refuse_if (ltb audit.timestamp current.updated_at)
        (state_error "run timestamps cannot move backwards")
    events ← require (get run_id state.audits) audit_missing
    refuse_if (precedes_last audit.timestamp events)
        (state_error "audit timestamps cannot move backwards")
    sequence ← lift (next_sequence events)
    event ← lift (
        build x event_id (with_run_status next audit) run_id sequence (transition_event next)
          (last_hash events))
    updated ← lift (advance x current next reason audit.timestamp)
    modify (λ s. record s { runs = insert run_id updated s.runs })
    push_events run_id (event ∷ [])
    pure updated

  unfoldable pub append_audit :
      AuditEventId → RunId → AuditEventType → AuditAppend → Exec State AuditEvent
  append_audit event_id run_id event_type audit = with_lock λ state. do
    refuse_if (not (contains_key run_id state.runs)) run_missing
    reject_unbound_leased_write state run_id
    events ← require (get run_id state.audits) audit_missing
    refuse_if (precedes_last audit.timestamp events)
        (state_error "audit timestamps cannot move backwards")
    sequence ← lift (next_sequence events)
    event ← lift (build x event_id audit run_id sequence event_type (last_hash events))
    push_events run_id (event ∷ [])
    pure event

  -- The part of `reconcile_action_execution` after the check for an earlier receipt.
  unfoldable pub append_receipt :
      AuditEventId → ActionExecutionReceipt → AuditAppend → List AuditEvent → Exec State Bool
  append_receipt event_id receipt audit events = do
    refuse_if (precedes_last audit.timestamp events)
        (state_error "action execution audit timestamp moved backwards")
    sequence ← lift (next_sequence events)
    event ← lift (
        build x event_id (with_action_execution receipt.action_id receipt.parameter_hash audit)
          receipt.run_id sequence action_executed (last_hash events))
    push_events receipt.run_id (event ∷ [])
    pure true

  unfoldable pub reconcile_action_execution :
      AuditEventId → ActionExecutionReceipt → AuditAppend → Exec State Bool
  reconcile_action_execution event_id receipt audit = with_lock λ state. do
    reject_unbound_leased_write state receipt.run_id
    verify_execution_claim state receipt
    events ← require (get receipt.run_id state.audits) audit_missing
    audited ← lift (execution_receipt_was_audited events receipt)
    if audited then pure false else append_receipt event_id receipt audit events

  unfoldable pub record_artifacts :
      (ℕ → AuditEventId) → RunId → List Artifact → AuditAppend → Exec State Unit
  record_artifacts event_ids run_id artifacts audit = with_lock λ state. do
    reject_unbound_leased_write state run_id
    validate_artifact_batch state run_id artifacts
    chain ← require (get run_id state.audits) audit_missing
    refuse_if (precedes_last audit.timestamp chain)
        (state_error "audit timestamps cannot move backwards")
    sequence ← lift (next_sequence chain)
    events ← lift (artifact_events audit run_id event_ids sequence (last_hash chain) artifacts)
    modify λ s. record s {
      artifacts = insert run_id (or_empty (get run_id s.artifacts) ++ artifacts) s.artifacts;
    }
    push_events run_id events
