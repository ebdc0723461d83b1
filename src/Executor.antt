-- ===== src/Executor.antt =====
-- The executor of claimed actions (crates/openwork-execution/src/action_executor.rs). The store and the
-- executor each keep a state of their own; `on_store` and `on_executor` run a part on its half.
pub mod Claims
pub mod Mock
pub mod Audited
use openwork.Common.{
  String, Bool, true, false, not, ◌&&◌, ◌||◌, Option, ◌==◌, str_eq, is_some_and, if◌then◌else◌,
}
use openwork.Common.Map.{Map, get, insert}
use openwork.Common.Result.{OpenWorkError, Result, ok, err, approval_error}
use openwork.Common.Exec.{Exec, pure, raise, with_lock, refuse_if, modify, get_state, ◌>>=◌, ◌>>◌}
use openwork.Contract.{ActionId, UtcTimestamp, ActorId, AuditEventId}
use openwork.Contract.Action.{ActionRequest, parameters_match_hash}
use openwork.Contract.External.{External}
use openwork.Audit.{new_append}
use openwork.Store.{State, ActionClaim}
use openwork.Store.Records.{ActionExecutionReceipt, reconcile_action_execution}

pub record ClaimedAction : Type 0 where
  pub action : ActionRequest
  pub claim : ActionClaim

pub data ActionExecutionOutcome : Type 0 where
  performed recovered : ActionExecutionReceipt → ActionExecutionOutcome

abbrev pub into_receipt : ActionExecutionOutcome → ActionExecutionReceipt × Bool
into_receipt (performed receipt) = (receipt, false)
into_receipt (recovered receipt) = (receipt, true)

abbrev pub invalid_claim : OpenWorkError
invalid_claim = approval_error "action does not match an exact consumed approval claim"

abbrev pub invalid_receipt : OpenWorkError
invalid_receipt =
    approval_error
      "action execution receipt is missing, duplicated, or does not match the exact claim"

-- `==` of two claims and of two receipts, as derived
unfoldable pub same_claim : ActionClaim → ActionClaim → Bool
same_claim a b =
    a.run_id == b.run_id
    && a.action_id == b.action_id
    && str_eq a.parameter_hash b.parameter_hash
    && str_eq a.actor b.actor
    && a.claimed_at == b.claimed_at

unfoldable pub same_receipt : ActionExecutionReceipt → ActionExecutionReceipt → Bool
same_receipt a b =
    a.run_id == b.run_id && a.action_id == b.action_id && str_eq a.parameter_hash b.parameter_hash

-- `InMemoryExecutionStore::get_action_claim`
unfoldable pub get_action_claim : ActionId → Exec State (Option ActionClaim)
get_action_claim action_id = with_lock λ state. pure (get action_id state.action_claims)

-- The receipt that an action asks for.
abbrev pub expected_receipt : ActionRequest → ActionExecutionReceipt
expected_receipt action = record {
  run_id = action.run_id;
  action_id = action.id;
  parameter_hash = action.parameter_hash;
}

module _ (x : External) where
  -- `ClaimedAction::verify`
  unfoldable pub verify : ActionRequest → ActionClaim → Exec State ClaimedAction
  verify action claim = do
    refuse_if
        (not (parameters_match_hash x action)
          || not (action.run_id == claim.run_id)
          || not (action.id == claim.action_id)
          || not (str_eq action.parameter_hash claim.parameter_hash))
        invalid_claim
    persisted ← get_action_claim action.id
    refuse_if (not (is_some_and persisted (λ stored. same_claim stored claim))) invalid_claim
    pure (record { action = action; claim = claim })

module _ {E A : Type 0} where
  unfoldable pub on_store : Exec State A → Exec (State × E) A
  on_store m (s, w) = let (r, t) = m s in (r, (t, w))

  unfoldable pub on_executor : Exec E A → Exec (State × E) A
  on_executor m (s, w) = let (r, v) = m w in (r, (s, v))

module _ (x : External) {E : Type 0} (execute : ClaimedAction → Exec E ActionExecutionOutcome) where
  unfoldable pub execute_with_audit :
      AuditEventId
      → ClaimedAction
      → ActorId
      → UtcTimestamp
      → Exec (State × E) ActionExecutionReceipt
  execute_with_audit event_id claimed actor timestamp = do
    outcome ← on_executor (execute claimed)
    refuse_if (not (same_receipt (into_receipt outcome).0 (expected_receipt claimed.action)))
        invalid_receipt
    appended ← on_store (
        reconcile_action_execution x event_id (into_receipt outcome).0 (new_append actor timestamp))
    refuse_if (not appended) (
        approval_error (
          if (into_receipt outcome).1
          then "executed action was already reconciled"
          else "executor performed an action with an existing audit receipt"))
    pure (into_receipt outcome).0
