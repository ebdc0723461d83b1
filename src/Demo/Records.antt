-- ===== src/Demo/Records.antt =====
-- Calls of `ExecutionStore` on concrete inputs (crates/openwork-execution/src/store/mod.rs).
use openwork.Common.{◌≡◌, [], ◌∷◌, none, some}
use openwork.Common.Map.{get, insert}
use openwork.Common.Exec.Rules.{Ensures}
use openwork.Contract.Run.{planning, Run}
use openwork.Contract.Audit.{AuditEvent, run_created}
use openwork.Audit.{new_append}
use openwork.Store.{State, transition_event, empty}
use openwork.Store.Refines.Touch.{Advanced}
use openwork.Store.Records.{
  ActionExecutionReceipt, create_run, transition_run, reconcile_action_execution,
}
use openwork.Store.Slots.{Touches}
use openwork.Store.Validity.{IsValid-IsNamed}
use openwork.Store.Refines.Records.{
  create_run_lem, transition_run_lem, reconcile_action_execution_lem,
}
use openwork.Store.Refines.Receipts.{IsClaimed, Reconciled}
use openwork.Demo.{demo, fresh, after_create, after_create-IsValid}

create_run_example :
    Ensures
      (λ t. t ≡ empty)
      (λ r t.
        Touches demo 7 empty t
        × (r ≡ fresh)
        × (get 7 empty.runs ≡ none)
        × (get 7 t.runs ≡ some fresh)
        × ((e : AuditEvent) × (get 7 t.audits ≡ some (e ∷ []))
            × (e.event_type ≡ run_created)
            × (e.timestamp ≡ 5)))
      (create_run demo 1 fresh (new_append "alice" 5))
      empty
create_run_example = create_run_lem demo 1 fresh (new_append "alice" 5) empty

transition_run_example :
    Ensures
      (λ t. t ≡ after_create)
      (λ r' t.
        Touches demo 7 after_create t
        × (get 7 after_create.leases ≡ none)
        × ((r : Run) × (r.revision ≡ 0)
            × Advanced 7 r r' planning 8 (transition_event planning) after_create t))
      (transition_run demo 3 7 0 planning none (new_append "alice" 8))
      after_create
transition_run_example =
    transition_run_lem demo 3 7 0 planning none (new_append "alice" 8) after_create
      (IsValid-IsNamed demo after_create after_create-IsValid)

abbrev receipt : ActionExecutionReceipt
receipt = record { run_id = 7; action_id = 51; parameter_hash = "h" }

-- The created run with a claim of one of its actions.
abbrev one_claim : State
one_claim = record after_create {
  action_claims =
      insert 51
        (record {
          run_id = 7;
          action_id = 51;
          parameter_hash = "h";
          actor = "carol";
          claimed_at = 8;
        })
        [];
}

reconcile_action_execution_example :
    Ensures
      (λ t. t ≡ one_claim)
      (λ b t.
        Touches demo 7 one_claim t
        × IsClaimed one_claim receipt
        × (get 7 one_claim.leases ≡ none)
        × Reconciled demo receipt (new_append "alice" 8) one_claim b t)
      (reconcile_action_execution demo 3 receipt (new_append "alice" 8))
      one_claim
reconcile_action_execution_example =
    reconcile_action_execution_lem demo 3 receipt (new_append "alice" 8) one_claim
