-- ===== src/Demo/Executor.antt =====
-- Actions executed on concrete inputs (crates/openwork-execution/src/action_executor.rs).
use openwork.Common.{◌≡◌, [], ◌∷◌, if◌then◌else◌}
use openwork.Common.Map.{contains_key}
use openwork.Common.Exec.Rules.{Ensures}
use openwork.Core.Json.{null}
use openwork.Contract.Action.{ActionRequest}
use openwork.Store.{ActionClaim}
use openwork.Store.Authority.{Backs}
use openwork.Store.Grants.{run_ops-IsAuthorized}
use openwork.Store.Slots.{Touches}
use openwork.Store.Refines.Receipts.{IsClaimed, Executed}
use openwork.Executor.{ClaimedAction, expected_receipt, verify, execute_with_audit}
use openwork.Executor.Claims.{IsExact, verify-IsExact}
use openwork.Executor.Audited.{execute_with_audit_lem}
use openwork.Executor.Mock.{execute, performances, run_executions, execute_once}
use openwork.Demo.{demo, create, claim, after_claim}

abbrev action : ActionRequest
action = record {
  id = 51;
  run_id = 7;
  action = "write_file";
  resource = "a.txt";
  parameters = null;
  parameter_hash = "abcd";
}

abbrev held : ActionClaim
held = record {
  run_id = 7;
  action_id = 51;
  parameter_hash = "abcd";
  actor = "carol";
  claimed_at = 8;
}

abbrev claimed : ClaimedAction
claimed = record { action = action; claim = held }

verify-IsExact_example :
    Ensures
      (λ t. (t ≡ after_claim) × (¬ IsExact demo after_claim action held))
      (λ r t.
        (t ≡ after_claim)
        × (r ≡ record { action = action; claim = held })
        × IsExact demo after_claim action held
        × Backs after_claim held)
      (verify demo action held)
      after_claim
verify-IsExact_example =
    verify-IsExact demo action held after_claim (run_ops-IsAuthorized demo (create ∷ claim ∷ []))

execute_with_audit_example :
    Ensures
      (λ t. t.0 ≡ after_claim)
      (λ r t.
        (r ≡ expected_receipt action)
        × IsClaimed after_claim (expected_receipt action)
        × Touches demo 7 after_claim t.0
        × Executed demo 7 9 after_claim t.0)
      (execute_with_audit demo execute 60 claimed "carol" 9)
      (after_claim, [])
execute_with_audit_example =
    execute_with_audit_lem demo execute 60 claimed "carol" 9 (after_claim, [])

execute_once_example :
    performances 51 (claimed ∷ claimed ∷ []) []
    ≡ (if contains_key 51 (run_executions (claimed ∷ claimed ∷ []) []) then 1 else 0)
execute_once_example = execute_once 51 (claimed ∷ claimed ∷ [])
