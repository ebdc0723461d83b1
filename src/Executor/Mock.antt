-- ===== src/Executor/Mock.antt =====
-- `MockActionExecutor` of crates/openwork-execution/src/action_executor.rs: its receipts by action.
use openwork.Common.{
  ℕ, ◌≡◌, refl, ◌+◌, Bool, true, false, not, ◌||◌, Option, none, some, List, [], ◌∷◌, ◌==◌, length,
  str_eq, if◌then◌else◌, arith,
}
use openwork.Common.Map.{Map, get, insert, contains_key, get-insert}
use openwork.Common.Result.{Result, ok, err}
use openwork.Common.Exec.{Exec, pure, with_lock, refuse_if, modify, ◌>>=◌, ◌>>◌}
use openwork.Contract.{ActionId}
use openwork.Store.Records.{ActionExecutionReceipt}
use openwork.Executor.{ClaimedAction, ActionExecutionOutcome, performed, recovered, invalid_receipt}

abbrev pub Receipts : Type 0
Receipts = Map ActionExecutionReceipt

-- `MockActionExecutor::execute`: the match on the receipt that is there.
unfoldable pub execute_found :
    ClaimedAction → Option ActionExecutionReceipt → Exec Receipts ActionExecutionOutcome
execute_found claimed (some receipt) = do
  refuse_if
      (not (receipt.run_id == claimed.action.run_id)
        || not (str_eq receipt.parameter_hash claimed.action.parameter_hash))
      invalid_receipt
  pure (recovered receipt)
execute_found claimed none =
    let receipt : ActionExecutionReceipt = record {
      run_id = claimed.action.run_id;
      action_id = claimed.action.id;
      parameter_hash = claimed.claim.parameter_hash;
    } in
    modify (insert claimed.action.id receipt) >> pure (performed receipt)

unfoldable pub execute : ClaimedAction → Exec Receipts ActionExecutionOutcome
unfolding execute_found
execute claimed = with_lock λ receipts. execute_found claimed (get claimed.action.id receipts)

unfoldable pub was_executed : ActionId → Exec Receipts Bool
was_executed action_id = with_lock λ receipts. pure (contains_key action_id receipts)

unfoldable pub execution_count : Exec Receipts ℕ
execution_count = with_lock λ receipts. pure (length receipts)

-- The calls of a caller one after another, on the receipts that the calls before left.
unfoldable pub run_executions : List ClaimedAction → Receipts → Receipts
run_executions [] receipts = receipts
run_executions (c ∷ calls) receipts = run_executions calls (execute c receipts).1

abbrev pub performs : ActionId → Result ActionExecutionOutcome → ℕ
performs id (ok (performed receipt)) = if receipt.action_id == id then 1 else 0
performs id (ok (recovered receipt)) = 0
performs id (err e) = 0

-- How often the calls performed an action, in place of recovering its receipt.
unfoldable pub performances : ActionId → List ClaimedAction → Receipts → ℕ
performances id [] receipts = 0
performances id (c ∷ calls) receipts =
    performs id (execute c receipts).0 + performances id calls (execute c receipts).1

abbrev pub known : ActionId → Receipts → ℕ
known id receipts = if contains_key id receipts then 1 else 0

-- A call performs an action exactly when its receipt becomes known by the call.
execute-known :
    (id : ActionId) (c : ClaimedAction) (receipts : Receipts)
    → performs id (execute c receipts).0 + known id receipts ≡ known id (execute c receipts).1
unfolding execute execute_found with_lock refuse_if ◌>>=◌ modify pure
execute-known id c receipts = go (get c.action.id receipts) refl
  where
    go :
        (found : Option ActionExecutionReceipt)
        → get c.action.id receipts ≡ found
        → performs id (execute_found c found receipts).0 + known id receipts
          ≡ known id (execute_found c found receipts).1
    go (some receipt) g =
        elim (not (receipt.run_id == c.action.run_id)
            || not (str_eq receipt.parameter_hash c.action.parameter_hash))
          as (λ b.
            performs id ((refuse_if b invalid_receipt >>= λ _. pure (recovered receipt)) receipts).0
              + known id receipts
            ≡ known id
                ((refuse_if b invalid_receipt >>= λ _. pure (recovered receipt)) receipts).1) [
                  | true ↦ omega arith
                  | false ↦ omega arith
                ]
    go none g =
        let receipt : ActionExecutionReceipt = record {
          run_id = c.action.run_id;
          action_id = c.action.id;
          parameter_hash = c.claim.parameter_hash;
        } in
        ground (arith, g, get-insert c.action.id id receipt receipts)

performances-known :
    (id : ActionId) (calls : List ClaimedAction) (receipts : Receipts)
    → performances id calls receipts + known id receipts ≡ known id (run_executions calls receipts)
unfolding performances run_executions
performances-known id [] receipts = omega arith
performances-known id (c ∷ calls) receipts =
    omega (arith, execute-known id c receipts, performances-known id calls (execute c receipts).1)

-- Over any list of calls on a new mock executor, an action is performed once if the executor knows it
-- at the end, and else never.
pub execute_once :
    (id : ActionId) (calls : List ClaimedAction)
    → performances id calls [] ≡ (if contains_key id (run_executions calls []) then 1 else 0)
unfolding get
execute_once id calls = omega (arith, performances-known id calls [])
