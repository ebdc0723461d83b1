-- ===== src/Demo/Queue.antt =====
-- Calls of `RunQueueRepository` on concrete inputs (crates/openwork-execution/src/store/mod.rs).
use mathlib.Core.List.{Memᴰ}
use openwork.Common.{ℕ, ◌+◌, ◌≡◌, refl, false, List, [], ◌∷◌, none, ◌&&◌, ◌==◌, any}
use openwork.Common.Int.{pos}
use openwork.Common.Map.{get, contains_key}
use openwork.Common.Exec.Rules.{Ensures}
use openwork.Contract.Run.{Run, running, succeeded, is_succeeded}
use openwork.Contract.{RunId}
use openwork.Store.{State, transition_event, empty}
use openwork.Store.Ops.{Op, run_ops}
use openwork.Store.Reach.{run_ops-IsValid}
use openwork.Store.Queue.{CancellationEvidence, before, least}
use openwork.Store.Queue.Ops.{
  claim_next_run, transition_leased_run, complete_leased_run, request_cancel, confirm_cancel,
  recover_expired_leases,
}
use openwork.Store.Slots.{Touches, Effect}
use openwork.Store.Validity.{IsValid-IsNamed}
use openwork.Store.Refines.Touch.{Advanced}
use openwork.Store.Refines.Queue.{
  Validated, Carried, transition_leased_run_lem, complete_leased_run_lem,
}
use openwork.Store.Refines.Cancel.{Asked, Confirmed, request_cancel_lem, confirm_cancel_lem}
use openwork.Store.Refines.Recovery.{is_expired, MayRecover, Recovered, recover_expired_leases_lem}
use openwork.Store.Refines.Choice.{Searched, claim_next_run_lem, least-IsFirst}
use openwork.Demo.{
  create, claim, demo, fresh, lease, after_create, after_claim, after_create-IsValid,
  after_claim-IsValid,
}

claim_next_run_example :
    Ensures
      (λ t. t ≡ after_create)
      (λ l t. Effect demo after_create t × Searched demo 99 "bob" 6 (pos 1000) after_create l t)
      (claim_next_run demo 2 99 "bob" 6 (pos 1000))
      after_create
claim_next_run_example =
    claim_next_run_lem demo 2 99 "bob" 6 (pos 1000) after_create after_create-IsValid

-- Two queued runs of one time, and an earlier one.
abbrev waiting : List (ℕ × Run)
waiting =
    (7, fresh) ∷ (8, record fresh { id = 8 }) ∷ (9, record fresh { id = 9; created_at = 4 }) ∷ []

least-IsFirst_example : before (7, fresh) (9, record fresh { id = 9; created_at = 4 }) ≡ false
unfolding least get
least-IsFirst_example =
    least-IsFirst [] waiting none (9, record fresh { id = 9; created_at = 4 }) (7, fresh) refl
      (Memᴰ.head refl) refl

transition_leased_run_example :
    Ensures
      (λ t. t ≡ after_claim)
      (λ l t. Touches demo 7 after_claim t × Carried lease 1 running 10 after_claim l t)
      (transition_leased_run demo 3 lease 1 running 10)
      after_claim
transition_leased_run_example =
    transition_leased_run_lem demo 3 lease 1 running 10 after_claim
      (IsValid-IsNamed demo after_claim after_claim-IsValid)

complete_leased_run_example :
    Ensures
      (λ t. t ≡ after_claim)
      (λ r t.
        Touches demo 7 after_claim t
        × ((c : Run) × Validated after_claim lease 1 10 c)
        × (is_succeeded succeeded && contains_key 7 after_claim.cancel_requested ≡ false)
        × (r.status ≡ succeeded)
        × ((c : Run) × Advanced 7 c r succeeded 10 (transition_event succeeded) after_claim t)
        × (get 7 t.leases ≡ none))
      (complete_leased_run demo 3 lease 1 succeeded none 10)
      after_claim
complete_leased_run_example =
    complete_leased_run_lem demo 3 lease 1 succeeded none 10 after_claim
      (IsValid-IsNamed demo after_claim after_claim-IsValid)

request_cancel_example :
    Ensures
      (λ t. t ≡ after_claim)
      (λ c t. Touches demo 7 after_claim t × Asked 7 10 after_claim c t)
      (request_cancel demo 3 7 "alice" 10)
      after_claim
request_cancel_example =
    request_cancel_lem demo 3 7 "alice" 10 after_claim
      (IsValid-IsNamed demo after_claim after_claim-IsValid)

abbrev evidence : CancellationEvidence
evidence = record { run_id = 7; sandbox_id = "box"; lease_token = 99; lease_owner = "bob" }

-- The claimed run with its cancellation requested.
abbrev after_request : State
after_request = run_ops demo (create ∷ claim ∷ Op.request_cancel 3 7 "alice" 10 ∷ []) empty

confirm_cancel_example :
    Ensures
      (λ t. t ≡ after_request)
      (λ r t. Touches demo 7 after_request t × Confirmed lease evidence 11 after_request r t)
      (confirm_cancel demo 4 lease 11 evidence)
      after_request
confirm_cancel_example = confirm_cancel_lem demo 4 lease 11 evidence after_request (
    IsValid-IsNamed demo after_request
      (run_ops-IsValid demo (create ∷ claim ∷ Op.request_cancel 3 7 "alice" 10 ∷ [])))

recover_expired_leases_example :
    Ensures
      (λ t. Effect demo after_claim t × ((id : RunId) → MayRecover 2000 after_claim t id))
      (λ ids t.
        Effect demo after_claim t
        × ((id : RunId) → Recovered 2000 after_claim t id)
        × ((id : RunId) → any (λ j. j == id) ids ≡ any (is_expired 2000 id) after_claim.leases))
      (recover_expired_leases demo (λ i. i + 70) "system" 2000)
      after_claim
recover_expired_leases_example =
    recover_expired_leases_lem demo (λ i. i + 70) "system" 2000 after_claim after_claim-IsValid
