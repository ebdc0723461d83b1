-- ===== src/Demo/Approvals.antt =====
-- Calls of `ApprovalRepository` on concrete inputs (crates/openwork-execution/src/store/mod.rs).
use openwork.Common.{[], ◌∷◌, ◌≡◌, ◌≤◌, refl, none, some, true, ◌⊎◌}
use openwork.Common.Map.{get, insert}
use openwork.Common.Exec.Rules.{Ensures}
use openwork.Contract.Approval as A
use openwork.Contract.Approval.{ApprovalRequest, is_pending, is_approved}
use openwork.Contract.Action.{ActionRequest}
use openwork.Core.Json.{null}
use openwork.Store.{State, ActionClaim, empty}
use openwork.Store.Approvals.{create_approval, decide_approval, expire_approval, consume_approval}
use openwork.Store.Authority.{ApprovalStep, IsAuthorized}
use openwork.Store.Slots.{Touches, Effect}
use openwork.Store.Refines.Approvals.{decide_approval_lem, expire_approval_lem}
use openwork.Store.Refines.Revisions.{Decidable, Decided, Rewritten}
use openwork.Store.Refines.Consume.{Kept, Spent, consume_approval_lem}
use openwork.Contract.Run.{planning, awaiting_approval}
use openwork.Contract.Audit.{approval_expired}
use openwork.Audit.{new_append}
use openwork.Store.Ops.{Op, run_ops}
use openwork.Store.Reach.{empty-IsValid, run_ops-IsValid}
use openwork.Store.Grants.{run_ops-IsAuthorized, run_ops-keeps_claims}
use openwork.Demo.{create, demo, request}

abbrev plan : Op
plan = Op.transition_run 2 7 0 planning none (new_append "alice" 6)

abbrev hold : Op
hold = Op.transition_run 3 7 1 awaiting_approval none (new_append "alice" 6)

abbrev file : Op
file = Op.create_approval 4 request "alice" 6

abbrev approve : Op
approve = Op.decide_approval 5 41 0 A.approve "carol" none 7

-- The store with the request filed.
abbrev filed : State
filed = run_ops demo (create ∷ plan ∷ hold ∷ file ∷ []) empty

-- The store with the request approved.
abbrev approved : State
approved = run_ops demo (create ∷ plan ∷ hold ∷ file ∷ approve ∷ []) empty

decide_approval_example :
    Ensures
      (λ t. t ≡ filed)
      (λ b t.
        (a : ApprovalRequest) × (get 41 filed.approvals ≡ some a)
        × Touches demo a.run_id filed t
        × ApprovalStep filed t
        × Decidable a A.approve 0 7 filed
        × Decided demo a A.approve "carol" none 7 filed b t)
      (decide_approval demo 5 41 0 A.approve "carol" none 7)
      filed
decide_approval_example = decide_approval_lem demo 5 41 0 A.approve "carol" none 7 filed

expire_approval_example :
    Ensures
      (λ t. t ≡ filed)
      (λ b t.
        (a : ApprovalRequest) × (get 41 filed.approvals ≡ some a)
        × Touches demo a.run_id filed t
        × ApprovalStep filed t
        × ((is_pending a.status ≡ true) ⊎ (is_approved a.status ≡ true))
        × (a.revision ≡ 0)
        × (a.expires_at ≤ 200)
        × (b.status ≡ A.expired)
        × Rewritten a b 200 approval_expired filed t)
      (expire_approval demo 5 41 0 "system" 200)
      filed
expire_approval_example = expire_approval_lem demo 5 41 0 "system" 200 filed

abbrev action : ActionRequest
action = record {
  id = 51;
  run_id = 7;
  action = "write_file";
  resource = "a.txt";
  parameters = null;
  parameter_hash = "abcd";
}

abbrev spend : Op
spend = Op.consume_approval 6 7 41 1 action "carol" 8

consume_approval_example :
    Ensures
      (Kept demo approved)
      (λ c t. Effect demo approved t × ApprovalStep approved t × Spent demo 41 action approved c t)
      (consume_approval demo 6 7 41 1 action "carol" 8)
      approved
consume_approval_example =
    consume_approval_lem demo 6 7 41 1 action "carol" 8 approved
      (run_ops-IsValid demo (create ∷ plan ∷ hold ∷ file ∷ approve ∷ []))

abbrev claim : ActionClaim
claim = record {
  run_id = 7;
  action_id = 51;
  parameter_hash = "abcd";
  actor = "carol";
  claimed_at = 8;
}

abbrev one_claim : State
one_claim = record empty { action_claims = insert 51 claim [] }

run_ops-keeps_claims_example :
    get 51 (run_ops demo (create ∷ file ∷ []) one_claim).action_claims ≡ some claim
unfolding get insert
run_ops-keeps_claims_example =
    run_ops-keeps_claims demo (create ∷ file ∷ []) one_claim 51 claim (empty-IsValid demo) refl

run_ops-IsAuthorized_example :
    IsAuthorized (run_ops demo (create ∷ plan ∷ hold ∷ file ∷ approve ∷ spend ∷ []) empty)
run_ops-IsAuthorized_example =
    run_ops-IsAuthorized demo (create ∷ plan ∷ hold ∷ file ∷ approve ∷ spend ∷ [])
