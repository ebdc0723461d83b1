-- ===== src/Store/Refines/Receipts.antt =====
-- The receipts of executed actions on the memory store (crates/openwork-execution/src/store/mod.rs):
-- the claim that a receipt needs, and the event that it adds.
use openwork.Common.{◌≡◌, refl, true, false, some, List, [], ◌∷◌, arith, eq_iff, Bool}
use openwork.Common.Map.{get}
use openwork.Common.Result.{ok}
use openwork.Common.Exec.Rules.{
  Ensures, Ensures-pure, Ensures-refuse_if, Ensures-require, Ensures-lift,
}
use openwork.Contract.{RunId, AuditEventId, UtcTimestamp}
use openwork.Contract.External.{External}
use openwork.Contract.Audit.{AuditEvent, action_executed, from_untrusted}
use openwork.Audit.{AuditAppend, metadata_of, with_action_execution}
use openwork.Audit.Chain.{build-Follows}
use openwork.Store.{State, ActionClaim, last_hash}
use openwork.Store.Records.{
  ActionExecutionReceipt, verify_execution_claim, append_receipt, execution_receipt_was_audited,
}
use openwork.Store.Chains.{build-Extends}
use openwork.Store.Slots.{Touches}
use openwork.Store.Refines.{Appended, push_events-Ensures}
use openwork.Store.Refines.Touch.{touch_logged}

-- One more event on the chain of a run, that of an action executed.
pub record Executed (x : External) (id : RunId) (at : UtcTimestamp) (s t : State) : Type 0 where
  pub appended : Appended x id at s t
  pub typed : appended.event.event_type ≡ action_executed

abbrev pub executed : AuditAppend → ActionExecutionReceipt → AuditAppend
executed audit receipt = with_action_execution receipt.action_id receipt.parameter_hash audit

-- The store holds the claim of the action of a receipt.
pub record IsClaimed (s : State) (receipt : ActionExecutionReceipt) : Type 0 where
  pub claim : ActionClaim
  pub stored : get receipt.action_id s.action_claims ≡ some claim
  pub same_run : claim.run_id ≡ receipt.run_id
  pub same_hash : claim.parameter_hash ≡ receipt.parameter_hash

pub verify_execution_claim_lem :
    (receipt : ActionExecutionReceipt) (s : State)
    → Ensures
        (λ t. t ≡ s)
        (λ _ t. (t ≡ s) × IsClaimed s receipt)
        (verify_execution_claim s receipt)
        s
verify_execution_claim_lem receipt s = Ensures-require _ _ _ refl λ claim claimed.
    Ensures-refuse_if _ _ _ refl λ exact. Ensures-pure tt (
      refl,
      record {
        claim = claim;
        stored = claimed;
        same_run = ground (arith, exact);
        same_hash = ground (arith, exact, eq_iff claim.parameter_hash receipt.parameter_hash);
      },
    )

-- What becomes of a receipt: a known one changes nothing, any other is put on the chain.
pub data Reconciled (x : External) (receipt : ActionExecutionReceipt) (audit : AuditAppend)
    (s : State) (b : Bool) (t : State) : Type 0 where
  known :
      (events : List AuditEvent)
      → get receipt.run_id s.audits ≡ some events
      → execution_receipt_was_audited x events receipt ≡ ok true
      → b ≡ false
      → t ≡ s
      → Reconciled x receipt audit s b t
  added :
      (events : List AuditEvent)
      → get receipt.run_id s.audits ≡ some events
      → execution_receipt_was_audited x events receipt ≡ ok false
      → b ≡ true
      → (done : Executed x receipt.run_id audit.timestamp s t)
      → done.appended.event.metadata
        ≡ from_untrusted x (metadata_of x (executed audit receipt).details)
      → Reconciled x receipt audit s b t

pub Reconciled-unchanged :
    {x : External} {receipt : ActionExecutionReceipt} {audit : AuditAppend} {s : State} {b : Bool}
    {t : State}
    → Reconciled x receipt audit s b t
    → b ≡ false
    → t ≡ s
Reconciled-unchanged (known _ _ _ _ same) h = same
Reconciled-unchanged (added _ _ _ new _ _) h = cc

pub Reconciled-Executed :
    {x : External} {receipt : ActionExecutionReceipt} {audit : AuditAppend} {s : State} {b : Bool}
    {t : State}
    → Reconciled x receipt audit s b t
    → b ≡ true
    → Executed x receipt.run_id audit.timestamp s t
Reconciled-Executed (known _ _ _ old _) h = cc
Reconciled-Executed (added _ _ _ _ done _) h = done

module _ (x : External) where
  pub append_receipt_lem :
      (event_id : AuditEventId) (receipt : ActionExecutionReceipt) (audit : AuditAppend)
      (events : List AuditEvent) (s : State)
      → get receipt.run_id s.audits ≡ some events
      → Ensures
          (λ t. t ≡ s)
          (λ b t.
            (b ≡ true)
            × Touches x receipt.run_id s t
            × ((done : Executed x receipt.run_id audit.timestamp s t)
                × (done.appended.event.metadata
                    ≡ from_untrusted x (metadata_of x (executed audit receipt).details))))
          (append_receipt x event_id receipt audit events)
          s
  unfolding append_receipt
  append_receipt_lem event_id receipt audit events s held = Ensures-refuse_if _ _ _ refl λ late.
      Ensures-lift _ _ refl λ n count. Ensures-lift _ _ refl λ event built.
        push_events-Ensures receipt.run_id events (event ∷ []) _ _ held (
          Ensures-pure true (
            refl,
            touch_logged x receipt.run_id s _ events (event ∷ []) held
                (build-Extends x event_id (executed audit receipt) receipt.run_id events n _ event
                  late count built).0
                refl refl refl refl,
            (
              record {
                appended = record {
                  events = events;
                  event = event;
                  held = held;
                  extends =
                      (build-Extends x event_id (executed audit receipt) receipt.run_id events n _
                        event late count built).0;
                  stamped =
                      (build-Extends x event_id (executed audit receipt) receipt.run_id events n _
                        event late count built).1;
                  result = refl;
                };
                typed =
                    (build-Extends x event_id (executed audit receipt) receipt.run_id events n _
                      event late count built).2;
              },
              (build-Follows x event_id (executed audit receipt) receipt.run_id n action_executed
                  (last_hash events) event 0 built (omega arith)).3,
            ),
          ))
