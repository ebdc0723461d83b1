-- ===== src/Store/Refines/Release.antt =====
-- One round of `recover_expired_leases` on the memory store
-- (crates/openwork-execution/src/store/mod.rs).
use openwork.Common.{◌≡◌, refl, true, none, some}
use openwork.Common.Map.{get, get-remove_self, get-remove_ne}
use openwork.Common.Exec.Rules.{
  Ensures, Ensures-with_lock, Ensures-refuse_if, Ensures-require, Ensures-if, Ensures-bind,
  Ensures-modify_last,
}
use openwork.Contract.{RunId, AuditEventId, UtcTimestamp, ActorId}
use openwork.Contract.External.{External}
use openwork.Contract.Run.{failed, is_terminal, Run}
use openwork.Store.{State}
use openwork.Store.Queue.{release}
use openwork.Store.Queue.Ops.{recover_lease}
use openwork.Store.Slots.{slot-eq, IsNamed, Touches, Touches-Step}
use openwork.Store.Refines.{transition_lem}
use openwork.Store.Refines.Touch.{advanced, touch_closed}
use openwork.Lifecycle.{released}

-- A run without a lease that has failed.
pub record IsReleased (id : RunId) (t : State) : Type 0 where
  pub unleased : get id t.leases ≡ none
  pub run : Run
  pub stored : get id t.runs ≡ some run
  pub failure : run.status ≡ failed

-- No end but failure is among what is stored under that identifier.
abbrev pub FailsIfOver : RunId → State → Type 0
FailsIfOver id s =
    (r : Run) → get id s.runs ≡ some r → is_terminal r.status ≡ true → r.status ≡ failed

module _ (x : External) where
  pub recover_lease_lem :
      (event_id : AuditEventId) (actor : ActorId) (now : UtcTimestamp) (id : RunId) (s : State)
      → IsNamed s
      → FailsIfOver id s
      → Ensures
          (λ t. t ≡ s)
          (λ _ t. Touches x id s t × IsReleased id t)
          (recover_lease x event_id actor now id)
          s
  unfolding recover_lease
  recover_lease_lem event_id actor now id s named fails = Ensures-with_lock _ (
      Ensures-require _ _ _ refl λ r stored. Ensures-refuse_if _ _ _ refl λ late.
        Ensures-if (is_terminal r.status) _ _
          (λ done. Ensures-modify_last _ (
            Touches-Step x id s _
                (released r stored done (
                  slot-eq refl refl (get-remove_self id s.leases)
                    (get-remove_self id s.cancel_requested)))
                λ j h.
                  slot-eq refl refl (get-remove_ne id j s.leases h)
                    (get-remove_ne id j s.cancel_requested h),
            record {
              unleased = get-remove_self id s.leases;
              run = r;
              stored = stored;
              failure = fails r stored done;
            },
          ))
          λ live.
            Ensures-bind _ _ _ _ (transition_lem x event_id r failed none now actor _ s) (λ t e. e)
              λ r' t tr. Ensures-modify_last _ (
                touch_closed x s t tr (named id r stored) stored (unfold is_terminal in refl),
                record {
                  unleased = get-remove_self id t.leases;
                  run = r';
                  stored = (advanced s (release id t) tr (named id r stored) stored refl refl).kept;
                  failure = tr.moved.reached;
                },
              ))
