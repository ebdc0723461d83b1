-- ===== src/Worker/Steps.antt =====
-- The steps of the worker on the store (crates/openwork-worker/src/lib.rs): each leaves a store that came
-- from the valid one at the start.
use openwork.Common.{ℕ, String, ◌≡◌, refl, sym, subst, Option, some, List, [], ◌∷◌}
use openwork.Common.Result.{OpenWorkError, Result, ok, err}
use openwork.Common.Exec.{Exec}
use openwork.Common.Exec.Rules.{Ensures, Ensures-pure, Ensures-raise, Ensures-bind, Ensures-weaken}
use openwork.Contract.{UtcTimestamp}
use openwork.Contract.External.{External}
use openwork.Contract.Run.{RunStatus, failed, Run}
use openwork.Contract.Audit.{AuditEventType, sandbox_destroyed}
use openwork.Contract.Task.{RuntimeEventPayload}
use openwork.Store.{State, RunLease}
use openwork.Store.Ops.{Op, run_ops}
use openwork.Store.Queue.Ops.{lease_cancel_requested}
use openwork.Store.Validity.{IsValid-IsNamed}
use openwork.Store.Came.{Came, Came-then, Came-Ensures}
use openwork.Store.Reach.{run_ops-Effect}
use openwork.Store.Refines.Queue.{complete_leased_run_lem, append_leased_runtime_audit_lem}
use openwork.Store.Refines.Cancel.{lease_cancel_requested_lem}
use openwork.Worker.Draws.{
  Place, ending, destroyed_audit, output, Draws, WorkerOutcome, completed, event_type_of,
}
use openwork.Worker.Ops.{fail_closed, fail_after_error, or_fail, audit, complete, audit_events}

-- The outcome is a run with that status.
pub record IsCompleted (next : RunStatus) (o : WorkerOutcome) : Type 0 where
  pub run : Run
  pub is : o ≡ completed run
  pub reached : run.status ≡ next

module _ (x : External) (draws : Draws) (s : State) where
  pub fail_closed-Came :
      (place : Place) (lease : RunLease) (reason : String) (now : UtcTimestamp) (t : State)
      → Came x s t
      → Ensures
          (Came x s)
          (λ o u. Came x s u × IsCompleted failed o)
          (fail_closed x draws place lease reason now)
          t
  unfolding fail_closed
  fail_closed-Came place lease reason now t c =
      Ensures-bind _ _ _ _
        (Came-Ensures x lease.run.id _ s t c
          (complete_leased_run_lem x (draws.event place) lease lease.run.revision failed
            (some reason) now t (IsValid-IsNamed x t c.0))
          λ r u h. h.0)
        (λ u d. d) λ r u h. Ensures-pure _ (h.0, record { run = r; is = refl; reached = h.1.3 })

  pub fail_after_error-Came :
      {Q : WorkerOutcome → State → Type 0} (place : Place) (lease : RunLease) (e : OpenWorkError)
      (now : UtcTimestamp) (t : State)
      → Came x s t
      → Ensures (Came x s) Q (fail_after_error x draws place lease e now) t
  unfolding fail_after_error
  fail_after_error-Came place lease e now t c =
      Ensures-bind _ _ _ _ (fail_closed-Came place lease "worker execution failed closed" now t c)
        (λ u d. d) λ o u h. Ensures-raise e h.0

  pub or_fail-Came :
      {A : Type 0} {Q : WorkerOutcome → State → Type 0} (r : Result A) (place : Place)
      (lease : RunLease) (now : UtcTimestamp) (rest : A → Exec State WorkerOutcome) (t : State)
      → Came x s t
      → ((a : A) → r ≡ ok a → Ensures (Came x s) Q (rest a) t)
      → Ensures (Came x s) Q (or_fail x draws r place lease now rest) t
  unfolding or_fail
  or_fail-Came (ok a) place lease now rest t c h = h a refl
  or_fail-Came (err e) place lease now rest t c h = fail_after_error-Came place lease e now t c

  pub audit-Came :
      (place : Place) (lease : RunLease) (type : AuditEventType) (t : State)
      → Came x s t
      → Ensures (Came x s) (λ _ u. Came x s u) (audit x draws place lease type) t
  unfolding audit
  audit-Came place lease type t c =
      Ensures-bind _ _ _ _
        (Came-Ensures x lease.run.id _ s t c
          (append_leased_runtime_audit_lem x (draws.event place) lease lease.run.revision type
            (draws.time place) t)
          λ e u h. h)
        (λ u d. d) λ e u h. Ensures-pure tt h.0

  pub complete-Came :
      (lease : RunLease) (next : RunStatus) (reason : Option String) (t : State)
      → Came x s t
      → Ensures
          (Came x s)
          (λ o u. Came x s u × IsCompleted next o)
          (complete x draws lease next reason)
          t
  unfolding complete
  complete-Came lease next reason t c =
      Ensures-bind _ _ _ _ (audit-Came destroyed_audit lease sandbox_destroyed t c) (λ u d. d)
        λ _ u d.
          Ensures-bind _ _ _ _
            (Came-Ensures x lease.run.id _ s u d
              (complete_leased_run_lem x (draws.event ending) lease lease.run.revision next reason
                (draws.time ending) u (IsValid-IsNamed x u d.0))
              λ r v h. h.0)
            (λ v f. f) λ r v h. Ensures-pure _ (h.0, record { run = r; is = refl; reached = h.1.3 })

  pub audit_events-Came :
      (lease : RunLease) (n : ℕ) (events : List RuntimeEventPayload) (t : State)
      → Came x s t
      → Ensures (Came x s) (λ _ u. Came x s u) (audit_events x draws lease n events) t
  unfolding audit_events
  audit_events-Came lease n [] t c = Ensures-pure tt c
  audit_events-Came lease n (event ∷ events) t c =
      Ensures-bind _ _ _ _ (audit-Came (output n) lease (event_type_of event) t c) (λ u d. d)
        λ _ u d. audit_events-Came lease (ℕ.suc n) events u d

  pub lease_cancel_requested-Came :
      (lease : RunLease) (now : UtcTimestamp) (t : State)
      → Came x s t
      → Ensures (Came x s) (λ _ u. Came x s u) (lease_cancel_requested x lease now) t
  lease_cancel_requested-Came lease now t c =
      Ensures-weaken (lease_cancel_requested_lem x lease now t) (λ u e. subst (Came x s) (sym e) c)
        λ b u e. subst (Came x s) (sym e) c

pub run_ops-Came :
    (x : External) (s : State) (others : List Op) (t : State)
    → Came x s t
    → Came x s (run_ops x others t)
run_ops-Came x s others t c = Came-then x s t (run_ops x others t) c (run_ops-Effect x others t c.0)
