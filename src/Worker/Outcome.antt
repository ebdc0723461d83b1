-- ===== src/Worker/Outcome.antt =====
-- What stands behind the outcome of a worker (crates/openwork-worker/src/lib.rs).
use openwork.Common.{ℕ, String, ◌≡◌, sym, subst, true, Option, none, List, last, is_some_and}
use openwork.Common.Map.{contains_key}
use openwork.Common.Result.{Result, ok}
use openwork.Common.Exec.Rules.{
  Ensures, Ensures-pure, Ensures-bind, Ensures-weaken, Ensures-if, Ensures-attempt,
}
use openwork.Contract.{UtcTimestamp}
use openwork.Contract.External.{External}
use openwork.Contract.Run.{RunStatus, succeeded, failed, cancelled, timed_out, Run, Artifact}
use openwork.Contract.Sandbox.{SandboxTermination, exited, out_of_memory, SandboxResult, validate}
use openwork.Contract.Sandbox as Sandbox
use openwork.Contract.Task.{RuntimeEventPayload}
use openwork.Store.{State, RunLease}
use openwork.Store.Queue.{CancellationEvidence, verify_evidence}
use openwork.Store.Validity.{IsValid-IsNamed}
use openwork.Store.Came.{Came, Came-Ensures, attempted-Came}
use openwork.Store.Refines.Queue.{record_leased_artifacts_lem}
use openwork.Store.Refines.Cancel.{confirm_cancel_lem}
use openwork.Orchestrator.Scanner.{FileSystem, scan}
use openwork.Worker.Draws.{
  Place, WorkerEnvironment, StartDisposition, WorkerOutcome, completed, Draws, is_planning,
  is_cancelled, is_success, is_awaiting,
}
use openwork.Worker.Ops.{
  fail_closed, complete, complete_failed, collect_artifacts, finish_exited, finish_terminated,
  finish_cancelled,
}
use openwork.Worker.Draws as W
use openwork.Worker.Steps.{
  IsCompleted, fail_closed-Came, or_fail-Came, complete-Came, audit_events-Came,
}

module _ (x : External) (draws : Draws) (fs : FileSystem)
    (decode : SandboxResult → Result (List RuntimeEventPayload)) (s : State) where
  -- How a result of the sandbox ended the run.
  pub data EndedBy (result : SandboxResult) (r : Run) : Type 0 where
    ran_out : result.termination ≡ Sandbox.timed_out → r.status ≡ timed_out → EndedBy result r
    done :
        result.termination ≡ exited
        → (events : List RuntimeEventPayload) → decode result ≡ ok events
        → is_some_and (last events) is_success ≡ true
        → (lease : RunLease) (root : String) (max_bytes : ℕ) (files : List Artifact)
        → scan fs max_bytes draws.artifact_ids lease.run.id root result.output_paths
            (draws.time W.scanning)
          ≡ ok files
        → r.status ≡ succeeded
        → EndedBy result r
    disposed :
        (lease : RunLease) (evidence : CancellationEvidence)
        → verify_evidence lease result ≡ ok evidence
        → (u : State) → Came x s u
        → contains_key lease.run.id u.cancel_requested ≡ true
        → r.status ≡ cancelled
        → EndedBy result r

  -- A run that waits, one that was failed, or one that a result from the sandbox ended.
  pub data IsJustified (from : SandboxResult → Type 0) : WorkerOutcome → Type 0 where
    waits : (r : Run) → IsJustified from (WorkerOutcome.awaiting_approval r)
    closed : (r : Run) → r.status ≡ failed → IsJustified from (completed r)
    ended :
        (r : Run) (result : SandboxResult)
        → from result
        → validate result ≡ ok tt
        → EndedBy result r
        → IsJustified from (completed r)

  IsCompleted-IsJustified :
      (from : SandboxResult → Type 0) (o : WorkerOutcome)
      → IsCompleted failed o
      → IsJustified from o
  IsCompleted-IsJustified from o h = subst (IsJustified from) (sym h.is) (closed h.run h.reached)

  pub fail_closed-IsJustified :
      (from : SandboxResult → Type 0) (place : Place) (lease : RunLease) (reason : String)
      (now : UtcTimestamp) (t : State)
      → Came x s t
      → Ensures
          (Came x s)
          (λ o u. Came x s u × IsJustified from o)
          (fail_closed x draws place lease reason now)
          t
  fail_closed-IsJustified from place lease reason now t c =
      Ensures-weaken (fail_closed-Came x draws s place lease reason now t c) (λ u d. d)
        λ o u h. (h.0, IsCompleted-IsJustified from o h.1)

  complete_as :
      (from : SandboxResult → Type 0) (lease : RunLease) (next : RunStatus) (reason : Option String)
      (t : State)
      → Came x s t
      → ((r : Run) → r.status ≡ next → IsJustified from (completed r))
      → Ensures
          (Came x s)
          (λ o u. Came x s u × IsJustified from o)
          (complete x draws lease next reason)
          t
  complete_as from lease next reason t c justify =
      Ensures-weaken (complete-Came x draws s lease next reason t c) (λ u d. d)
        λ o u h. (h.0, subst (IsJustified from) (sym h.1.is) (justify h.1.run h.1.reached))

  module _ (from : SandboxResult → Type 0) (result : SandboxResult) (given : from result)
      (valid : validate result ≡ ok tt) where
    collect_artifacts-IsJustified :
        (lease : RunLease) (environment : WorkerEnvironment) (t : State)
        (events : List RuntimeEventPayload)
        → result.termination ≡ exited
        → decode result ≡ ok events
        → is_some_and (last events) is_success ≡ true
        → Came x s t
        → Ensures
            (Came x s)
            (λ o u. Came x s u × IsJustified from o)
            (collect_artifacts x draws fs decode lease result environment)
            t
    unfolding collect_artifacts
    collect_artifacts-IsJustified lease environment t events left decoded success c =
        or_fail-Came x draws s _ _ _ _ _ t c λ max_bytes _.
          or_fail-Came x draws s _ _ _ _ _ t c λ files scanned.
            Ensures-bind _ _ _ _
              (Ensures-attempt _ (
                Came-Ensures x lease.run.id _ s t c
                  (record_leased_artifacts_lem x draws.artifact_events lease lease.run.revision
                    files (draws.time W.recording) t)
                  λ _ u h. h.0))
              (λ u d. d)
              λ recorded u h.
                let d = attempted-Came x s _ recorded u h in
                or_fail-Came x draws s recorded _ _ _ _ u d λ _ _.
                  complete_as from lease succeeded none u d λ r reached.
                    ended r result given valid (
                      done left events decoded success lease environment.artifact_output_root
                        max_bytes files scanned reached)

    finish_exited-IsJustified :
        (lease : RunLease) (environment : WorkerEnvironment) (t : State)
        → result.termination ≡ exited
        → Came x s t
        → Ensures
            (Came x s)
            (λ o u. Came x s u × IsJustified from o)
            (finish_exited x draws fs decode lease result environment)
            t
    unfolding finish_exited complete_failed
    finish_exited-IsJustified lease environment t left c =
        or_fail-Came x draws s _ _ _ _ _ t c λ events decoded.
          Ensures-bind _ _ _ _ (audit_events-Came x draws s lease 0 events t c) (λ u d. d)
            λ _ u d.
              Ensures-if (is_some_and (last events) is_success) _ _
                (λ success.
                  collect_artifacts-IsJustified lease environment u events left decoded success d)
                λ _. complete_as from lease failed _ u d λ r reached. closed r reached

    pub finish_terminated-IsJustified :
        (termination : SandboxTermination) (lease : RunLease) (environment : WorkerEnvironment)
        (t : State)
        → result.termination ≡ termination
        → Came x s t
        → Ensures
            (Came x s)
            (λ o u. Came x s u × IsJustified from o)
            (finish_terminated x draws fs decode termination lease result environment)
            t
    unfolding finish_terminated
    finish_terminated-IsJustified Sandbox.cancelled lease environment t left c =
        fail_closed-IsJustified from W.unintended lease _ _ t c
    finish_terminated-IsJustified Sandbox.timed_out lease environment t left c =
        complete_as from lease timed_out _ t c
          λ r reached. ended r result given valid (ran_out left reached)
    finish_terminated-IsJustified out_of_memory lease environment t left c =
        complete_as from lease failed _ t c λ r reached. closed r reached
    finish_terminated-IsJustified SandboxTermination.failed lease environment t left c =
        complete_as from lease failed _ t c λ r reached. closed r reached
    finish_terminated-IsJustified exited lease environment t left c =
        finish_exited-IsJustified lease environment t left c

    pub finish_cancelled-IsJustified :
        (lease : RunLease) (t : State)
        → Came x s t
        → Ensures
            (Came x s)
            (λ o u. Came x s u × IsJustified from o)
            (finish_cancelled x draws fs decode lease result)
            t
    unfolding finish_cancelled
    finish_cancelled-IsJustified lease t c =
        Ensures-if (is_cancelled result.termination) _ _
          (λ _. or_fail-Came x draws s _ _ _ _ _ t c λ evidence verified.
            Ensures-bind _ _ _ _
              (Came-Ensures x lease.run.id _ s t c
                (confirm_cancel_lem x (draws.event W.confirming) lease (draws.time W.confirming)
                  evidence t (IsValid-IsNamed x t c.0))
                λ r u h. h.0)
              (λ u d. d)
              λ r u h. Ensures-pure _ (
                h.0,
                ended r result given valid
                    (disposed lease evidence verified t c h.1.1.noted h.1.1.moved.moved.reached),
              ))
          λ _. fail_closed-IsJustified from W.undisposed lease _ _ t c
