-- ===== src/Worker/Finish.antt =====
-- The run of one claimed task from its start to its outcome (crates/openwork-worker/src/lib.rs).
use openwork.Common.{String, ◌≡◌, refl, subst, not, List, ◌==◌}
use openwork.Common.Result.{Result, ok}
use openwork.Common.Exec.Rules.{
  Ensures, Outcome, Ensures-pure, Ensures-bind, Ensures-weaken, Ensures-if, Ensures-attempt,
}
use openwork.Contract.{RunId}
use openwork.Contract.External.{External}
use openwork.Contract.Run.{RunStatus, running}
use openwork.Contract.Audit.{sandbox_created, runtime_started}
use openwork.Contract.Sandbox.{SandboxResult}
use openwork.Contract.Task.{RuntimeTask, RuntimeEventPayload}
use openwork.Store.{State, RunLease}
use openwork.Store.Ops.{Op}
use openwork.Store.Queue.Ops.{transition_leased_run}
use openwork.Store.Slots.{Touches, Effect}
use openwork.Store.Validity.{IsValid, IsValid-IsNamed}
use openwork.Store.Came.{Came, Came-refl, Came-Ensures, attempted-Came}
use openwork.Store.Refines.Queue.{Carried, transition_leased_run_lem}
use openwork.Orchestrator.Scanner.{FileSystem}
use openwork.Worker.Select.{WorkerTaskSpec}
use openwork.Worker.Supervise.{SupervisorConfig, Tick, Ending, received, execute_with_cancellation}
use openwork.Worker.Draws.{
  WorkerEnvironment, StartDisposition, WorkerOutcome, Draws, is_planning, is_awaiting,
}
use openwork.Worker.Ops.{finish, start, begin, execute}
use openwork.Worker.Draws as W
use openwork.Worker.Steps.{or_fail-Came, audit-Came, lease_cancel_requested-Came}
use openwork.Worker.Outcome.{
  IsJustified, waits, fail_closed-IsJustified, finish_terminated-IsJustified,
  finish_cancelled-IsJustified,
}
use openwork.Worker.Supervised.{supervise-Came}

module _ (x : External) (draws : Draws) (fs : FileSystem)
    (decode : SandboxResult → Result (List RuntimeEventPayload)) (s : State) where
  moved :
      (lease : RunLease) (n : RunStatus) (t : State)
      → Came x s t
      → Ensures
          (Came x s)
          (λ l u.
            Came x s u
            × (Touches x lease.run.id t u
                × Carried lease lease.run.revision n (draws.time W.beginning) t l u))
          (transition_leased_run x
            (draws.event W.beginning)
            lease
            lease.run.revision
            n
            (draws.time W.beginning))
          t
  moved lease n t c =
      Came-Ensures x lease.run.id _ s t c
        (transition_leased_run_lem x (draws.event W.beginning) lease lease.run.revision n
          (draws.time W.beginning) t (IsValid-IsNamed x t c.0))
        λ _ u h. h.0

  finish-IsJustified :
      (from : SandboxResult → Type 0) (lease : RunLease) (result : SandboxResult)
      (environment : WorkerEnvironment) (t : State)
      → from result
      → Came x s t
      → Ensures
          (Came x s)
          (λ o u. Came x s u × IsJustified x draws fs decode s from o)
          (finish x draws fs decode lease result environment)
          t
  unfolding finish
  finish-IsJustified from lease result environment t given c =
      or_fail-Came x draws s _ _ _ _ _ t c λ a validated.
        Ensures-if (not (result.run_id == lease.run.id)) _ _
          (λ _. fail_closed-IsJustified x draws fs decode s from W.finishing lease _ _ t c)
          λ _.
            Ensures-bind _ _ _ _
              (Ensures-bind _ _ _ _
                (audit-Came x draws s W.sandbox_created_audit lease sandbox_created t c) (λ u d. d)
                λ _ t1 c1. audit-Came x draws s W.runtime_started_audit lease runtime_started t1 c1)
              (λ u d. d)
              λ _ t2 c2.
                Ensures-bind _ _ _ _
                  (lease_cancel_requested-Came x draws s lease (draws.time W.finishing) t2 c2)
                  (λ u d. d)
                  λ wanted t3 c3.
                    Ensures-if wanted _ _
                      (λ _.
                        finish_cancelled-IsJustified x draws fs decode s from result given validated
                          lease t3 c3)
                      λ _.
                        finish_terminated-IsJustified x draws fs decode s from result given
                          validated result.termination lease environment t3 refl c3

  module _ {Invocation Request : Type 0} (health : Result (Unit {0}))
      (prepare : RuntimeTask → Result Invocation)
      (into_sandbox_request : Invocation → RunId → WorkerEnvironment → Result Request)
      (cancel : RunId → Result (Unit {0})) (supervisor : SupervisorConfig) (ticks : List Tick)
      (others : List Op) (sandbox : Request → Ending) where
    -- The sandbox gave the result for some request.
    abbrev pub IsGiven : SandboxResult → Type 0
    IsGiven result = (q : Request) × (sandbox q ≡ received (ok result))

    start-IsJustified :
        (lease : RunLease) (task : RuntimeTask) (environment : WorkerEnvironment) (t : State)
        → Came x s t
        → Ensures
            (Came x s)
            (λ o u. Came x s u × IsJustified x draws fs decode s IsGiven o)
            (start x draws fs decode health prepare into_sandbox_request cancel supervisor ticks
              others sandbox lease task environment)
            t
    unfolding start execute_with_cancellation
    start-IsJustified lease task environment t c = or_fail-Came x draws s _ _ _ _ _ t c λ _ _.
        or_fail-Came x draws s _ _ _ _ _ t c λ invocation _.
          or_fail-Came x draws s _ _ _ _ _ t c λ request _.
            Ensures-bind _ _ _ _
              (Ensures-attempt _
                (supervise-Came x cancel supervisor s ticks others (sandbox request) _ t c))
              (λ u d. d)
              λ ran u h. or_fail-Came x draws s ran _ _ _ _ u (attempted-Came x s _ ran u h) λ r is.
                let q =
                  subst
                    (λ o.
                      Outcome (Came x s) (λ b v. Came x s v × (sandbox request ≡ received (ok b.1)))
                        (o, u))
                    is h in
                finish-IsJustified IsGiven r.0 r.1 environment u (request, q.1) q.0

    begin-IsJustified :
        (lease : RunLease) (task : RuntimeTask) (environment : WorkerEnvironment)
        (disposition : StartDisposition) (t : State)
        → Came x s t
        → Ensures
            (Came x s)
            (λ o u. Came x s u × IsJustified x draws fs decode s IsGiven o)
            (begin x draws fs decode health prepare into_sandbox_request cancel supervisor ticks
              others sandbox lease task environment disposition)
            t
    unfolding begin
    begin-IsJustified lease task environment disposition t c =
        Ensures-if (not (is_planning lease.run.status)) _ _
          (λ _. fail_closed-IsJustified x draws fs decode s IsGiven W.beginning lease _ _ t c)
          λ _.
            Ensures-bind _ _ _ _
              (lease_cancel_requested-Came x draws s lease (draws.time W.beginning) t c) (λ u d. d)
              λ wanted t1 c1.
                Ensures-if wanted _ _
                  (λ _.
                    fail_closed-IsJustified x draws fs decode s IsGiven W.beginning lease _ _ t1 c1)
                  λ _.
                    Ensures-if (is_awaiting disposition) _ _
                      (λ _.
                        Ensures-bind _ _ _ _ (moved lease RunStatus.awaiting_approval t1 c1)
                          (λ u d. d) λ awaiting u h. Ensures-pure _ (h.0, waits awaiting.run))
                      λ _.
                        Ensures-bind _ _ _ _ (moved lease running t1 c1) (λ u d. d)
                          λ active t2 h.
                            Ensures-bind _ _ _ _
                              (lease_cancel_requested-Came x draws s active (draws.time W.beginning)
                                t2 h.0)
                              (λ u d. d)
                              λ wanted_now t3 c3.
                                Ensures-if wanted_now _ _
                                  (λ _.
                                    fail_closed-IsJustified x draws fs decode s IsGiven W.aborting
                                      active _ _ t3 c3)
                                  λ _. start-IsJustified active task environment t3 c3

    -- From a valid store, whatever the adapter, the sandbox, the decoder and the calls of others while
    -- the sandbox runs, every run took steps of its life (Lifecycle.Step) only, also on an error. A run
    -- that is returned waits for an approval, or failed, or was ended by a valid result that the
    -- sandbox gave: by its time limit; or in success, after an exit whose last decoded event is a
    -- completion with code 0 and a scan of its outputs that succeeded; or cancelled, with verified
    -- evidence, at a store that had noted the cancellation.
    pub execute-IsJustified :
        (lease : RunLease) (spec : WorkerTaskSpec) (prompt : String)
        (environment : WorkerEnvironment) (disposition : StartDisposition)
        → IsValid x s
        → Ensures
            (λ t. Effect x s t)
            (λ o t. Effect x s t × IsJustified x draws fs decode s IsGiven o)
            (execute x draws fs decode health prepare into_sandbox_request cancel supervisor ticks
              others sandbox lease spec prompt environment disposition)
            s
    unfolding execute
    execute-IsJustified lease spec prompt environment disposition v =
        let c : Came x s s = Came-refl x s v in
        Ensures-weaken
          (or_fail-Came x draws s _ _ _ _ _ s c λ task _.
            or_fail-Came x draws s _ _ _ _ _ s c
              λ _ _. begin-IsJustified lease task environment disposition s c)
          (λ u d. d.1) λ o u h. (h.0.1, h.1)
