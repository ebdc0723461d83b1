-- ===== src/Orchestrator/Outcome.antt =====
-- How an execution ends (crates/openwork-execution/src/orchestrator/mod.rs).
use openwork.Common.{
  ℕ, String, ◌≡◌, refl, subst, sym, ap, ◌∙◌, true, not, Option, none, some, List, [], ◌==◌, arith,
  not-eq-false, ==-eq,
}
use openwork.Common.Map.{get}
use openwork.Common.Result.{
  OpenWorkError, Result, ok, err, fail_if, fail_if-eq-ok, >>=-eq-ok, ok-injective,
}
use openwork.Common.Result as Result
use openwork.Common.Exec.Rules.{
  Ensures, Outcome, Ensures-pure, Ensures-bind, Ensures-refuse_if, Ensures-lift, Ensures-lift_last,
  Ensures-if, Ensures-weaken, Ensures-inspect_err,
}
use openwork.Contract.{RunId, ArtifactId, AuditEventId, UtcTimestamp, ActorId}
use openwork.Contract.External.{External}
use openwork.Contract.Run.{RunStatus, is_queued, planning, running, failed, Run, Artifact}
use openwork.Contract.Sandbox.{SandboxTermination, SandboxResult, SandboxCleanupStatus, validate}
use openwork.Contract.Sandbox as Sandbox
use openwork.Audit.{new_append}
use openwork.Store.{State}
use openwork.Store.Ops.{Op, run_ops}
use openwork.Store.Slots.{Effect}
use openwork.Store.Validity.{IsValid, IsValid-IsNamed, Touches-Effect, Effect-refl}
use openwork.Store.Reach.{run_ops-Effect}
use openwork.Store.Came.{Came, Came-then, Came-refl}
use openwork.Store.Refines.Records.{transition_run_lem}
use openwork.Store.Refines.Filing.{Filed}
use openwork.Store.Refines.Records as Records
use openwork.Orchestrator.Scanner.{FileSystem, scan}
use openwork.Orchestrator.Ops.{
  SandboxRequest, Draws, is_exited, is_clean, execution_error, terminal_status,
  validate_sandbox_result, transition, record_artifacts, fail_run, run_sandbox,
  process_output_or_fail, collect, execute_planned, execute_with_output_processor,
}

module _ (x : External) where
  transition-Came :
      (event_id : AuditEventId) (id : RunId) (revision : ℕ) (next : RunStatus)
      (reason : Option String) (actor : ActorId) (now : UtcTimestamp) (s t : State)
      → Came x s t
      → Ensures
          (Came x s)
          (λ r u. Came x s u × (r.status ≡ next) × (get id u.runs ≡ some r) × (r.id ≡ id))
          (transition x event_id id revision next reason actor now)
          t
  unfolding transition
  transition-Came event_id id revision next reason actor now s t c =
      Ensures-weaken
        (transition_run_lem x event_id id revision next reason (new_append actor now) t
          (IsValid-IsNamed x t c.0))
        (λ u e. subst (Came x s) (sym e) c)
        λ r u h.
          let came = Came-then x s t u c (Touches-Effect x id t u h.0) in
          (came, h.2.2.moved.reached, h.2.2.kept, IsValid-IsNamed x u came.0 id r h.2.2.kept)

  -- Best effort leaves a store that came from the valid one, whether it succeeds or fails.
  fail_run-Came :
      (event_id : AuditEventId) (run : Run) (reason : String) (actor : ActorId) (now : UtcTimestamp)
      (s t : State)
      → Came x s t
      → Came x s (fail_run x event_id run reason actor now t).1
  unfolding fail_run
  fail_run-Came event_id run reason actor now s t c =
      go (transition x event_id run.id run.revision failed (some reason) actor now t)
        (transition-Came event_id run.id run.revision failed (some reason) actor now s t c).ended
    where
      go :
          (o : Result Run × State)
          → Outcome
              (Came x s)
              (λ r u.
                Came x s u × (r.status ≡ failed) × (get run.id u.runs ≡ some r) × (r.id ≡ run.id))
              o
          → Came x s o.1
      go (ok r, u) h = h.0
      go (err e, u) h = h

module _ (x : External) (fs : FileSystem) (max_bytes : ℕ) where
  record_artifacts-Came :
      (ids : ℕ → ArtifactId) (event_ids : ℕ → AuditEventId) (id : RunId) (root : String)
      (paths : List String) (actor : ActorId) (at : UtcTimestamp) (s t : State)
      → Came x s t
      → Ensures
          (Came x s)
          (λ files u.
            Came x s u × (scan fs max_bytes ids id root paths at ≡ ok files) × Filed id files t u)
          (record_artifacts x fs max_bytes ids event_ids id root paths actor at)
          t
  unfolding record_artifacts
  record_artifacts-Came ids event_ids id root paths actor at s t c =
      Ensures-lift _ _ c λ files scanned.
        Ensures-bind _ _ _ _
          (Records.record_artifacts_lem x event_ids id files (new_append actor at) t)
          (λ u e. subst (Came x s) (sym e) c)
          λ _ u h.
            Ensures-pure files (Came-then x s t u c (Touches-Effect x id t u h.0), scanned, h.1)

is_clean-eq : (c : SandboxCleanupStatus) → is_clean c ≡ true → c ≡ Sandbox.succeeded
is_clean-eq Sandbox.succeeded h = refl
is_clean-eq (SandboxCleanupStatus.failed code) h = cc

-- What an accepted result of the sandbox is.
record IsAccepted (run_id : RunId) (result : SandboxResult) : Type 0 where
  valid : validate result ≡ ok tt
  same_run : result.run_id ≡ run_id
  clean : result.cleanup ≡ Sandbox.succeeded

validate_sandbox_result-IsAccepted :
    (run_id : RunId) (given result : SandboxResult)
    → validate_sandbox_result run_id given ≡ ok result
    → (given ≡ result) × IsAccepted run_id result
unfolding validate_sandbox_result
validate_sandbox_result-IsAccepted run_id given result h =
    let (_, valid, h1) = >>=-eq-ok (validate given) _ h in
    let (_, owned, h2) =
      >>=-eq-ok
        (fail_if (not (given.run_id == run_id))
          (execution_error "sandbox result does not match run"))
        _ h1 in
    let (_, cleaned, h3) =
      >>=-eq-ok (fail_if (not (is_clean given.cleanup)) (execution_error "sandbox cleanup failed"))
        _ h2 in
    let same = ok-injective given result h3 in
    (
      same,
      subst (IsAccepted run_id) same (record {
        valid = valid;
        same_run = ==-eq given.run_id run_id (not-eq-false _ (fail_if-eq-ok _ _ owned));
        clean = is_clean-eq given.cleanup (not-eq-false _ (fail_if-eq-ok _ _ cleaned));
      }),
    )

module _ (x : External) (fs : FileSystem) (max_bytes : ℕ)
    (sandbox : SandboxRequest → Result SandboxResult) (others : List Op)
    (process_output : SandboxResult → Result (Unit {0})) (draws : Draws) where
  -- What stands behind an execution that returned a run.
  pub record IsEnd (request : SandboxRequest) (r : Run) (t : State) : Type 0 where
    pub result : SandboxResult
    pub ran : sandbox request ≡ ok result
    pub valid : validate result ≡ ok tt
    pub same_run : result.run_id ≡ request.run_id
    pub clean : result.cleanup ≡ Sandbox.succeeded
    pub processed : process_output result ≡ ok tt
    pub collected :
        is_exited result.termination ≡ true
        → (files : List Artifact) × (scan fs max_bytes draws.artifact_ids request.run_id
              request.output_directory result.output_paths draws.completed_at
            ≡ ok files)
    pub ended : r.status ≡ (terminal_status result.termination result.exit_code).0
    pub stored : get request.run_id t.runs ≡ some r

  run_sandbox-Came :
      (run : Run) (request : SandboxRequest) (s t : State)
      → Came x s t
      → Ensures
          (Came x s)
          (λ result u. Came x s u × (sandbox request ≡ ok result) × IsAccepted run.id result)
          (run_sandbox x fs max_bytes sandbox others process_output draws run request)
          t
  unfolding run_sandbox
  run_sandbox-Came run request s t c = record { ended = go (sandbox request) refl }
    where
      came : Came x s (run_ops x others t)
      came = Came-then x s t (run_ops x others t) c (run_ops-Effect x others t c.0)

      accept :
          (given : SandboxResult) (r : Result SandboxResult)
          → sandbox request ≡ ok given
          → validate_sandbox_result run.id given ≡ r
          → Outcome
              (Came x s)
              (λ result u. Came x s u × (sandbox request ≡ ok result) × IsAccepted run.id result)
              (r, run_ops x others t)
      accept given (ok result) p q =
          let (same, accepted) = validate_sandbox_result-IsAccepted run.id given result q in
          (came, p ∙ ap ok same, accepted)
      accept given (err e) p q = came

      go :
          (given : Result SandboxResult)
          → sandbox request ≡ given
          → Outcome
              (Came x s)
              (λ result u. Came x s u × (sandbox request ≡ ok result) × IsAccepted run.id result)
              (Result.◌>>=◌ given (validate_sandbox_result run.id), run_ops x others t)
      go (ok given) p = accept given (validate_sandbox_result run.id given) p refl
      go (err e) p = came

  process_output_or_fail-Came :
      (run : Run) (result : SandboxResult) (actor : ActorId) (s t : State)
      → Came x s t
      → Ensures
          (Came x s)
          (λ _ u. Came x s u × (process_output result ≡ ok tt))
          (process_output_or_fail x fs max_bytes sandbox others process_output draws run result
            actor)
          t
  unfolding process_output_or_fail
  process_output_or_fail-Came run result actor s t c =
      Ensures-inspect_err (Came x s) _ _ (Ensures-lift_last _ c λ _ p. (c, p)) λ e u d.
        fail_run-Came x draws.failure_event run "runtime output validation failed" actor
          draws.rejected_at s u d

  collect-Came :
      (run : Run) (request : SandboxRequest) (result : SandboxResult) (actor : ActorId)
      (s t : State)
      → Came x s t
      → Ensures
          (Came x s)
          (λ _ u.
            Came x s u
            × (is_exited result.termination ≡ true
                → (files : List Artifact) × (scan fs max_bytes draws.artifact_ids run.id
                      request.output_directory result.output_paths draws.completed_at
                    ≡ ok files)))
          (collect x fs max_bytes sandbox others process_output draws run request result actor)
          t
  unfolding collect
  collect-Came run request result actor s t c =
      Ensures-if (is_exited result.termination) _ _
        (λ _.
          Ensures-inspect_err (Came x s)
            (record_artifacts x fs max_bytes draws.artifact_ids draws.artifact_events run.id
              request.output_directory result.output_paths actor draws.completed_at)
            (λ _.
              fail_run x draws.failure_event run "artifact validation failed" actor
                draws.completed_at)
            (Ensures-weaken
              (record_artifacts-Came x fs max_bytes draws.artifact_ids draws.artifact_events run.id
                request.output_directory result.output_paths actor draws.completed_at s t c)
              (λ u d. d) λ files u h. (h.0, λ _. (files, h.1)))
            λ e u d.
              fail_run-Came x draws.failure_event run "artifact validation failed" actor
                draws.completed_at s u d)
        λ no. Ensures-pure [] (c, λ yes. ground (arith, yes, no))

  -- The run that came back, from a planned one.
  execute_planned-IsEnd :
      (planned : Run) (request : SandboxRequest) (actor : ActorId) (now : UtcTimestamp)
      (s t : State)
      → Came x s t
      → planned.id ≡ request.run_id
      → Ensures
          (Came x s)
          (λ r u. Came x s u × IsEnd request r u)
          (execute_planned x fs max_bytes sandbox others process_output draws planned request actor
            now)
          t
  unfolding execute_planned
  execute_planned-IsEnd planned request actor now s t c named =
      Ensures-bind _ _ _ _
        (transition-Came x draws.running_event planned.id planned.revision running none actor now s
          t c)
        (λ u d. d)
        λ run t1 (c1, _, _, same).
          let asked : run.id ≡ request.run_id = same ∙ named in
          Ensures-bind _ _ _ _
            (Ensures-inspect_err (Came x s) _ _ (run_sandbox-Came run request s t1 c1) λ e u d.
              fail_run-Came x draws.failure_event run "sandbox execution failed" actor
                draws.failed_at s u d)
            (λ u d. d)
            λ result t2 (c2, ran, accepted).
              Ensures-bind _ _ _ _ (process_output_or_fail-Came run result actor s t2 c2) (λ u d. d)
                λ _ t3 (c3, processed).
                  Ensures-bind _ _ _ _ (collect-Came run request result actor s t3 c3) (λ u d. d)
                    λ _ t4 (c4, collected).
                      Ensures-weaken
                        (transition-Came x draws.final_event run.id run.revision
                          (terminal_status result.termination result.exit_code).0
                          (terminal_status result.termination result.exit_code).1 actor
                          draws.completed_at s t4 c4)
                        (λ u d. d)
                        λ r u (c5, ended, stored, _). (
                          c5,
                          record {
                            result = result;
                            ran = ran;
                            valid = accepted.valid;
                            same_run = accepted.same_run ∙ asked;
                            clean = accepted.clean;
                            processed = processed;
                            collected =
                                subst
                                  (λ i.
                                    is_exited result.termination ≡ true
                                    → (files : List Artifact) × (scan fs max_bytes
                                          draws.artifact_ids i request.output_directory
                                          result.output_paths draws.completed_at
                                        ≡ ok files))
                                  asked collected;
                            ended = ended;
                            stored = subst (λ i. get i u.runs ≡ some r) asked stored;
                          },
                        )

  -- From a valid store, whatever the sandbox, the processor and the calls of others while the sandbox
  -- runs, every run took steps of its life (Lifecycle.Step) only, also on an error. A run that is
  -- returned is the stored one; the sandbox had given a valid result for it, with a clean disposal, the
  -- processor had accepted it, the outputs were scanned if the sandbox exited, and the status is that
  -- of the termination and the exit code.
  pub execute_with_output_processor-IsEnd :
      (run : Run) (request : SandboxRequest) (actor : ActorId) (now : UtcTimestamp) (s : State)
      → IsValid x s
      → Ensures
          (λ t. Effect x s t)
          (λ r t. Effect x s t × IsEnd request r t)
          (execute_with_output_processor x fs max_bytes sandbox others process_output draws run
            request actor now)
          s
  unfolding execute_with_output_processor
  execute_with_output_processor-IsEnd run request actor now s v =
      let c : Came x s s = Came-refl x s v in
      Ensures-refuse_if _ _ _ (Effect-refl x s) λ owned.
        let asked : run.id ≡ request.run_id = ==-eq run.id request.run_id (not-eq-false _ owned) in
        Ensures-bind (Came x s) (λ r t. Came x s t × (r.id ≡ run.id)) _ _
          (Ensures-if (is_queued run.status) _ _
            (λ _.
              Ensures-weaken
                (transition-Came x draws.planning_event run.id run.revision planning none actor now
                  s s c)
                (λ u d. d) λ r u (d, _, _, same). (d, same))
            (λ _. Ensures-pure run (c, refl)))
          (λ u d. d.1)
          λ planned t (d, same).
            Ensures-weaken (execute_planned-IsEnd planned request actor now s t d (same ∙ asked))
              (λ u e. e.1) λ r u h. (h.0.1, h.1)
