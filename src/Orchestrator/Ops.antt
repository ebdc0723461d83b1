-- ===== src/Orchestrator/Ops.antt =====
-- The operations of the orchestrator, of crates/openwork-execution/src/orchestrator/mod.rs. The sandbox
-- and the processor of its output are parameters. While the sandbox runs, others may call the store:
-- `others` are their calls.
use Prim.Native.String.{len}
use openwork.Common.{
  ℕ, zero, String, Bool, true, false, not, ◌||◌, Option, none, some, List, [], ltb, ◌==◌,
  if◌then◌else◌,
}
use openwork.Common.Int.{ℤ, pos}
use openwork.Common.Result.{OpenWorkError, execution_failed, Result, ok, invalid_contract, fail_if}
use openwork.Common.Result as Result
use openwork.Common.Exec.{Exec, pure, lift, require, refuse_if, inspect_err, ◌>>=◌, ◌>>◌}
use openwork.Core.Text.{is_blank}
use openwork.Contract.{RunId, ArtifactId, AuditEventId, UtcTimestamp, ActorId}
use openwork.Contract.External.{External}
use openwork.Contract.Digest.{sha256_bytes}
use openwork.Contract.Run.{
  RunStatus, queued, planning, running, succeeded, failed, cancelled, timed_out, is_queued, Run,
  Artifact,
}
use openwork.Contract.Sandbox.{
  SandboxTermination, exited, out_of_memory, SandboxCleanupStatus, SandboxResult, validate,
}
use openwork.Contract.Sandbox as Sandbox
use openwork.Audit.{new_append}
use openwork.Store.{State}
use openwork.Store.Ops.{Op, run_ops}
use openwork.Store.Records as Records
use openwork.Orchestrator.Scanner.{FileSystem, scan}

-- The fields of a request that the orchestrator reads; the sandbox reads the others.
pub record SandboxRequest : Type 0 where
  pub run_id : RunId
  pub output_directory : String

-- The identifiers and the times that an execution draws, by where it draws them.
pub record Draws : Type 0 where
  pub planning_event : AuditEventId
  pub running_event : AuditEventId
  pub failure_event : AuditEventId
  pub final_event : AuditEventId
  pub artifact_ids : ℕ → ArtifactId
  pub artifact_events : ℕ → AuditEventId
  pub failed_at : UtcTimestamp
  pub rejected_at : UtcTimestamp
  pub completed_at : UtcTimestamp

abbrev pub execution_error : String → OpenWorkError
execution_error m = record { code = execution_failed; message = m }

abbrev pub is_clean : SandboxCleanupStatus → Bool
is_clean Sandbox.succeeded = true
is_clean (SandboxCleanupStatus.failed code) = false

unfoldable pub validate_sandbox_result : RunId → SandboxResult → Result SandboxResult
validate_sandbox_result run_id result = Result.◌>>=◌ (validate result) λ _.
    Result.◌>>=◌
      (fail_if (not (result.run_id == run_id))
        (execution_error "sandbox result does not match run"))
      λ _.
        Result.◌>>=◌
          (fail_if (not (is_clean result.cleanup)) (execution_error "sandbox cleanup failed"))
          λ _. ok result

abbrev pub is_exited : SandboxTermination → Bool
is_exited exited = true
is_exited _ = false

-- `exit_code == Some(0)`
abbrev pub is_zero : Option ℤ → Bool
is_zero (some (pos zero)) = true
is_zero _ = false

-- The terminal status and its reason.
unfoldable pub terminal_status : SandboxTermination → Option ℤ → RunStatus × Option String
terminal_status exited code =
    if is_zero code then (succeeded, none) else (failed, some "provider exited with non-zero code")
terminal_status Sandbox.cancelled code = (cancelled, some "sandbox was cancelled")
terminal_status Sandbox.timed_out code = (timed_out, some "sandbox timed out")
terminal_status out_of_memory code = (failed, some "sandbox out of memory")
terminal_status SandboxTermination.failed code = (failed, some "sandbox execution failed")

module _ (x : External) where
  unfoldable pub transition :
      AuditEventId → RunId → ℕ → RunStatus → Option String → ActorId → UtcTimestamp → Exec State Run
  transition event_id run_id expected_revision next reason actor now =
      Records.transition_run x event_id run_id expected_revision next reason (new_append actor now)

  -- Best effort: what the attempt to fail the run left.
  unfoldable pub fail_run : AuditEventId → Run → String → ActorId → UtcTimestamp → Exec State Run
  fail_run event_id run reason actor now =
      transition event_id run.id run.revision failed (some reason) actor now

module _ (x : External) (fs : FileSystem) (max_bytes : ℕ) where
  unfoldable pub create_run :
      RunId → AuditEventId → String → String → ActorId → String → UtcTimestamp → Exec State Run
  create_run id event_id runtime path actor prompt now = do
    refuse_if (is_blank runtime || ltb 128 (len runtime)) (invalid_contract "invalid runtime name")
    workspace ← require (fs.canonicalize path) (invalid_contract "workspace unavailable")
    refuse_if (not (fs.is_dir workspace)) (invalid_contract "workspace is not a directory")
    Records.create_run x event_id
        (record {
          id = id;
          runtime = runtime;
          workspace = workspace;
          status = queued;
          revision = 0;
          actor_id = actor;
          prompt_sha256 = sha256_bytes x prompt;
          created_at = now;
          updated_at = now;
          started_at = none;
          completed_at = none;
          terminal_reason = none;
        })
        (new_append actor now)

  unfoldable pub record_artifacts :
      (ℕ → ArtifactId)
      → (ℕ → AuditEventId)
      → RunId
      → String
      → List String
      → ActorId
      → UtcTimestamp
      → Exec State (List Artifact)
  record_artifacts ids event_ids run_id output_root paths actor created_at = do
    artifacts ← lift (scan fs max_bytes ids run_id output_root paths created_at)
    Records.record_artifacts x event_ids run_id artifacts (new_append actor created_at)
    pure artifacts

  module _ (sandbox : SandboxRequest → Result SandboxResult) (others : List Op)
      (process_output : SandboxResult → Result (Unit {0})) (draws : Draws) where
    -- The sandbox's run, with the calls of others in its course.
    unfoldable pub run_sandbox : Run → SandboxRequest → Exec State SandboxResult
    run_sandbox run request s =
        (Result.◌>>=◌ (sandbox request) (validate_sandbox_result run.id), run_ops x others s)

    unfoldable pub process_output_or_fail : Run → SandboxResult → ActorId → Exec State Unit
    process_output_or_fail run result actor = inspect_err (lift (process_output result)) λ _.
        fail_run x draws.failure_event run "runtime output validation failed" actor
          draws.rejected_at

    unfoldable pub collect :
        Run → SandboxRequest → SandboxResult → ActorId → Exec State (List Artifact)
    collect run request result actor =
        if is_exited result.termination
        then inspect_err
            (record_artifacts draws.artifact_ids draws.artifact_events run.id
              request.output_directory result.output_paths actor draws.completed_at)
            (λ _.
              fail_run x draws.failure_event run "artifact validation failed" actor
                draws.completed_at)
        else pure []

    -- From planning to the end.
    unfoldable pub execute_planned : Run → SandboxRequest → ActorId → UtcTimestamp → Exec State Run
    execute_planned planned request actor now = do
      run ← transition x draws.running_event planned.id planned.revision running none actor now
      result ←
          inspect_err (run_sandbox run request) (λ _.
            fail_run x draws.failure_event run "sandbox execution failed" actor draws.failed_at)
      process_output_or_fail run result actor
      artifacts ← collect run request result actor
      let (status, reason) = terminal_status result.termination result.exit_code
      transition x draws.final_event run.id run.revision status reason actor draws.completed_at

    unfoldable pub execute_with_output_processor :
        Run → SandboxRequest → ActorId → UtcTimestamp → Exec State Run
    execute_with_output_processor run request actor now = do
      refuse_if (not (run.id == request.run_id))
          (execution_error "sandbox request does not match run")
      planned ←
          if is_queued run.status
          then transition x draws.planning_event run.id run.revision planning none actor now
          else pure run
      execute_planned planned request actor now

  -- Without a processor of the output.
  unfoldable pub execute :
      (SandboxRequest → Result SandboxResult)
      → List Op
      → Draws
      → Run
      → SandboxRequest
      → ActorId
      → UtcTimestamp
      → Exec State Run
  execute sandbox others draws = execute_with_output_processor sandbox others (λ _. ok tt) draws
