-- ===== src/Worker/Ops.antt =====
-- One claimed run, of crates/openwork-worker/src/lib.rs. The adapter, the sandbox and the decoder of its
-- output are parameters; the store is the memory store.
use openwork.Common.{
  ℕ, String, not, ◌||◌, Option, none, some, List, [], ◌∷◌, last, ◌==◌, str_eq, is_some_and,
  if◌then◌else◌,
}
use openwork.Common.Result.{OpenWorkError, Result, ok, err, fail_if}
use openwork.Common.Exec.{Exec, pure, raise, attempt, ◌>>=◌, ◌>>◌}
use openwork.Contract.{RunId, UtcTimestamp}
use openwork.Contract.External.{External}
use openwork.Contract.Run.{RunStatus, running, succeeded, failed, timed_out}
use openwork.Contract.Audit.{AuditEventType, sandbox_created, runtime_started, sandbox_destroyed}
use openwork.Contract.Sandbox.{SandboxTermination, exited, out_of_memory, SandboxResult, validate}
use openwork.Contract.Sandbox as Sandbox
use openwork.Contract.Task.{RuntimeTask, RuntimeEventPayload}
use openwork.Store.{State, RunLease}
use openwork.Store.Ops.{Op}
use openwork.Store.Queue.{verify_evidence}
use openwork.Store.Queue.Ops.{
  transition_leased_run, complete_leased_run, append_leased_runtime_audit, record_leased_artifacts,
  lease_cancel_requested, confirm_cancel,
}
use openwork.Orchestrator.Scanner.{FileSystem, new_scanner, scan}
use openwork.Worker.{worker_error}
use openwork.Worker.Select.{WorkerTaskSpec, build_task}
use openwork.Worker.Supervise.{SupervisorConfig, Tick, Ending, execute_with_cancellation}
use openwork.Worker.Draws.{
  WorkerEnvironment, StartDisposition, is_awaiting, WorkerOutcome, completed, Place, Draws,
  is_planning, is_cancelled, is_success, event_type_of, unbuilt, misplaced, beginning, aborting,
  finishing, sandbox_created_audit, runtime_started_audit, confirming, unconfirmed, undisposed,
  unintended, undecoded, unscannable, scanning, unscanned, recording, unrecorded, destroyed_audit,
  ending, output,
}

unfoldable pub validate_environment : RunLease → WorkerEnvironment → Result (Unit {0})
validate_environment lease environment =
    fail_if
      (not (str_eq environment.input_directory lease.run.workspace)
        || not (str_eq environment.artifact_output_root environment.output_directory))
      (worker_error "worker environment does not match the claimed workspace or output mount")

module _ (x : External) (draws : Draws) where
  unfoldable pub fail_closed : Place → RunLease → String → UtcTimestamp → Exec State WorkerOutcome
  fail_closed place lease reason now =
      complete_leased_run x (draws.event place) lease lease.run.revision failed (some reason) now
      >>= λ r. pure (completed r)

  unfoldable pub fail_after_error :
      Place → RunLease → OpenWorkError → UtcTimestamp → Exec State WorkerOutcome
  fail_after_error place lease primary now =
      fail_closed place lease "worker execution failed closed" now >>= λ _. raise primary

  -- `match result { Ok(value) => value, Err(error) => return self.fail_after_error(..) }`
  unfoldable pub or_fail :
      {A : Type 0}
      → Result A
      → Place
      → RunLease
      → UtcTimestamp
      → (A → Exec State WorkerOutcome)
      → Exec State WorkerOutcome
  or_fail (ok a) place lease now rest = rest a
  or_fail (err e) place lease now rest = fail_after_error place lease e now

  unfoldable pub audit : Place → RunLease → AuditEventType → Exec State Unit
  audit place lease event_type =
      append_leased_runtime_audit x (draws.event place) lease lease.run.revision event_type
        (draws.time place)
      >>= λ _. pure tt

  unfoldable pub complete : RunLease → RunStatus → Option String → Exec State WorkerOutcome
  complete lease next reason =
      audit destroyed_audit lease sandbox_destroyed
      >> (complete_leased_run x (draws.event ending) lease lease.run.revision next reason
            (draws.time ending)
          >>= λ r. pure (completed r))

  unfoldable pub complete_failed : RunLease → Exec State WorkerOutcome
  complete_failed lease = complete lease failed (some "sandbox did not complete successfully")

  -- The loop over the decoded events; `n` counts its rounds.
  unfoldable pub audit_events : RunLease → ℕ → List RuntimeEventPayload → Exec State Unit
  audit_events lease n [] = pure tt
  audit_events lease n (event ∷ events) =
      audit (output n) lease (event_type_of event) >> audit_events lease (ℕ.suc n) events

  module _ (fs : FileSystem) (decode : SandboxResult → Result (List RuntimeEventPayload)) where
    -- The part of `finish_exited` after a success.
    unfoldable pub collect_artifacts :
        RunLease → SandboxResult → WorkerEnvironment → Exec State WorkerOutcome
    collect_artifacts lease result environment =
        or_fail (new_scanner environment.max_artifact_bytes) unscannable lease
          (draws.time unscannable)
          λ max_bytes.
            or_fail
              (scan fs max_bytes draws.artifact_ids lease.run.id environment.artifact_output_root
                result.output_paths (draws.time scanning))
              unscanned lease (draws.time unscanned)
              λ artifacts.
                attempt (
                  record_leased_artifacts x draws.artifact_events lease lease.run.revision artifacts
                    (draws.time recording))
                >>= λ recorded.
                    or_fail recorded unrecorded lease (draws.time unrecorded)
                      λ _. complete lease succeeded none

    unfoldable pub finish_exited :
        RunLease → SandboxResult → WorkerEnvironment → Exec State WorkerOutcome
    finish_exited lease result environment =
        or_fail (decode result) undecoded lease (draws.time undecoded) λ events.
          audit_events lease 0 events
          >> (if is_some_and (last events) is_success
              then collect_artifacts lease result environment
              else complete_failed lease)

    -- The match on the termination.
    unfoldable pub finish_terminated :
        SandboxTermination → RunLease → SandboxResult → WorkerEnvironment → Exec State WorkerOutcome
    finish_terminated Sandbox.cancelled lease result environment =
        fail_closed unintended lease "sandbox cancelled without durable cancellation intent"
          (draws.time unintended)
    finish_terminated Sandbox.timed_out lease result environment =
        complete lease timed_out (some "sandbox did not complete successfully")
    finish_terminated out_of_memory lease result environment =
        complete lease failed (some "sandbox did not complete successfully")
    finish_terminated SandboxTermination.failed lease result environment =
        complete lease failed (some "sandbox did not complete successfully")
    finish_terminated exited lease result environment = finish_exited lease result environment

    -- The part of `finish` where a cancellation was asked for.
    unfoldable pub finish_cancelled : RunLease → SandboxResult → Exec State WorkerOutcome
    finish_cancelled lease result =
        if is_cancelled result.termination
        then or_fail (verify_evidence lease result) unconfirmed lease (draws.time unconfirmed)
            (λ evidence.
              confirm_cancel x (draws.event confirming) lease (draws.time confirming) evidence
              >>= λ r. pure (completed r))
        else fail_closed undisposed lease "cancellation requested without proven sandbox disposal"
            (draws.time undisposed)

    unfoldable pub finish : RunLease → SandboxResult → WorkerEnvironment → Exec State WorkerOutcome
    finish lease result environment =
        or_fail (validate result) finishing lease (draws.time finishing) λ _.
          if not (result.run_id == lease.run.id)
          then fail_closed finishing lease "sandbox returned a result for another run"
              (draws.time finishing)
          else (audit sandbox_created_audit lease sandbox_created
              >> audit runtime_started_audit lease runtime_started
              >> (lease_cancel_requested x lease (draws.time finishing) >>= λ wanted.
                  if wanted
                  then finish_cancelled lease result
                  else finish_terminated result.termination lease result environment))

    module _ {Invocation Request : Type 0} (health : Result (Unit {0}))
        (prepare : RuntimeTask → Result Invocation)
        (into_sandbox_request : Invocation → RunId → WorkerEnvironment → Result Request)
        (cancel : RunId → Result (Unit {0})) (supervisor : SupervisorConfig) (ticks : List Tick)
        (others : List Op) (sandbox : Request → Ending) where
      -- From the running state to the end.
      unfoldable pub start : RunLease → RuntimeTask → WorkerEnvironment → Exec State WorkerOutcome
      start lease task environment = or_fail health aborting lease (draws.time beginning) λ _.
          or_fail (prepare task) aborting lease (draws.time beginning) λ invocation.
            or_fail (into_sandbox_request invocation lease.run.id environment) aborting lease
              (draws.time beginning)
              λ request.
                attempt (
                  execute_with_cancellation x cancel supervisor ticks others (sandbox request)
                    lease)
                >>= λ ran.
                    or_fail ran aborting lease (draws.time beginning)
                      λ (current, result). finish current result environment

      -- After the checks of what was claimed.
      unfoldable pub begin :
          RunLease → RuntimeTask → WorkerEnvironment → StartDisposition → Exec State WorkerOutcome
      begin lease task environment disposition =
          if not (is_planning lease.run.status)
          then fail_closed beginning lease "claimed run is not in planning" (draws.time beginning)
          else (lease_cancel_requested x lease (draws.time beginning) >>= λ wanted.
              if wanted
              then fail_closed beginning lease "cancellation requested before sandbox execution"
                  (draws.time beginning)
              else if is_awaiting disposition
              then (transition_leased_run x (draws.event beginning) lease lease.run.revision
                    RunStatus.awaiting_approval (draws.time beginning)
                  >>= λ awaiting. pure (WorkerOutcome.awaiting_approval awaiting.run))
              else (transition_leased_run x (draws.event beginning) lease lease.run.revision running
                    (draws.time beginning)
                  >>= λ active.
                      lease_cancel_requested x active (draws.time beginning) >>= λ wanted_now.
                      if wanted_now
                      then fail_closed aborting active
                          "cancellation requested before sandbox execution" (draws.time beginning)
                      else start active task environment))

      unfoldable pub execute :
          RunLease
          → WorkerTaskSpec
          → String
          → WorkerEnvironment
          → StartDisposition
          → Exec State WorkerOutcome
      execute lease spec prompt environment disposition =
          or_fail (build_task x lease spec prompt) unbuilt lease (draws.time unbuilt) λ task.
            or_fail (validate_environment lease environment) misplaced lease (draws.time misplaced)
              λ _. begin lease task environment disposition
