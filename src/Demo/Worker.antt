-- ===== src/Demo/Worker.antt =====
-- One claimed run of the worker on concrete inputs (crates/openwork-worker/src/lib.rs).
use openwork.Common.{String, ◌≡◌, refl, ◌+◌, none, some, List, [], ◌∷◌}
use openwork.Common.Int.{pos}
use openwork.Common.Result.{ok}
use openwork.Common.Exec.Rules.{Ensures}
use openwork.Contract.Task as Task
use openwork.Audit.{new_append}
use openwork.Store.{State, RunLease, empty}
use openwork.Store.Ops.{Op, run_ops}
use openwork.Store.Reach.{run_ops-IsValid}
use openwork.Store.Validity.{IsValid}
use openwork.Store.Slots.{Effect}
use openwork.Worker.Select.{
  WorkerTaskSpec, RuntimeExecutableConfig, RuntimeSelection, new_router, resolve_task_spec,
}
use openwork.Worker.Routing.{IsRouted, resolve_task_spec-IsRouted}
use openwork.Worker.Supervise.{Tick, Ending, received, default_supervisor}
use openwork.Worker.Draws.{WorkerEnvironment, StartDisposition, Draws}
use openwork.Worker.Ops.{execute}
use openwork.Worker.Outcome.{IsJustified}
use openwork.Worker.Finish.{IsGiven, execute-IsJustified}
use openwork.Demo.{demo, fresh, lease, claim}
use openwork.Demo.Runtime.{decoder}
use openwork.Worker.Observed.{IsEarned, decode, execute-IsEarned}
use openwork.Demo.Files.{disk, finished}

abbrev draws : Draws
draws = record {
  time = λ p. 12;
  event = λ p. 50;
  artifact_ids = λ i. i + 80;
  artifact_events = λ i. i + 90;
}

abbrev spec : WorkerTaskSpec
spec = record {
  runtime = "claude";
  prompt_sha256 = "abcd";
  working_directory = "/w";
  timeout_seconds = 60;
  capabilities = [];
}

abbrev environment : WorkerEnvironment
environment = record {
  input_directory = "/w";
  output_directory = "/out";
  artifact_output_root = "/out";
  max_artifact_bytes = 100;
}

abbrev ticks : List Tick
ticks = record { others = []; now = 12 } ∷ []

-- A store whose run 7 was claimed, with the digest of the prompt in it.
abbrev hashed : State
hashed =
    run_ops demo
      (Op.create_run 1 (record fresh { prompt_sha256 = "abcd" }) (new_append "alice" 5)
        ∷ claim
        ∷ [])
      empty

hashed-IsValid : IsValid demo hashed
hashed-IsValid =
    run_ops-IsValid demo (
      Op.create_run 1 (record fresh { prompt_sha256 = "abcd" }) (new_append "alice" 5) ∷ claim ∷ [])

abbrev claimed : RunLease
claimed = record lease { run = record lease.run { prompt_sha256 = "abcd" } }

execute-IsJustified_example :
    Ensures
      (λ t. Effect demo hashed t)
      (λ o t.
        Effect demo hashed t
        × IsJustified demo draws disk
            (λ r. ok (Task.completed (pos 0) ∷ []))
            hashed
            (IsGiven demo draws disk
              (λ r. ok (Task.completed (pos 0) ∷ []))
              hashed
              (ok tt)
              (λ task. ok task.prompt)
              (λ i id e. ok i)
              (λ id. ok tt)
              default_supervisor
              ticks
              []
              (λ q. received (ok finished)))
            o)
      (execute demo draws disk
        (λ r. ok (Task.completed (pos 0) ∷ []))
        (ok tt)
        (λ task. ok task.prompt)
        (λ i id e. ok i)
        (λ id. ok tt)
        default_supervisor
        ticks
        []
        (λ q. received (ok finished))
        claimed
        spec
        "hello"
        environment
        StartDisposition.run)
      hashed
execute-IsJustified_example =
    execute-IsJustified demo draws disk (λ r. ok (Task.completed (pos 0) ∷ [])) hashed (ok tt)
      (λ task. ok task.prompt) (λ i id e. ok i) (λ id. ok tt) default_supervisor ticks []
      (λ q. received (ok finished)) claimed spec "hello" environment StartDisposition.run
      hashed-IsValid

abbrev executables : RuntimeExecutableConfig
executables = record {
  claude_code = some "/bin/claude";
  codex = none;
  opencode = none;
  pi = some "/bin/pi";
}

abbrev open_lease : RunLease
open_lease = record lease { run = record lease.run { runtime = "auto" } }

abbrev open_spec : WorkerTaskSpec
open_spec = record spec { runtime = "auto" }

abbrev selection : RuntimeSelection
selection = record {
  requested_runtime = "auto";
  selected_runtime = "claude-code";
  rationale = "auto priority: codex, claude-code, opencode, pi";
}

resolved :
    resolve_task_spec (new_router executables) open_lease open_spec
    ≡ ok (selection, record open_spec { runtime = "claude-code" })
unfolding resolve_task_spec new_router openwork.Worker.Select.select_runtime
    openwork.Worker.Select.select_auto openwork.Worker.Select.available_in_auto_order
resolved = refl

resolve_task_spec-IsRouted_example :
    IsRouted executables "auto" selection
    × (◌≡◌ {A = WorkerTaskSpec}
        (record open_spec { runtime = "claude-code" })
        (record open_spec { runtime = "claude-code" }))
resolve_task_spec-IsRouted_example =
    resolve_task_spec-IsRouted executables open_lease open_spec
      (record open_spec { runtime = "claude-code" }) selection resolved

execute-IsEarned_example :
    Ensures
      (λ t. Effect demo hashed t)
      (λ o t.
        Effect demo hashed t
        × IsEarned demo decoder 1
            (λ result.
              (q : String) × (◌≡◌ {A = Ending} (received (ok finished)) (received (ok result))))
            o)
      (execute demo draws disk
        (decode demo decoder 1)
        (ok tt)
        (λ task. ok task.prompt)
        (λ i id e. ok i)
        (λ id. ok tt)
        default_supervisor
        ticks
        []
        (λ q. received (ok finished))
        claimed
        spec
        "hello"
        environment
        StartDisposition.run)
      hashed
execute-IsEarned_example =
    execute-IsEarned demo decoder 1 draws disk hashed (ok tt) (λ task. ok task.prompt)
      (λ i id e. ok i) (λ id. ok tt) default_supervisor ticks [] (λ q. received (ok finished))
      claimed spec "hello" environment StartDisposition.run hashed-IsValid
