-- ===== src/Worker/Select.antt =====
-- The choice of a runtime, of crates/openwork-worker/src/lib.rs.
use openwork.Common.{
  ℕ, String, Bool, true, false, not, ◌&&◌, ◌||◌, Option, none, some, List, [], ◌∷◌, is_some, str_eq,
  if◌then◌else◌,
}
use openwork.Common.Dict.{Dict, get, insert}
use openwork.Common.Result.{Result, ok, err, fail_if, ok_or_else, ◌>>=◌, ◌>>◌}
use openwork.Contract.{Sha256Digest}
use openwork.Contract.External.{External}
use openwork.Contract.Task.{RuntimeTask, validate}
use openwork.Store.{RunLease}
use openwork.Worker.{
  worker_error, auto_runtime_id, codex_runtime_id, claude_runtime_id, opencode_runtime_id,
  pi_runtime_id,
}

pub record WorkerTaskSpec : Type 0 where
  pub runtime : String
  pub prompt_sha256 : Sha256Digest
  pub working_directory : String
  pub timeout_seconds : ℕ
  pub capabilities : List String

pub record RuntimeExecutableConfig : Type 0 where
  pub claude_code : Option String
  pub codex : Option String
  pub opencode : Option String
  pub pi : Option String

pub record RuntimeSelection : Type 0 where
  pub requested_runtime : String
  pub selected_runtime : String
  pub rationale : String

-- `enabled.then_some(runtime)`, as `filter_map` joins it to the rest
abbrev pub when_enabled : Bool → String → List String → List String
when_enabled true runtime rest = runtime ∷ rest
when_enabled false runtime rest = rest

unfoldable pub available_in_auto_order : RuntimeExecutableConfig → List String
available_in_auto_order c = when_enabled (is_some c.codex) codex_runtime_id (
    when_enabled (is_some c.claude_code) claude_runtime_id (
      when_enabled (is_some c.opencode) opencode_runtime_id
        (when_enabled (is_some c.pi) pi_runtime_id [])))

unfoldable pub select_auto : List String → Result RuntimeSelection
select_auto [] = err (worker_error "Auto runtime has no configured in-container provider")
select_auto (runtime ∷ _) = ok (record {
  requested_runtime = auto_runtime_id;
  selected_runtime = runtime;
  rationale = "auto priority: codex, claude-code, opencode, pi";
})

-- The match on a requested runtime: whether it is configured, none where it is not supported.
unfoldable pub configured_runtime : String → RuntimeExecutableConfig → Option (Option String)
configured_runtime runtime c =
    if str_eq runtime codex_runtime_id
    then some c.codex
    else if str_eq runtime claude_runtime_id
    then some c.claude_code
    else if str_eq runtime opencode_runtime_id
    then some c.opencode
    else if str_eq runtime pi_runtime_id
    then some c.pi
    else none

unfoldable pub select_explicit : String → RuntimeExecutableConfig → Result RuntimeSelection
select_explicit runtime configured = do
  available ←
      ok_or_else (configured_runtime runtime configured)
        (worker_error "claimed runtime is not supported by the worker")
  fail_if (not (is_some available))
      (worker_error "claimed runtime is not configured for this worker")
  ok (record {
    requested_runtime = runtime;
    selected_runtime = runtime;
    rationale = "explicit runtime selection";
  })

unfoldable pub select_runtime : String → RuntimeExecutableConfig → Result RuntimeSelection
unfolding select_auto select_explicit
select_runtime requested configured =
    if str_eq requested auto_runtime_id
    then select_auto (available_in_auto_order configured)
    else select_explicit requested configured

-- The adapters of the runtime crate, by the executable that each was made for.
pub data TaskAdapter : Type 0 where
  codex claude opencode pi : String → TaskAdapter

pub record WorkerRuntimeRouter : Type 0 where
  pub configured : RuntimeExecutableConfig
  pub adapters : Dict TaskAdapter

abbrev pub add_adapter :
    (String → TaskAdapter) → String → Option String → Dict TaskAdapter → Dict TaskAdapter
add_adapter make runtime none adapters = adapters
add_adapter make runtime (some executable) adapters = insert runtime (make executable) adapters

-- `WorkerRuntimeRouter::new`
unfoldable pub new_router : RuntimeExecutableConfig → WorkerRuntimeRouter
new_router c = record {
  configured = c;
  adapters = add_adapter pi pi_runtime_id c.pi (
      add_adapter opencode opencode_runtime_id c.opencode (
        add_adapter claude claude_runtime_id c.claude_code
          (add_adapter codex codex_runtime_id c.codex [])));
}

unfoldable pub resolve_task_spec :
    WorkerRuntimeRouter → RunLease → WorkerTaskSpec → Result (RuntimeSelection × WorkerTaskSpec)
resolve_task_spec router lease spec = do
  fail_if (not (str_eq spec.runtime lease.run.runtime))
      (worker_error "task spec runtime does not match claimed run")
  selection ← select_runtime lease.run.runtime router.configured
  ok (selection, record spec { runtime = selection.selected_runtime })

unfoldable pub adapter : WorkerRuntimeRouter → RuntimeSelection → Result TaskAdapter
adapter router selection =
    ok_or_else (get selection.selected_runtime router.adapters)
      (worker_error "selected runtime adapter is unavailable")

unfoldable pub is_supported_runtime : String → Bool
is_supported_runtime runtime =
    str_eq runtime codex_runtime_id
    || str_eq runtime claude_runtime_id
    || str_eq runtime opencode_runtime_id
    || str_eq runtime pi_runtime_id

-- `prompt` is what the one-time prompt holds.
unfoldable pub build_task : External → RunLease → WorkerTaskSpec → String → Result RuntimeTask
build_task x lease spec prompt = do
  let task : RuntimeTask = record {
    run_id = lease.run.id;
    runtime = spec.runtime;
    prompt = prompt;
    prompt_hash = spec.prompt_sha256;
    working_directory = spec.working_directory;
    timeout_seconds = spec.timeout_seconds;
    capabilities = spec.capabilities;
  }
  validate x task
  fail_if
      (not (str_eq task.prompt_hash lease.run.prompt_sha256)
        || not (
            str_eq task.runtime lease.run.runtime
            || (str_eq lease.run.runtime auto_runtime_id && is_supported_runtime task.runtime)))
      (worker_error "one-time prompt hash or runtime does not match claimed run")
  ok task
