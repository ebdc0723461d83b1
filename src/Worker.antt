-- ===== src/Worker.antt =====
-- The worker (crates/openwork-worker/src/lib.rs): the choice of a runtime, the supervision of the sandbox,
-- and the run of one claimed task over the memory store, which implements `WorkerLeaseStore`.
pub mod Select
pub mod Adapters
pub mod Routing
pub mod Supervise
pub mod Draws
pub mod Ops
pub mod Steps
pub mod Outcome
pub mod Supervised
pub mod Finish
pub mod Observed
use openwork.Common.{String}
use openwork.Common.Result.{OpenWorkError, execution_failed}

abbrev pub worker_error : String → OpenWorkError
worker_error m = record { code = execution_failed; message = m }

abbrev pub auto_runtime_id : String
auto_runtime_id = "auto"

abbrev pub codex_runtime_id : String
codex_runtime_id = "codex"

abbrev pub claude_runtime_id : String
claude_runtime_id = "claude-code"

abbrev pub opencode_runtime_id : String
opencode_runtime_id = "opencode"

abbrev pub pi_runtime_id : String
pi_runtime_id = "pi"
