-- ===== src/Contract/Sandbox.antt =====
-- Sandbox results, of crates/openwork-execution/src/lib.rs.
use Prim.Native.String.{len}
use openwork.Common.{
  ℕ, ◌+◌, String, Bool, true, not, ◌&&◌, ◌||◌, Option, List, [], ◌∷◌, length, ltb, leb, ◌==◌,
  str_eq, is_some,
}
use openwork.Common.Int.{ℤ}
use openwork.Common.Result.{Result, invalid_contract, fail_if}
use openwork.Core.Text.{codes, is_lower, is_digit}
use openwork.Contract.{RunId, UtcTimestamp}

pub data SandboxTermination : Type 0 where
  exited cancelled timed_out out_of_memory failed : SandboxTermination

pub data SandboxCleanupStatus : Type 0 where
  succeeded : SandboxCleanupStatus
  failed : String → SandboxCleanupStatus

pub record SandboxResult : Type 0 where
  pub run_id : RunId
  pub sandbox_id : String
  pub termination : SandboxTermination
  pub exit_code : Option ℤ
  pub stdout : String
  pub stderr : String
  pub truncated : Bool
  pub started_at : UtcTimestamp
  pub completed_at : UtcTimestamp
  pub output_paths : List String
  pub cleanup : SandboxCleanupStatus

abbrev pub max_sandbox_output_bytes : ℕ
max_sandbox_output_bytes = 16777216

machine_code_chars : List ℕ → Bool
machine_code_chars [] = true
machine_code_chars (c ∷ cs) =
    (is_lower c || is_digit c || c == b'.' || c == b'_' || c == b'-') && machine_code_chars cs

unfoldable pub valid_machine_code : String → Bool
unfolding codes machine_code_chars
valid_machine_code code =
    not (str_eq code "") && leb (len code) 128 && machine_code_chars (codes code)

unfoldable pub exited_consistently : SandboxTermination → Option ℤ → Bool
exited_consistently exited code = is_some code
exited_consistently cancelled code = not (is_some code)
exited_consistently timed_out code = not (is_some code)
exited_consistently out_of_memory code = not (is_some code)
exited_consistently SandboxTermination.failed code = true

unfoldable pub cleanup_valid : SandboxCleanupStatus → Bool
cleanup_valid succeeded = true
cleanup_valid (SandboxCleanupStatus.failed error_code) = valid_machine_code error_code

-- `SandboxResult::validate`; the sum of two lengths in memory is below `usize::MAX`
unfoldable pub validate : SandboxResult → Result (Unit {0})
validate r =
    fail_if
      (str_eq r.sandbox_id ""
        || ltb 128 (len r.sandbox_id)
        || ltb r.completed_at r.started_at
        || ltb max_sandbox_output_bytes (len r.stdout + len r.stderr)
        || ltb 1024 (length r.output_paths)
        || not (exited_consistently r.termination r.exit_code)
        || not (cleanup_valid r.cleanup))
      (invalid_contract "sandbox result invariants are invalid")
