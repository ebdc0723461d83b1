-- ===== src/Runtime/Decode.antt =====
-- `decode_sandbox_result` of crates/openwork-runtime/src/task/mod.rs, over the decoder of a provider.
use Prim.Native.String.{len}
use openwork.Common.{
  ℕ, zero, ◌+◌, String, Bool, true, false, not, ◌||◌, Option, none, some, List, [], ◌∷◌, ◌++◌,
  length, ltb, ◌==◌, last, is_some_and, if◌then◌else◌,
}
use openwork.Common.Int.{ℤ, pos}
use openwork.Common.Result as Result
use openwork.Common.Result.{OpenWorkError, execution_failed, Result, ok, err, fail_if}
use openwork.Common.Exec.{Exec, pure, lift, require, ◌>>=◌}
use openwork.Core.Json.{object}
use openwork.Core.Text.{codes}
use openwork.Contract.Audit.{RedactedAuditMetadata}
use openwork.Contract.External.{External}
use openwork.Contract.Parse.{split}
use openwork.Contract.Sandbox.{
  SandboxTermination, exited, SandboxCleanupStatus, SandboxResult, validate,
}
use openwork.Contract.Sandbox as Sandbox
use openwork.Contract.Task as Task
use openwork.Contract.Task.{RuntimeEvent, RuntimeEventPayload}

abbrev pub runtime_error : String → OpenWorkError
runtime_error m = record { code = execution_failed; message = m }

abbrev pub max_runtime_event_bytes : ℕ
max_runtime_event_bytes = 16384

abbrev pub max_runtime_events : ℕ
max_runtime_events = 4096

-- The decoder of a provider, with its state. A line is its code points, which are read as UTF-8.
pub record RuntimeEventDecoder (D : Type 0) : Type 0 where
  pub decode_stdout_line : List ℕ → Exec D (List RuntimeEvent)
  pub decode_stderr_line : List ℕ → Exec D RuntimeEvent
  pub finish : ℤ → Exec D (Option RuntimeEvent)

pub data DecodedEventSource : Type 0 where
  stdout stderr finish : DecodedEventSource

-- The lengths of texts in memory do not overflow when they are added.
abbrev payload_bytes : External → RuntimeEventPayload → ℕ
payload_bytes x Task.started = 0
payload_bytes x Task.cancelled = 0
payload_bytes x (Task.stdout chunk truncated) = len chunk
payload_bytes x (Task.stderr chunk truncated) = len chunk
payload_bytes x (Task.message content) = len content
payload_bytes x (Task.tool_call name parameters) = len name + len (x.to_string parameters)
payload_bytes x (Task.artifact relative_path) = len relative_path
payload_bytes x (Task.completed exit_code) = 4
payload_bytes x (Task.failed code message) = len code + len message

unfoldable pub ensure_event_bounds :
    External → RuntimeEventPayload → RedactedAuditMetadata → Result (Unit {0})
ensure_event_bounds x payload metadata =
    fail_if
      (ltb max_runtime_event_bytes
        (payload_bytes x payload + len (x.to_string (object metadata.as_map)) + 512))
      (runtime_error "runtime event exceeds the event limit")

abbrev pub is_completed : RuntimeEventPayload → Bool
is_completed (Task.completed exit_code) = true
is_completed _ = false

abbrev pub is_cancelled : RuntimeEventPayload → Bool
is_cancelled Task.cancelled = true
is_cancelled _ = false

abbrev pub is_stderr : RuntimeEventPayload → Bool
is_stderr (Task.stderr chunk truncated) = true
is_stderr _ = false

-- The match on the payload and the exit code of the sandbox.
abbrev pub final_valid : RuntimeEventPayload → Option ℤ → Bool
final_valid (Task.completed (pos zero)) (some (pos zero)) = true
final_valid (Task.failed code message) (some (pos zero)) = false
final_valid (Task.failed code message) (some observed) = true
final_valid _ _ = false

abbrev pub source_valid : DecodedEventSource → RuntimeEventPayload → Option ℤ → Bool
source_valid stdout payload code = not (is_completed payload || is_cancelled payload)
source_valid stderr payload code = is_stderr payload
source_valid finish payload code = final_valid payload code

abbrev pub is_terminal_payload : RuntimeEventPayload → Bool
is_terminal_payload (Task.completed exit_code) = true
is_terminal_payload (Task.failed code message) = true
is_terminal_payload Task.cancelled = true
is_terminal_payload _ = false

abbrev pub is_terminal_event : RuntimeEvent → Bool
is_terminal_event event = is_terminal_payload event.payload

unfoldable pub append_decoded_event :
    External
    → SandboxResult
    → List RuntimeEvent
    → RuntimeEvent
    → DecodedEventSource
    → Result (List RuntimeEvent)
append_decoded_event x result events event source =
    Result.◌>>=◌
      (fail_if (is_some_and (last events) is_terminal_event)
        (runtime_error "runtime decoder emitted data after termination"))
      λ _.
        Result.◌>>=◌
          (fail_if
            (not (event.run_id == result.run_id)
              || not (event.sequence == length events + 1)
              || ltb max_runtime_events event.sequence)
            (runtime_error "runtime decoder emitted an invalid event envelope"))
          λ _. Result.◌>>=◌ (ensure_event_bounds x event.payload event.vendor_metadata) λ _.
            Result.◌>>=◌
              (fail_if (not (source_valid source event.payload result.exit_code))
                (runtime_error "runtime decoder emitted an event from an invalid source"))
              λ _. ok (events ++ (event ∷ []))

-- One carriage return at the end of a line is not part of it.
unfoldable pub strip_return : List ℕ → List ℕ
strip_return [] = []
strip_return (c ∷ []) = if c == 13 then [] else c ∷ []
strip_return (c ∷ d ∷ cs) = c ∷ strip_return (d ∷ cs)

unfoldable pub lines_of : List (List ℕ) → List (List ℕ)
unfolding strip_return
lines_of [] = []
lines_of ([] ∷ []) = []
lines_of ((c ∷ cs) ∷ []) = (c ∷ cs) ∷ []
lines_of (piece ∷ next ∷ pieces) = strip_return piece ∷ lines_of (next ∷ pieces)

-- `output.lines()`; an empty output has no line.
unfoldable pub lines : String → List (List ℕ)
unfolding lines_of split codes
lines output = lines_of (split 10 (codes output))

abbrev pub is_dirty : SandboxCleanupStatus → Bool
is_dirty Sandbox.succeeded = false
is_dirty (SandboxCleanupStatus.failed code) = true

module _ {D : Type 0} (x : External) (decoder : RuntimeEventDecoder D)
    (result : SandboxResult) where
  unfoldable pub append_events : List RuntimeEvent → List RuntimeEvent → Result (List RuntimeEvent)
  append_events events [] = ok events
  append_events events (event ∷ rest) =
      Result.◌>>=◌ (append_decoded_event x result events event stdout)
        λ more. append_events more rest

  unfoldable pub decode_stdout : List RuntimeEvent → List (List ℕ) → Exec D (List RuntimeEvent)
  decode_stdout events [] = pure events
  decode_stdout events (line ∷ rest) = decoder.decode_stdout_line line >>= λ decoded.
      lift (append_events events decoded) >>= λ more. decode_stdout more rest

  unfoldable pub decode_stderr : List RuntimeEvent → List (List ℕ) → Exec D (List RuntimeEvent)
  decode_stderr events [] = pure events
  decode_stderr events (line ∷ rest) = decoder.decode_stderr_line line >>= λ event.
      lift (append_decoded_event x result events event stderr) >>= λ more. decode_stderr more rest

  -- What `finish` of the decoder gave.
  unfoldable pub append_final : List RuntimeEvent → Option RuntimeEvent → Result (List RuntimeEvent)
  append_final events (some event) = append_decoded_event x result events event finish
  append_final events none =
      Result.◌>>=◌
        (fail_if (not (is_some_and (last events) is_terminal_event))
          (runtime_error "runtime decoder omitted its terminal exit event"))
        λ _. ok events

  unfoldable pub finish_stream : SandboxTermination → List RuntimeEvent → Exec D (List RuntimeEvent)
  finish_stream exited events =
      require result.exit_code (runtime_error "exited sandbox omitted its exit code")
      >>= λ exit_code. decoder.finish exit_code >>= λ event. lift (append_final events event)
  finish_stream _ events = pure events

  unfoldable pub decode_sandbox_result : Exec D (List RuntimeEvent)
  decode_sandbox_result = lift (validate result) >>= λ _.
      lift (fail_if (is_dirty result.cleanup) (runtime_error "sandbox cleanup failed")) >>= λ _.
      lift (fail_if result.truncated (runtime_error "sandbox output was truncated")) >>= λ _.
      decode_stdout [] (lines result.stdout) >>= λ events.
      decode_stderr events (lines result.stderr) >>= λ more. finish_stream result.termination more
