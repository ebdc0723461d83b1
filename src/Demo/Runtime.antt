-- ===== src/Demo/Runtime.antt =====
-- The output of a runtime on concrete inputs (crates/openwork-runtime/src/task/mod.rs).
use openwork.Common.{ℕ, ◌+◌, ◌≡◌, refl, none, some, false, List, [], ◌∷◌}
use openwork.Common.Int.{pos}
use openwork.Common.Result.{ok}
use openwork.Common.Exec.Rules.{Ensures}
use openwork.Core.Json.{end}
use openwork.Contract.Task as Task
use openwork.Contract.Task.{RuntimeEvent, RuntimeEventPayload}
use openwork.Contract.Sandbox.{SandboxResult}
use openwork.Runtime.Decode.{
  RuntimeEventDecoder, decode_sandbox_result, strip_return, lines_of, lines,
}
use openwork.Runtime.Stream.{IsDecoded, decode_sandbox_result-IsDecoded}
use openwork.Demo.{demo}
use openwork.Demo.Files.{finished}

abbrev event : ℕ → RuntimeEventPayload → RuntimeEvent
event n payload = record {
  run_id = 7;
  sequence = n;
  timestamp = 8;
  payload = payload;
  vendor_metadata = record { as_map = end };
}

-- A decoder that numbers its events.
abbrev pub decoder : RuntimeEventDecoder ℕ
decoder = record {
  decode_stdout_line = λ line n. (ok (event n (Task.message "line") ∷ []), n + 1);
  decode_stderr_line = λ line n. (ok (event n (Task.stderr "line" false)), n + 1);
  finish = λ code n. (ok (some (event n (Task.completed code))), n + 1);
}

abbrev talkative : SandboxResult
talkative = record finished { stdout = "a\nb\n"; stderr = "c" }

decoded : decode_sandbox_result demo decoder talkative 1 ≡ (
  ok (
      event 1 (Task.message "line")
      ∷ event 2 (Task.message "line")
      ∷ event 3 (Task.stderr "line" false)
      ∷ event 4 (Task.completed (pos 0))
      ∷ []),
  5,
)
unfolding decode_sandbox_result openwork.Runtime.Decode.finish_stream
    openwork.Runtime.Decode.append_final openwork.Runtime.Decode.append_events
    openwork.Runtime.Decode.decode_stdout openwork.Runtime.Decode.decode_stderr
    openwork.Runtime.Decode.append_decoded_event openwork.Runtime.Decode.ensure_event_bounds lines
    lines_of strip_return openwork.Contract.Parse.split openwork.Contract.Parse.add_to_first
    openwork.Core.Text.codes openwork.Contract.Sandbox.validate openwork.Common.Exec.◌>>=◌
    openwork.Common.Exec.lift openwork.Common.Exec.pure openwork.Common.Exec.require
    openwork.Contract.Sandbox.exited_consistently openwork.Contract.Sandbox.cleanup_valid
decoded = refl

decode_sandbox_result-IsDecoded_example :
    Ensures
      (λ _. Unit {0})
      (λ events _. IsDecoded demo talkative events)
      (decode_sandbox_result demo decoder talkative)
      1
decode_sandbox_result-IsDecoded_example = decode_sandbox_result-IsDecoded demo decoder talkative 1
