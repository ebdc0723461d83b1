-- ===== src/Demo/Files.antt =====
-- Paths, digests, files and executions on concrete inputs (crates/openwork-execution/src/lib.rs,
-- artifact/mod.rs, orchestrator/mod.rs).
use openwork.Common.{ℕ, arith, ◌+◌, ◌≡◌, refl, String, true, false, some, List, [], ◌∷◌}
use openwork.Common.Int.{pos}
use openwork.Common.Result.{ok}
use openwork.Common.Exec.Rules.{Ensures}
use openwork.Core.Text.{codes}
use openwork.Contract.External.{External}
use openwork.Contract.Digest.{sha256_bytes, hex}
use openwork.Contract.Run.{Artifact}
use openwork.Contract.Sandbox.{SandboxTermination, SandboxCleanupStatus, SandboxResult}
use openwork.Contract.Sandbox as Sandbox
use openwork.Contract.Parse.{split, parse_digest, parse_artifact_path}
use openwork.Contract.Parse.Digests.{parse_digest-sha256_bytes}
use openwork.Contract.Parse.Paths.{resolve, enter, join, parse_artifact_path-resolve}
use openwork.Store.Slots.{Effect}
use openwork.Orchestrator.Scanner.{FileSystem, scan_one}
use openwork.Orchestrator.Files.{IsScan, scan_one-IsScan}
use openwork.Orchestrator.Ops.{SandboxRequest, Draws, execute_with_output_processor}
use openwork.Orchestrator.Outcome.{IsEnd, execute_with_output_processor-IsEnd}
use openwork.Demo.{demo, fresh, after_create, after_create-IsValid}

abbrev bytes : List ℕ
bytes =
    1 ∷ 2 ∷ 3 ∷ 4 ∷ 5 ∷ 6 ∷ 7 ∷ 8 ∷ 9 ∷ 10 ∷ 11 ∷ 12 ∷ 13 ∷ 14 ∷ 15 ∷ 16 ∷ 171 ∷ 172 ∷ 173 ∷ 174
    ∷ 175 ∷ 176 ∷ 177 ∷ 178 ∷ 179 ∷ 180 ∷ 181 ∷ 182 ∷ 183 ∷ 184 ∷ 185 ∷ 255 ∷ []

-- An environment whose digests have 32 bytes.
abbrev full : External
full = record demo { digest = λ s. bytes }

parse_digest-sha256_bytes_example :
    parse_digest (sha256_bytes full "x") ≡ ok (sha256_bytes full "x")
parse_digest-sha256_bytes_example = parse_digest-sha256_bytes full "x" refl (omega arith)

parsed : parse_artifact_path (λ p. false) "out/report.md" ≡ ok "out/report.md"
unfolding parse_artifact_path openwork.Contract.Parse.refused_path openwork.Core.Text.starts_with
    codes openwork.Core.Text.contains split openwork.Contract.Parse.invalid_segment
    openwork.Contract.Parse.eq_codes
parsed = refl

parse_artifact_path-resolve_example :
    (◌≡◌ {A = String} "out/report.md" "out/report.md")
    × (resolve [] (split b'/' (codes "out/report.md"))
        ≡ some (enter [] (split b'/' (codes "out/report.md"))))
    × (join b'/' (split b'/' (codes "out/report.md")) ≡ codes "out/report.md")
parse_artifact_path-resolve_example =
    parse_artifact_path-resolve (λ p. false) "out/report.md" "out/report.md" parsed

abbrev pub disk : FileSystem
disk = record {
  is_symlink = λ p. some false;
  canonicalize = λ p. some p;
  is_dir = λ p. true;
  open_file = λ p. some (record {
    before = some (true, 3);
    reads = some (1 ∷ 2 ∷ []) ∷ some (3 ∷ []) ∷ [];
    after = some (true, 3);
  });
  join = λ root p. "/out/report.md";
  is_below = λ p root. true;
  components = λ root p. [];
  extension = λ p. some "MD";
  sha256 = λ bs. bytes;
}

abbrev artifact : Artifact
artifact = record {
  id = 31;
  run_id = 7;
  path = "report.md";
  media_type = "text/markdown";
  size_bytes = 3;
  sha256 = "0102030405060708090a0b0c0d0e0f10abacadaeafb0b1b2b3b4b5b6b7b8b9ff";
  created_at = 9;
}

scanned : scan_one disk 100 31 7 "/out" "report.md" 9 ≡ ok artifact
unfolding scan_one openwork.Orchestrator.Scanner.reject_symlink_components
    openwork.Orchestrator.Scanner.hash_file openwork.Orchestrator.Scanner.copy parse_digest hex
    openwork.Contract.Parse.all_hex codes openwork.Contract.Parse.new_artifact_size
    openwork.Orchestrator.Scanner.media_type openwork.Contract.Parse.eq_codes
scanned = refl

scan_one-IsScan_example :
    IsScan disk 100 "/out" artifact × (◌≡◌ {A = String} "report.md" "report.md")
scan_one-IsScan_example = scan_one-IsScan disk 100 31 7 "/out" "report.md" 9 artifact scanned

abbrev pub finished : SandboxResult
finished = record {
  run_id = 7;
  sandbox_id = "box";
  termination = SandboxTermination.exited;
  exit_code = some (pos 0);
  stdout = "";
  stderr = "";
  truncated = false;
  started_at = 7;
  completed_at = 8;
  output_paths = "report.md" ∷ [];
  cleanup = Sandbox.succeeded;
}

abbrev draws : Draws
draws = record {
  planning_event = 70;
  running_event = 71;
  failure_event = 72;
  final_event = 73;
  artifact_ids = λ i. i + 80;
  artifact_events = λ i. i + 90;
  failed_at = 9;
  rejected_at = 9;
  completed_at = 9;
}

abbrev sandbox_request : SandboxRequest
sandbox_request = record { run_id = 7; output_directory = "/out" }

execute_with_output_processor-IsEnd_example :
    Ensures
      (λ t. Effect demo after_create t)
      (λ r t.
        Effect demo after_create t
        × IsEnd demo disk 100 (λ q. ok finished) [] (λ q. ok tt) draws sandbox_request r t)
      (execute_with_output_processor demo disk 100
        (λ q. ok finished)
        []
        (λ q. ok tt)
        draws
        fresh
        sandbox_request
        "alice"
        6)
      after_create
execute_with_output_processor-IsEnd_example =
    execute_with_output_processor-IsEnd demo disk 100 (λ q. ok finished) [] (λ q. ok tt) draws fresh
      sandbox_request "alice" 6 after_create after_create-IsValid
