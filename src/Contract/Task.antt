-- ===== src/Contract/Task.antt =====
-- Runtime tasks and the payloads of runtime events, of crates/openwork-execution/src/lib.rs.
use Prim.Native.Nat.{Ordering}
use Prim.Native.String.{len, compare}
use openwork.Common.{
  ℕ, String, Bool, true, not, ◌&&◌, ◌||◌, List, [], ◌∷◌, length, ltb, leb, str_eq,
}
use openwork.Common.Int.{ℤ}
use openwork.Common.Result.{Result, invalid_contract, fail_if}
use openwork.Core.Json.{Value}
use openwork.Core.Text.{is_blank}
use openwork.Contract.{RunId, Sha256Digest, UtcTimestamp}
use openwork.Contract.Audit.{RedactedAuditMetadata}
use openwork.Contract.Digest.{sha256_bytes}
use openwork.Contract.External.{External}

pub record RuntimeTask : Type 0 where
  pub run_id : RunId
  pub runtime : String
  pub prompt : String
  pub prompt_hash : Sha256Digest
  pub working_directory : String
  pub timeout_seconds : ℕ
  pub capabilities : List String

insert_sorted : String → List String → List String
insert_sorted s [] = s ∷ []
insert_sorted s (t ∷ ts) = elim (compare s t) [
  | Ordering.gt ↦ t ∷ insert_sorted s ts
  | _ ↦ s ∷ t ∷ ts
]

-- `sort_unstable`
sorted : List String → List String
unfolding insert_sorted
sorted [] = []
sorted (s ∷ ts) = insert_sorted s (sorted ts)

-- `windows(2).all(|pair| pair[0] != pair[1])`
neighbours_differ : List String → Bool
neighbours_differ [] = true
neighbours_differ (s ∷ []) = true
neighbours_differ (s ∷ t ∷ ts) = not (str_eq s t) && neighbours_differ (t ∷ ts)

all_capabilities : List String → Bool
all_capabilities [] = true
all_capabilities (c ∷ cs) = not (is_blank c) && leb (len c) 128 && all_capabilities cs

unfoldable pub capabilities_valid : List String → Bool
unfolding all_capabilities
capabilities_valid capabilities = leb (length capabilities) 64 && all_capabilities capabilities

unfoldable pub prompt_matches_hash : External → RuntimeTask → Bool
prompt_matches_hash x task = str_eq task.prompt_hash (sha256_bytes x task.prompt)

-- `RuntimeTask::validate`
unfoldable pub validate : External → RuntimeTask → Result (Unit {0})
unfolding sorted neighbours_differ
validate x task =
    fail_if
      (is_blank task.runtime
        || ltb 128 (len task.runtime)
        || not (leb 1 task.timeout_seconds && leb task.timeout_seconds 3600)
        || not (capabilities_valid task.capabilities)
        || not (neighbours_differ (sorted task.capabilities))
        || not (prompt_matches_hash x task))
      (invalid_contract "runtime task invariants are invalid")

pub data RuntimeEventPayload : Type 0 where
  started : RuntimeEventPayload
  stdout stderr : String → Bool → RuntimeEventPayload
  message : String → RuntimeEventPayload
  tool_call : String → Value → RuntimeEventPayload
  artifact : String → RuntimeEventPayload
  completed : ℤ → RuntimeEventPayload
  failed : String → String → RuntimeEventPayload
  cancelled : RuntimeEventPayload

-- The schema version is a type of one value.
pub record RuntimeEvent : Type 0 where
  pub run_id : RunId
  pub sequence : ℕ
  pub timestamp : UtcTimestamp
  pub payload : RuntimeEventPayload
  pub vendor_metadata : RedactedAuditMetadata
