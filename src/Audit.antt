-- ===== src/Audit.antt =====
-- Audit append inputs (crates/openwork-execution/src/audit/mod.rs). The identifier that
-- `AuditEventId::generate` draws is an argument of `build`.
pub mod Chain
use openwork.Common.{ℕ, String, Option}
use openwork.Common.Result.{Result}
use openwork.Core.Json.{string, integer, Entries, end, insert_entry}
use openwork.Contract.{RunId, AuditEventId, ActionId, UtcTimestamp, Sha256Digest, ActorId}
use openwork.Contract.External.{External}
use openwork.Contract.Run.{
  RunStatus, queued, planning, awaiting_approval, running, succeeded, failed, cancelled, timed_out,
  Artifact,
}
use openwork.Contract.Audit.{AuditEventType, AuditEvent, from_untrusted, new_event}

pub data AuditDetails : Type 0 where
  no_details : AuditDetails
  run_status : RunStatus → AuditDetails
  artifact : Sha256Digest → ℕ → AuditDetails
  action_execution : ActionId → Sha256Digest → AuditDetails

pub record AuditAppend : Type 0 where
  pub actor : ActorId
  pub timestamp : UtcTimestamp
  pub details : AuditDetails

-- `AuditAppend::new`
abbrev pub new_append : ActorId → UtcTimestamp → AuditAppend
new_append actor timestamp = record { actor = actor; timestamp = timestamp; details = no_details }

abbrev pub with_run_status : RunStatus → AuditAppend → AuditAppend
with_run_status status a = record a { details = run_status status }

abbrev pub with_artifact : Artifact → AuditAppend → AuditAppend
with_artifact file a = record a { details = artifact file.sha256 file.size_bytes }

abbrev pub with_action_execution : ActionId → Sha256Digest → AuditAppend → AuditAppend
with_action_execution action_id parameter_hash a = record a {
  details = action_execution action_id parameter_hash;
}

run_status_name : RunStatus → String
run_status_name queued = "queued"
run_status_name planning = "planning"
run_status_name awaiting_approval = "awaiting_approval"
run_status_name running = "running"
run_status_name succeeded = "succeeded"
run_status_name failed = "failed"
run_status_name cancelled = "cancelled"
run_status_name timed_out = "timed_out"

module _ (x : External) where
  unfoldable pub metadata_of : AuditDetails → Entries
  unfolding run_status_name insert_entry
  metadata_of no_details = end
  metadata_of (run_status status) = insert_entry "run_status" (string (run_status_name status)) end
  metadata_of (artifact sha256 size_bytes) =
      insert_entry "artifact_sha256" (string sha256)
        (insert_entry "artifact_size_bytes" (integer size_bytes) end)
  metadata_of (action_execution action_id parameter_hash) =
      insert_entry "action_id" (string (x.to_hyphenated action_id))
        (insert_entry "parameter_hash" (string parameter_hash) end)

  unfoldable pub build :
      AuditEventId
      → AuditAppend
      → RunId
      → ℕ
      → AuditEventType
      → Option Sha256Digest
      → Result AuditEvent
  build event_id a run_id sequence event_type previous_hash =
      new_event x event_id run_id sequence event_type a.actor a.timestamp
        (from_untrusted x (metadata_of a.details)) previous_hash
