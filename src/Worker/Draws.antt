-- ===== src/Worker/Draws.antt =====
-- What the worker is given, what it draws and what it returns, of crates/openwork-worker/src/lib.rs.
use openwork.Common.{ℕ, zero, String, Bool, true, false, if◌then◌else◌}
use openwork.Common.Int.{pos}
use openwork.Contract.{ArtifactId, AuditEventId, UtcTimestamp}
use openwork.Contract.Run.{RunStatus, planning, Run}
use openwork.Contract.Audit.{AuditEventType, runtime_completed, runtime_output}
use openwork.Contract.Sandbox.{SandboxTermination, exited, out_of_memory, SandboxResult, validate}
use openwork.Contract.Sandbox as Sandbox
use openwork.Contract.Task as Task
use openwork.Contract.Task.{RuntimeTask, RuntimeEventPayload}

-- The fields that the worker reads; the sandbox's request takes the others.
pub record WorkerEnvironment : Type 0 where
  pub input_directory : String
  pub output_directory : String
  pub artifact_output_root : String
  pub max_artifact_bytes : ℕ

pub data StartDisposition : Type 0 where
  run awaiting_approval : StartDisposition

abbrev pub is_awaiting : StartDisposition → Bool
is_awaiting StartDisposition.run = false
is_awaiting StartDisposition.awaiting_approval = true

pub data WorkerOutcome : Type 0 where
  awaiting_approval completed : Run → WorkerOutcome

-- The places of the code that read the clock or write an event.
pub data Place : Type 0 where
  unbuilt misplaced beginning aborting finishing sandbox_created_audit runtime_started_audit : Place
  confirming unconfirmed undisposed unintended undecoded unscannable scanning unscanned : Place
  recording unrecorded destroyed_audit ending : Place
  output : ℕ → Place

-- What an execution draws, by where it draws it.
pub record Draws : Type 0 where
  pub time : Place → UtcTimestamp
  pub event : Place → AuditEventId
  pub artifact_ids : ℕ → ArtifactId
  pub artifact_events : ℕ → AuditEventId

abbrev pub is_planning : RunStatus → Bool
is_planning planning = true
is_planning _ = false

abbrev pub is_cancelled : SandboxTermination → Bool
is_cancelled Sandbox.cancelled = true
is_cancelled _ = false

-- `matches!(payload, Completed { .. } | Failed { .. } | Cancelled)`
abbrev pub is_final : RuntimeEventPayload → Bool
is_final (Task.completed code) = true
is_final (Task.failed code message) = true
is_final Task.cancelled = true
is_final _ = false

-- `matches!(payload, Completed { exit_code: 0 })`
abbrev pub is_success : RuntimeEventPayload → Bool
is_success (Task.completed (pos zero)) = true
is_success _ = false

abbrev pub event_type_of : RuntimeEventPayload → AuditEventType
event_type_of payload = if is_final payload then runtime_completed else runtime_output
