-- ===== src/Contract/Run.antt =====
-- `RunStatus`, `Run` and `Artifact` of crates/openwork-execution/src/lib.rs.
use openwork.Common.{ℕ, String, Bool, true, false, Option}
use openwork.Contract.{RunId, ArtifactId, UtcTimestamp, Sha256Digest, ActorId}

pub data RunStatus : Type 0 where
  queued planning awaiting_approval running succeeded failed cancelled timed_out : RunStatus

unfoldable pub can_transition_to : RunStatus → RunStatus → Bool
can_transition_to queued planning = true
can_transition_to queued failed = true
can_transition_to queued cancelled = true
can_transition_to queued timed_out = true
can_transition_to planning awaiting_approval = true
can_transition_to planning running = true
can_transition_to planning failed = true
can_transition_to planning cancelled = true
can_transition_to planning timed_out = true
can_transition_to awaiting_approval running = true
can_transition_to awaiting_approval failed = true
can_transition_to awaiting_approval cancelled = true
can_transition_to awaiting_approval timed_out = true
can_transition_to running awaiting_approval = true
can_transition_to running succeeded = true
can_transition_to running failed = true
can_transition_to running cancelled = true
can_transition_to running timed_out = true
can_transition_to _ _ = false

unfoldable pub is_terminal : RunStatus → Bool
is_terminal succeeded = true
is_terminal failed = true
is_terminal cancelled = true
is_terminal timed_out = true
is_terminal _ = false

-- The comparisons `status == RunStatus::X` of the callers.
abbrev pub is_queued : RunStatus → Bool
is_queued queued = true
is_queued _ = false

abbrev pub is_awaiting_approval : RunStatus → Bool
is_awaiting_approval awaiting_approval = true
is_awaiting_approval _ = false

abbrev pub is_running : RunStatus → Bool
is_running running = true
is_running _ = false

abbrev pub is_succeeded : RunStatus → Bool
is_succeeded succeeded = true
is_succeeded _ = false

pub record Run : Type 0 where
  pub id : RunId
  pub runtime : String
  pub workspace : String
  pub status : RunStatus
  pub revision : ℕ
  pub actor_id : ActorId
  pub prompt_sha256 : Sha256Digest
  pub created_at : UtcTimestamp
  pub updated_at : UtcTimestamp
  pub started_at : Option UtcTimestamp
  pub completed_at : Option UtcTimestamp
  pub terminal_reason : Option String

pub record Artifact : Type 0 where
  pub id : ArtifactId
  pub run_id : RunId
  pub path : String
  pub media_type : String
  pub size_bytes : ℕ
  pub sha256 : Sha256Digest
  pub created_at : UtcTimestamp
