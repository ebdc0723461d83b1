-- ===== src/Contract.antt =====
-- The execution contract (crates/openwork-execution/src/lib.rs): identifiers, time, runs, audit events,
-- actions, approvals and sandbox results. Identifiers are UUIDs as 128-bit numbers, whose order is that
-- of their bytes. The `schema_version` fields hold a unit struct and are left out.
pub mod External
pub mod Digest
pub mod Parse
pub mod Run
pub mod Audit
pub mod Action
pub mod Approval
pub mod Policy
pub mod Sandbox
pub mod Task
use openwork.Common.{ℕ, String}

abbrev pub RunId : Type 0
RunId = ℕ

abbrev pub ArtifactId : Type 0
ArtifactId = ℕ

abbrev pub AuditEventId : Type 0
AuditEventId = ℕ

abbrev pub ActionId : Type 0
ActionId = ℕ

abbrev pub ApprovalId : Type 0
ApprovalId = ℕ

-- `UtcTimestamp`: nanoseconds since the earliest instant that `OffsetDateTime` has. Only the order and
-- differences of instants are used.
abbrev pub UtcTimestamp : Type 0
UtcTimestamp = ℕ

-- 64 lowercase hexadecimal digits
abbrev pub Sha256Digest : Type 0
Sha256Digest = String

abbrev pub ActorId : Type 0
ActorId = String

abbrev pub u64_max : ℕ
u64_max = 18446744073709551615
