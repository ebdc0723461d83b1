-- ===== src/Core.antt =====
-- openwork-core (crates/openwork-core/src/lib.rs): texts as lists of code points, the JSON values that
-- cross the crates, and the redaction of structured data. The errors are in Common/Result.
pub mod Text
pub mod Json
pub mod Redact
