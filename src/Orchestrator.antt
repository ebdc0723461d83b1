-- ===== src/Orchestrator.antt =====
-- The orchestrator (crates/openwork-execution/src/orchestrator/mod.rs) and the artifact scanner
-- (crates/openwork-execution/src/artifact/mod.rs). The file system is a parameter.
pub mod Scanner
pub mod Ops
pub mod Outcome
pub mod Files
