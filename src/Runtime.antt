-- ===== src/Runtime.antt =====
-- The output of a runtime as events (crates/openwork-runtime/src/task/mod.rs).
pub mod Decode
pub mod Event
pub mod Stream
