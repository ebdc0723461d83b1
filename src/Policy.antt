-- ===== src/Policy.antt =====
-- The policy engine (crates/openwork-policy): configuration, evaluation and the gateway.
pub mod Config
pub mod Engine
pub mod Safety
