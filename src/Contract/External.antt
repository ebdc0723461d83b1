-- ===== src/Contract/External.antt =====
-- What the execution crate calls and does not define: the uuid, time, serde_json and sha2 crates, and
-- `redact_text` of openwork-core, of which it relies on no property.
use openwork.Common.{ℕ, String, List}
use openwork.Core.Json.{Value}

pub record External : Type 0 where
  -- `Uuid::as_hyphenated`, which is also its `to_string`
  pub to_hyphenated : ℕ → String
  -- `OffsetDateTime::format(&Rfc3339)`
  pub format_rfc3339 : ℕ → String
  -- the latest instant that `OffsetDateTime` has
  pub max_timestamp : ℕ
  -- `Value::to_string`
  pub to_string : Value → String
  -- `Sha256::digest` of the UTF-8 bytes of a text
  pub digest : String → List ℕ
  pub redact_text : String → String
