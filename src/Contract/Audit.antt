-- ===== src/Contract/Audit.antt =====
-- Audit events and their hash chain, of crates/openwork-execution/src/lib.rs.
use openwork.Common.{
  ℕ, String, Bool, true, false, not, ◌&&◌, ◌||◌, Option, none, some, ltb, ◌==◌, str_eq, is_some,
}
use openwork.Common.Result.{Result, ok, invalid_contract, fail_if, ◌>>◌}
use openwork.Core.Json.{
  Value, null, bool, integer, negative, float, string, array, object, Values, nil, cons, Entries,
  end, entry, insert_entry,
}
use openwork.Core.Redact.{redact_entries}
use openwork.Contract.{RunId, AuditEventId, UtcTimestamp, Sha256Digest, ActorId}
use openwork.Contract.Digest.{sha256_bytes}
use openwork.Contract.External.{External}

pub data AuditEventType : Type 0 where
  run_created runtime_selected sandbox_created action_requested policy_allowed : AuditEventType
  policy_denied approval_requested approval_approved approval_denied : AuditEventType
  approval_expired approval_consumed action_executed runtime_started : AuditEventType
  runtime_output artifact_created runtime_completed sandbox_destroyed : AuditEventType
  run_completed run_failed approval_binding_mismatch cancel_requested : AuditEventType
  cancel_confirmed : AuditEventType

audit_event_type_name : AuditEventType → String
audit_event_type_name run_created = "run_created"
audit_event_type_name runtime_selected = "runtime_selected"
audit_event_type_name sandbox_created = "sandbox_created"
audit_event_type_name action_requested = "action_requested"
audit_event_type_name policy_allowed = "policy_allowed"
audit_event_type_name policy_denied = "policy_denied"
audit_event_type_name approval_requested = "approval_requested"
audit_event_type_name approval_approved = "approval_approved"
audit_event_type_name approval_denied = "approval_denied"
audit_event_type_name approval_expired = "approval_expired"
audit_event_type_name approval_consumed = "approval_consumed"
audit_event_type_name action_executed = "action_executed"
audit_event_type_name runtime_started = "runtime_started"
audit_event_type_name runtime_output = "runtime_output"
audit_event_type_name artifact_created = "artifact_created"
audit_event_type_name runtime_completed = "runtime_completed"
audit_event_type_name sandbox_destroyed = "sandbox_destroyed"
audit_event_type_name run_completed = "run_completed"
audit_event_type_name run_failed = "run_failed"
audit_event_type_name approval_binding_mismatch = "approval_binding_mismatch"
audit_event_type_name cancel_requested = "cancel_requested"
audit_event_type_name cancel_confirmed = "cancel_confirmed"

-- `RedactedAuditMetadata`: a map whose secret-bearing entries are replaced
pub record RedactedAuditMetadata : Type 0 where
  pub as_map : Entries

unfoldable mutual
  pub canonical_json : Value → Value
  canonical_json (array vs) = array (canonical_values vs)
  canonical_json (object es) = object (canonical_entries es)
  canonical_json null = null
  canonical_json (bool b) = bool b
  canonical_json (integer n) = integer n
  canonical_json (negative n) = negative n
  canonical_json (float f) = float f
  canonical_json (string s) = string s

  pub canonical_values : Values → Values
  canonical_values nil = nil
  canonical_values (cons v vs) = cons (canonical_json v) (canonical_values vs)

  -- collected into a `BTreeMap`; a map has a key once, so the order of insertion is immaterial
  pub canonical_entries : Entries → Entries
  canonical_entries end = end
  canonical_entries (entry k v es) = insert_entry k (canonical_json v) (canonical_entries es)

pub record AuditEvent : Type 0 where
  pub id : AuditEventId
  pub run_id : RunId
  pub sequence : ℕ
  pub event_type : AuditEventType
  pub actor : ActorId
  pub timestamp : UtcTimestamp
  pub metadata : RedactedAuditMetadata
  pub previous_hash : Option Sha256Digest
  pub event_hash : Sha256Digest

-- The comparison of an optional digest with another.
unfoldable pub same_hash : Option Sha256Digest → Option Sha256Digest → Bool
same_hash none none = true
same_hash (some a) (some b) = str_eq a b
same_hash _ _ = false

unfoldable pub validate_audit_position : ℕ → Option Sha256Digest → Result (Unit {0})
validate_audit_position sequence previous_hash =
    let valid =
      (sequence == 1 && not (is_some previous_hash)) || (ltb 1 sequence && is_some previous_hash) in
    fail_if (not valid)
      (invalid_contract "audit sequence starts at 1 and non-genesis events require previous_hash")

module _ (x : External) where
  unfoldable pub from_untrusted : Entries → RedactedAuditMetadata
  from_untrusted metadata = record { as_map = redact_entries x.redact_text metadata }

  hash_value : Option Sha256Digest → Value
  hash_value none = null
  hash_value (some h) = string h

  unfoldable pub audit_event_hash :
      AuditEventId
      → RunId
      → ℕ
      → AuditEventType
      → ActorId
      → UtcTimestamp
      → RedactedAuditMetadata
      → Option Sha256Digest
      → Sha256Digest
  unfolding hash_value audit_event_type_name
  audit_event_hash id run_id sequence event_type actor timestamp metadata previous_hash =
      sha256_bytes x (
        x.to_string (
          array (
            cons (string "openwork-audit-event-v1") (
              cons (string (x.to_hyphenated id)) (
                cons (string (x.to_hyphenated run_id)) (
                  cons (integer sequence) (
                    cons (string (audit_event_type_name event_type)) (
                      cons (string actor) (
                        cons (string (x.format_rfc3339 timestamp)) (
                          cons (canonical_json (object metadata.as_map))
                            (cons (hash_value previous_hash) nil)))))))))))

  -- `AuditEvent::new`
  unfoldable pub new_event :
      AuditEventId
      → RunId
      → ℕ
      → AuditEventType
      → ActorId
      → UtcTimestamp
      → RedactedAuditMetadata
      → Option Sha256Digest
      → Result AuditEvent
  new_event id run_id sequence event_type actor timestamp metadata previous_hash = do
    validate_audit_position sequence previous_hash
    ok (record {
      id = id;
      run_id = run_id;
      sequence = sequence;
      event_type = event_type;
      actor = actor;
      timestamp = timestamp;
      metadata = metadata;
      previous_hash = previous_hash;
      event_hash =
          audit_event_hash id run_id sequence event_type actor timestamp metadata previous_hash;
    })

  unfoldable pub verify_integrity : AuditEvent → ℕ → Option Sha256Digest → Result (Unit {0})
  verify_integrity e expected_sequence expected_previous = do
    validate_audit_position e.sequence e.previous_hash
    fail_if
        (not (e.sequence == expected_sequence)
          || not (same_hash e.previous_hash expected_previous)
          || not (
              str_eq e.event_hash (
                audit_event_hash e.id e.run_id e.sequence e.event_type e.actor e.timestamp
                  e.metadata e.previous_hash)))
        (invalid_contract "audit hash-chain integrity check failed")
