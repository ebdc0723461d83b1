-- ===== src/Audit/Chain.antt =====
-- The hash chain of a run's audit events: what `verify_integrity` asks of each event in turn, and how
-- `build` and the batch of `record_artifacts` extend a chain.
use text.Mathlib.TextPositions.{eq_refl}
use openwork.Common.{
  ℕ, suc, ◌+◌, ◌≤◌, ◌≡◌, refl, subst, true, Option, none, some, List, [], ◌∷◌, ◌++◌, arith, length,
  ==_refl,
}
use openwork.Common.Result.{ok, ok-injective, >>=-eq-ok}
use openwork.Contract.{RunId, AuditEventId, UtcTimestamp, Sha256Digest, ActorId}
use openwork.Contract.External.{External}
use openwork.Contract.Audit.{
  AuditEventType, AuditEvent, RedactedAuditMetadata, same_hash, validate_audit_position, new_event,
  verify_integrity, from_untrusted,
}
use openwork.Audit.{AuditAppend, metadata_of, build}

-- The event may stand at this place of this run's chain, behind an event of that hash and time.
pub record Follows (x : External) (run_id : RunId) (sequence : ℕ) (previous : Option Sha256Digest)
    (time : UtcTimestamp) (e : AuditEvent) : Type 0 where
  pub verified : verify_integrity x e sequence previous ≡ ok tt
  pub owned : e.run_id ≡ run_id
  pub numbered : e.sequence ≡ sequence
  pub ordered : time ≤ e.timestamp

abbrev pub ChainFrom :
    External → RunId → ℕ → Option Sha256Digest → UtcTimestamp → List AuditEvent → Type 0
ChainFrom x run_id sequence previous time [] = Unit
ChainFrom x run_id sequence previous time (e ∷ es) =
    Follows x run_id sequence previous time e
    × ChainFrom x run_id (suc sequence) (some e.event_hash) e.timestamp es

-- A whole chain: numbered from 1, with no hash before the first event.
abbrev pub IsChain : External → RunId → List AuditEvent → Type 0
IsChain x run_id events = ChainFrom x run_id 1 none 0 events

-- The hash and the time behind which the next event goes.
abbrev pub end_hash : Option Sha256Digest → List AuditEvent → Option Sha256Digest
end_hash previous [] = previous
end_hash previous (e ∷ es) = end_hash (some e.event_hash) es

abbrev pub end_time : UtcTimestamp → List AuditEvent → UtcTimestamp
end_time time [] = time
end_time time (e ∷ es) = end_time e.timestamp es

same_hash_refl : (h : Option Sha256Digest) → same_hash h h ≡ true
unfolding same_hash
same_hash_refl none = refl
same_hash_refl (some h) = eq_refl h

module _ (x : External) (run_id : RunId) where
  -- Two chains that meet are a chain.
  pub ChainFrom-append :
      (sequence n : ℕ) (previous : Option Sha256Digest) (time : UtcTimestamp)
      (es new : List AuditEvent)
      → n ≡ sequence + length es
      → ChainFrom x run_id sequence previous time es
      → ChainFrom x run_id n (end_hash previous es) (end_time time es) new
      → ChainFrom x run_id sequence previous time (es ++ new)
  ChainFrom-append sequence n previous time [] new p c d =
      let q : n ≡ sequence = omega arith in subst (λ k. ChainFrom x run_id k previous time new) q d
  ChainFrom-append sequence n previous time (e ∷ es) new p (f, c) d = (
    f,
    ChainFrom-append (suc sequence) n (some e.event_hash) e.timestamp es new (omega arith) c d,
  )

module _ (x : External) where
  -- What `AuditEvent::new` returns passes `verify_integrity` at the place that it was made for.
  pub new_event-Follows :
      (id : AuditEventId) (run_id : RunId) (sequence : ℕ) (t : AuditEventType) (actor : ActorId)
      (timestamp : UtcTimestamp) (m : RedactedAuditMetadata) (previous : Option Sha256Digest)
      (e : AuditEvent) (time : UtcTimestamp)
      → new_event x id run_id sequence t actor timestamp m previous ≡ ok e
      → time ≤ timestamp
      → Follows x run_id sequence previous time e
        × (e.timestamp ≡ timestamp)
        × (e.event_type ≡ t)
        × (e.metadata ≡ m)
  unfolding new_event verify_integrity
  new_event-Follows id run_id sequence t actor timestamp m previous e time h le =
      let (_, valid, made) = >>=-eq-ok (validate_audit_position sequence previous) _ h in
      subst
        (λ e'.
          Follows x run_id sequence previous time e'
          × (e'.timestamp ≡ timestamp)
          × (e'.event_type ≡ t)
          × (e'.metadata ≡ m))
        (ok-injective _ _ made)
        (
          record {
            verified = rw (valid, ==_refl sequence, same_hash_refl previous, eq_refl _);
            owned = refl;
            numbered = refl;
            ordered = le;
          },
          refl,
          refl,
          refl,
        )

  pub build-Follows :
      (event_id : AuditEventId) (a : AuditAppend) (run_id : RunId) (sequence : ℕ)
      (t : AuditEventType) (previous : Option Sha256Digest) (e : AuditEvent) (time : UtcTimestamp)
      → build x event_id a run_id sequence t previous ≡ ok e
      → time ≤ a.timestamp
      → Follows x run_id sequence previous time e
        × (e.timestamp ≡ a.timestamp)
        × (e.event_type ≡ t)
        × (e.metadata ≡ from_untrusted x (metadata_of x a.details))
  unfolding build
  build-Follows event_id a run_id sequence t previous e time h le =
      new_event-Follows event_id run_id sequence t a.actor a.timestamp _ previous e time h le
