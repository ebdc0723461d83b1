-- ===== src/Store/Chains.antt =====
-- How the steps of the memory store (crates/openwork-execution/src/store/mod.rs) extend a chain.
use mathlib.Core.Path.{subst₂}
use openwork.Common.{
  ℕ, suc, ◌+◌, ◌≤◌, ◌≡◌, refl, ap, subst, false, Option, none, some, List, [], ◌∷◌, ◌++◌, arith,
  length,
}
use openwork.Common.Result.{OpenWorkError, ok, ok_or_else, ok-injective, >>=-eq-ok}
use openwork.Contract.{RunId, AuditEventId, UtcTimestamp, Sha256Digest, ActorId}
use openwork.Contract.External.{External}
use openwork.Contract.Run.{Artifact}
use openwork.Contract.Audit.{
  AuditEventType, AuditEvent, RedactedAuditMetadata, artifact_created, new_event,
}
use openwork.Audit.{AuditAppend, with_artifact, build}
use openwork.Audit.Chain.{
  Follows, ChainFrom, IsChain, end_hash, end_time, ChainFrom-append, build-Follows,
  new_event-Follows,
}
use openwork.Store.{checked_suc, next_sequence, last_hash, precedes_last}
use openwork.Store.Records.{artifact_events}

last_hash-cons :
    (e : AuditEvent) (es : List AuditEvent) → last_hash (e ∷ es) ≡ end_hash (some e.event_hash) es
unfolding last_hash
last_hash-cons e [] = refl
last_hash-cons e (d ∷ es) = last_hash-cons d es

pub last_hash-eq-end : (es : List AuditEvent) → last_hash es ≡ end_hash none es
unfolding last_hash
last_hash-eq-end [] = refl
last_hash-eq-end (e ∷ es) = last_hash-cons e es

precedes_last-cons :
    (t : UtcTimestamp) (e : AuditEvent) (es : List AuditEvent)
    → precedes_last t (e ∷ es) ≡ false
    → end_time e.timestamp es ≤ t
unfolding precedes_last
precedes_last-cons t e [] h = ground arith
precedes_last-cons t e (d ∷ es) h = precedes_last-cons t d es h

-- The check against a backwards clock.
pub end_time-le :
    (t : UtcTimestamp) (es : List AuditEvent) → precedes_last t es ≡ false → end_time 0 es ≤ t
end_time-le t [] h = omega arith
end_time-le t (e ∷ es) h = precedes_last-cons t e es h

pub next_sequence-eq : (es : List AuditEvent) (n : ℕ) → next_sequence es ≡ ok n → n ≡ 1 + length es
unfolding next_sequence
next_sequence-eq es n h = ground arith

-- New events that stand behind these.
abbrev pub Extends : External → RunId → List AuditEvent → List AuditEvent → Type 0
Extends x run_id events new =
    ChainFrom x run_id (1 + length events) (end_hash none events) (end_time 0 events) new

checked_suc-eq :
    (n next : ℕ) (e : OpenWorkError) → ok_or_else (checked_suc n) e ≡ ok next → next ≡ suc n
checked_suc-eq n next e h = ground arith

module _ (x : External) where
  pub Extends-IsChain :
      (run_id : RunId) (events new : List AuditEvent)
      → IsChain x run_id events
      → Extends x run_id events new
      → IsChain x run_id (events ++ new)
  Extends-IsChain run_id events new c d =
      ChainFrom-append x run_id 1 (1 + length events) none 0 events new refl c d

  -- An event that was built for the end of the chain.
  pub build-Extends :
      (event_id : AuditEventId) (a : AuditAppend) (run_id : RunId) (events : List AuditEvent)
      (n : ℕ) (t : AuditEventType) (e : AuditEvent)
      → precedes_last a.timestamp events ≡ false
      → next_sequence events ≡ ok n
      → build x event_id a run_id n t (last_hash events) ≡ ok e
      → Extends x run_id events (e ∷ []) × (e.timestamp ≡ a.timestamp) × (e.event_type ≡ t)
  build-Extends event_id a run_id events n t e late count built =
      let (f, time, type, _) =
        build-Follows x event_id a run_id n t (last_hash events) e (end_time 0 events) built
          (end_time-le a.timestamp events late) in
      (
        (
          subst₂ (λ k h. Follows x run_id k h (end_time 0 events) e)
              (next_sequence-eq events n count) (last_hash-eq-end events) f,
          tt,
        ),
        time,
        type,
      )

  artifact_events-ChainFrom :
      (a : AuditAppend) (run_id : RunId) (event_ids : ℕ → AuditEventId) (n : ℕ)
      (previous : Option Sha256Digest) (files : List Artifact) (events : List AuditEvent)
      (time : UtcTimestamp)
      → time ≤ a.timestamp
      → artifact_events x a run_id event_ids n previous files ≡ ok events
      → ChainFrom x run_id n previous time events
        × (length events ≡ length files)
        × (end_time time events ≤ a.timestamp)
  unfolding artifact_events
  artifact_events-ChainFrom a run_id event_ids n previous [] events time le h =
      subst
        (λ es.
          ChainFrom x run_id n previous time es
          × (length es ≡ 0)
          × (end_time time es ≤ a.timestamp))
        (ok-injective [] events h) (tt, refl, le)
  artifact_events-ChainFrom a run_id event_ids n previous (file ∷ files) events time le h =
      let (event, built, h1) = >>=-eq-ok _ _ h in
      let (next, counted, h2) = >>=-eq-ok _ _ h1 in
      let (rest, more, h3) = >>=-eq-ok _ _ h2 in
      let (follows, at, _, _) =
        build-Follows x (event_ids 0) (with_artifact file a) run_id n artifact_created previous
          event time built le in
      let (chain, count, ends) =
        artifact_events-ChainFrom a run_id (λ i. event_ids (suc i)) next (some event.event_hash)
          files rest event.timestamp (omega arith) more in
      let q : next ≡ suc n = checked_suc-eq n next _ counted in
      subst
        (λ es.
          ChainFrom x run_id n previous time es
          × (length es ≡ suc (length files))
          × (end_time time es ≤ a.timestamp))
        (ok-injective (event ∷ rest) events h3)
        (
          (
            follows,
            subst (λ k. ChainFrom x run_id k (some event.event_hash) event.timestamp rest) q chain,
          ),
          ap suc count,
          ends,
        )

  -- The batch of an artifact list, built for the end of the chain.
  pub artifact_events-Extends :
      (a : AuditAppend) (run_id : RunId) (event_ids : ℕ → AuditEventId) (n : ℕ)
      (files : List Artifact) (chain events : List AuditEvent)
      → precedes_last a.timestamp chain ≡ false
      → next_sequence chain ≡ ok n
      → artifact_events x a run_id event_ids n (last_hash chain) files ≡ ok events
      → Extends x run_id chain events
        × (length events ≡ length files)
        × (end_time (end_time 0 chain) events ≤ a.timestamp)
  artifact_events-Extends a run_id event_ids n files chain events late count h =
      let (c, size, ends) =
        artifact_events-ChainFrom a run_id event_ids n (last_hash chain) files events
          (end_time 0 chain) (end_time-le a.timestamp chain late) h in
      (
        subst₂ (λ k p. ChainFrom x run_id k p (end_time 0 chain) events)
            (next_sequence-eq chain n count) (last_hash-eq-end chain) c,
        size,
        ends,
      )

  -- The same for an event that `AuditEvent::new` made.
  pub new_event-Extends :
      (event_id : AuditEventId) (run_id : RunId) (events : List AuditEvent) (n : ℕ)
      (t : AuditEventType) (actor : ActorId) (at : UtcTimestamp) (m : RedactedAuditMetadata)
      (e : AuditEvent)
      → precedes_last at events ≡ false
      → next_sequence events ≡ ok n
      → new_event x event_id run_id n t actor at m (last_hash events) ≡ ok e
      → Extends x run_id events (e ∷ []) × (e.timestamp ≡ at) × (e.event_type ≡ t)
  new_event-Extends event_id run_id events n t actor at m e late count built =
      let (f, time, type, _) =
        new_event-Follows x event_id run_id n t actor at m (last_hash events) e (end_time 0 events)
          built (end_time-le at events late) in
      (
        (
          subst₂ (λ k h. Follows x run_id k h (end_time 0 events) e)
              (next_sequence-eq events n count) (last_hash-eq-end events) f,
          tt,
        ),
        time,
        type,
      )
