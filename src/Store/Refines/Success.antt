-- ===== src/Store/Refines/Success.antt =====
-- Conditions under which shared steps of the memory store
-- (crates/openwork-execution/src/store/mod.rs) and `create_run` end in success.
use openwork.Common.{
  ◌+◌, ◌≤◌, ◌<◌, ◌≡◌, refl, ap, true, false, Option, none, some, List, [], ◌∷◌, String, arith,
  is_some, length, last,
}
use openwork.Common.Map.{get, get-insert_self}
use openwork.Common.Result.{Result, ok, err, is_ok}
use openwork.Common.Exec.Rules.{
  Ensures, Ensures-pure, Ensures-with_lock, Ensures-pass, Ensures-lift-ok, Ensures-modify,
  Ensures-require-some, Ensures-bind, Ensures-weaken,
}
use openwork.Contract.{RunId, AuditEventId, UtcTimestamp, ActorId, u64_max}
use openwork.Contract.External.{External}
use openwork.Contract.Run.{RunStatus, can_transition_to, Run}
use openwork.Contract.Audit.{
  AuditEventType, AuditEvent, new_event, validate_audit_position, run_created,
}
use openwork.Audit.{AuditAppend, new_append, build}
use openwork.Store.{
  State, advance, next_sequence, last_hash, precedes_last, append_memory_audit,
  apply_memory_transition_with_reason,
}
use openwork.Store.Records.{create_run, invalid_new_run}
use openwork.Store.Refines.{push_events_lem}

ok_value : {A : Type 0} (r : Result A) → is_ok r ≡ true → (a : A) × (r ≡ ok a)
ok_value (ok a) h = (a, refl)
ok_value (err e) h = cc

is_some-last : (e : AuditEvent) (es : List AuditEvent) → is_some (last (e ∷ es)) ≡ true
is_some-last e [] = refl
is_some-last e (d ∷ es) = is_some-last d es

-- The place behind a chain is one that an event may have.
position_fits :
    (events : List AuditEvent)
    → validate_audit_position (length events + 1) (last_hash events) ≡ ok tt
unfolding validate_audit_position last_hash
position_fits [] = refl
position_fits (e ∷ es) = ground (arith, is_some-last e es)

module _ (x : External) where
  build_fits :
      (event_id : AuditEventId) (a : AuditAppend) (id : RunId) (t : AuditEventType)
      (events : List AuditEvent)
      → (e : AuditEvent) × (build x event_id a id (length events + 1) t (last_hash events) ≡ ok e)
  build_fits event_id a id t events =
      ok_value _ (unfold build new_event in rw (position_fits events))

  append_memory_audit_fits :
      (event_id : AuditEventId) (id : RunId) (actor : ActorId) (at : UtcTimestamp)
      (t : AuditEventType) (s : State) (events : List AuditEvent)
      → get id s.audits ≡ some events
      → precedes_last at events ≡ false
      → length events < u64_max
      → Ensures (λ _. ⊥) (λ _ u. u.runs ≡ s.runs) (append_memory_audit x event_id id actor at t) s
  unfolding append_memory_audit next_sequence
  append_memory_audit_fits event_id id actor at t s events held late small =
      let (e, built) = build_fits event_id (new_append actor at) id t events in
      Ensures-with_lock _ (
        Ensures-require-some _ _ _ events held (
          Ensures-pass _ _ _ late (
            Ensures-lift-ok _ _ (length events + 1) (ground arith) (
              Ensures-lift-ok _ _ e built (
                Ensures-weaken (push_events_lem id events (e ∷ []) s held) (λ u c. c)
                  (λ _ u q. ap (λ v. v.runs) q))))))

  -- A new run with valid fields, with an audit time equal to its creation time and under an identifier
  -- that holds no run, is stored: create_run succeeds, returns the run and the store holds it.
  pub create_run_succeeds :
      (event_id : AuditEventId) (run : Run) (audit : AuditAppend) (s : State)
      → invalid_new_run run ≡ false
      → audit.timestamp ≡ run.created_at
      → get run.id s.runs ≡ none
      → Ensures
          (λ _. ⊥)
          (λ r t. (r ≡ run) × (get run.id t.runs ≡ some run))
          (create_run x event_id run audit)
          s
  unfolding create_run last_hash
  create_run_succeeds event_id run audit s valid timed free =
      let (e, built) = build_fits event_id audit run.id run_created [] in
      Ensures-pass _ _ _ valid (
        Ensures-pass _ _ _ (ground arith) (
          Ensures-with_lock _ (
            Ensures-pass _ _ _ (ground arith) (
              Ensures-lift-ok _ _ e built (
                Ensures-modify _ _ (
                  Ensures-modify _ _
                    (Ensures-pure run (refl, get-insert_self run.id run s.runs))))))))

  advance_fits :
      (r : Run) (next : RunStatus) (reason : Option String) (at : UtcTimestamp)
      → r.revision < u64_max
      → (r' : Run) × (advance x r next reason at ≡ ok r') × (r'.status ≡ next)
  unfolding advance
  advance_fits r next reason at small =
      let (r', h) = ok_value (advance x r next reason at) (ground arith) in (r', h, ground arith)

  -- A transition that is legal, not back in time and without an overflow is made.
  pub transition_fits :
      (event_id : AuditEventId) (r : Run) (next : RunStatus) (reason : Option String)
      (at : UtcTimestamp) (actor : ActorId) (t : AuditEventType) (s : State)
      (events : List AuditEvent)
      → can_transition_to r.status next ≡ true
      → r.updated_at ≤ at
      → r.revision < u64_max
      → get r.id s.audits ≡ some events
      → precedes_last at events ≡ false
      → length events < u64_max
      → Ensures
          (λ _. ⊥)
          (λ r' u. (r'.status ≡ next) × (get r.id u.runs ≡ some r'))
          (apply_memory_transition_with_reason x event_id r next reason at actor t)
          s
  unfolding apply_memory_transition_with_reason
  transition_fits event_id r next reason at actor t s events legal forward small held late room =
      let (r', made, reached) = advance_fits r next reason at small in
      Ensures-pass _ _ _ (ground arith) (
        Ensures-lift-ok _ _ r' made (
          Ensures-bind _ _ _ _
            (append_memory_audit_fits event_id r.id actor at t s events held late room) (λ u c. c)
            λ _ u q.
              Ensures-modify _ _ (Ensures-pure r' (reached, get-insert_self r.id r' u.runs))))
