-- ===== src/Store/Refines.antt =====
-- The shared steps of the memory store (crates/openwork-execution/src/store/mod.rs) as steps of the
-- machine of Lifecycle: one rule for each, and what a transition changes.
pub mod Touch
pub mod Receipts
pub mod Filing
pub mod Records
pub mod Queue
pub mod Cancel
pub mod Release
pub mod Revisions
pub mod Approvals
pub mod Consume
pub mod Recovery
pub mod Choice
pub mod Success
pub mod Progress
use openwork.Common.{
  ℕ, String, ◌≤◌, ◌≡◌, refl, sym, ap, subst, Bool, true, false, not, ◌&&◌, ◌||◌, Option, none, some,
  List, [], ◌∷◌, ◌++◌, arith, ltb, is_some, length, if◌then◌else◌,
}
use openwork.Common.Map.{Map, get, insert}
use openwork.Common.Result.{Result, ok, err, state_error, OpenWorkError}
use openwork.Common.Exec.{Exec, pure, lift, with_lock, require, refuse_if, modify, ◌>>=◌, ◌>>◌}
use openwork.Common.Exec.Rules.{
  Ensures, Ensures-pure, Ensures-with_lock, Ensures-refuse_if, Ensures-modify, Ensures-require,
  Ensures-require-some, Ensures-lift, Ensures-bind, Ensures-weaken,
}
use openwork.Contract.{RunId, AuditEventId, UtcTimestamp, ActorId}
use openwork.Contract.External.{External}
use openwork.Contract.Run.{RunStatus, can_transition_to, is_terminal, Run}
use openwork.Contract.Audit.{AuditEventType, AuditEvent}
use openwork.Audit.{new_append}
use openwork.Store.{
  State, push_events, advance, append_memory_audit, apply_memory_transition_with_reason,
  audit_missing,
}
use openwork.Store.Chains.{Extends, build-Extends}
use openwork.Lifecycle.{Moved}

abbrev pub pushed : RunId → List AuditEvent → List AuditEvent → State → State
pushed run_id events new s = record s { audits = insert run_id (events ++ new) s.audits }

pub push_events_lem :
    (run_id : RunId) (events new : List AuditEvent) (s : State)
    → get run_id s.audits ≡ some events
    → Ensures (λ _. ⊥) (λ _ t. t ≡ pushed run_id events new s) (push_events run_id new) s
unfolding push_events
push_events_lem run_id events new s p =
    Ensures-with_lock _
      (Ensures-require-some _ _ _ events p (Ensures-modify _ _ (Ensures-pure tt refl)))

module _ {A : Type 0} {E : State → Type 0} {Q : A → State → Type 0} where
  -- Events are pushed on a chain that is there.
  pub push_events-Ensures :
      (run_id : RunId) (events new : List AuditEvent) (s : State) (k : Unit → Exec State A)
      → get run_id s.audits ≡ some events
      → Ensures E Q (k tt) (pushed run_id events new s)
      → Ensures E Q (push_events run_id new >>= k) s
  push_events-Ensures run_id events new s k p h =
      Ensures-bind (λ _. ⊥) (λ _ t. t ≡ pushed run_id events new s) (push_events run_id new) k
        (push_events_lem run_id events new s p) (λ t c. absurd c)
        (λ a t q. subst (Ensures E Q (k tt)) (sym q) h)

-- A transition's new record.
pub advance-Moved :
    (x : External) (r r' : Run) (next : RunStatus) (reason : Option String) (at : UtcTimestamp)
    → can_transition_to r.status next ≡ true
    → r.updated_at ≤ at
    → advance x r next reason at ≡ ok r'
    → Moved r r' next at
unfolding advance
advance-Moved x r r' next reason at legal forward h = ground arith

-- One more event on a chain.
pub record Appended (x : External) (run_id : RunId) (at : UtcTimestamp) (s t : State) : Type 0 where
  pub events : List AuditEvent
  pub event : AuditEvent
  pub held : get run_id s.audits ≡ some events
  pub extends : Extends x run_id events (event ∷ [])
  pub stamped : event.timestamp ≡ at
  pub result : t ≡ pushed run_id events (event ∷ []) s

pub append_memory_audit_lem :
    (x : External) (event_id : AuditEventId) (run_id : RunId) (actor : ActorId) (at : UtcTimestamp)
    (type : AuditEventType) (s : State)
    → Ensures
        (λ t. t ≡ s)
        (λ _ t. (a : Appended x run_id at s t) × (a.event.event_type ≡ type))
        (append_memory_audit x event_id run_id actor at type)
        s
unfolding append_memory_audit
append_memory_audit_lem x event_id run_id actor at type s = Ensures-with_lock _ (
    Ensures-require _ _ _ refl λ events held. Ensures-refuse_if _ _ _ refl λ late.
      Ensures-lift _ _ refl λ n count. Ensures-lift _ _ refl λ event built.
        let (extends, stamped, typed) =
          build-Extends x event_id (new_append actor at) run_id events n type event late count
            built in
        Ensures-weaken (push_events_lem run_id events (event ∷ []) s held) (λ t c. absurd c)
          λ a t q. (
            record {
              events = events;
              event = event;
              held = held;
              extends = extends;
              stamped = stamped;
              result = q;
            },
            typed,
          ))

-- A transition with its event, written under the key `k`.
pub record Transitioned (x : External) (k : RunId) (r r' : Run) (next : RunStatus)
    (at : UtcTimestamp) (type : AuditEventType) (s t : State) : Type 0 where
  pub moved : Moved r r' next at
  pub events : List AuditEvent
  pub event : AuditEvent
  pub held : get k s.audits ≡ some events
  pub extends : Extends x k events (event ∷ [])
  pub stamped : event.timestamp ≡ at
  pub typed : event.event_type ≡ type
  pub result :
      t ≡ record s { audits = insert k (events ++ event ∷ []) s.audits; runs = insert k r' s.runs }

module _ {x : External} {k : RunId} {r r' : Run} {next : RunStatus} {at : UtcTimestamp}
    {type : AuditEventType} {s t : State} (tr : Transitioned x k r r' next at type s t) where
  pub same_leases : t.leases ≡ s.leases
  same_leases = ap (λ (v : State). v.leases) tr.result

  pub same_cancels : t.cancel_requested ≡ s.cancel_requested
  same_cancels = ap (λ (v : State). v.cancel_requested) tr.result

pub transition_lem :
    (x : External) (event_id : AuditEventId) (r : Run) (next : RunStatus) (reason : Option String)
    (at : UtcTimestamp) (actor : ActorId) (type : AuditEventType) (s : State)
    → Ensures
        (λ t. t ≡ s)
        (λ r' t. Transitioned x r.id r r' next at type s t)
        (apply_memory_transition_with_reason x event_id r next reason at actor type)
        s
unfolding apply_memory_transition_with_reason
transition_lem x event_id r next reason at actor type s = Ensures-refuse_if _ _ _ refl λ allowed.
    Ensures-lift _ _ refl λ r' advanced.
      Ensures-bind _ _ _ _ (append_memory_audit_lem x event_id r.id actor at type s) (λ t e. e)
        λ _ t (a, typed). Ensures-modify _ _ (
          Ensures-pure r' (record {
            moved = advance-Moved x r r' next reason at (ground arith) (ground arith) advanced;
            events = a.events;
            event = a.event;
            held = a.held;
            extends = a.extends;
            stamped = a.stamped;
            typed = typed;
            result = ap {A = State} (λ u. record u { runs = insert r.id r' u.runs }) a.result;
          }))
