-- ===== src/Store/Refines/Touch.antt =====
-- From the equations of a final state to a step of one run and the stillness of the others
-- (crates/openwork-execution/src/store/mod.rs).
use openwork.Common.{◌≡◌, ◌≢◌, refl, sym, ap, subst, ◌∙◌, true, some, List, [], ◌∷◌, ◌++◌, arith}
use openwork.Common.Map.{get, insert, get-insert_at, get-insert_ne, get-remove_self, get-remove_ne}
use openwork.Contract.{RunId, UtcTimestamp}
use openwork.Contract.External.{External}
use openwork.Contract.Run.{RunStatus, is_terminal, Run}
use openwork.Contract.Audit.{AuditEventType, AuditEvent}
use openwork.Store.{State}
use openwork.Store.Chains.{Extends}
use openwork.Store.Slots.{slot, slot-eq, Touches, Touches-Step}
use openwork.Store.Queue.{release}
use openwork.Store.Refines.{Transitioned, same_leases, same_cancels}
use openwork.Lifecycle.{Moved, LeaseMove, closed, moved, logged}

-- A run that the first store held is stored in its new state, with one more event on its chain.
pub record Advanced (id : RunId) (r r' : Run) (next : RunStatus) (at : UtcTimestamp)
    (type : AuditEventType) (s t : State) : Type 0 where
  pub stored : get id s.runs ≡ some r
  pub moved : Moved r r' next at
  pub kept : get id t.runs ≡ some r'
  pub events : List AuditEvent
  pub event : AuditEvent
  pub held : get id s.audits ≡ some events
  pub logged : get id t.audits ≡ some (events ++ event ∷ [])
  pub stamped : event.timestamp ≡ at
  pub typed : event.event_type ≡ type

pub advanced :
    {x : External} {k id : RunId} {r r' : Run} {next : RunStatus} {at : UtcTimestamp}
    {type : AuditEventType} (s u : State) {t : State}
    → Transitioned x k r r' next at type s t
    → k ≡ id
    → get id s.runs ≡ some r
    → u.runs ≡ t.runs
    → u.audits ≡ t.audits
    → Advanced id r r' next at type s u
advanced {id = id} {r' = r'} s u tr named stored runs audits = record {
  stored = stored;
  moved = tr.moved;
  kept = ap (get id) (runs ∙ ap (λ (v : State). v.runs) tr.result) ∙ get-insert_at r' s.runs named;
  events = tr.events;
  event = tr.event;
  held = subst (λ i. get i s.audits ≡ some tr.events) named tr.held;
  logged =
      ap (get id) (audits ∙ ap (λ (v : State). v.audits) tr.result)
      ∙ get-insert_at (tr.events ++ tr.event ∷ []) s.audits named;
  stamped = tr.stamped;
  typed = tr.typed;
}

module _ (x : External) (id : RunId) (s u : State) where
  -- Only the chain of one run has grown.
  pub touch_logged :
      (events new : List AuditEvent)
      → get id s.audits ≡ some events
      → Extends x id events new
      → u.runs ≡ s.runs
      → u.audits ≡ insert id (events ++ new) s.audits
      → u.leases ≡ s.leases
      → u.cancel_requested ≡ s.cancel_requested
      → Touches x id s u
  touch_logged events new held extends runs audits leases cancel =
      Touches-Step x id s u
        (logged events new held extends (
          slot-eq (ap (get id) runs)
            (ap (get id) audits ∙ get-insert_at (events ++ new) s.audits refl) (ap (get id) leases)
            (ap (get id) cancel)))
        λ j h.
          slot-eq (ap (get j) runs)
            (ap (get j) audits ∙ get-insert_ne id j (events ++ new) s.audits h) (ap (get j) leases)
            (ap (get j) cancel)

  -- One run has made a transition, with what becomes of its lease.
  pub touch_moved :
      {t : State} {k : RunId} {r r' : Run} {next : RunStatus} {at : UtcTimestamp}
      {type : AuditEventType}
      → Transitioned x k r r' next at type s t
      → k ≡ id
      → get id s.runs ≡ some r
      → u.runs ≡ t.runs
      → u.audits ≡ t.audits
      → LeaseMove (slot s id) (slot u id) next
      → ((j : RunId) → id ≢ j → get j u.leases ≡ get j s.leases)
      → ((j : RunId) → id ≢ j → get j u.cancel_requested ≡ get j s.cancel_requested)
      → Touches x id s u
  touch_moved {t} {k} {r} {r'} {next} {at} {type} tr named stored runs audits lease leases cancel =
      let new : List AuditEvent = tr.event ∷ [] in
      let runs' = runs ∙ ap (λ v. v.runs) tr.result in
      let audits' = audits ∙ ap (λ v. v.audits) tr.result in
      Touches-Step x id s u
        (moved r r' tr.events new next at stored
          (subst (λ i. get i s.audits ≡ some tr.events) named tr.held) tr.moved
          (subst (λ i. Extends x i tr.events new) named tr.extends) (omega (arith, tr.stamped))
          lease (ap (get id) runs' ∙ get-insert_at r' s.runs named)
          (ap (get id) audits' ∙ get-insert_at (tr.events ++ new) s.audits named))
        λ j h.
          let h' : k ≢ j = λ p. h (sym named ∙ p) in
          slot-eq (ap (get j) runs' ∙ get-insert_ne k j r' s.runs h')
            (ap (get j) audits' ∙ get-insert_ne k j (tr.events ++ new) s.audits h') (leases j h)
            (cancel j h)

module _ (x : External) where
  -- A transition that ends a leased run.
  pub touch_closed :
      {k id : RunId} {r r' : Run} {n : RunStatus} {at : UtcTimestamp} {type : AuditEventType}
      (s t : State)
      → Transitioned x k r r' n at type s t
      → k ≡ id
      → get id s.runs ≡ some r
      → is_terminal n ≡ true
      → Touches x id s (release id t)
  touch_closed {k} {id} s t tr named stored done =
      touch_moved x id s _ tr named stored refl refl
        (closed done (get-remove_self id t.leases) (get-remove_self id t.cancel_requested))
        (λ j h. get-remove_ne id j t.leases h ∙ ap (get j) (same_leases tr))
        (λ j h. get-remove_ne id j t.cancel_requested h ∙ ap (get j) (same_cancels tr))
