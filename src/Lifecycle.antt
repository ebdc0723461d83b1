-- ===== src/Lifecycle.antt =====
-- The life of one run as an abstract machine: what the memory store
-- (crates/openwork-execution/src/store/mod.rs) holds for the run, and the steps that it may take. The
-- store's operations are related to it in Store/Refines.
pub mod Soundness
pub mod History
use openwork.Common.{
  ℕ, suc, ◌+◌, ◌≤◌, ◌≡◌, Bool, true, false, not, ◌&&◌, Option, none, some, List, [], ◌∷◌, ◌++◌,
  is_some, length, if◌then◌else◌,
}
use openwork.Contract.{RunId, UtcTimestamp}
use openwork.Contract.External.{External}
use openwork.Contract.Run.{
  RunStatus, planning, can_transition_to, is_terminal, is_queued, is_running, is_succeeded, Run,
}
use openwork.Contract.Audit.{AuditEvent}
use openwork.Audit.Chain.{IsChain, end_time}
use openwork.Store.{RunLease}
use openwork.Store.Chains.{Extends}

-- What the store holds under one run's identifier.
pub record Slot : Type 0 where
  pub run : Option Run
  pub events : Option (List AuditEvent)
  pub lease : Option RunLease
  pub cancel : Option UtcTimestamp

-- A run has ended exactly when it has an end time, and says why exactly when it did not succeed.
pub record IsShaped (r : Run) : Type 0 where
  pub completed : is_some r.completed_at ≡ is_terminal r.status
  pub reasoned : is_some r.terminal_reason ≡ (is_terminal r.status && not (is_succeeded r.status))

-- One transition of a run's record.
pub record Moved (r r' : Run) (next : RunStatus) (at : UtcTimestamp) : Type 0 where
  pub legal : can_transition_to r.status next ≡ true
  pub forward : r.updated_at ≤ at
  pub reached : r'.status ≡ next
  pub counted : r'.revision ≡ r.revision + 1
  pub stamped : r'.updated_at ≡ at
  pub same_id : r'.id ≡ r.id
  pub same_creation : r'.created_at ≡ r.created_at
  pub completed :
      is_some r'.completed_at ≡ (if is_terminal next then true else is_some r.completed_at)
  pub reasoned :
      is_some r'.terminal_reason
      ≡ (if is_terminal next then not (is_succeeded next) else is_some r.terminal_reason)

-- What a transition to `next` may do to the lease and to the note of cancellation.
pub data LeaseMove (a b : Slot) (next : RunStatus) : Type 0 where
  unleased : a.lease ≡ none → b.lease ≡ none → b.cancel ≡ a.cancel → LeaseMove a b next
  kept : is_terminal next ≡ false → b.lease ≡ a.lease → b.cancel ≡ a.cancel → LeaseMove a b next
  claimed :
      (l : RunLease)
      → a.lease ≡ none
      → next ≡ planning
      → b.lease ≡ some l
      → l.cancel_requested ≡ false
      → b.cancel ≡ a.cancel
      → LeaseMove a b next
  refreshed :
      (l : RunLease)
      → is_terminal next ≡ false
      → b.lease ≡ some l
      → l.cancel_requested ≡ is_some a.cancel
      → b.cancel ≡ a.cancel
      → LeaseMove a b next
  closed : is_terminal next ≡ true → b.lease ≡ none → b.cancel ≡ none → LeaseMove a b next

pub data Step (x : External) (id : RunId) (a b : Slot) : Type 0 where
  created :
      (run : Run) (e : AuditEvent)
      → a.run ≡ none
      → is_queued run.status ≡ true
      → run.id ≡ id
      → IsShaped run
      → run.updated_at ≡ e.timestamp
      → IsChain x id (e ∷ [])
      → b ≡ record a { run = some run; events = some (e ∷ []) }
      → Step x id a b
  logged :
      (events new : List AuditEvent)
      → a.events ≡ some events
      → Extends x id events new
      → b ≡ record a { events = some (events ++ new) }
      → Step x id a b
  moved :
      (r r' : Run) (events new : List AuditEvent) (next : RunStatus) (at : UtcTimestamp)
      → a.run ≡ some r
      → a.events ≡ some events
      → Moved r r' next at
      → Extends x id events new
      → at ≤ end_time (end_time 0 events) new
      → LeaseMove a b next
      → b.run ≡ some r'
      → b.events ≡ some (events ++ new)
      → Step x id a b
  renewed :
      (l l' : RunLease)
      → a.lease ≡ some l
      → l'.cancel_requested ≡ is_some a.cancel
      → b ≡ record a { lease = some l' }
      → Step x id a b
  cancel_noted :
      (l l' : RunLease) (events new : List AuditEvent) (now : UtcTimestamp)
      → a.lease ≡ some l
      → a.events ≡ some events
      → Extends x id events new
      → l'.cancel_requested ≡ true
      → b ≡ record a { events = some (events ++ new); lease = some l'; cancel = some now }
      → Step x id a b
  released :
      (r : Run)
      → a.run ≡ some r
      → is_terminal r.status ≡ true
      → b ≡ record a { lease = none; cancel = none }
      → Step x id a b

pub data Steps (x : External) (id : RunId) (a : Slot) : Slot → Type 0 where
  here : Steps x id a a
  next : {b c : Slot} → Steps x id a b → Step x id b c → Steps x id a c
