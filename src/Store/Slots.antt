-- ===== src/Store/Slots.antt =====
-- What the memory store (crates/openwork-execution/src/store/mod.rs) holds of one run, and what it means
-- that an operation touches one run only.
use openwork.Common.{◌≡◌, ◌≢◌, refl, some}
use openwork.Common.Map.{get}
use openwork.Contract.{RunId}
use openwork.Contract.External.{External}
use openwork.Contract.Run.{Run}
use openwork.Store.{State}
use openwork.Lifecycle.{Slot, Step, Steps, here, next}

-- The abstraction function, at one identifier.
abbrev pub slot : State → RunId → Slot
slot s id = record {
  run = get id s.runs;
  events = get id s.audits;
  lease = get id s.leases;
  cancel = get id s.cancel_requested;
}

-- Runs are stored under their own identifiers.
abbrev pub IsNamed : State → Type 0
IsNamed s = (id : RunId) (r : Run) → get id s.runs ≡ some r → r.id ≡ id

-- The step of one run, with every other run as it was.
pub record Touches (x : External) (id : RunId) (s t : State) : Type 0 where
  pub at : Steps x id (slot s id) (slot t id)
  pub elsewhere : (j : RunId) → id ≢ j → slot t j ≡ slot s j

pub Touches-refl : (x : External) (id : RunId) (s : State) → Touches x id s s
Touches-refl x id s = record { at = here; elsewhere = λ j h. refl }

pub Touches-Step :
    (x : External) (id : RunId) (s t : State)
    → Step x id (slot s id) (slot t id)
    → ((j : RunId) → id ≢ j → slot t j ≡ slot s j)
    → Touches x id s t
Touches-Step x id s t st e = record { at = next here st; elsewhere = e }

pub slot-eq :
    {a b : Slot}
    → a.run ≡ b.run
    → a.events ≡ b.events
    → a.lease ≡ b.lease
    → a.cancel ≡ b.cancel
    → a ≡ b
slot-eq p q r s = λ i. record { run = p i; events = q i; lease = r i; cancel = s i }

-- The approvals and the claims are as they were.
abbrev pub Untouched : State → State → Type 0
Untouched s t =
    (t.approvals ≡ s.approvals)
    × (t.action_claims ≡ s.action_claims)
    × (t.approval_windows ≡ s.approval_windows)

-- Every run takes steps of its own.
abbrev pub Effect : External → State → State → Type 0
Effect x s t = (id : RunId) → Steps x id (slot s id) (slot t id)
