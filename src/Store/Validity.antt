-- ===== src/Store/Validity.antt =====
-- The invariant of the memory store (crates/openwork-execution/src/store/mod.rs), by runs.
use native.Mathlib.Decide.{ℕ_discrete}
use openwork.Common.{◌≡◌, sym, subst}
use openwork.Contract.{RunId}
use openwork.Contract.External.{External}
use openwork.Store.{State}
use openwork.Store.Slots.{slot, IsNamed, Touches, Effect}
use openwork.Lifecycle.{Slot, Steps, here}
use openwork.Lifecycle.Soundness.{IsSound, Steps-IsSound, parts_of_run}

abbrev pub IsValid : External → State → Type 0
IsValid x s = (id : RunId) → IsSound x id (slot s id)

pub IsValid-IsNamed : (x : External) (s : State) → IsValid x s → IsNamed s
IsValid-IsNamed x s v id r g =
    let (es, _, t, _) = parts_of_run x id (slot s id) r (v id) g in t.named

pub Effect-IsValid : (x : External) (s t : State) → Effect x s t → IsValid x s → IsValid x t
Effect-IsValid x s t e v id = Steps-IsSound x id (e id) (v id)

pub Effect-refl : (x : External) (s : State) → Effect x s s
Effect-refl x s id = here

pub Effect-of_eq : (x : External) (s t : State) → t ≡ s → Effect x s t
Effect-of_eq x s t e = subst (Effect x s) (sym e) (Effect-refl x s)

-- An operation on one run, seen from every run.
pub Touches-Effect : (x : External) (id : RunId) (s t : State) → Touches x id s t → Effect x s t
Touches-Effect x id s t h j = elim (ℕ_discrete id j) [
  | yes p ↦ subst (λ k. Steps x k (slot s k) (slot t k)) p h.at
  | no n ↦ subst (Steps x j (slot s j)) (sym (h.elsewhere j n)) here
]

Steps-trans :
    {x : External} {id : RunId} (a b : Slot) {c : Slot}
    → Steps x id a b
    → Steps x id b c
    → Steps x id a c
Steps-trans a b p here = p
Steps-trans a b p (Steps.next q st) = Steps.next (Steps-trans a b p q) st

pub Effect-trans : (x : External) (s t u : State) → Effect x s t → Effect x t u → Effect x s u
Effect-trans x s t u p q id = Steps-trans (slot s id) (slot t id) (p id) (q id)
