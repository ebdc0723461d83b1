-- ===== src/Store/Came.antt =====
-- Stores that came from a valid one: the invariant that the callers of the memory store
-- (crates/openwork-execution/src/store/mod.rs) keep through their calls.
use openwork.Common.{◌≡◌, sym, subst}
use openwork.Common.Result.{Result, ok, err}
use openwork.Common.Exec.{Exec}
use openwork.Common.Exec.Rules.{Ensures, Outcome, Ensures-weaken}
use openwork.Contract.{RunId}
use openwork.Contract.External.{External}
use openwork.Store.{State}
use openwork.Store.Slots.{Touches, Effect}
use openwork.Store.Validity.{IsValid, Touches-Effect, Effect-refl, Effect-trans, Effect-IsValid}

-- A valid store that came from the first by steps of the lives of its runs.
abbrev pub Came : External → State → State → Type 0
Came x s t = IsValid x t × Effect x s t

module _ (x : External) where
  pub Came-refl : (s : State) → IsValid x s → Came x s s
  Came-refl s v = (v, Effect-refl x s)

  pub Came-then : (s t u : State) → Came x s t → Effect x t u → Came x s u
  Came-then s t u (v, e) f = (Effect-IsValid x t u f v, Effect-trans x s t u e f)

  -- An operation that fails without a change, or affects one run.
  pub Came-Ensures :
      {A : Type 0} {Q : A → State → Type 0} (id : RunId) (m : Exec State A) (s t : State)
      → Came x s t
      → Ensures (λ u. u ≡ t) Q m t
      → ((a : A) (u : State) → Q a u → Touches x id t u)
      → Ensures (Came x s) (λ a u. Came x s u × Q a u) m t
  Came-Ensures id m s t c h touched =
      Ensures-weaken h (λ u e. subst (Came x s) (sym e) c)
        λ a u q. (Came-then s t u c (Touches-Effect x id t u (touched a u q)), q)

  -- An attempt leaves a store that came from the start, whether it succeeded or failed.
  pub attempted-Came :
      {A : Type 0} (s : State) (Q : A → State → Type 0) (r : Result A) (u : State)
      → Outcome (Came x s) (λ a v. Came x s v × Q a v) (r, u)
      → Came x s u
  attempted-Came s Q (ok a) u h = h.0
  attempted-Came s Q (err e) u h = h
