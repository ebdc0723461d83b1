-- ===== src/Common/Exec/Leaves.antt =====
-- Actions that leave a part of the state alone, whether they succeed or fail: one rule for each way to
-- build an action.
use mathlib.Core.Path.{◌≡◌, refl, sym, ◌∙◌}
use mathlib.Core.Bool.{Bool, true, false}
use mathlib.Core.Option.{Option, none, some}
use openwork.Common.Tests.{if◌then◌else◌}
use openwork.Common.Result.{OpenWorkError, Result, ok, err}
use openwork.Common.Exec.{
  Exec, pure, raise, lift, with_lock, require, refuse_if, modify, get_state, ◌>>=◌, continue,
}

-- The part is what `view` reads.
pub record Leaves {ℓ} {S V A : Type ℓ} (view : S → V) (m : Exec S A) : Type ℓ where
  pub same : (s : S) → view (m s).1 ≡ view s

module _ {ℓ} {S V A : Type ℓ} {view : S → V} where
  pub Leaves-pure : (a : A) → Leaves view (pure a)
  unfolding pure
  Leaves-pure a = record { same = λ s. refl }

  pub Leaves-raise : (e : OpenWorkError) → Leaves {A = A} view (raise e)
  unfolding raise
  Leaves-raise e = record { same = λ s. refl }

  pub Leaves-lift : (r : Result A) → Leaves view (lift r)
  unfolding lift
  Leaves-lift r = record { same = λ s. refl }

  pub Leaves-require : (o : Option A) (e : OpenWorkError) → Leaves view (require o e)
  unfolding require
  Leaves-require none e = record { same = λ s. refl }
  Leaves-require (some a) e = record { same = λ s. refl }

  pub Leaves-with_lock :
      (f : S → Exec S A) → ((s : S) → Leaves view (f s)) → Leaves view (with_lock f)
  unfolding with_lock
  Leaves-with_lock f h = record { same = λ s. (h s).same s }

  pub Leaves-if :
      (b : Bool) (m n : Exec S A) → Leaves view m → Leaves view n → Leaves view (if b then m else n)
  Leaves-if true m n p q = p
  Leaves-if false m n p q = q

module _ {ℓ} {S V : Type ℓ} {view : S → V} where
  pub Leaves-refuse_if : (b : Bool) (e : OpenWorkError) → Leaves view (refuse_if b e)
  unfolding refuse_if
  Leaves-refuse_if true e = record { same = λ s. refl }
  Leaves-refuse_if false e = record { same = λ s. refl }

  pub Leaves-modify : (f : S → S) → ((s : S) → view (f s) ≡ view s) → Leaves view (modify f)
  unfolding modify
  Leaves-modify f h = record { same = h }

  pub Leaves-get_state : Leaves view get_state
  unfolding get_state
  Leaves-get_state = record { same = λ s. refl }

module _ {ℓ} {S V A B : Type ℓ} {view : S → V} where
  pub Leaves-bind :
      (m : Exec S A) (k : A → Exec S B)
      → Leaves view m
      → ((a : A) → Leaves view (k a))
      → Leaves view (m >>= k)
  unfolding ◌>>=◌
  Leaves-bind m k p q = record { same = λ s. go (m s).0 (m s).1 ∙ p.same s }
    where
      go : (r : Result A) (t : S) → view (continue r k t).1 ≡ view t
      go (ok a) t = (q a).same t
      go (err e) t = refl

pub ruleset leaving = (
  refl, Leaves-pure, Leaves-raise, Leaves-lift, Leaves-require, Leaves-with_lock, Leaves-if,
  Leaves-refuse_if, Leaves-modify, Leaves-get_state, Leaves-bind,
)
