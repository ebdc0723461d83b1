-- ===== src/Common/Exec.antt =====
-- Code that runs under a lock on a state, changes it and may fail. What was written before an error
-- stays written, so that the state comes back beside the error too.
pub mod Rules
pub mod Leaves
use mathlib.Core.Bool.{Bool, true, false}
use mathlib.Core.Option.{Option}
use openwork.Common.Result.{OpenWorkError, Result, ok, err, fail_if, ok_or_else}

abbrev pub Exec {ℓ} : Type ℓ → Type ℓ → Type ℓ
Exec S A = S → Result A × S

module _ {ℓ} {S A B : Type ℓ} where
  abbrev pub continue : Result A → (A → Exec S B) → Exec S B
  continue (ok a) f s = f a s
  continue (err e) f s = (err e, s)

  infixl 10 ◌>>=◌
  unfoldable pub ◌>>=◌ : Exec S A → (A → Exec S B) → Exec S B
  ◌>>=◌ m f s = let (r, s') = m s in continue r f s'

module _ {ℓ} {S B : Type ℓ} where
  infixl 10 ◌>>◌
  abbrev pub ◌>>◌ : Exec S (Unit {ℓ}) → Exec S B → Exec S B
  m >> k = m >>= λ _. k

module _ {ℓ} {S A : Type ℓ} where
  unfoldable pub pure : A → Exec S A
  pure a s = (ok a, s)

  unfoldable pub raise : OpenWorkError → Exec S A
  raise e s = (err e, s)

  unfoldable pub lift : Result A → Exec S A
  lift r s = (r, s)

  -- `let mut state = self.lock()?;`: the body sees the state as it is when the lock is taken.
  unfoldable pub with_lock : (S → Exec S A) → Exec S A
  with_lock f s = f s s

  -- `option.ok_or_else(|| e)?`
  unfoldable pub require : Option A → OpenWorkError → Exec S A
  require o e s = (ok_or_else o e, s)

module _ {ℓ} {S : Type ℓ} where
  -- `if cond { return Err(e) }`
  unfoldable pub refuse_if : Bool → OpenWorkError → Exec S (Unit {ℓ})
  refuse_if true e s = (err e, s)
  refuse_if false e s = (ok tt, s)

  unfoldable pub modify : (S → S) → Exec S (Unit {ℓ})
  modify f s = (ok tt, f s)

  unfoldable pub get_state : Exec S S
  get_state s = (ok s, s)

module _ {ℓ} {S A B : Type ℓ} where
  -- What is left of a handler's run: its error, as its value, is dropped.
  abbrev inspected : (OpenWorkError → Exec S B) → Result A × S → Result A × S
  inspected handler (ok a, s) = (ok a, s)
  inspected handler (err e, s) = (err e, (handler e s).1)

  -- `result.inspect_err(|e| { let _ = handler(e); })`
  unfoldable pub inspect_err : Exec S A → (OpenWorkError → Exec S B) → Exec S A
  inspect_err m handler s = inspected handler (m s)

module _ {ℓ} {S A : Type ℓ} where
  -- `match action { Ok(..) => .., Err(..) => .. }`: the result as a value.
  unfoldable pub attempt : Exec S A → Exec S (Result A)
  attempt m s = let (r, t) = m s in (ok r, t)
