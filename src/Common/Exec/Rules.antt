-- ===== src/Common/Exec/Rules.antt =====
-- What an action guarantees: `E` of the state that it leaves when it fails, `Q` of its value and
-- its state when it succeeds. One rule for each way to build an action.
use mathlib.Core.Path.{◌≡◌, refl, sym, subst}
use mathlib.Core.Bool.{Bool, true, false}
use mathlib.Core.Option.{Option, none, some}
use openwork.Common.Tests.{if◌then◌else◌}
use openwork.Common.Result.{OpenWorkError, Result, ok, err}
use openwork.Common.Exec.{
  Exec, pure, raise, lift, with_lock, require, refuse_if, modify, get_state, ◌>>=◌, continue,
  inspect_err, attempt,
}

module _ {ℓ κ} {S A : Type ℓ} where
  abbrev pub Outcome : (S → Type κ) → (A → S → Type κ) → Result A × S → Type κ
  Outcome E Q (ok a, t) = Q a t
  Outcome E Q (err e, t) = E t

  pub record Ensures (E : S → Type κ) (Q : A → S → Type κ) (m : Exec S A) (s : S) : Type κ where
    pub ended : Outcome E Q (m s)

module _ {ℓ κ} {S A : Type ℓ} {E : S → Type κ} {Q : A → S → Type κ} {s : S} where
  pub Ensures-pure : (a : A) → Q a s → Ensures E Q (pure a) s
  unfolding pure
  Ensures-pure a q = record { ended = q }

  pub Ensures-raise : (e : OpenWorkError) → E s → Ensures E Q (raise e) s
  unfolding raise
  Ensures-raise e h = record { ended = h }

  pub Ensures-lift_last :
      (r : Result A) → E s → ((a : A) → r ≡ ok a → Q a s) → Ensures E Q (lift r) s
  unfolding lift
  Ensures-lift_last (ok a) h n = record { ended = n a refl }
  Ensures-lift_last (err e) h n = record { ended = h }

  pub Ensures-with_lock : (f : S → Exec S A) → Ensures E Q (f s) s → Ensures E Q (with_lock f) s
  unfolding with_lock
  Ensures-with_lock f h = record { ended = h.ended }

  -- The refusal is known not to apply.
  pub Ensures-pass :
      (b : Bool) (e : OpenWorkError) (k : Unit → Exec S A)
      → b ≡ false
      → Ensures E Q (k tt) s
      → Ensures E Q (refuse_if b e >>= k) s
  unfolding refuse_if ◌>>=◌
  Ensures-pass b e k p h = rw p (record { ended = h.ended })

  pub Ensures-refuse_if :
      (b : Bool) (e : OpenWorkError) (k : Unit → Exec S A)
      → E s
      → (b ≡ false → Ensures E Q (k tt) s)
      → Ensures E Q (refuse_if b e >>= k) s
  unfolding refuse_if ◌>>=◌
  Ensures-refuse_if true e k h n = record { ended = h }
  Ensures-refuse_if false e k h n = record { ended = (n refl).ended }

  -- The refusal with the reason for each of its branches.
  pub Ensures-refuse_if_why :
      (b : Bool) (e : OpenWorkError) (k : Unit → Exec S A)
      → (b ≡ true → E s)
      → (b ≡ false → Ensures E Q (k tt) s)
      → Ensures E Q (refuse_if b e >>= k) s
  unfolding refuse_if ◌>>=◌
  Ensures-refuse_if_why true e k h n = record { ended = h refl }
  Ensures-refuse_if_why false e k h n = record { ended = (n refl).ended }

  pub Ensures-modify :
      (f : S → S) (k : Unit → Exec S A) → Ensures E Q (k tt) (f s) → Ensures E Q (modify f >>= k) s
  unfolding modify ◌>>=◌
  Ensures-modify f k h = record { ended = h.ended }

  pub Ensures-if :
      (b : Bool) (m n : Exec S A)
      → (b ≡ true → Ensures E Q m s)
      → (b ≡ false → Ensures E Q n s)
      → Ensures E Q (if b then m else n) s
  Ensures-if true m n p q = p refl
  Ensures-if false m n p q = q refl

  pub Ensures-get_state : (k : S → Exec S A) → Ensures E Q (k s) s → Ensures E Q (get_state >>= k) s
  unfolding get_state ◌>>=◌
  Ensures-get_state k h = record { ended = h.ended }

module _ {ℓ κ} {S A : Type ℓ} {E F : S → Type κ} {Q R : A → S → Type κ} {s : S} where
  -- Two guarantees of one action; of a failure, the first alone.
  pub Ensures-both :
      {m : Exec S A} → Ensures E Q m s → Ensures F R m s → Ensures E (λ a t. Q a t × R a t) m s
  Ensures-both {m = m} g h = record { ended = go (m s).0 (m s).1 g.ended h.ended }
    where
      go :
          (r : Result A) (t : S)
          → Outcome E Q (r, t)
          → Outcome F R (r, t)
          → Outcome E (λ a u. Q a u × R a u) (r, t)
      go (ok a) t q f = (q, f)
      go (err e) t q f = q

module _ {ℓ κ} {S : Type ℓ} {E : S → Type κ} {Q : Unit → S → Type κ} {s : S} where
  -- A change as the last action.
  pub Ensures-modify_last : (f : S → S) → Q tt (f s) → Ensures E Q (modify f) s
  unfolding modify
  Ensures-modify_last f h = record { ended = h }

module _ {ℓ κ} {S A B : Type ℓ} {E : S → Type κ} {Q : B → S → Type κ} {s : S} where
  pub Ensures-require :
      (o : Option A) (e : OpenWorkError) (k : A → Exec S B)
      → E s
      → ((a : A) → o ≡ some a → Ensures E Q (k a) s)
      → Ensures E Q (require o e >>= k) s
  unfolding require ◌>>=◌
  Ensures-require none e k h n = record { ended = h }
  Ensures-require (some a) e k h n = record { ended = (n a refl).ended }

  -- The value is known to be there, so that the error branch is not taken.
  pub Ensures-require-some :
      (o : Option A) (e : OpenWorkError) (k : A → Exec S B) (a : A)
      → o ≡ some a
      → Ensures E Q (k a) s
      → Ensures E Q (require o e >>= k) s
  unfolding require ◌>>=◌
  Ensures-require-some o e k a p h = rw p (record { ended = h.ended })

  -- The result is known to be a success.
  pub Ensures-lift-ok :
      (r : Result A) (k : A → Exec S B) (a : A)
      → r ≡ ok a
      → Ensures E Q (k a) s
      → Ensures E Q (lift r >>= k) s
  unfolding lift ◌>>=◌
  Ensures-lift-ok r k a p h = rw p (record { ended = h.ended })

  pub Ensures-lift :
      (r : Result A) (k : A → Exec S B)
      → E s
      → ((a : A) → r ≡ ok a → Ensures E Q (k a) s)
      → Ensures E Q (lift r >>= k) s
  unfolding lift ◌>>=◌
  Ensures-lift (ok a) k h n = record { ended = (n a refl).ended }
  Ensures-lift (err e) k h n = record { ended = h }

  -- An action by its guarantee.
  pub Ensures-bind :
      (F : S → Type κ) (R : A → S → Type κ) (m : Exec S A) (k : A → Exec S B)
      → Ensures F R m s
      → ((t : S) → F t → E t)
      → ((a : A) (t : S) → R a t → Ensures E Q (k a) t)
      → Ensures E Q (m >>= k) s
  unfolding ◌>>=◌
  Ensures-bind F R m k h f n = record { ended = go (m s).0 (m s).1 h.ended }
    where
      go : (r : Result A) (t : S) → Outcome F R (r, t) → Outcome E Q (continue r k t)
      go (ok a) t q = (n a t q).ended
      go (err e) t q = f t q

  -- A check leaves the state as it is, and gives a fact about its value.
  pub Ensures-check :
      (P : A → Type ℓ) (m : Exec S A) (k : A → Exec S B)
      → Ensures (λ t. t ≡ s) (λ a t. (t ≡ s) × P a) m s
      → E s
      → ((a : A) → P a → Ensures E Q (k a) s)
      → Ensures E Q (m >>= k) s
  unfolding ◌>>=◌
  Ensures-check P m k h e n = record { ended = go (m s).0 (m s).1 h.ended }
    where
      go :
          (r : Result A) (t : S)
          → Outcome (λ t. t ≡ s) (λ a t. (t ≡ s) × P a) (r, t)
          → Outcome E Q (continue r k t)
      go (ok a) t q = subst (λ u. Outcome E Q (k a u)) (sym q.0) (n a q.1).ended
      go (err c) t q = subst E (sym q) e

module _ {ℓ κ} {S A : Type ℓ} {E F : S → Type κ} {Q R : A → S → Type κ} where
  weaken :
      (r : Result A × S)
      → Outcome F R r
      → ((t : S) → F t → E t)
      → ((a : A) (t : S) → R a t → Q a t)
      → Outcome E Q r
  weaken (ok a, t) h f g = g a t h
  weaken (err e, t) h f g = f t h

  pub Ensures-weaken :
      {m : Exec S A} {s : S}
      → Ensures F R m s
      → ((t : S) → F t → E t)
      → ((a : A) (t : S) → R a t → Q a t)
      → Ensures E Q m s
  Ensures-weaken {m} {s} h f g = record { ended = weaken (m s) h.ended f g }

module _ {ℓ κ} {S A B : Type ℓ} {E : S → Type κ} {Q : A → S → Type κ} {s : S} where
  -- An error is handled from the state that it left.
  pub Ensures-inspect_err :
      (F : S → Type κ) (m : Exec S A) (handler : OpenWorkError → Exec S B)
      → Ensures F Q m s
      → ((e : OpenWorkError) (t : S) → F t → E (handler e t).1)
      → Ensures E Q (inspect_err m handler) s
  unfolding inspect_err
  Ensures-inspect_err F m handler h n = record { ended = go (m s) h.ended }
    where
      go : (r : Result A × S) → Outcome F Q r → Outcome E Q (inspect_err (λ _. r) handler s)
      go (ok a, t) q = q
      go (err e, t) f = n e t f

module _ {ℓ κ} {S A : Type ℓ} {E F : S → Type κ} {Q : A → S → Type κ} {s : S} where
  -- An attempt does not fail.
  pub Ensures-attempt :
      (m : Exec S A) → Ensures F Q m s → Ensures E (λ r t. Outcome F Q (r, t)) (attempt m) s
  unfolding attempt
  Ensures-attempt m h = record { ended = h.ended }
