-- ===== src/Common/Map.antt =====
-- Rust's `BTreeMap` with keys ordered as numbers: entries in ascending order of the key, which is
-- the order of iteration. Proofs elsewhere go by the laws.
use Prim.Native.Nat.{ℕ}
use mathlib.Core.Path.{◌≡◌, refl}
use mathlib.Core.Logic.{◌≢◌}
use mathlib.Core.Bool.{Bool}
use mathlib.Core.Option.{Option, none, some}
use mathlib.Core.List.{List, [], ◌∷◌, map}
use native.Mathlib.Omega.{arith}
use openwork.Common.Tests.{ltb, ◌==◌, if◌then◌else◌, is_some, ==_refl, ==_of_ne}

abbrev pub Map {ℓ} : Type ℓ → Type ℓ
Map V = List (ℕ × V)

module _ {ℓ} {V : Type ℓ} where
  unfoldable pub get : ℕ → Map V → Option V
  get k [] = none
  get k ((j, v) ∷ m) = if j == k then some v else get k m

  unfoldable pub insert : ℕ → V → Map V → Map V
  insert k v [] = (k, v) ∷ []
  insert k v ((j, w) ∷ m) =
      if ltb k j then (k, v) ∷ (j, w) ∷ m else if j == k then (k, v) ∷ m else (j, w) ∷ insert k v m

  unfoldable pub remove : ℕ → Map V → Map V
  remove k [] = []
  remove k ((j, w) ∷ m) = let rest = remove k m in if j == k then rest else (j, w) ∷ rest

  abbrev pub contains_key : ℕ → Map V → Bool
  contains_key k m = is_some (get k m)

  abbrev pub values : Map V → List V
  values = map (λ (k, v). v)

  pub get-insert :
      (k j : ℕ) (v : V) (m : Map V) → get j (insert k v m) ≡ (if k == j then some v else get j m)
  unfolding get insert
  get-insert k j v [] = refl
  get-insert k j v ((i, w) ∷ m) = ground (arith, get-insert k j v m)

  pub get-remove : (k j : ℕ) (m : Map V) → get j (remove k m) ≡ (if k == j then none else get j m)
  unfolding get remove
  get-remove k j [] = ground arith
  get-remove k j ((i, w) ∷ m) = ground (arith, get-remove k j m)

  pub get-insert_self : (k : ℕ) (v : V) (m : Map V) → get k (insert k v m) ≡ some v
  get-insert_self k v m = rw (get-insert, ==_refl k)

  pub get-insert_ne : (k j : ℕ) (v : V) (m : Map V) → k ≢ j → get j (insert k v m) ≡ get j m
  get-insert_ne k j v m h = rw (get-insert, ==_of_ne k j h)

  pub get-remove_self : (k : ℕ) (m : Map V) → get k (remove k m) ≡ none
  get-remove_self k m = rw (get-remove, ==_refl k)

  pub get-remove_ne : (k j : ℕ) (m : Map V) → k ≢ j → get j (remove k m) ≡ get j m
  get-remove_ne k j m h = rw (get-remove, ==_of_ne k j h)

  -- The laws at a key that is equal to the one written.
  pub get-insert_at : {k j : ℕ} (v : V) (m : Map V) → k ≡ j → get j (insert k v m) ≡ some v
  get-insert_at {k} {j} v m h = ground (arith, get-insert k j v m)
