-- ===== src/Common/Dict.antt =====
-- Rust's `BTreeMap<String, V>`: entries in ascending order of the key, which is the order of iteration.
pub mod Laws
use Prim.Native.Nat.{Ordering}
use Prim.Native.String.{compare, String}
use mathlib.Core.Bool.{Bool, true, ◌&&◌}
use mathlib.Core.Option.{Option, none, some}
use mathlib.Core.List.{List, [], ◌∷◌}
use text.Mathlib.Text.{◌==◌ as str_eq}
use openwork.Common.Tests.{if◌then◌else◌, is_some}

abbrev pub Dict {ℓ} : Type ℓ → Type ℓ
Dict V = List (String × V)

module _ {ℓ} {V : Type ℓ} where
  unfoldable pub get : String → Dict V → Option V
  get k [] = none
  get k ((j, v) ∷ m) = if str_eq j k then some v else get k m

  unfoldable pub insert : String → V → Dict V → Dict V
  insert k v [] = (k, v) ∷ []
  insert k v ((j, w) ∷ m) = elim (compare k j) [
    | Ordering.lt ↦ (k, v) ∷ (j, w) ∷ m
    | Ordering.eq ↦ (k, v) ∷ m
    | Ordering.gt ↦ (j, w) ∷ insert k v m
  ]

  abbrev pub contains_key : String → Dict V → Bool
  contains_key k m = is_some (get k m)

  -- `iter().all(p)` on keys and values
  abbrev pub all_entries : (String → V → Bool) → Dict V → Bool
  all_entries p [] = true
  all_entries p ((k, v) ∷ m) = p k v && all_entries p m

  -- `iter().find(p)` by the key
  abbrev pub find_entry : (String → Bool) → Dict V → Option (String × V)
  find_entry p [] = none
  find_entry p ((k, v) ∷ m) = if p k then some (k, v) else find_entry p m
