-- ===== src/Common/Dict/Laws.antt =====
-- An entry of a `BTreeMap<String, V>` after an insertion.
use Prim.Native.Nat.{Ordering}
use Prim.Native.String.{compare, String}
use mathlib.Core.Path.{◌≡◌, refl, sym, ap, subst, ◌∙◌}
use mathlib.Core.Bool.{Bool, true, false}
use mathlib.Core.Option.{some}
use mathlib.Core.List.{[], ◌∷◌}
use text.Mathlib.Text.{◌==◌ as str_eq}
use text.Mathlib.TextEquality.{path_by_compare, eq_iff}
use text.Mathlib.TextPositions.{compare_refl}
use openwork.Common.Tests.{if◌then◌else◌}
use openwork.Common.Dict.{Dict, get, insert}

pub str_eq_refl : (s : String) → str_eq s s ≡ true
str_eq_refl s = (eq_iff s s).1 refl

gt-str_eq : (k j : String) → compare k j ≡ Ordering.gt → str_eq j k ≡ false
gt-str_eq k j p = go (str_eq j k) refl
  where
    go : (b : Bool) → str_eq j k ≡ b → b ≡ false
    go true h =
        let e : compare k j ≡ Ordering.eq =
          subst (λ i. compare k i ≡ Ordering.eq) (sym ((eq_iff j k).0 h)) (compare_refl k) in
        cc
    go false h = refl

module _ {ℓ} {V : Type ℓ} (k : String) (v : V) where
  -- What the insertion makes of a dictionary, by its comparison with the first key.
  abbrev placed : Ordering → String → V → Dict V → Dict V
  placed Ordering.lt j w m = (k, v) ∷ (j, w) ∷ m
  placed Ordering.eq j w m = (k, v) ∷ m
  placed Ordering.gt j w m = (j, w) ∷ insert k v m

  placed-eq :
      (j : String) (w : V) (m : Dict V) → insert k v ((j, w) ∷ m) ≡ placed (compare k j) j w m
  unfolding insert
  placed-eq j w m = go (compare k j)
    where
      go :
          (o : Ordering)
          → ◌≡◌ {A = Dict V}
              (elim o [
                | Ordering.lt ↦ (k, v) ∷ (j, w) ∷ m
                | Ordering.eq ↦ (k, v) ∷ m
                | Ordering.gt ↦ (j, w) ∷ insert k v m
              ])
              (placed o j w m)
      go Ordering.lt = refl
      go Ordering.eq = refl
      go Ordering.gt = refl

  pub get-insert_self : (d : Dict V) → get k (insert k v d) ≡ some v
  unfolding get insert
  get-insert_self [] = rw (str_eq_refl k) refl
  get-insert_self ((j, w) ∷ m) =
      ap (get k) (placed-eq j w m) ∙ go (compare k j) refl (get-insert_self m)
    where
      go :
          (o : Ordering)
          → compare k j ≡ o
          → get k (insert k v m) ≡ some v
          → get k (placed o j w m) ≡ some v
      go Ordering.lt p q = rw (str_eq_refl k) refl
      go Ordering.eq p q = rw (str_eq_refl k) refl
      go Ordering.gt p q = rw (gt-str_eq k j p) q

  pub get-insert_ne :
      (j : String) (d : Dict V) → str_eq k j ≡ false → get j (insert k v d) ≡ get j d
  unfolding get insert
  get-insert_ne j [] h = rw h refl
  get-insert_ne j ((i, w) ∷ m) h =
      ap (get j) (placed-eq i w m) ∙ go (compare k i) refl (get-insert_ne j m h)
    where
      go :
          (o : Ordering)
          → compare k i ≡ o
          → get j (insert k v m) ≡ get j m
          → get j (placed o i w m) ≡ get j ((i, w) ∷ m)
      go Ordering.lt p q = rw h refl
      go Ordering.eq p q =
          let other : str_eq i j ≡ false =
            subst (λ t. str_eq t j ≡ false) (path_by_compare k i p) h in
          rw h (rw other refl)
      go Ordering.gt p q = ap (λ o. if str_eq i j then some w else o) q
