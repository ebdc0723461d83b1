-- ===== src/Contract/Parse/Paths.antt =====
-- Where an artifact path leads (crates/openwork-execution/src/lib.rs).
use openwork.Common.{
  ℕ, ◌≡◌, refl, ap, String, Bool, true, false, ◌||◌, Option, none, some, List, [], ◌∷◌, ◌++◌, any,
  ◌==◌, arith, ||-eq-false, Bool-cases, sym, ==-eq, inl, inr,
}
use openwork.Common.Result.{ok, fail_if, fail_if-eq-ok, >>=-eq-ok, ok-injective}
use openwork.Core.Text.{codes}
use openwork.Contract.Parse.{
  eq_codes, split, add_to_first, invalid_segment, refused_path, bad_path, parse_artifact_path,
}

abbrev pub stays : List ℕ → Bool
stays segment = eq_codes segment [] || eq_codes segment (codes ".")

-- The place that a path leads to, from a directory on a stack: an empty segment and a dot stay, two dots
-- climb, and nothing climbs above the start.
unfoldable pub resolve : List (List ℕ) → List (List ℕ) → Option (List (List ℕ))
resolve stack [] = some stack
resolve stack (segment ∷ segments) = elim (stays segment) [
  | true ↦ resolve stack segments
  | false ↦ elim (eq_codes segment (codes "..")) [
    | true ↦ elim stack [ [] ↦ none | top ∷ below ↦ resolve below segments ]
    | false ↦ resolve (segment ∷ stack) segments
  ]
]

-- Each segment entered in turn.
unfoldable pub enter : List (List ℕ) → List (List ℕ) → List (List ℕ)
enter stack [] = stack
enter stack (segment ∷ segments) = enter (segment ∷ stack) segments

-- The pieces of a text with the separator between them.
unfoldable pub join : ℕ → List (List ℕ) → List ℕ
join separator [] = []
join separator (piece ∷ []) = piece
join separator (piece ∷ next ∷ pieces) = piece ++ separator ∷ join separator (next ∷ pieces)

resolve-enter :
    (segments stack : List (List ℕ))
    → any invalid_segment segments ≡ false
    → resolve stack segments ≡ some (enter stack segments)
unfolding resolve enter invalid_segment
resolve-enter [] stack h = refl
resolve-enter (s ∷ segments) stack h =
    let (valid, rest) = ||-eq-false (invalid_segment s) _ h in
    let (inner, _) = ||-eq-false (stays s || eq_codes s (codes "..")) _ valid in
    let (moves, descends) = ||-eq-false (stays s) _ inner in
    ground (arith, moves, descends, resolve-enter segments (s ∷ stack) rest)

join-add_to_first :
    (separator c : ℕ) (pieces : List (List ℕ))
    → join separator (add_to_first c pieces) ≡ c ∷ join separator pieces
unfolding join add_to_first
join-add_to_first separator c [] = refl
join-add_to_first separator c (p ∷ []) = refl
join-add_to_first separator c (p ∷ q ∷ pieces) = refl

-- A split is never empty.
join-split_next :
    (separator : ℕ) (cs : List ℕ)
    → join separator ([] ∷ split separator cs) ≡ separator ∷ join separator (split separator cs)
unfolding join split add_to_first
join-split_next separator [] = refl
join-split_next separator (c ∷ cs) = elim (Bool-cases (c == separator)) [
  | inl same ↦ rw same refl
  | inr other ↦ rw other (added (split separator cs))
]
  where
    added :
        (pieces : List (List ℕ))
        → join separator ([] ∷ add_to_first c pieces)
          ≡ separator ∷ join separator (add_to_first c pieces)
    added [] = refl
    added (p ∷ pieces) = refl

join-split : (separator : ℕ) (cs : List ℕ) → join separator (split separator cs) ≡ cs
unfolding join split
join-split separator [] = refl
join-split separator (c ∷ cs) = elim (Bool-cases (c == separator)) [
  | inl same ↦
      rw (same, join-split_next separator cs, join-split separator cs)
        (ap (λ d. d ∷ cs) (sym (==-eq c separator same)))
  | inr other ↦
      rw (other, join-add_to_first separator c (split separator cs), join-split separator cs) refl
]

-- An artifact path that parses is the text given; its segments, joined by slashes, are that text, and
-- following them from a directory enters each of them in turn, without a step up or a step that stays.
pub parse_artifact_path-resolve :
    (is_absolute : String → Bool) (value path : String)
    → parse_artifact_path is_absolute value ≡ ok path
    → (path ≡ value)
      × (resolve [] (split b'/' (codes path)) ≡ some (enter [] (split b'/' (codes path))))
      × (join b'/' (split b'/' (codes path)) ≡ codes path)
unfolding parse_artifact_path refused_path
parse_artifact_path-resolve is_absolute value path h =
    let (_, checked, result) =
      >>=-eq-ok (fail_if (refused_path is_absolute value) bad_path) (λ _. ok value) h in
    let (portable, _) =
      ||-eq-false _ (is_absolute value)
        (fail_if-eq-ok (refused_path is_absolute value) bad_path checked) in
    let (_, segments) = ||-eq-false _ (any invalid_segment (split b'/' (codes value))) portable in
    rw (← ok-injective value path result)
      (refl, resolve-enter (split b'/' (codes value)) [] segments, join-split b'/' (codes value))
