-- ===== src/Store/Refines/Choice.antt =====
-- The choice of `claim_next_run` on the memory store (crates/openwork-execution/src/store/mod.rs).
use mathlib.Core.List.{Memᴰ}
use openwork.Common.{
  ◌≡◌, false, any, refl, sym, ap, ◌∙◌, Bool-cases, true, false, ◌&&◌, Option, none, some, List, [],
  ◌∷◌, arith, if◌then◌else◌, inl, inr,
}
use openwork.Common.Int.{ℤ}
use openwork.Common.Result.{ok}
use openwork.Common.Map.{Map}
use openwork.Common.Exec.Rules.{
  Ensures, Ensures-pure, Ensures-with_lock, Ensures-lift, Ensures-weaken,
}
use openwork.Contract.{RunId, AuditEventId, UtcTimestamp, ActorId}
use openwork.Contract.External.{External}
use openwork.Contract.Run.{Run}
use openwork.Store.{State, RunLease, LeaseToken}
use openwork.Store.Queue.{before, is_claimable, least, checked_lease_expiry}
use openwork.Store.Queue.Ops.{claim_chosen, claim_next_run}
use openwork.Store.Slots.{Touches, Effect}
use openwork.Store.Validity.{IsValid, IsValid-IsNamed, Touches-Effect, Effect-refl}
use openwork.Store.Refines.Records.{get-none}
use openwork.Store.Refines.Queue.{claim_chosen_lem, Claimed}

-- The round of the search.
abbrev better : Map RunLease → RunId × Run → Option (RunId × Run) → Option (RunId × Run)
better leases p best =
    if is_claimable leases p
    then elim best [ none ↦ some p | some b ↦ if before p b then some p else some b ]
    else best

-- What the search has found so far may be claimed.
abbrev IsFree : Map RunLease → Option (RunId × Run) → Type 0
IsFree leases best = (b : RunId × Run) → best ≡ some b → is_claimable leases b ≡ true

better-IsFree :
    (leases : Map RunLease) (p : RunId × Run) (best : Option (RunId × Run))
    → IsFree leases best
    → IsFree leases (better leases p best)
better-IsFree leases p none f b h = ground arith
better-IsFree leases p (some c) f b h = ground (arith, f c refl)

-- What the search returns may be claimed.
least-IsFree :
    (leases : Map RunLease) (entries : List (RunId × Run)) (best : Option (RunId × Run))
    → IsFree leases best
    → IsFree leases (least leases entries best)
unfolding least
least-IsFree leases [] best f = f
least-IsFree leases (p ∷ entries) best f =
    least-IsFree leases entries (better leases p best) (better-IsFree leases p best f)

before_trans : (a b c : RunId × Run) → before b a ≡ false → before c b ≡ false → before c a ≡ false
before_trans (i, a) (j, b) (k, c) h g = ground arith

not_self : (a : RunId × Run) → before a a ≡ false
not_self (i, a) = ground arith

later : (a b p : RunId × Run) → before a b ≡ true → before a p ≡ false → before b p ≡ false
later (i, a) (j, b) (k, p) h g = ground arith

-- The search never goes back behind what it has found.
least-le :
    (leases : Map RunLease) (entries : List (RunId × Run)) (b p : RunId × Run)
    → least leases entries (some b) ≡ some p
    → before b p ≡ false
unfolding least
least-le leases [] (j, b) (i, a) h = ground arith
least-le leases (q ∷ entries) b p h = elim (Bool-cases (is_claimable leases q && before q b)) [
  | inl earlier ↦
      let e : better leases q (some b) ≡ some q = ground arith in
      later q b p (ground arith)
        (least-le leases entries q p (sym (ap (least leases entries) e) ∙ h))
  | inr not_earlier ↦
      let e : better leases q (some b) ≡ some b = ground arith in
      least-le leases entries b p (sym (ap (least leases entries) e) ∙ h)
]

kept_first :
    (leases : Map RunLease) (q : RunId × Run) (best : Option (RunId × Run))
    → is_claimable leases q ≡ true
    → (c : RunId × Run) × (better leases q best ≡ some c) × (before q c ≡ false)
kept_first leases (i, a) none h = ((i, a), ground arith, ground arith)
kept_first leases q (some b) h = elim (Bool-cases (before q b)) [
  | inl earlier ↦ (q, ground arith, not_self q)
  | inr later ↦ (b, ground arith, later)
]

-- When the search of claim_next_run returns a run, no queued run without a lease among those searched
-- is at an earlier place by creation time and then by identifier.
pub least-IsFirst :
    (leases : Map RunLease) (entries : List (RunId × Run)) (best : Option (RunId × Run))
    (p q : RunId × Run)
    → least leases entries best ≡ some p
    → Memᴰ q entries
    → is_claimable leases q ≡ true
    → before q p ≡ false
unfolding least
least-IsFirst leases [] best p q h m free = elim m [ ]
least-IsFirst leases (c ∷ entries) best p q h (Memᴰ.head e) free =
    let (d, kept, first) = kept_first leases c best (ap (is_claimable leases) (sym e) ∙ free) in
    before_trans p d q (least-le leases entries d p (sym (ap (least leases entries) kept) ∙ h))
      (ap (λ k. before k d) e ∙ first)
least-IsFirst leases (c ∷ entries) best p q h (Memᴰ.tail m) free =
    least-IsFirst leases entries (better leases c best) p q h m free

least_of_some :
    (leases : Map RunLease) (entries : List (RunId × Run)) (b : RunId × Run)
    → (p : RunId × Run) × (least leases entries (some b) ≡ some p)
unfolding least
least_of_some leases [] b = (b, refl)
least_of_some leases (q ∷ entries) b = elim (Bool-cases (is_claimable leases q && before q b)) [
  | inl earlier ↦
      let (p, h) = least_of_some leases entries q in
      let e : better leases q (some b) ≡ some q = ground arith in
      (p, ap (least leases entries) e ∙ h)
  | inr not_earlier ↦
      let (p, h) = least_of_some leases entries b in
      let e : better leases q (some b) ≡ some b = ground arith in
      (p, ap (least leases entries) e ∙ h)
]

-- A search that finds nothing has met no run that may be claimed.
least-none :
    (leases : Map RunLease) (entries : List (RunId × Run))
    → least leases entries none ≡ none
    → any (is_claimable leases) entries ≡ false
unfolding least
least-none leases [] h = refl
least-none leases (q ∷ entries) h = elim (Bool-cases (is_claimable leases q)) [
  | inl free ↦
      let (p, found) = least_of_some leases entries q in
      let e : better leases q none ≡ some q = ground arith in
      let bad = sym (ap (least leases entries) e ∙ found) ∙ h in cc
  | inr busy ↦
      let e : better leases q none ≡ none = ground arith in
      let rest = least-none leases entries (sym (ap (least leases entries) e) ∙ h) in ground arith
]

-- What a claim has come to: no run is free, or the first one is given out.
pub data Searched (x : External) (token : LeaseToken) (owner : ActorId) (now : UtcTimestamp)
    (ttl : ℤ) (s : State) (l : Option RunLease) (t : State) : Type 0 where
  nothing :
      any (is_claimable s.leases) s.runs ≡ false
      → l ≡ none
      → t ≡ s
      → Searched x token owner now ttl s l t
  found :
      (id : RunId) (r : Run) (expires_at : UtcTimestamp)
      → least s.leases s.runs none ≡ some (id, r)
      → checked_lease_expiry x now ttl ≡ ok expires_at
      → Touches x id s t
      → Claimed id token owner now expires_at s l t
      → Searched x token owner now ttl s l t

module _ (x : External) where
  chosen_lem :
      (event_id : AuditEventId) (token : LeaseToken) (owner : ActorId)
      (now expires_at : UtcTimestamp) (ttl : ℤ) (s : State) (best : Option (RunId × Run))
      → IsValid x s
      → checked_lease_expiry x now ttl ≡ ok expires_at
      → least s.leases s.runs none ≡ best
      → IsFree s.leases best
      → Ensures
          (λ t. t ≡ s)
          (λ l t. Effect x s t × Searched x token owner now ttl s l t)
          (claim_chosen x event_id token owner now expires_at s best)
          s
  chosen_lem event_id token owner now expires_at ttl s none v timed search f =
      unfold claim_chosen in
      Ensures-pure none (Effect-refl x s, nothing (least-none s.leases s.runs search) refl refl)
  chosen_lem event_id token owner now expires_at ttl s (some (id, r)) v timed search f =
      Ensures-weaken
        (claim_chosen_lem x event_id token owner now expires_at s id r (IsValid-IsNamed x s v)
          (let free = f (id, r) refl in get-none _ (ground arith)))
        (λ t e. e)
        (λ l t h. (Touches-Effect x id s t h.0, found id r expires_at search timed h.0 h.1))

  -- From a valid store, claim_next_run fails without a change, or returns none and changes nothing if
  -- no run is claimable, or leases the run that its search found: that run had no lease, is moved to
  -- planning with one more event on its chain, that of a runtime selected, and the store holds the
  -- lease returned, with the token and the owner given, the time of the call and the expiry computed
  -- from the ttl; every other run is as it was, and every run took steps of its life (Lifecycle.Step)
  -- only.
  pub claim_next_run_lem :
      (event_id : AuditEventId) (token : LeaseToken) (owner : ActorId) (now : UtcTimestamp)
      (ttl : ℤ) (s : State)
      → IsValid x s
      → Ensures
          (λ t. t ≡ s)
          (λ l t. Effect x s t × Searched x token owner now ttl s l t)
          (claim_next_run x event_id token owner now ttl)
          s
  unfolding claim_next_run
  claim_next_run_lem event_id token owner now ttl s v = Ensures-lift _ _ refl λ expires_at timed.
      Ensures-with_lock _ (
        chosen_lem event_id token owner now expires_at ttl s _ v timed refl
          (least-IsFree s.leases s.runs none λ b h. ground arith))
