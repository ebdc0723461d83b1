-- ===== src/Lifecycle/Soundness.antt =====
-- The invariant of the life of one run (crates/openwork-execution/src/store/mod.rs).
use mathlib.Core.Path.{subst₂}
use openwork.Common.{
  ℕ, ◌≤◌, ◌≡◌, refl, subst, ◌∙◌, true, Option, none, some, List, [], ◌∷◌, ◌++◌, arith, is_some, inl,
  inr, Option-cases, length, length-append,
}
use openwork.Contract.{RunId, UtcTimestamp}
use openwork.Contract.External.{External}
use openwork.Contract.Run.{RunStatus, can_transition_to, is_terminal, Run}
use openwork.Contract.Audit.{AuditEvent}
use openwork.Audit.Chain.{IsChain, ChainFrom, end_time}
use openwork.Store.{RunLease}
use openwork.Store.Queue.{is_active}
use openwork.Store.Chains.{Extends, Extends-IsChain}
use openwork.Lifecycle.{
  Slot, IsShaped, Moved, LeaseMove, unleased, kept, claimed, refreshed, closed, Step, created,
  logged, moved, renewed, cancel_noted, released, Steps, here, next,
}

-- A run beside its chain: it verifies from the first event to the last, and is as recent as the run.
pub record IsTracked (x : External) (id : RunId) (r : Run) (es : List AuditEvent) : Type 0 where
  pub named : r.id ≡ id
  pub chained : IsChain x id es
  pub begun : 1 ≤ length es
  pub recent : r.updated_at ≤ end_time 0 es
  pub shaped : IsShaped r

-- Only an active run has a lease, a cancellation is noted only of a leased run, and the lease shows it.
abbrev pub LeaseFits : Run → Option RunLease → Option UtcTimestamp → Type 0
LeaseFits r none none = Unit
LeaseFits r none (some t) = ⊥
LeaseFits r (some l) c = (is_active r.status ≡ true) × (l.cancel_requested ≡ is_some c)

-- By the presence of the run and of its chain: both, or nothing at all.
abbrev pub SoundParts :
    External
    → RunId
    → Option Run
    → Option (List AuditEvent)
    → Option RunLease
    → Option UtcTimestamp
    → Type 0
SoundParts x id none none none none = Unit
SoundParts x id (some r) (some es) l c = IsTracked x id r es × LeaseFits r l c
SoundParts x id _ _ _ _ = ⊥

abbrev pub IsSound : External → RunId → Slot → Type 0
IsSound x id a = SoundParts x id a.run a.events a.lease a.cancel

end_time_mono :
    (x : External) (id : RunId) (n : ℕ) (h : Option _) (t : UtcTimestamp) (es : List AuditEvent)
    → ChainFrom x id n h t es
    → t ≤ end_time t es
end_time_mono x id n h t [] c = omega arith
end_time_mono x id n h t (e ∷ es) (f, c) = omega (arith, end_time_mono x id _ _ e.timestamp es c)

end_time-append :
    (t : UtcTimestamp) (es new : List AuditEvent)
    → end_time t (es ++ new) ≡ end_time (end_time t es) new
end_time-append t [] new = refl
end_time-append t (e ∷ es) new = end_time-append e.timestamp es new

pub Moved-IsShaped :
    (r r' : Run) (n : RunStatus) (t : UtcTimestamp) → Moved r r' n t → IsShaped r → IsShaped r'
unfolding can_transition_to is_terminal
Moved-IsShaped r r' n t m s = ground arith

-- The chain of a tracked run after an extension.
IsTracked-logged :
    (x : External) (id : RunId) (r : Run) (es new : List AuditEvent)
    → IsTracked x id r es
    → Extends x id es new
    → IsTracked x id r (es ++ new)
IsTracked-logged x id r es new t e = record {
  named = t.named;
  chained = Extends-IsChain x id es new t.chained e;
  begun = omega (arith, length-append {0} es new, t.begun);
  recent =
      omega
        (arith, t.recent, end_time-append 0 es new, end_time_mono x id _ _ (end_time 0 es) new e);
  shaped = t.shaped;
}

IsTracked-Moved :
    (x : External) (id : RunId) (r r' : Run) (es new : List AuditEvent) (n : RunStatus)
    (at : UtcTimestamp)
    → IsTracked x id r es
    → Moved r r' n at
    → Extends x id es new
    → at ≤ end_time (end_time 0 es) new
    → IsTracked x id r' (es ++ new)
IsTracked-Moved x id r r' es new n at t m e late = record {
  named = m.same_id ∙ t.named;
  chained = Extends-IsChain x id es new t.chained e;
  begun = omega (arith, length-append {0} es new, t.begun);
  recent = omega (arith, m.stamped, end_time-append 0 es new);
  shaped = Moved-IsShaped r r' n at m t.shaped;
}

LeaseFits-Moved :
    (a b : Slot) (r r' : Run) (n : RunStatus) (at : UtcTimestamp)
    → Moved r r' n at
    → LeaseFits r a.lease a.cancel
    → LeaseMove a b n
    → LeaseFits r' b.lease b.cancel
unfolding can_transition_to is_terminal
LeaseFits-Moved a b r r' n at m f (unleased p q c) = ground arith
LeaseFits-Moved a b r r' n at m f (kept p q c) = ground arith
LeaseFits-Moved a b r r' n at m f (claimed l p q c d e) = ground arith
LeaseFits-Moved a b r r' n at m f (refreshed l p q c d) = ground arith
LeaseFits-Moved a b r r' n at m f (closed p q c) = ground arith

-- What a sound slot with a run, or with a chain, holds.
pub parts_of_run :
    (x : External) (id : RunId) (a : Slot) (r : Run)
    → IsSound x id a
    → a.run ≡ some r
    → (es : List AuditEvent) × (a.events ≡ some es)
      × IsTracked x id r es
      × LeaseFits r a.lease a.cancel
parts_of_run x id a r s p = elim (Option-cases a.events) [
  | inl e ↦ absurd (subst₂ (λ u v. SoundParts x id u v a.lease a.cancel) p e s)
  | inr f ↦
      let (t, fits) = subst₂ (λ u v. SoundParts x id u v a.lease a.cancel) p f.1 s in
      (f.0, f.1, t, fits)
]

pub parts_of_events :
    (x : External) (id : RunId) (a : Slot) (es : List AuditEvent)
    → IsSound x id a
    → a.events ≡ some es
    → (r : Run) × (a.run ≡ some r) × IsTracked x id r es × LeaseFits r a.lease a.cancel
parts_of_events x id a es s p = elim (Option-cases a.run) [
  | inl e ↦ absurd (subst₂ (λ u v. SoundParts x id u v a.lease a.cancel) e p s)
  | inr f ↦
      let (t, fits) = subst₂ (λ u v. SoundParts x id u v a.lease a.cancel) f.1 p s in
      (f.0, f.1, t, fits)
]

pub parts_of_lease :
    (x : External) (id : RunId) (a : Slot) (l : RunLease)
    → IsSound x id a
    → a.lease ≡ some l
    → (r : Run) × (a.run ≡ some r)
parts_of_lease x id a l s p = elim (Option-cases a.run) [
  | inr f ↦ f
  | inl e ↦ elim (Option-cases a.events) [
    | inl d ↦ absurd (
        subst (λ w. SoundParts x id none none w a.cancel) p
          (subst₂ (λ u v. SoundParts x id u v a.lease a.cancel) e d s))
    | inr d ↦ absurd (subst₂ (λ u v. SoundParts x id u v a.lease a.cancel) e d.1 s)
  ]
]

-- With no run there is nothing.
no_run :
    (x : External) (id : RunId) (run : Option Run) (es : Option (List AuditEvent))
    (l : Option RunLease) (c : Option UtcTimestamp)
    → SoundParts x id run es l c
    → run ≡ none
    → (l ≡ none) × (c ≡ none)
no_run x id none none none none s p = (refl, refl)
no_run x id none none none (some c) s p = absurd s
no_run x id none none (some l) c s p = absurd s
no_run x id none (some es) l c s p = absurd s
no_run x id (some r) es l c s p = cc

-- Every step of the machine keeps soundness.
pub Step-IsSound :
    (x : External) (id : RunId) {a b : Slot} → Step x id a b → IsSound x id a → IsSound x id b
Step-IsSound x id {a} {b} (created r e p q named shaped at c eq) s =
    let (l, d) = no_run x id a.run a.events a.lease a.cancel s p in
    rw (eq, l, d)
      (
        record {
          named = named;
          chained = c;
          begun = omega arith;
          recent = omega (arith, at);
          shaped = shaped;
        },
        tt,
      )
Step-IsSound x id {a} {b} (logged es new p e eq) s =
    let (r, q, t, f) = parts_of_events x id a es s p in
    rw (eq, q) (IsTracked-logged x id r es new t e, f)
Step-IsSound x id {a} {b} (moved r r' es new n at p q m e late lm br be) s =
    let (es', q', t, f) = parts_of_run x id a r s p in
    let same : es' ≡ es = cc in
    let t' = subst (IsTracked x id r) same t in
    rw (br, be)
      (IsTracked-Moved x id r r' es new n at t' m e late, LeaseFits-Moved a b r r' n at m f lm)
Step-IsSound x id {a} {b} (renewed l l' p fits eq) s =
    let (r, q) = parts_of_lease x id a l s p in
    let (es, q', t, f) = parts_of_run x id a r s q in
    rw (eq, q, q') (t, ((subst (λ w. LeaseFits r w a.cancel) p f).0, fits))
Step-IsSound x id {a} {b} (cancel_noted l l' es new now p q e flag eq) s =
    let (r, q', t, f) = parts_of_events x id a es s q in
    rw (eq, q')
      (IsTracked-logged x id r es new t e, ((subst (λ w. LeaseFits r w a.cancel) p f).0, flag))
Step-IsSound x id {a} {b} (released r p done eq) s =
    let (es, q, t, f) = parts_of_run x id a r s p in rw (eq, p, q) (t, tt)

pub Steps-IsSound :
    (x : External) (id : RunId) {a b : Slot} → Steps x id a b → IsSound x id a → IsSound x id b
Steps-IsSound x id here s = s
Steps-IsSound x id (next r st) s = Step-IsSound x id st (Steps-IsSound x id r s)
