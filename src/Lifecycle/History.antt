-- ===== src/Lifecycle/History.antt =====
-- How the record and the chain of a run (crates/openwork-execution/src/store/mod.rs) change over its
-- life.
use mathlib.Core.Path.{subst₂}
use mathlib.Core.List.{append-nil, append_assoc}
use openwork.Common.{◌≤◌, ◌≡◌, refl, sym, ap, subst, ◌∙◌, true, false, some, List, [], ◌++◌, arith}
use openwork.Contract.{RunId, UtcTimestamp}
use openwork.Contract.External.{External}
use openwork.Contract.Run.{RunStatus, can_transition_to, is_terminal, Run}
use openwork.Contract.Audit.{AuditEvent}
use openwork.Lifecycle.Soundness.{IsSound, SoundParts, Steps-IsSound}
use openwork.Lifecycle.{
  Slot, Moved, Step, created, logged, moved, renewed, cancel_noted, released, Steps, here, next,
}

-- A later record of the same run.
pub record Later (r r' : Run) : Type 0 where
  pub counted : r.revision ≤ r'.revision
  pub forward : r.updated_at ≤ r'.updated_at
  pub same_id : r'.id ≡ r.id
  pub same_creation : r'.created_at ≡ r.created_at
  pub same_unless_counted : r'.revision ≡ r.revision → r' ≡ r

Later-refl : (r : Run) → Later r r
Later-refl r = record {
  counted = omega arith;
  forward = omega arith;
  same_id = refl;
  same_creation = refl;
  same_unless_counted = λ h. refl;
}

Moved-Later : (r r' : Run) (n : RunStatus) (at : UtcTimestamp) → Moved r r' n at → Later r r'
Moved-Later r r' n at m = record {
  counted = omega (arith, m.counted);
  forward = omega (arith, m.forward, m.stamped);
  same_id = m.same_id;
  same_creation = m.same_creation;
  same_unless_counted = λ h. absurd (ground (arith, m.counted));
}

Later-trans : (a b c : Run) → Later a b → Later b c → Later a c
Later-trans a b c p q = record {
  counted = omega (arith, p.counted, q.counted);
  forward = omega (arith, p.forward, q.forward);
  same_id = q.same_id ∙ p.same_id;
  same_creation = q.same_creation ∙ p.same_creation;
  same_unless_counted = λ h.
      q.same_unless_counted (omega (arith, p.counted, q.counted))
      ∙ p.same_unless_counted (omega (arith, p.counted, q.counted));
}

no_way_out : (s n : RunStatus) → is_terminal s ≡ true → can_transition_to s n ≡ false
unfolding can_transition_to is_terminal
no_way_out s n h = ground arith

Step-Later :
    (x : External) (id : RunId) (a b : Slot) (r : Run)
    → Step x id a b
    → a.run ≡ some r
    → (r' : Run) × (b.run ≡ some r') × Later r r'
Step-Later x id a b r (created run e p q n s u c eq) h = ground arith
Step-Later x id a b r (logged es new p e eq) h = (r, ground arith, Later-refl r)
Step-Later x id a b r (moved q q' es new n at p ev m e le l rb eb) h =
    let same : q ≡ r = ground arith in
    (q', rb, Moved-Later r q' n at (subst (λ k. Moved k q' n at) same m))
Step-Later x id a b r (renewed l l' p q eq) h = (r, ground arith, Later-refl r)
Step-Later x id a b r (cancel_noted l l' es new now p ev e q eq) h = (r, ground arith, Later-refl r)
Step-Later x id a b r (released q p t eq) h = (r, ground arith, Later-refl r)

Step-finished :
    (x : External) (id : RunId) (a b : Slot) (r : Run)
    → Step x id a b
    → a.run ≡ some r
    → is_terminal r.status ≡ true
    → b.run ≡ some r
Step-finished x id a b r (created run e p q n s u c eq) h t = ground arith
Step-finished x id a b r (logged es new p e eq) h t = ground arith
Step-finished x id a b r (moved q q' es new n at p ev m e le l rb eb) h t =
    ground (arith, no_way_out r.status n t, m.legal)
Step-finished x id a b r (renewed l l' p q eq) h t = ground arith
Step-finished x id a b r (cancel_noted l l' es new now p ev e q eq) h t = ground arith
Step-finished x id a b r (released q p u eq) h t = ground arith

pub Steps-finished :
    (x : External) (id : RunId) (a b : Slot) (r : Run)
    → Steps x id a b
    → a.run ≡ some r
    → is_terminal r.status ≡ true
    → b.run ≡ some r
Steps-finished x id a b r here h t = h
Steps-finished x id a c r (next {b} p st) h t =
    Step-finished x id b c r st (Steps-finished x id a b r p h t) t

pub Steps-Later :
    (x : External) (id : RunId) (a b : Slot) (r : Run)
    → Steps x id a b
    → a.run ≡ some r
    → (r' : Run) × (b.run ≡ some r') × Later r r'
Steps-Later x id a b r here h = (r, h, Later-refl r)
Steps-Later x id a c r (next {b} p st) h =
    let (r', g, before) = Steps-Later x id a b r p h in
    let (r'', k, after) = Step-Later x id b c r' st g in (r'', k, Later-trans r r' r'' before after)

Step-append_only :
    (x : External) (id : RunId) (a b : Slot) (events : List AuditEvent)
    → IsSound x id a
    → Step x id a b
    → a.events ≡ some events
    → (new : List AuditEvent) × (b.events ≡ some (events ++ new))
Step-append_only x id a b es v (created run e p q n s u c eq) h =
    absurd (subst₂ (λ u w. SoundParts x id u w a.lease a.cancel) p h v)
Step-append_only x id a b es v (logged ds new p e eq) h = (new, ground arith)
Step-append_only x id a b es v (moved q q' ds new n at p ev m e le l rb eb) h = (new, ground arith)
Step-append_only x id a b es v (renewed l l' p q eq) h =
    ([], ap (λ s. s.events) eq ∙ h ∙ ap some (sym (append-nil es)))
Step-append_only x id a b es v (cancel_noted l l' ds new now p ev e q eq) h = (new, ground arith)
Step-append_only x id a b es v (released q p t eq) h =
    ([], ap (λ s. s.events) eq ∙ h ∙ ap some (sym (append-nil es)))

pub Steps-append_only :
    (x : External) (id : RunId) (a b : Slot) (events : List AuditEvent)
    → IsSound x id a
    → Steps x id a b
    → a.events ≡ some events
    → (new : List AuditEvent) × (b.events ≡ some (events ++ new))
Steps-append_only x id a b es v here h = ([], h ∙ ap some (sym (append-nil es)))
Steps-append_only x id a c es v (next {b} p st) h =
    let (new, g) = Steps-append_only x id a b es v p h in
    let (more, k) = Step-append_only x id b c (es ++ new) (Steps-IsSound x id p v) st g in
    (new ++ more, k ∙ ap some (append_assoc es new more))
