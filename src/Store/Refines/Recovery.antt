-- ===== src/Store/Refines/Recovery.antt =====
-- `recover_expired_leases` on the memory store
-- (crates/openwork-execution/src/store/mod.rs).
use openwork.Common.{
  ℕ, suc, ◌≡◌, ◌≢◌, refl, sym, ap, subst, ◌∙◌, Bool, true, false, ◌&&◌, any, leb, ◌==◌, ==-eq,
  Bool-cases, inl, inr, arith, List, [], ◌∷◌, Option, some,
}
use openwork.Common.Map.{Map, get}
use openwork.Common.Exec.Rules.{
  Ensures, Ensures-pure, Ensures-with_lock, Ensures-bind, Ensures-weaken,
}
use openwork.Contract.{RunId, AuditEventId, UtcTimestamp, ActorId}
use openwork.Contract.External.{External}
use openwork.Contract.Run.{RunStatus, Run, is_terminal, failed}
use openwork.Store.{State, RunLease}
use openwork.Store.Queue.{is_active}
use openwork.Lifecycle.{Slot}
use openwork.Lifecycle.Soundness.{parts_of_run, LeaseFits}
use openwork.Store.Queue.Ops.{expired_leases, recover_leases, recover_expired_leases}
use openwork.Store.Slots.{slot, Touches, Effect}
use openwork.Store.Validity.{
  IsValid, IsValid-IsNamed, Touches-Effect, Effect-refl, Effect-of_eq, Effect-trans, Effect-IsValid,
}
use openwork.Store.Refines.Release.{recover_lease_lem, IsReleased, FailsIfOver}

-- Some entry of the map has that key and a lease that is over.
abbrev pub is_expired : UtcTimestamp → RunId → RunId × RunLease → Bool
is_expired now id (j, lease) = j == id && leb lease.expires_at now

-- What a recovery has made of one run, on an error: it ended the run, or left it as it was.
pub data MayRecover (now : UtcTimestamp) (s t : State) (id : RunId) : Type 0 where
  ended : any (is_expired now id) s.leases ≡ true → IsReleased id t → MayRecover now s t id
  left : slot t id ≡ slot s id → MayRecover now s t id

-- What a recovery that succeeds has made of one run: it ended exactly those with a lease that is over.
pub data Recovered (now : UtcTimestamp) (s t : State) (id : RunId) : Type 0 where
  ended : any (is_expired now id) s.leases ≡ true → IsReleased id t → Recovered now s t id
  left : any (is_expired now id) s.leases ≡ false → slot t id ≡ slot s id → Recovered now s t id

-- An identifier is in the list drawn just if an entry under it is over.
any-expired_leases :
    (now : UtcTimestamp) (id : RunId) (leases : Map RunLease)
    → any (λ j. j == id) (expired_leases now leases) ≡ any (is_expired now id) leases
unfolding expired_leases
any-expired_leases now id [] = refl
any-expired_leases now id ((j, lease) ∷ leases) = ground (arith, any-expired_leases now id leases)

expired_leased :
    (now : UtcTimestamp) (id : RunId) (leases : Map RunLease)
    → any (is_expired now id) leases ≡ true
    → (l : RunLease) × (get id leases ≡ some l)
unfolding get
expired_leased now id [] h = cc
expired_leased now id ((j, lease) ∷ leases) h = elim (Bool-cases (j == id)) [
  | inl here ↦ (lease, ground arith)
  | inr there ↦
      let (l, held) = expired_leased now id leases (ground arith) in (l, ground (arith, held))
]

active_is_open : (s : RunStatus) → is_active s ≡ true → is_terminal s ≡ true → ⊥
unfolding is_terminal
active_is_open s h k = ground arith

same_run : {o : Option Run} {r c : Run} → o ≡ some c → o ≡ some r → c ≡ r
same_run h k = cc

==-self : (n : ℕ) → (n == n) ≡ true
==-self n = ground arith

IsReleased-slot :
    (id : RunId) (t u : State) → slot u id ≡ slot t id → IsReleased id t → IsReleased id u
IsReleased-slot id t u same r = record {
  unleased = ap (λ k. k.lease) same ∙ r.unleased;
  run = r.run;
  stored = ap (λ k. k.run) same ∙ r.stored;
  failure = r.failure;
}

-- The loop over the list, by place in it.
data Swept (ids : List RunId) (s t : State) (id : RunId) : Type 0 where
  ended : any (λ j. j == id) ids ≡ true → IsReleased id t → Swept ids s t id
  left : any (λ j. j == id) ids ≡ false → slot t id ≡ slot s id → Swept ids s t id

data MaySweep (ids : List RunId) (s t : State) (id : RunId) : Type 0 where
  ended : any (λ j. j == id) ids ≡ true → IsReleased id t → MaySweep ids s t id
  left : slot t id ≡ slot s id → MaySweep ids s t id

not_here : (i id : RunId) → (i == id) ≡ false → i ≢ id
not_here i id h p = ground arith

module _ (x : External) where
  Swept-first :
      (i : RunId) (ids : List RunId) (s t u : State)
      → Touches x i s t
      → IsReleased i t
      → (id : RunId) → Swept ids t u id
      → Swept (i ∷ ids) s u id
  Swept-first i ids s t u h r id (Swept.ended m w) = Swept.ended (ground arith) w
  Swept-first i ids s t u h r id (Swept.left m same) = elim (Bool-cases (i == id)) [
    | inl here ↦
        let p = ==-eq i id here in
        Swept.ended (ground arith) (IsReleased-slot id t u same (subst (λ k. IsReleased k t) p r))
    | inr there ↦ Swept.left (ground arith) (same ∙ h.elsewhere id λ p. not_here i id there p)
  ]

  MaySweep-first :
      (i : RunId) (ids : List RunId) (s t u : State)
      → Touches x i s t
      → IsReleased i t
      → (id : RunId) → MaySweep ids t u id
      → MaySweep (i ∷ ids) s u id
  MaySweep-first i ids s t u h r id (MaySweep.ended m w) = MaySweep.ended (ground arith) w
  MaySweep-first i ids s t u h r id (MaySweep.left same) = elim (Bool-cases (i == id)) [
    | inl here ↦
        let p = ==-eq i id here in
        MaySweep.ended (ground arith)
          (IsReleased-slot id t u same (subst (λ k. IsReleased k t) p r))
    | inr there ↦ MaySweep.left (same ∙ h.elsewhere id λ p. not_here i id there p)
  ]

  -- What is over after one recovery: the run recovered, or what was over before.
  FailsIfOver-next :
      (i : RunId) (ids : List RunId) (s t : State)
      → Touches x i s t
      → IsReleased i t
      → ((id : RunId) → any (λ j. j == id) (i ∷ ids) ≡ true → FailsIfOver id s)
      → (id : RunId) → any (λ j. j == id) ids ≡ true
      → FailsIfOver id t
  FailsIfOver-next i ids s t h w fails id m r stored over = elim (Bool-cases (i == id)) [
    | inl here ↦
        let p = ==-eq i id here in
        let same : w.run ≡ r =
          same_run (w.stored) (subst (λ k. get k t.runs ≡ some r) (sym p) stored) in
        subst (λ (q : Run). q.status ≡ failed) same w.failure
    | inr there ↦
        fails id (ground arith) r
          (sym (ap (λ (k : Slot). k.run) (h.elsewhere id λ p. not_here i id there p)) ∙ stored) over
  ]

  -- In a valid store a run with a lease is not over.
  expired_fails :
      (id : RunId) (now : UtcTimestamp) (s : State)
      → IsValid x s
      → any (is_expired now id) s.leases ≡ true
      → FailsIfOver id s
  expired_fails id now s v due r stored over =
      let (l, held) = expired_leased now id s.leases due in
      let (es, logged, tracked, fits) = parts_of_run x id (slot s id) r (v id) stored in
      absurd (
        active_is_open r.status (subst (λ w. LeaseFits r w (get id s.cancel_requested)) held fits).0
          over)

  recover_leases_lem :
      (event_ids : ℕ → AuditEventId) (actor : ActorId) (now : UtcTimestamp) (ids : List RunId)
      (s : State)
      → IsValid x s
      → ((id : RunId) → any (λ j. j == id) ids ≡ true → FailsIfOver id s)
      → Ensures
          (λ t. Effect x s t × ((id : RunId) → MaySweep ids s t id))
          (λ _ t. Effect x s t × ((id : RunId) → Swept ids s t id))
          (recover_leases x event_ids actor now ids)
          s
  unfolding recover_leases
  recover_leases_lem event_ids actor now [] s v fails =
      Ensures-pure tt (Effect-refl x s, λ id. Swept.left refl refl)
  recover_leases_lem event_ids actor now (i ∷ ids) s v fails =
      Ensures-bind _ _ _ _
        (recover_lease_lem x (event_ids 0) actor now i s (IsValid-IsNamed x s v)
          (fails i (ground (arith, ==-self i))))
        (λ t e. (Effect-of_eq x s t e, λ id. MaySweep.left (ap (λ w. slot w id) e)))
        λ _ t h.
          let first = Touches-Effect x i s t h.0 in
          Ensures-weaken
            (recover_leases_lem (λ k. event_ids (suc k)) actor now ids t
              (Effect-IsValid x s t first v) (FailsIfOver-next i ids s t h.0 h.1 fails))
            (λ u e. (
              Effect-trans x s t u first e.0,
              λ id. MaySweep-first i ids s t u h.0 h.1 id (e.1 id),
            ))
            λ _ u e.
              (Effect-trans x s t u first e.0, λ id. Swept-first i ids s t u h.0 h.1 id (e.1 id))

  Swept-Recovered :
      (now : UtcTimestamp) (s t : State) (id : RunId)
      → Swept (expired_leases now s.leases) s t id
      → Recovered now s t id
  Swept-Recovered now s t id (Swept.ended m w) =
      Recovered.ended (sym (any-expired_leases now id s.leases) ∙ m) w
  Swept-Recovered now s t id (Swept.left m w) =
      Recovered.left (sym (any-expired_leases now id s.leases) ∙ m) w

  MaySweep-MayRecover :
      (now : UtcTimestamp) (s t : State) (id : RunId)
      → MaySweep (expired_leases now s.leases) s t id
      → MayRecover now s t id
  MaySweep-MayRecover now s t id (MaySweep.ended m w) =
      MayRecover.ended (sym (any-expired_leases now id s.leases) ∙ m) w
  MaySweep-MayRecover now s t id (MaySweep.left w) = MayRecover.left w

  -- From a valid store, recover_expired_leases that succeeds has ended exactly the runs whose lease was
  -- over: those are stored as failed, without a lease, their identifiers are the ones returned, and
  -- every other run is as it was. When it fails, a run whose lease was over may have been ended so, and
  -- every other run is as it was. Either way every run took steps of its life (Lifecycle.Step) only.
  pub recover_expired_leases_lem :
      (event_ids : ℕ → AuditEventId) (actor : ActorId) (now : UtcTimestamp) (s : State)
      → IsValid x s
      → Ensures
          (λ t. Effect x s t × ((id : RunId) → MayRecover now s t id))
          (λ ids t.
            Effect x s t
            × ((id : RunId) → Recovered now s t id)
            × ((id : RunId) → any (λ j. j == id) ids ≡ any (is_expired now id) s.leases))
          (recover_expired_leases x event_ids actor now)
          s
  unfolding recover_expired_leases
  recover_expired_leases_lem event_ids actor now s v = Ensures-with_lock _ (
      Ensures-bind _ _ _ _
        (recover_leases_lem event_ids actor now (expired_leases now s.leases) s v
          λ id due. expired_fails id now s v (sym (any-expired_leases now id s.leases) ∙ due))
        (λ t e. (e.0, λ id. MaySweep-MayRecover now s t id (e.1 id)))
        λ _ t e. Ensures-pure _ (
          e.0,
          (λ id. Swept-Recovered now s t id (e.1 id)),
          λ id. any-expired_leases now id s.leases,
        ))
