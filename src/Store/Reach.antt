-- ===== src/Store/Reach.antt =====
-- Every history of calls of the memory store (crates/openwork-execution/src/store/mod.rs), as steps of
-- the machine of Lifecycle.
use openwork.Common.{
  ◌≡◌, sym, ap, ◌∙◌, subst, inl, inr, Option-cases, Bool, true, false, List, [], ◌∷◌, ◌++◌, some,
}
use openwork.Common.Map.{get}
use openwork.Common.Exec.{Exec}
use openwork.Common.Exec.Rules.{Ensures, Outcome, Ensures-bind, Ensures-pure, Ensures-weaken}
use openwork.Common.Result.{OpenWorkError, Result, ok, err}
use openwork.Contract.{RunId}
use openwork.Contract.External.{External}
use openwork.Contract.Run.{Run, is_terminal}
use openwork.Contract.Audit.{AuditEvent}
use openwork.Lifecycle.History.{Later, Steps-finished, Steps-append_only, Steps-Later}
use openwork.Store.{State, empty, or_empty}
use openwork.Store.Ops.{Op, discard, perform, run_ops}
use openwork.Store.Slots.{slot, Effect}
use openwork.Store.Validity.{
  IsValid, IsValid-IsNamed, Touches-Effect, Effect-refl, Effect-of_eq, Effect-trans, Effect-IsValid,
}
use openwork.Store.Refines.Records.{
  create_run_lem, transition_run_lem, append_audit_lem, record_artifacts_lem,
  reconcile_action_execution_lem,
}
use openwork.Store.Refines.Queue.{
  heartbeat_lease_lem, transition_leased_run_lem, complete_leased_run_lem,
  append_leased_runtime_audit_lem, record_leased_artifacts_lem,
}
use openwork.Store.Refines.Cancel.{request_cancel_lem, confirm_cancel_lem}
use openwork.Store.Refines.Approvals.{create_approval_lem, decide_approval_lem, expire_approval_lem}
use openwork.Store.Refines.Consume.{consume_approval_lem}
use openwork.Store.Refines.Recovery.{recover_expired_leases_lem}
use openwork.Store.Refines.Choice.{claim_next_run_lem}

-- Whether a failed operation leaves the state as it found it. A recovery keeps its earlier rounds, and
-- a consumption may have recorded a mismatch.
unfoldable pub is_atomic : Op → Bool
is_atomic (Op.recover_expired_leases es o t) = false
is_atomic (Op.consume_approval e f p n a o t) = false
is_atomic op = true

-- What a failed operation leaves.
abbrev pub Left : External → Bool → State → State → Type 0
Left x true s u = u ≡ s
Left x false s u = Effect x s u

discard-Ensures :
    {A : Type 0} {E R : State → Type 0} {Q : A → State → Type 0} (m : Exec State A) (s : State)
    → Ensures E Q m s
    → ((a : A) (t : State) → Q a t → R t)
    → Ensures E (λ _ t. R t) (discard m) s
unfolding discard
discard-Ensures m s h f = Ensures-bind _ _ _ _ h (λ t e. e) λ a t q. Ensures-pure tt (f a t q)

module _ (x : External) where
  pub perform-Ensures :
      (op : Op) (s : State)
      → IsValid x s
      → Ensures (Left x (is_atomic op) s) (λ _ t. Effect x s t) (perform x op) s
  unfolding perform is_atomic
  perform-Ensures (Op.create_run e r a) s v =
      discard-Ensures _ s (create_run_lem x e r a s) λ _ t h. Touches-Effect x r.id s t h.0
  perform-Ensures (Op.transition_run e i n k m a) s v =
      discard-Ensures _ s (transition_run_lem x e i n k m a s (IsValid-IsNamed x s v))
        λ _ t h. Touches-Effect x i s t h.0
  perform-Ensures (Op.append_audit e i y a) s v =
      discard-Ensures _ s (append_audit_lem x e i y a s) λ _ t h. Touches-Effect x i s t h
  perform-Ensures (Op.record_artifacts es i fs a) s v =
      discard-Ensures _ s (record_artifacts_lem x es i fs a s) λ _ t h. Touches-Effect x i s t h.0
  perform-Ensures (Op.reconcile_action_execution e r a) s v =
      discard-Ensures _ s (reconcile_action_execution_lem x e r a s)
        λ _ t h. Touches-Effect x r.run_id s t h.0
  perform-Ensures (Op.claim_next_run e k o now d) s v =
      discard-Ensures _ s (claim_next_run_lem x e k o now d s v) λ _ t h. h.0
  perform-Ensures (Op.heartbeat_lease l now d) s v =
      discard-Ensures _ s (heartbeat_lease_lem x l now d s) λ _ t h. Touches-Effect x l.run.id s t h
  perform-Ensures (Op.transition_leased_run e l n k now) s v =
      discard-Ensures _ s (transition_leased_run_lem x e l n k now s (IsValid-IsNamed x s v))
        λ _ t h. Touches-Effect x l.run.id s t h.0
  perform-Ensures (Op.complete_leased_run e l n k m now) s v =
      discard-Ensures _ s (complete_leased_run_lem x e l n k m now s (IsValid-IsNamed x s v))
        λ _ t h. Touches-Effect x l.run.id s t h.0
  perform-Ensures (Op.append_leased_runtime_audit e l n y now) s v =
      discard-Ensures _ s (append_leased_runtime_audit_lem x e l n y now s)
        λ _ t h. Touches-Effect x l.run.id s t h
  perform-Ensures (Op.record_leased_artifacts es l n fs now) s v =
      discard-Ensures _ s (record_leased_artifacts_lem x es l n fs now s)
        λ _ t h. Touches-Effect x l.run.id s t h.0
  perform-Ensures (Op.request_cancel e i o now) s v =
      discard-Ensures _ s (request_cancel_lem x e i o now s (IsValid-IsNamed x s v))
        λ _ t h. Touches-Effect x i s t h.0
  perform-Ensures (Op.confirm_cancel e l now ev) s v =
      discard-Ensures _ s (confirm_cancel_lem x e l now ev s (IsValid-IsNamed x s v))
        λ _ t h. Touches-Effect x l.run.id s t h.0
  perform-Ensures (Op.recover_expired_leases es o now) s v =
      discard-Ensures _ s
        (Ensures-weaken (recover_expired_leases_lem x es o now s v) (λ t h. h.0) (λ _ t h. h.0))
        λ _ t h. h
  perform-Ensures (Op.create_approval e a o now) s v =
      discard-Ensures _ s (create_approval_lem x e a o now s)
        λ _ t h. Touches-Effect x a.run_id s t h.0
  perform-Ensures (Op.decide_approval e p n d o m now) s v =
      discard-Ensures _ s (decide_approval_lem x e p n d o m now s)
        λ _ t h. Touches-Effect x h.0.run_id s t h.2
  perform-Ensures (Op.expire_approval e p n o now) s v =
      discard-Ensures _ s (expire_approval_lem x e p n o now s)
        λ _ t h. Touches-Effect x h.0.run_id s t h.2
  perform-Ensures (Op.consume_approval e f p n a o now) s v =
      discard-Ensures _ s
        (Ensures-weaken (consume_approval_lem x e f p n a o now s v) (λ t h. h.0) (λ _ t h. h.0))
        λ _ t h. h

  Left-Effect : (b : Bool) (s t : State) → Left x b s t → Effect x s t
  Left-Effect true s t h = Effect-of_eq x s t h
  Left-Effect false s t h = h

  pub perform-Effect : (op : Op) (s : State) → IsValid x s → Effect x s (perform x op s).1
  perform-Effect op s v = go (perform x op s).0 (perform x op s).1 (perform-Ensures op s v).ended
    where
      go :
          (r : Result Unit) (t : State)
          → Outcome (Left x (is_atomic op) s) (λ _ u. Effect x s u) (r, t)
          → Effect x s t
      go (ok a) t h = h
      go (err e) t h = Left-Effect (is_atomic op) s t h

  pub run_ops-Effect : (ops : List Op) (s : State) → IsValid x s → Effect x s (run_ops x ops s)
  unfolding run_ops
  run_ops-Effect [] s v = Effect-refl x s
  run_ops-Effect (op ∷ ops) s v =
      let first = perform-Effect op s v in
      Effect-trans x s (perform x op s).1 (run_ops x ops (perform x op s).1) first
        (run_ops-Effect ops (perform x op s).1 (Effect-IsValid x s (perform x op s).1 first v))

  pub empty-IsValid : IsValid x empty
  unfolding get
  empty-IsValid id = tt

  -- After any list of calls, failed ones among them, on the empty store, every run is sound: it is
  -- stored under its own identifier, has an end time exactly when it is terminal and a reason exactly
  -- when it is terminal without success, its audit chain verifies from the first event to the last and
  -- is as recent as the run, only an active run has a lease, and a cancellation is noted only of a
  -- leased run, whose lease shows it.
  pub run_ops-IsValid : (ops : List Op) → IsValid x (run_ops x ops empty)
  run_ops-IsValid ops =
      Effect-IsValid x empty (run_ops x ops empty) (run_ops-Effect ops empty empty-IsValid)
        empty-IsValid

  -- From a valid store, a call that fails leaves the store exactly as it was, for every operation but
  -- recover_expired_leases and consume_approval.
  pub perform-atomic :
      (op : Op) (s : State) (e : OpenWorkError)
      → IsValid x s
      → is_atomic op ≡ true
      → (perform x op s).0 ≡ err e
      → (perform x op s).1 ≡ s
  perform-atomic op s e v atomic failed =
      go (perform x op s).0 (perform x op s).1 failed (perform-Ensures op s v).ended
    where
      go :
          (r : Result Unit) (t : State)
          → r ≡ err e
          → Outcome (Left x (is_atomic op) s) (λ _ u. Effect x s u) (r, t)
          → t ≡ s
      go (ok a) t h o = cc
      go (err c) t h o = subst (λ b. Left x b s t) atomic o

  -- From a valid store, a terminal run has the same record after any list of calls.
  pub run_ops-finished :
      (ops : List Op) (s : State) (id : RunId) (r : Run)
      → IsValid x s
      → get id s.runs ≡ some r
      → is_terminal r.status ≡ true
      → get id (run_ops x ops s).runs ≡ some r
  run_ops-finished ops s id r v stored done =
      Steps-finished x id (slot s id) (slot (run_ops x ops s) id) r (run_ops-Effect ops s v id)
        stored done

  -- From a valid store, no list of calls removes or changes an audit event of a run: the chain
  -- afterwards is the chain before with new events behind it.
  pub run_ops-append_only :
      (ops : List Op) (s : State) (id : RunId)
      → IsValid x s
      → (new : List AuditEvent) × (or_empty (get id (run_ops x ops s).audits)
          ≡ or_empty (get id s.audits) ++ new)
  run_ops-append_only ops s id v = elim (Option-cases (get id s.audits)) [
    | inl fresh ↦ (
      or_empty (get id (run_ops x ops s).audits),
      ap (λ o. or_empty o ++ or_empty (get id (run_ops x ops s).audits)) (sym fresh),
    )
    | inr (events, held) ↦
        let (new, now) =
          Steps-append_only x id (slot s id) (slot (run_ops x ops s) id) events (v id)
            (run_ops-Effect ops s v id) held in
        (new, ap or_empty now ∙ ap (λ o. or_empty o ++ new) (sym held))
  ]

  -- From a valid store, a stored run is still stored after any list of calls; its revision and update
  -- time have not gone back, its identifier and creation time are the same, and a record of the same
  -- revision is the same record.
  pub run_ops-grows :
      (ops : List Op) (s : State) (id : RunId) (r : Run)
      → IsValid x s
      → get id s.runs ≡ some r
      → (r' : Run) × (get id (run_ops x ops s).runs ≡ some r') × Later r r'
  run_ops-grows ops s id r v stored =
      Steps-Later x id (slot s id) (slot (run_ops x ops s) id) r (run_ops-Effect ops s v id) stored
