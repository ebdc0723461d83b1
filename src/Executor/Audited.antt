-- ===== src/Executor/Audited.antt =====
-- What `execute_with_audit` does (crates/openwork-execution/src/action_executor.rs).
use openwork.Common.{◌≡◌, refl, sym, ap, subst, ◌∙◌, true, eq_iff, arith, not-eq-false, not-eq-true}
use openwork.Common.Result.{Result, ok, err}
use openwork.Common.Exec.{Exec}
use openwork.Common.Exec.Rules.{
  Ensures, Outcome, Ensures-pure, Ensures-bind, Ensures-refuse_if, Ensures-refuse_if_why,
}
use openwork.Contract.{UtcTimestamp, ActorId, AuditEventId}
use openwork.Contract.External.{External}
use openwork.Audit.{new_append}
use openwork.Store.{State}
use openwork.Store.Records.{ActionExecutionReceipt}
use openwork.Store.Slots.{Touches}
use openwork.Store.Refines.Records.{reconcile_action_execution_lem}
use openwork.Store.Refines.Receipts.{IsClaimed, Executed, Reconciled-unchanged, Reconciled-Executed}
use openwork.Executor.{
  ClaimedAction, ActionExecutionOutcome, into_receipt, same_receipt, expected_receipt, on_store,
  on_executor, execute_with_audit,
}

same_receipt-eq : (a b : ActionExecutionReceipt) → same_receipt a b ≡ true → a ≡ b
unfolding same_receipt
same_receipt-eq a b h =
    let r : a.run_id ≡ b.run_id = ground (arith, h) in
    let i : a.action_id ≡ b.action_id = ground (arith, h) in
    let p : a.parameter_hash ≡ b.parameter_hash =
      ground (arith, h, eq_iff a.parameter_hash b.parameter_hash) in
    λ j. record { run_id = r j; action_id = i j; parameter_hash = p j }

module _ {E A : Type 0} where
  -- A part on one half leaves the other half.
  on_executor-Ensures :
      (m : Exec E A) (s : State × E)
      → Ensures (λ t. t.0 ≡ s.0) (λ a t. (t.0 ≡ s.0) × (ok a ≡ (m s.1).0)) (on_executor m) s
  unfolding on_executor
  on_executor-Ensures m (s, w) = record { ended = go (m w) refl }
    where
      go :
          (r : Result A × E)
          → m w ≡ r
          → Outcome {S = State × E}
              (λ t. t.0 ≡ s)
              (λ a t. (t.0 ≡ s) × (ok a ≡ (m w).0))
              (r.0, (s, r.1))
      go (ok a, v) h = (refl, sym (ap (λ p. p.0) h))
      go (err e, v) h = refl

  on_store-Ensures :
      {F : State → Type 0} {R : A → State → Type 0} (m : Exec State A) (s : State × E)
      → Ensures F R m s.0
      → Ensures (λ t. F t.0) (λ a t. R a t.0) (on_store m) s
  unfolding on_store
  on_store-Ensures {F} {R} m (s, w) h = record { ended = go (m s) h.ended }
    where
      go :
          (r : Result A × State)
          → Outcome F R r
          → Outcome {S = State × E} (λ t. F t.0) (λ a t. R a t.0) (r.0, (r.1, w))
      go (ok a, t) q = q
      go (err e, t) q = q

-- The facts of the receipt that came back are facts of the receipt asked for.
carried :
    (x : External) (at : UtcTimestamp) (s s' u : State) (r r' : ActionExecutionReceipt)
    → s ≡ s'
    → r ≡ r'
    → IsClaimed s r × Touches x r.run_id s u × Executed x r.run_id at s u
    → IsClaimed s' r' × Touches x r'.run_id s' u × Executed x r'.run_id at s' u
carried x at s s' u r r' p q h =
    subst (λ (v : State). IsClaimed v r' × Touches x r'.run_id v u × Executed x r'.run_id at v u) p
      (subst
        (λ (e : ActionExecutionReceipt).
          IsClaimed s e × Touches x e.run_id s u × Executed x e.run_id at s u)
        q h)

module _ (x : External) {E : Type 0} (execute : ClaimedAction → Exec E ActionExecutionOutcome) where
  -- Whatever the executor, execute_with_audit fails without a change to the store, or returns the
  -- receipt of the action, whose claim the store held, and the chain of its run has one more event,
  -- that of an action executed; then that run took steps of its life (Lifecycle.Step) only.
  pub execute_with_audit_lem :
      (event_id : AuditEventId) (claimed : ClaimedAction) (actor : ActorId)
      (timestamp : UtcTimestamp) (s : State × E)
      → let expected = expected_receipt claimed.action in
        Ensures
          (λ t. t.0 ≡ s.0)
          (λ r t.
            (r ≡ expected)
            × IsClaimed s.0 expected
            × Touches x expected.run_id s.0 t.0
            × Executed x expected.run_id timestamp s.0 t.0)
          (execute_with_audit x execute event_id claimed actor timestamp)
          s
  unfolding execute_with_audit
  execute_with_audit_lem event_id claimed actor timestamp s =
      Ensures-bind _ _ _ _ (on_executor-Ensures (execute claimed) s) (λ t h. h)
        λ outcome t (same, q). Ensures-refuse_if _ _ _ same λ exact.
          Ensures-bind _ _ _ _
            (on_store-Ensures _ t (
              reconcile_action_execution_lem x event_id (into_receipt outcome).0
                (new_append actor timestamp) t.0))
            (λ u h. h ∙ same)
            λ appended u h.
              Ensures-refuse_if_why _ _ _
                (λ known. Reconciled-unchanged h.3 (not-eq-true appended known) ∙ same)
                λ fresh.
                  let asked =
                    same_receipt-eq _ (expected_receipt claimed.action) (not-eq-false _ exact) in
                  let (known, touched, executed) =
                    carried x timestamp t.0 s.0 u.0 _ _ same asked
                      (h.1, h.0, Reconciled-Executed h.3 (not-eq-false appended fresh)) in
                  Ensures-pure _ (asked, known, touched, executed)
