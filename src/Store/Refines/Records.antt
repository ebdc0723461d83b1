-- ===== src/Store/Refines/Records.antt =====
-- The operations of `ExecutionStore` on the memory store (crates/openwork-execution/src/store/mod.rs),
-- as steps of the machine of Lifecycle.
use openwork.Common.{
  ℕ, String, ◌≡◌, refl, sym, ap, subst, ◌∙◌, true, false, Option, none, some, List, [], ◌∷◌, arith,
  is_some,
}
use openwork.Common.Map.{get, insert, contains_key, get-insert_at, get-insert_ne}
use openwork.Common.Result.{ok}
use openwork.Common.Exec.Rules.{
  Ensures, Ensures-pure, Ensures-with_lock, Ensures-refuse_if, Ensures-modify, Ensures-require,
  Ensures-lift, Ensures-if, Ensures-weaken, Ensures-check,
}
use openwork.Contract.{RunId, AuditEventId}
use openwork.Contract.External.{External}
use openwork.Contract.Run.{RunStatus, is_queued, Run, Artifact, is_terminal}
use openwork.Contract.Audit.{AuditEventType, AuditEvent, run_created}
use openwork.Audit.{AuditAppend, build, with_run_status}
use openwork.Audit.Chain.{build-Follows}
use openwork.Store.{State, transition_event}
use openwork.Store.Records.{
  ActionExecutionReceipt, invalid_new_run, create_run, transition_run, append_audit,
  reconcile_action_execution, record_artifacts,
}
use openwork.Store.Chains.{build-Extends, artifact_events-Extends}
use openwork.Store.Slots.{slot-eq, IsNamed, Touches, Touches-Step, Touches-refl}
use openwork.Store.Refines.{Transitioned, push_events-Ensures, push_events_lem, advance-Moved}
use openwork.Store.Refines.Touch.{Advanced, advanced, touch_logged, touch_moved}
use openwork.Store.Refines.Receipts.{
  IsClaimed, verify_execution_claim_lem, Reconciled, known, added, append_receipt_lem,
}
use openwork.Store.Refines.Filing.{BatchFits, validate_artifact_batch_lem, Filed, filed}
use openwork.Lifecycle.{IsShaped, unleased, created}

new_run_shape :
    (r : Run)
    → invalid_new_run r ≡ false
    → (is_queued r.status ≡ true) × IsShaped r × (r.updated_at ≡ r.created_at)
unfolding invalid_new_run is_terminal
new_run_shape r h = ground arith

pub get-some {ℓ} : {V : Type ℓ} (o : Option V) → is_some o ≡ true → (v : V) × (o ≡ some v)
get-some none h = cc
get-some (some v) h = (v, refl)

pub get-none {ℓ} : {V : Type ℓ} (o : Option V) → is_some o ≡ false → o ≡ none
get-none none h = refl
get-none (some v) h = cc

module _ (x : External) where
  create_run-Touches :
      (event_id : AuditEventId) (run : Run) (audit : AuditAppend) (event : AuditEvent) (s : State)
      → invalid_new_run run ≡ false
      → audit.timestamp ≡ run.created_at
      → contains_key run.id s.runs ≡ false
      → build x event_id audit run.id 1 run_created none ≡ ok event
      → Touches x run.id s (record s {
        runs = insert run.id run s.runs;
        audits = insert run.id (event ∷ []) s.audits;
      })
  create_run-Touches event_id run audit event s valid timed fresh built =
      let (q, shaped, new) = new_run_shape run valid in
      let (follows, at, _, _) =
        build-Follows x event_id audit run.id 1 run_created none event 0 built (omega arith) in
      Touches-Step x run.id s _
        (created run event (get-none _ fresh) q refl shaped (new ∙ sym timed ∙ sym at) (follows, tt)
          (slot-eq (get-insert_at run s.runs refl) (get-insert_at (event ∷ []) s.audits refl) refl
            refl))
        λ j h.
          slot-eq (get-insert_ne run.id j run s.runs h)
            (get-insert_ne run.id j (event ∷ []) s.audits h) refl refl

  genesis :
      (event_id : AuditEventId) (run : Run) (audit : AuditAppend) (event : AuditEvent) (s : State)
      → audit.timestamp ≡ run.created_at
      → build x event_id audit run.id 1 run_created none ≡ ok event
      → (e : AuditEvent) × (get run.id (insert run.id (event ∷ []) s.audits) ≡ some (e ∷ []))
        × (e.event_type ≡ run_created)
        × (e.timestamp ≡ run.created_at)
  genesis event_id run audit event s timed built =
      let (_, at, type, _) =
        build-Follows x event_id audit run.id 1 run_created none event 0 built (omega arith) in
      (event, get-insert_at (event ∷ []) s.audits refl, type, at ∙ timed)

  -- create_run fails without a change, or returns the submitted run, which the store then holds, under
  -- an identifier that held none before; its chain is then one event, that of a run created, at the
  -- creation time; then that run took steps of its life (Lifecycle.Step) only, and every other run is
  -- as it was.
  pub create_run_lem :
      (event_id : AuditEventId) (run : Run) (audit : AuditAppend) (s : State)
      → Ensures
          (λ t. t ≡ s)
          (λ r t.
            Touches x run.id s t
            × (r ≡ run)
            × (get run.id s.runs ≡ none)
            × (get run.id t.runs ≡ some run)
            × ((e : AuditEvent) × (get run.id t.audits ≡ some (e ∷ []))
                × (e.event_type ≡ run_created)
                × (e.timestamp ≡ run.created_at)))
          (create_run x event_id run audit)
          s
  unfolding create_run
  create_run_lem event_id run audit s = Ensures-refuse_if _ _ _ refl λ valid.
      Ensures-refuse_if _ _ _ refl λ timed. Ensures-with_lock _ (
        Ensures-refuse_if _ _ _ refl λ fresh. Ensures-lift _ _ refl λ event built.
          Ensures-modify _ _ (
            Ensures-modify _ _ (
              Ensures-pure run (
                create_run-Touches event_id run audit event s valid (ground arith) fresh built,
                refl,
                get-none _ fresh,
                get-insert_at run s.runs refl,
                genesis event_id run audit event s (ground arith) built,
              ))))

  -- With runs stored under their own identifiers, transition_run fails without a change, or succeeds:
  -- then the run had no lease and the revision expected, the run returned is the stored one, moved from
  -- the old one to the state asked for at the time of the audit, and its chain has one more event, of
  -- the type of that state; then that run took steps of its life (Lifecycle.Step) only, and every other
  -- run is as it was.
  pub transition_run_lem :
      (event_id : AuditEventId) (id : RunId) (expected : ℕ) (next : RunStatus)
      (reason : Option String) (audit : AuditAppend) (s : State)
      → IsNamed s
      → Ensures
          (λ t. t ≡ s)
          (λ r' t.
            Touches x id s t
            × (get id s.leases ≡ none)
            × ((r : Run) × (r.revision ≡ expected)
                × Advanced id r r' next audit.timestamp (transition_event next) s t))
          (transition_run x event_id id expected next reason audit)
          s
  unfolding transition_run
  transition_run_lem event_id id expected next reason audit s named = Ensures-with_lock _ (
      Ensures-refuse_if _ _ _ refl λ unheld. Ensures-require _ _ _ refl λ r stored.
        Ensures-refuse_if _ _ _ refl λ legal. Ensures-refuse_if _ _ _ refl λ forward.
          Ensures-require _ _ _ refl λ events held. Ensures-refuse_if _ _ _ refl λ late.
            Ensures-lift _ _ refl λ n count. Ensures-lift _ _ refl λ event built.
              Ensures-lift _ _ refl λ r' made. Ensures-modify _ _ (
                push_events-Ensures id events (event ∷ []) _ _ held (
                  let (extends, stamped, typed) =
                    build-Extends x event_id (with_run_status next audit) id events n _ event late
                      count built in
                  let tr : Transitioned x id r r' next audit.timestamp (transition_event next) s _ =
                    record {
                      moved =
                          advance-Moved x r r' next reason audit.timestamp (ground arith)
                            (ground arith) made;
                      events = events;
                      event = event;
                      held = held;
                      extends = extends;
                      stamped = stamped;
                      typed = typed;
                      result = refl;
                    } in
                  Ensures-pure r' (
                    touch_moved x id s _ tr refl stored refl refl
                        (unleased (get-none _ unheld) (get-none _ unheld) refl) (λ j h. refl)
                        (λ j h. refl),
                    get-none _ unheld,
                    (r, ground arith, advanced s _ tr refl stored refl refl),
                  ))))

  -- append_audit fails without a change, or succeeds; then that run took steps of its life
  -- (Lifecycle.Step) only, and every other run is as it was.
  pub append_audit_lem :
      (event_id : AuditEventId) (id : RunId) (type : AuditEventType) (audit : AuditAppend)
      (s : State)
      → Ensures (λ t. t ≡ s) (λ e t. Touches x id s t) (append_audit x event_id id type audit) s
  unfolding append_audit
  append_audit_lem event_id id type audit s = Ensures-with_lock _ (
      Ensures-refuse_if _ _ _ refl λ known. Ensures-refuse_if _ _ _ refl λ unheld.
        Ensures-require _ _ _ refl λ events held. Ensures-refuse_if _ _ _ refl λ late.
          Ensures-lift _ _ refl λ n count. Ensures-lift _ _ refl λ event built.
            push_events-Ensures id events (event ∷ []) _ _ held (
              Ensures-pure event (
                touch_logged x id s _ events (event ∷ []) held
                  (build-Extends x event_id audit id events n type event late count built).0 refl
                  refl refl refl)))

  -- reconcile_action_execution fails without a change, or succeeds for a run without a lease and a
  -- receipt whose action has a stored claim of the same run and hash: it returns false and changes
  -- nothing if the chain of the run had the receipt, and else returns true with one more event on that
  -- chain, that of the action executed with the action and the hash of the receipt; then that run took
  -- steps of its life (Lifecycle.Step) only, and every other run is as it was.
  pub reconcile_action_execution_lem :
      (event_id : AuditEventId) (receipt : ActionExecutionReceipt) (audit : AuditAppend) (s : State)
      → Ensures
          (λ t. t ≡ s)
          (λ b t.
            Touches x receipt.run_id s t
            × IsClaimed s receipt
            × (get receipt.run_id s.leases ≡ none)
            × Reconciled x receipt audit s b t)
          (reconcile_action_execution x event_id receipt audit)
          s
  unfolding reconcile_action_execution
  reconcile_action_execution_lem event_id receipt audit s = Ensures-with_lock _ (
      Ensures-refuse_if _ _ _ refl λ unheld.
        Ensures-check (λ _. IsClaimed s receipt) _ _ (verify_execution_claim_lem receipt s) refl
          λ _ claimed. Ensures-require _ _ _ refl λ events held.
            Ensures-lift _ _ refl λ audited found.
              Ensures-if audited _ _
                (λ yes. Ensures-pure false (
                  Touches-refl x receipt.run_id s,
                  claimed,
                  get-none _ unheld,
                  known events held (found ∙ ap ok yes) refl refl,
                ))
                λ no.
                  Ensures-weaken (append_receipt_lem x event_id receipt audit events s held)
                    (λ t e. e)
                    λ b t h. (
                      h.1,
                      claimed,
                      get-none _ unheld,
                      added events held (found ∙ ap ok no) h.0 h.2.0 h.2.1,
                    ))

module _ (x : External) where
  pub record_artifacts_lem :
      (event_ids : ℕ → AuditEventId) (id : RunId) (files : List Artifact) (audit : AuditAppend)
      (s : State)
      → Ensures
          (λ t. t ≡ s)
          (λ _ t. Touches x id s t × Filed id files s t)
          (record_artifacts x event_ids id files audit)
          s
  unfolding record_artifacts
  record_artifacts_lem event_ids id files audit s = Ensures-with_lock _ (
      Ensures-refuse_if _ _ _ refl λ unheld.
        Ensures-check (λ _. BatchFits s id files) _ _ (validate_artifact_batch_lem id files s) refl
          λ _ distinct. Ensures-require _ _ _ refl λ chain held.
            Ensures-refuse_if _ _ _ refl λ late. Ensures-lift _ _ refl λ n count.
              Ensures-lift _ _ refl λ events built.
                let (extends, size, _) =
                  artifact_events-Extends x audit id event_ids n files chain events late count
                    built in
                Ensures-modify _ _ (
                  Ensures-weaken (push_events_lem id chain events _ held) (λ t c. absurd c)
                    λ _ t q.
                      subst (λ u. Touches x id s u × Filed id files s u) (sym q)
                        (
                          touch_logged x id s _ chain events held extends refl refl refl refl,
                          filed id files s chain events held size distinct.0,
                        )))
