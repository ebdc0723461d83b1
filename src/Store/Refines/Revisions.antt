-- ===== src/Store/Refines/Revisions.antt =====
-- The revisions of approvals on the memory store (crates/openwork-execution/src/store/mod.rs): what a
-- decision needs, what a new revision changes, and the steps that write it.
use openwork.Common.{
  ◌<◌, ◌⊎◌, inl, inr, false, none, ℕ, ◌+◌, String, ◌≡◌, refl, true, Option, some, List, [], ◌∷◌,
  ◌++◌, arith,
}
use openwork.Common.Map.{get, insert}
use openwork.Common.Result.{ok}
use openwork.Common.Exec.Rules.{
  Ensures, Ensures-pure, Ensures-with_lock, Ensures-refuse_if, Ensures-modify, Ensures-require,
  Ensures-require-some, Ensures-lift, Ensures-lift_last,
}
use openwork.Contract.{RunId, AuditEventId, UtcTimestamp, ActorId}
use openwork.Contract.External.{External}
use openwork.Contract.Run.{is_awaiting_approval, Run}
use openwork.Contract.Audit.{AuditEventType, AuditEvent}
use openwork.Contract.Approval as A
use openwork.Contract.Approval.{
  ApprovalStatus, ApprovalDecision, ApprovalRequest, validate, binding_matches, can_consume_at,
  is_approved, is_pending, is_expired_at,
}
use openwork.Store.{State}
use openwork.Store.Approvals.{
  approval_event, commit_approval, approval_window_run, next_revision, decided_status,
  decided_event, in_window, can_expire,
}
use openwork.Store.Authority.{Revised}
use openwork.Store.Chains.{Extends, new_event-Extends}

-- An event made for the end of a run's chain.
pub record Prepared (x : External) (run_id : RunId) (at : UtcTimestamp) (s : State) (e : AuditEvent)
    : Type 0 where
  pub events : List AuditEvent
  pub held : get run_id s.audits ≡ some events
  pub extends : Extends x run_id events (e ∷ [])
  pub stamped : e.timestamp ≡ at

-- The window that an approval was requested in is still open.
pub record Windowed (s : State) (a : ApprovalRequest) (r : Run) : Type 0 where
  pub stored : get a.run_id s.runs ≡ some r
  pub awaiting : is_awaiting_approval r.status ≡ true
  pub window : in_window (get a.id s.approval_windows) r.revision ≡ true

-- The new revision of an approval is stored in place of the old one, with one event on the chain of
-- its run.
pub record Rewritten (a b : ApprovalRequest) (at : UtcTimestamp) (type : AuditEventType)
    (s t : State) : Type 0 where
  pub revision : Revised a b
  pub approvals : t.approvals ≡ insert b.id b s.approvals
  pub claims : t.action_claims ≡ s.action_claims
  pub kept : get a.id t.approvals ≡ some b
  pub events : List AuditEvent
  pub event : AuditEvent
  pub held : get b.run_id s.audits ≡ some events
  pub logged : get b.run_id t.audits ≡ some (events ++ event ∷ [])
  pub stamped : event.timestamp ≡ at
  pub typed : event.event_type ≡ type

-- The decision that an approval carries then.
pub record Decided (x : External) (a : ApprovalRequest) (d : ApprovalDecision) (actor : ActorId)
    (reason : Option String) (now : UtcTimestamp) (s : State) (b : ApprovalRequest) (t : State)
    : Type 0 where
  pub written : Rewritten a b now (decided_event d) s t
  pub reached : b.status ≡ decided_status d
  pub recorded :
      b.decision
      ≡ some (record {
        decision = d;
        actor = actor;
        reason = elim reason [ none ↦ none | some r ↦ some (x.redact_text r) ];
        decided_at = now;
      })

-- What a decision needs of the approval; an approving one needs its window too.
pub record Decidable (a : ApprovalRequest) (d : ApprovalDecision) (expected : ℕ)
    (now : UtcTimestamp) (s : State) : Type 0 where
  pub pending : is_pending a.status ≡ true
  pub current : a.revision ≡ expected
  pub unexpired : now < a.expires_at
  pub window : (A.is_approve d ≡ false) ⊎ ((r : Run) × Windowed s a r)

pub decided_legal :
    (st : ApprovalStatus) (d : ApprovalDecision)
    → is_pending st ≡ true
    → A.can_transition_to st (decided_status d) ≡ true
unfolding A.can_transition_to
decided_legal st d h = ground arith

pub expirable :
    (st : ApprovalStatus) → can_expire st ≡ true → (is_pending st ≡ true) ⊎ (is_approved st ≡ true)
expirable A.pending h = inl refl
expirable A.approved h = inr refl
expirable A.denied h = cc
expirable A.expired h = cc
expirable A.consumed h = cc

pub expiry_legal :
    (st : ApprovalStatus) → can_expire st ≡ true → A.can_transition_to st A.expired ≡ true
unfolding A.can_transition_to
expiry_legal st h = ground arith

pub next_revision-eq : (n m : ℕ) → next_revision n ≡ ok m → m ≡ n + 1
unfolding next_revision
next_revision-eq n m h = ground arith

-- What `commit_approval` writes.
abbrev pub committed : ApprovalRequest → List AuditEvent → AuditEvent → State → State
committed a events e s = record s {
  approvals = insert a.id a s.approvals;
  audits = insert a.run_id (events ++ e ∷ []) s.audits;
}

module _ (x : External) where
  pub approval_event_lem :
      (event_id : AuditEventId) (a : ApprovalRequest) (type : AuditEventType) (actor : ActorId)
      (at : UtcTimestamp) (s : State)
      → Ensures
          (λ t. t ≡ s)
          (λ e t. (t ≡ s) × ((p : Prepared x a.run_id at s e) × (e.event_type ≡ type)))
          (approval_event x event_id s a type actor at)
          s
  unfolding approval_event
  approval_event_lem event_id a type actor at s = Ensures-require _ _ _ refl λ events held.
      Ensures-refuse_if _ _ _ refl λ late. Ensures-lift _ _ refl λ n count.
        Ensures-lift_last _ refl λ e built.
          let (extends, stamped, typed) =
            new_event-Extends x event_id a.run_id events n type actor at _ e late count built in
          (
            refl,
            (record { events = events; held = held; extends = extends; stamped = stamped }, typed),
          )

  pub commit_approval_lem :
      (a : ApprovalRequest) (events : List AuditEvent) (e : AuditEvent) (s : State)
      → get a.run_id s.audits ≡ some events
      → Ensures (λ _. ⊥) (λ _ t. t ≡ committed a events e s) (commit_approval x a e) s
  unfolding commit_approval
  commit_approval_lem a events e s held =
      Ensures-with_lock _
        (Ensures-require-some _ _ _ events held (Ensures-modify _ _ (Ensures-pure tt refl)))

  pub window_lem :
      (a : ApprovalRequest) (s : State)
      → Ensures (λ t. t ≡ s) (λ r t. (t ≡ s) × Windowed s a r) (approval_window_run s a) s
  unfolding approval_window_run
  window_lem a s = Ensures-require _ _ _ refl λ r stored. Ensures-refuse_if _ _ _ refl λ inside.
      Ensures-pure r
        (refl, record { stored = stored; awaiting = ground arith; window = ground arith })
