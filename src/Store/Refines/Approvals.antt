-- ===== src/Store/Refines/Approvals.antt =====
-- The operations of `ApprovalRepository` on the memory store
-- (crates/openwork-execution/src/store/mod.rs): what each does to its run and to the approvals.
use openwork.Common.{
  ◌≤◌, ◌⊎◌, inl, inr, ap, none, ℕ, String, ◌≡◌, refl, sym, subst, true, Option, some, [], ◌∷◌, ◌++◌,
  arith,
}
use openwork.Common.Map.{get-insert_at, get-insert_self, get, insert}
use openwork.Common.Exec.{pure, ◌>>=◌}
use openwork.Common.Exec.Rules.{
  Ensures, Ensures-pure, Ensures-with_lock, Ensures-refuse_if, Ensures-modify, Ensures-require,
  Ensures-lift, Ensures-if, Ensures-weaken, Ensures-bind, Ensures-check,
}
use openwork.Contract.{AuditEventId, ApprovalId, UtcTimestamp, ActorId}
use openwork.Contract.External.{External}
use openwork.Contract.Audit.{AuditEventType, AuditEvent, approval_expired}
use openwork.Contract.Approval as A
use openwork.Contract.Approval.{
  ApprovalStatus, ApprovalDecision, ApprovalRequest, validate, binding_matches, can_consume_at,
  is_approved, is_pending, is_expired_at,
}
use openwork.Store.{State}
use openwork.Store.Approvals.{
  approval_event, commit_approval, create_approval, decide_current, decide_approval,
  expire_approval,
}
use openwork.Store.Authority.{ApprovalStep, requested, revised, Revised}
use openwork.Store.Slots.{Touches}
use openwork.Store.Refines.Records.{get-none}
use openwork.Store.Refines.Touch.{touch_logged}
use openwork.Store.Refines.Revisions.{
  Prepared, Rewritten, Decided, Decidable, decided_legal, expirable, expiry_legal, next_revision-eq,
  approval_event_lem, committed, commit_approval_lem, window_lem,
}

module _ (x : External) where
  pub create_approval_lem :
      (event_id : AuditEventId) (submitted : ApprovalRequest) (actor : ActorId) (now : UtcTimestamp)
      (s : State)
      → Ensures
          (λ t. t ≡ s)
          (λ a t.
            Touches x submitted.run_id s t
            × ApprovalStep s t
            × (a.status ≡ A.pending)
            × (get a.id s.approvals ≡ none)
            × (get a.id t.approvals ≡ some a))
          (create_approval x event_id submitted actor now)
          s
  unfolding create_approval
  create_approval_lem event_id submitted actor now s = Ensures-refuse_if _ _ _ refl λ fresh.
      Ensures-lift _ _ refl λ _ valid. Ensures-with_lock _ (
        Ensures-require _ _ _ refl λ run stored. Ensures-refuse_if _ _ _ refl λ awaiting.
          Ensures-refuse_if _ _ _ refl λ unique.
            Ensures-check _ _ _ (approval_event_lem x event_id _ _ actor now s) refl λ e (p, typed).
              Ensures-bind _ _ _ _ (commit_approval_lem x _ p.events e s p.held) (λ t c. absurd c)
                λ _ t q. Ensures-modify _ _ (
                  Ensures-pure _ (
                    subst
                      (λ u.
                        Touches x submitted.run_id s (record u {
                          approval_windows = insert submitted.id run.revision u.approval_windows;
                        })
                        × ApprovalStep s (record u {
                          approval_windows = insert submitted.id run.revision u.approval_windows;
                        })
                        × (submitted.status ≡ A.pending)
                        × (get submitted.id s.approvals ≡ none)
                        × (get submitted.id u.approvals
                            ≡ some (record submitted {
                              request_reason = x.redact_text submitted.request_reason;
                            })))
                      (sym q)
                      (
                        touch_logged x submitted.run_id s _ p.events (e ∷ []) p.held p.extends refl
                            refl refl refl,
                        requested _ (ground arith) (ground arith) (get-none _ (ground arith)) refl
                            refl,
                        ground arith,
                        get-none _ (ground arith),
                        get-insert_self submitted.id _ s.approvals,
                      ))))

  Touches-committed :
      (a : ApprovalRequest) (at : UtcTimestamp) (e : AuditEvent) (s : State)
      (p : Prepared x a.run_id at s e)
      → Touches x a.run_id s (committed a p.events e s)
  Touches-committed a at e s p =
      touch_logged x a.run_id s (committed a p.events e s) p.events (e ∷ []) p.held p.extends refl
        refl refl refl

  -- The last steps of a decision and of an expiry: the event, then both writes.
  revise_lem :
      (event_id : AuditEventId) (key : ApprovalId) (a a' : ApprovalRequest) (type : AuditEventType)
      (actor : ActorId) (at : UtcTimestamp) (s : State)
      → get key s.approvals ≡ some a
      → Revised a a'
      → Ensures
          (λ t. t ≡ s)
          (λ b t. Touches x a'.run_id s t × ApprovalStep s t × (b ≡ a') × Rewritten a b at type s t)
          (approval_event x event_id s a' type actor at >>= λ e.
            commit_approval x a' e >>= λ _. pure a')
          s
  revise_lem event_id key a a' type actor at s stored r =
      Ensures-check _ _ _ (approval_event_lem x event_id a' type actor at s) refl λ e (p, typed).
        Ensures-bind _ _ _ _ (commit_approval_lem x a' p.events e s p.held) (λ t c. absurd c)
          λ _ t q. Ensures-pure a' (
            subst
              (λ u.
                Touches x a'.run_id s u × ApprovalStep s u × (a' ≡ a') × Rewritten a a' at type s u)
              (sym q)
              (
                Touches-committed a' at e s p,
                revised key a a' stored r refl refl,
                refl,
                record {
                  revision = r;
                  approvals = refl;
                  claims = refl;
                  kept = get-insert_at a' s.approvals r.same_id;
                  events = p.events;
                  event = e;
                  held = p.held;
                  logged = get-insert_self a'.run_id (p.events ++ e ∷ []) s.audits;
                  stamped = p.stamped;
                  typed = typed;
                },
              ))

  decide_current_lem :
      (event_id : AuditEventId) (key : ApprovalId) (a : ApprovalRequest) (d : ApprovalDecision)
      (actor : ActorId) (reason : Option String) (now : UtcTimestamp) (s : State)
      → get key s.approvals ≡ some a
      → is_pending a.status ≡ true
      → Ensures
          (λ t. t ≡ s)
          (λ b t. Touches x a.run_id s t × ApprovalStep s t × Decided x a d actor reason now s b t)
          (decide_current x event_id s a d actor reason now)
          s
  unfolding decide_current
  decide_current_lem event_id key a d actor reason now s stored live =
      Ensures-lift _ _ refl λ revision counted. Ensures-lift _ _ refl λ _ valid.
        Ensures-weaken
          (revise_lem event_id key a _ _ actor now s stored (record {
            legal = decided_legal a.status d live;
            counted = next_revision-eq a.revision revision counted;
            same_id = refl;
            same_run = refl;
            same_action = refl;
            same_hash = refl;
          }))
          (λ t e. e)
          λ b t (touched, step, is, written). (
            touched,
            step,
            record {
              written = written;
              reached = ap (λ r. r.status) is;
              recorded = ap (λ r. r.decision) is;
            },
          )

  decide_decidable_lem :
      (event_id : AuditEventId) (key : ApprovalId) (expected : ℕ) (a : ApprovalRequest)
      (d : ApprovalDecision) (actor : ActorId) (reason : Option String) (now : UtcTimestamp)
      (s : State)
      → get key s.approvals ≡ some a
      → Decidable a d expected now s
      → Ensures
          (λ t. t ≡ s)
          (λ b t.
            (a : ApprovalRequest) × (get key s.approvals ≡ some a)
            × Touches x a.run_id s t
            × ApprovalStep s t
            × Decidable a d expected now s
            × Decided x a d actor reason now s b t)
          (decide_current x event_id s a d actor reason now)
          s
  decide_decidable_lem event_id key expected a d actor reason now s stored may =
      Ensures-weaken (decide_current_lem event_id key a d actor reason now s stored may.pending)
        (λ t e. e) λ b t (touched, step, decided). (a, stored, touched, step, may, decided)

  -- decide_approval fails without a change, or succeeds: then the approval stored under that key was
  -- pending, of the revision expected and not yet expired, and its window was open if the decision
  -- approves; the store holds in its place the approval returned, the next revision in the state of the
  -- decision, which it records with its actor, its redacted reason and its time; the claims are as they
  -- were, the chain of its run has one more event, of the type of the decision, the approvals took at
  -- most one step (Store.Authority.ApprovalStep), its run took steps of its life (Lifecycle.Step) only,
  -- and every other run is as it was.
  pub decide_approval_lem :
      (event_id : AuditEventId) (key : ApprovalId) (expected : ℕ) (d : ApprovalDecision)
      (actor : ActorId) (reason : Option String) (now : UtcTimestamp) (s : State)
      → Ensures
          (λ t. t ≡ s)
          (λ b t.
            (a : ApprovalRequest) × (get key s.approvals ≡ some a)
            × Touches x a.run_id s t
            × ApprovalStep s t
            × Decidable a d expected now s
            × Decided x a d actor reason now s b t)
          (decide_approval x event_id key expected d actor reason now)
          s
  unfolding decide_approval is_expired_at
  decide_approval_lem event_id key expected d actor reason now s =
      Ensures-refuse_if _ _ _ refl λ short. Ensures-with_lock _ (
        Ensures-require _ _ _ refl λ a stored. Ensures-refuse_if _ _ _ refl λ open_now.
          Ensures-if (A.is_approve d) _ _
            (λ _. Ensures-check _ _ _ (window_lem x a s) refl λ r w.
              decide_decidable_lem event_id key expected a d actor reason now s stored (record {
                pending = ground arith;
                current = ground arith;
                unexpired = ground arith;
                window = inr (r, w);
              }))
            (λ other.
              decide_decidable_lem event_id key expected a d actor reason now s stored (record {
                pending = ground arith;
                current = ground arith;
                unexpired = ground arith;
                window = inl other;
              })))

  -- expire_approval fails without a change, or succeeds: then the approval stored under that key was
  -- pending or approved, of the revision expected and its time was over; the store holds in its place
  -- the approval returned, the next revision as expired; the claims are as they were, the chain of its
  -- run has one more event, that of an approval expired, the approvals took at most one step
  -- (Store.Authority.ApprovalStep), its run took steps of its life (Lifecycle.Step) only, and every
  -- other run is as it was.
  pub expire_approval_lem :
      (event_id : AuditEventId) (key : ApprovalId) (expected : ℕ) (actor : ActorId)
      (now : UtcTimestamp) (s : State)
      → Ensures
          (λ t. t ≡ s)
          (λ b t.
            (a : ApprovalRequest) × (get key s.approvals ≡ some a)
            × Touches x a.run_id s t
            × ApprovalStep s t
            × ((is_pending a.status ≡ true) ⊎ (is_approved a.status ≡ true))
            × (a.revision ≡ expected)
            × (a.expires_at ≤ now)
            × (b.status ≡ A.expired)
            × Rewritten a b now approval_expired s t)
          (expire_approval x event_id key expected actor now)
          s
  unfolding expire_approval is_expired_at
  expire_approval_lem event_id key expected actor now s = Ensures-with_lock _ (
      Ensures-require _ _ _ refl λ a stored. Ensures-refuse_if _ _ _ refl λ late.
        Ensures-lift _ _ refl λ revision counted. Ensures-lift _ _ refl λ _ valid.
          Ensures-weaken
            (revise_lem event_id key a _ _ actor now s stored (record {
              legal = expiry_legal a.status (ground arith);
              counted = next_revision-eq a.revision revision counted;
              same_id = refl;
              same_run = refl;
              same_action = refl;
              same_hash = refl;
            }))
            (λ t e. e)
            (λ b t (touched, step, is, written). (
              a,
              stored,
              touched,
              step,
              expirable a.status (ground arith),
              ground arith,
              ground arith,
              ap (λ r. r.status) is,
              written,
            )))
