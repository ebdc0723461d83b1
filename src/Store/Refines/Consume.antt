-- ===== src/Store/Refines/Consume.antt =====
-- `consume_approval` on the memory store (crates/openwork-execution/src/store/mod.rs), as a step of the
-- approvals and steps of the run.
use openwork.Common.{
  none, ℕ, suc, ◌+◌, ◌≤◌, ◌≡◌, refl, sym, ap, ◌∙◌, true, false, Option, some, List, [], ◌∷◌, ◌++◌,
  arith, length, eq_iff,
}
use mathlib.Core.Path.{subst₂}
use openwork.Common.Map.{get, insert, contains_key, get-insert_self, get-insert_ne}
use openwork.Common.Result.{ok, >>=-eq-ok, fail_if-eq-ok}
use openwork.Common.Exec.Rules.{
  Ensures, Ensures-pure, Ensures-raise, Ensures-with_lock, Ensures-refuse_if, Ensures-modify,
  Ensures-require, Ensures-require-some, Ensures-lift, Ensures-if, Ensures-weaken, Ensures-check,
}
use openwork.Contract.{RunId, AuditEventId, ApprovalId, UtcTimestamp, ActorId}
use openwork.Contract.External.{External}
use openwork.Contract.Run.{running, is_awaiting_approval, can_transition_to, is_terminal, Run}
use openwork.Contract.Audit.{AuditEvent, runtime_started}
use openwork.Contract.Action.{ActionRequest, parameters_match_hash}
use openwork.Contract.Approval as A
use openwork.Contract.Approval.{
  ApprovalRequest, validate, binding_matches, can_consume_at, is_approved, is_expired_at,
}
use openwork.Audit.{build, new_append, with_run_status}
use openwork.Audit.Chain.{Follows, build-Follows, end_time}
use openwork.Store.{State, checked_suc}
use openwork.Store.Approvals.{
  ApprovalConsumption, record_mismatch, consume_matching, consume_approval,
}
use openwork.Store.Authority.{ApprovalStep, claimed}
use openwork.Store.Chains.{Extends}
use openwork.Store.Slots.{slot, slot-eq, Touches, Touches-refl, Touches-Step, Effect}
use openwork.Store.Validity.{IsValid, IsValid-IsNamed, Touches-Effect, Effect-of_eq}
use openwork.Store.Refines.{push_events-Ensures}
use openwork.Store.Refines.Records.{get-none}
use openwork.Store.Refines.Touch.{touch_logged}
use openwork.Store.Refines.Revisions.{Windowed, next_revision-eq, approval_event_lem, window_lem}
use openwork.Lifecycle.{Moved, moved, kept}
use openwork.Lifecycle.Soundness.{parts_of_run}

-- What `can_consume_at` has checked.
pub record Ready (x : External) (a : ApprovalRequest) (action : ActionRequest) (expected : ℕ)
    (now : UtcTimestamp) : Type 0 where
  pub valid : validate a ≡ ok tt
  pub approved : a.status ≡ A.approved
  pub revision : a.revision ≡ expected
  pub unexpired : is_expired_at a now ≡ false
  pub same_run : a.run_id ≡ action.run_id
  pub same_action : a.action_id ≡ action.id
  pub same_hash : a.parameter_hash ≡ action.parameter_hash
  pub hash_holds : parameters_match_hash x action ≡ true

consumption_legal :
    (st : A.ApprovalStatus) → st ≡ A.approved → A.can_transition_to st A.consumed ≡ true
unfolding A.can_transition_to
consumption_legal st h = ground arith

pub can_consume_at-Ready :
    (x : External) (a : ApprovalRequest) (action : ActionRequest) (expected : ℕ)
    (now : UtcTimestamp) {u : Unit {0}}
    → can_consume_at x a action expected now ≡ ok u
    → Ready x a action expected now
unfolding can_consume_at binding_matches
can_consume_at-Ready x a action expected now h =
    let (_, valid, rest) = >>=-eq-ok (validate a) _ h in
    let no_fault = fail_if-eq-ok _ _ rest in
    record {
      valid = valid;
      approved = ground arith;
      revision = ground arith;
      unexpired = ground arith;
      same_run = ground arith;
      same_action = ground arith;
      same_hash = ground (arith, eq_iff a.parameter_hash action.parameter_hash);
      hash_holds = ground arith;
    }

-- What a consumption has done: the approval that was approved is consumed, and the action, which no one
-- had claimed and whose parameters match the approved hash, is claimed.
pub record Spent (x : External) (key : ApprovalId) (action : ActionRequest) (s : State)
    (c : ApprovalConsumption) (t : State) : Type 0 where
  pub before : ApprovalRequest
  pub approved : get key s.approvals ≡ some before
  pub was_approved : before.status ≡ A.approved
  pub same_hash : before.parameter_hash ≡ action.parameter_hash
  pub hash_holds : parameters_match_hash x action ≡ true
  pub unclaimed : get action.id s.action_claims ≡ none
  pub consumed : c.approval.status ≡ A.consumed
  pub stored : get c.approval.id t.approvals ≡ some c.approval
  pub claimed : get action.id t.action_claims ≡ some c.action_claim

awaiting_runs :
    (r r' : Run) (m : ℕ) (now : UtcTimestamp)
    → is_awaiting_approval r.status ≡ true
    → r.updated_at ≤ now
    → checked_suc r.revision ≡ some m
    → r' ≡ record r { status = running; revision = m; updated_at = now; started_at = r'.started_at }
    → Moved r r' running now
unfolding can_transition_to is_terminal
awaiting_runs r r' m now h le c e = ground arith

module _ (x : External) where
  -- The two events that a consumption appends.
  both_extend :
      (runtime_id : AuditEventId) (run_id id : RunId) (events : List AuditEvent) (e e' : AuditEvent)
      (n : ℕ) (actor : ActorId) (now : UtcTimestamp)
      → id ≡ run_id
      → Extends x run_id events (e ∷ [])
      → e.timestamp ≡ now
      → checked_suc e.sequence ≡ some n
      → build x runtime_id
          (with_run_status running (new_append actor now))
          id
          n
          runtime_started
          (some e.event_hash)
        ≡ ok e'
      → Extends x run_id events (e ∷ e' ∷ []) × (e'.timestamp ≡ now)
  both_extend runtime_id run_id id events e e' n actor now same (f, _) stamped numbered built =
      let place : n ≡ suc (1 + length events) = ground (arith, f.numbered) in
      let (g, at, _, _) =
        build-Follows x runtime_id _ id n runtime_started (some e.event_hash) e' e.timestamp built
          (omega arith) in
      ((f, (subst₂ (λ i k. Follows x i k (some e.event_hash) e.timestamp e') same place g, tt)), at)

  -- The run starts, and its lease stays as it was.
  run_starts :
      (run_id : RunId) (r : Run) (m : ℕ) (started : Option UtcTimestamp) (now : UtcTimestamp)
      (events new : List AuditEvent) (s t : State)
      → IsValid x s
      → get run_id s.runs ≡ some r
      → is_awaiting_approval r.status ≡ true
      → checked_suc r.revision ≡ some m
      → get run_id s.audits ≡ some events
      → Extends x run_id events new
      → end_time 0 events ≤ now
      → now ≤ end_time (end_time 0 events) new
      → t.runs
        ≡ insert r.id
            (record r { status = running; revision = m; updated_at = now; started_at = started })
            s.runs
      → t.audits ≡ insert run_id (events ++ new) s.audits
      → t.leases ≡ s.leases
      → t.cancel_requested ≡ s.cancel_requested
      → Touches x run_id s t
  unfolding is_terminal
  run_starts run_id r m started now events new s t v stored waits bumped held ext after late er ea
        el ec =
      let (es, held', tracked, _) = parts_of_run x run_id (slot s run_id) r (v run_id) stored in
      let same : es ≡ events = ground arith in
      let recent : r.updated_at ≤ now = omega (arith, tracked.recent, ap (end_time 0) same) in
      let r' : Run = record r {
        status = running;
        revision = m;
        updated_at = now;
        started_at = started;
      } in
      let at_id : t.runs ≡ insert run_id r' s.runs =
        er ∙ ap (λ k. insert k r' s.runs) tracked.named in
      Touches-Step x run_id s t
        (moved r r' events new running now stored held
          (awaiting_runs r r' m now waits recent bumped refl) ext late
          (kept refl (ap (get run_id) el) (ap (get run_id) ec))
          (ap (get run_id) at_id ∙ get-insert_self run_id r' s.runs)
          (ap (get run_id) ea ∙ get-insert_self run_id (events ++ new) s.audits))
        (λ j ne.
          slot-eq (ap (get j) at_id ∙ get-insert_ne run_id j r' s.runs ne)
            (ap (get j) ea ∙ get-insert_ne run_id j (events ++ new) s.audits ne) (ap (get j) el)
            (ap (get j) ec))

  pub consume_matching_lem :
      (event_id runtime_id : AuditEventId) (key : ApprovalId) (a : ApprovalRequest) (r : Run)
      (expected : ℕ) (action : ActionRequest) (actor : ActorId) (now : UtcTimestamp) (s : State)
      → IsValid x s
      → get key s.approvals ≡ some a
      → Windowed s a r
      → Ensures
          (λ t. t ≡ s)
          (λ c t. Touches x a.run_id s t × ApprovalStep s t × Spent x key action s c t)
          (consume_matching x event_id runtime_id s a r expected action actor now)
          s
  unfolding consume_matching
  consume_matching_lem event_id runtime_id key a r expected action actor now s v stored w =
      Ensures-lift _ _ refl λ _ able.
        let ready = can_consume_at-Ready x a action expected now able in
        Ensures-refuse_if (contains_key action.id s.action_claims) _ _ refl λ unclaimed.
          Ensures-lift _ _ refl λ revision counted. Ensures-lift _ _ refl λ _ valid.
            Ensures-check _ _ _ (approval_event_lem x event_id _ _ actor now s) refl λ e (p, _).
              Ensures-require _ _ _ refl λ m bumped. Ensures-require _ _ _ refl λ n numbered.
                Ensures-lift _ _ refl λ e' built. Ensures-require-some _ _ _ p.events p.held (
                  Ensures-modify _ _ (
                    Ensures-pure _ (
                      let same = IsValid-IsNamed x s v a.run_id r w.stored in
                      let (both, at) =
                        both_extend runtime_id a.run_id r.id p.events e e' n actor now same
                          p.extends p.stamped numbered built in
                      let (f, _) = p.extends in
                      (
                        run_starts a.run_id r m _ now p.events (e ∷ e' ∷ []) s _ v w.stored
                            w.awaiting bumped p.held both (omega (arith, f.ordered, p.stamped))
                            (omega (arith, at)) refl refl refl refl,
                        claimed key a _ _ stored
                            (record {
                              legal = consumption_legal a.status ready.approved;
                              counted = next_revision-eq a.revision revision counted;
                              same_id = refl;
                              same_run = refl;
                              same_action = refl;
                              same_hash = refl;
                            })
                            refl (sym ready.same_action) (sym ready.same_run) (sym ready.same_hash)
                            (get-none _ unclaimed) refl refl,
                        record {
                          before = a;
                          approved = stored;
                          was_approved = ready.approved;
                          unclaimed = get-none _ unclaimed;
                          consumed = refl;
                          stored = get-insert_self a.id _ s.approvals;
                          claimed = get-insert_self action.id _ s.action_claims;
                          hash_holds = ready.hash_holds;
                          same_hash = ready.same_hash;
                        },
                      ))))

  -- The runs may have taken steps; the approvals and the claims are as they were.
  abbrev pub Kept : State → State → Type 0
  Kept s t = Effect x s t × (t.approvals ≡ s.approvals) × (t.action_claims ≡ s.action_claims)

  mismatch_lem :
      (event_id : AuditEventId) (a : ApprovalRequest) (actor : ActorId) (now : UtcTimestamp)
      (s : State)
      → Ensures
          (λ t.
            Touches x a.run_id s t
            × (t.approvals ≡ s.approvals)
            × (t.action_claims ≡ s.action_claims))
          (λ _ _. ⊥)
          (record_mismatch x event_id s a actor now)
          s
  unfolding record_mismatch
  mismatch_lem event_id a actor now s =
      Ensures-check _ _ _ (approval_event_lem x event_id a _ actor now s)
        (Touches-refl x a.run_id s, refl, refl)
        λ e (p, _). push_events-Ensures a.run_id p.events (e ∷ []) s _ p.held (
          Ensures-raise _ (
            touch_logged x a.run_id s _ p.events (e ∷ []) p.held p.extends refl refl refl refl,
            refl,
            refl,
          ))

  -- From a valid store, a consumption that succeeds found the approval of that key approved and the
  -- action unclaimed, with parameters that match the approved hash; the store then holds the approval
  -- as consumed and the action as claimed, the approvals and the claims took at most one step
  -- (Store.Authority.ApprovalStep) and the runs took steps of their lives (Lifecycle.Step) only. When
  -- it fails, the approvals and the claims are as they were and the runs took steps only.
  pub consume_approval_lem :
      (event_id runtime_id : AuditEventId) (key : ApprovalId) (expected : ℕ)
      (action : ActionRequest) (actor : ActorId) (now : UtcTimestamp) (s : State)
      → IsValid x s
      → Ensures
          (Kept s)
          (λ c t. Effect x s t × ApprovalStep s t × Spent x key action s c t)
          (consume_approval x event_id runtime_id key expected action actor now)
          s
  unfolding consume_approval
  consume_approval_lem event_id runtime_id key expected action actor now s v =
      let same : (t : State) → t ≡ s → Kept s t =
        λ t e. (Effect-of_eq x s t e, ap (λ u. u.approvals) e, ap (λ u. u.action_claims) e) in
      Ensures-with_lock _ (
        Ensures-require _ _ _ (same s refl) λ a stored.
          Ensures-check _ _ _ (window_lem x a s) (same s refl) λ r w.
            let missed : (t : State)
                → Touches x a.run_id s t
                  × (t.approvals ≡ s.approvals)
                  × (t.action_claims ≡ s.action_claims)
                → Kept s t =
              λ t m. (Touches-Effect x a.run_id s t m.0, m.1, m.2) in
            let started : (c : ApprovalConsumption) (t : State)
                → Touches x a.run_id s t × ApprovalStep s t × Spent x key action s c t
                → Effect x s t × ApprovalStep s t × Spent x key action s c t =
              λ c t m. (Touches-Effect x a.run_id s t m.0, m.1, m.2) in
            Ensures-if _ _ _
              (λ bad.
                Ensures-weaken (mismatch_lem event_id a actor now s) missed (λ _ t c. absurd c))
              (λ fine.
                Ensures-weaken
                  (consume_matching_lem event_id runtime_id key a r expected action actor now s v
                    stored w)
                  same started))
