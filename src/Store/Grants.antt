-- ===== src/Store/Grants.antt =====
-- The approvals and the claims of the memory store (crates/openwork-execution/src/store/mod.rs) over every
-- list of calls.
use openwork.Common.{◌≡◌, ap, List, [], ◌∷◌, some}
use openwork.Common.Map.{get}
use openwork.Common.Exec.{Exec, pure}
use openwork.Common.Exec.Leaves.{Leaves, Leaves-bind, Leaves-pure}
use openwork.Common.Exec.Rules.{Ensures, Outcome, Ensures-bind, Ensures-pure, Ensures-weaken}
use openwork.Common.Result.{Result, ok, err}
use openwork.Contract.{ActionId}
use openwork.Contract.External.{External}
use openwork.Store.{State, ActionClaim, empty}
use openwork.Store.Ops.{Op, discard, perform, run_ops}
use openwork.Store.Authority.{
  ApprovalStep, untouched, IsAuthorized, ApprovalStep-IsAuthorized, claims_stay, empty-IsAuthorized,
}
use openwork.Store.Frame.{
  authority, create_run-Leaves, transition_run-Leaves, append_audit-Leaves, record_artifacts-Leaves,
  reconcile_action_execution-Leaves, claim_next_run-Leaves, heartbeat_lease-Leaves,
  transition_leased_run-Leaves, complete_leased_run-Leaves, append_leased_runtime_audit-Leaves,
  record_leased_artifacts-Leaves, request_cancel-Leaves, confirm_cancel-Leaves,
  recover_expired_leases-Leaves,
}
use openwork.Store.Validity.{IsValid, Effect-IsValid}
use openwork.Store.Reach.{perform-Effect, empty-IsValid}
use openwork.Store.Refines.Approvals.{create_approval_lem, decide_approval_lem, expire_approval_lem}
use openwork.Store.Refines.Consume.{consume_approval_lem}

framed :
    {A : Type 0} (m : Exec State A) (s : State)
    → Leaves authority m
    → ApprovalStep s (discard m s).1
unfolding discard
framed m s h =
    let kept = (Leaves-bind m (λ _. pure tt) h (λ _. Leaves-pure tt)).same s in
    untouched (ap (λ p. p.0) kept) (ap (λ p. p.1) kept)

still : (s t : State) → t ≡ s → ApprovalStep s t
still s t e = untouched (ap (λ u. u.approvals) e) (ap (λ u. u.action_claims) e)

stepped :
    {A : Type 0} (m : Exec State A) (s : State)
    → Ensures (ApprovalStep s) (λ _ t. ApprovalStep s t) m s
    → ApprovalStep s (discard m s).1
unfolding discard
stepped m s h =
    go (discard m s).0 (discard m s).1
      (Ensures-bind _ _ m (λ _. pure tt) h (λ t e. e) (λ a t q. Ensures-pure tt q)).ended
  where
    go :
        (r : Result Unit) (t : State)
        → Outcome (ApprovalStep s) (λ _ u. ApprovalStep s u) (r, t)
        → ApprovalStep s t
    go (ok a) t q = q
    go (err e) t q = q

module _ (x : External) where
  -- Each call takes at most one step of the approvals and the claims.
  pub perform-ApprovalStep : (op : Op) (s : State) → IsValid x s → ApprovalStep s (perform x op s).1
  unfolding perform
  perform-ApprovalStep (Op.create_run e r a) s v = framed _ s (create_run-Leaves x e r a)
  perform-ApprovalStep (Op.transition_run e i n k m a) s v =
      framed _ s (transition_run-Leaves x e i n k m a)
  perform-ApprovalStep (Op.append_audit e i y a) s v = framed _ s (append_audit-Leaves x e i y a)
  perform-ApprovalStep (Op.record_artifacts es i fs a) s v =
      framed _ s (record_artifacts-Leaves x es i fs a)
  perform-ApprovalStep (Op.reconcile_action_execution e r a) s v =
      framed _ s (reconcile_action_execution-Leaves x e r a)
  perform-ApprovalStep (Op.claim_next_run e k o now d) s v =
      framed _ s (claim_next_run-Leaves x e k o now d)
  perform-ApprovalStep (Op.heartbeat_lease l now d) s v =
      framed _ s (heartbeat_lease-Leaves x l now d)
  perform-ApprovalStep (Op.transition_leased_run e l n k now) s v =
      framed _ s (transition_leased_run-Leaves x e l n k now)
  perform-ApprovalStep (Op.complete_leased_run e l n k m now) s v =
      framed _ s (complete_leased_run-Leaves x e l n k m now)
  perform-ApprovalStep (Op.append_leased_runtime_audit e l n y now) s v =
      framed _ s (append_leased_runtime_audit-Leaves x e l n y now)
  perform-ApprovalStep (Op.record_leased_artifacts es l n fs now) s v =
      framed _ s (record_leased_artifacts-Leaves x es l n fs now)
  perform-ApprovalStep (Op.request_cancel e i o now) s v =
      framed _ s (request_cancel-Leaves x e i o now)
  perform-ApprovalStep (Op.confirm_cancel e l now ev) s v =
      framed _ s (confirm_cancel-Leaves x e l now ev)
  perform-ApprovalStep (Op.recover_expired_leases es o now) s v =
      framed _ s (recover_expired_leases-Leaves x es o now)
  perform-ApprovalStep (Op.create_approval e a o now) s v =
      stepped _ s (Ensures-weaken (create_approval_lem x e a o now s) (still s) (λ _ t h. h.1))
  perform-ApprovalStep (Op.decide_approval e p n d o m now) s v =
      stepped _ s
        (Ensures-weaken (decide_approval_lem x e p n d o m now s) (still s) (λ _ t h. h.3))
  perform-ApprovalStep (Op.expire_approval e p n o now) s v =
      stepped _ s (Ensures-weaken (expire_approval_lem x e p n o now s) (still s) (λ _ t h. h.3))
  perform-ApprovalStep (Op.consume_approval e f p n a o now) s v = stepped _ s (
      Ensures-weaken (consume_approval_lem x e f p n a o now s v) (λ t h. untouched h.1 h.2)
        (λ _ t h. h.1))

  IsAuthorized-from :
      (ops : List Op) (s : State) → IsValid x s → IsAuthorized s → IsAuthorized (run_ops x ops s)
  unfolding run_ops
  IsAuthorized-from [] s v a = a
  IsAuthorized-from (op ∷ ops) s v a =
      let t = (perform x op s).1 in
      IsAuthorized-from ops t (Effect-IsValid x s t (perform-Effect x op s v) v)
        (ApprovalStep-IsAuthorized s t (perform-ApprovalStep op s v) a)

  -- After any list of calls, failed ones among them, on the empty store, each approval is stored under
  -- its identifier, no two are for one action, and every claim of an action rests on a stored consumed
  -- approval of the same run, action and parameter hash.
  pub run_ops-IsAuthorized : (ops : List Op) → IsAuthorized (run_ops x ops empty)
  run_ops-IsAuthorized ops = IsAuthorized-from ops empty (empty-IsValid x) empty-IsAuthorized

  -- From a valid store, no list of calls changes or removes the claim of an action.
  pub run_ops-keeps_claims :
      (ops : List Op) (s : State) (i : ActionId) (c : ActionClaim)
      → IsValid x s
      → get i s.action_claims ≡ some c
      → get i (run_ops x ops s).action_claims ≡ some c
  unfolding run_ops
  run_ops-keeps_claims [] s i c v g = g
  run_ops-keeps_claims (op ∷ ops) s i c v g =
      let t = (perform x op s).1 in
      run_ops-keeps_claims ops t i c (Effect-IsValid x s t (perform-Effect x op s v) v)
        (claims_stay s t i c (perform-ApprovalStep op s v) g)
