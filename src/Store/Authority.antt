-- ===== src/Store/Authority.antt =====
-- Approvals and claims of the memory store (crates/openwork-execution/src/store/mod.rs) as an abstract
-- machine, and its invariant.
use openwork.Common.{
  ◌+◌, ◌≡◌, ◌≢◌, sym, ◌∙◌, ap, subst, true, false, none, some, [], ◌∷◌, arith, any, ◌==◌,
  if◌then◌else◌, inl, inr, Bool-cases,
}
use openwork.Common.Map.{Map, get, insert, values, get-insert}
use openwork.Contract.{ActionId, ApprovalId}
use openwork.Contract.Approval.{pending, consumed, can_transition_to, ApprovalRequest}
use openwork.Store.{State, empty, ActionClaim}
use openwork.Store.Approvals.{same_action}

-- A new revision of an approval: the state moves, what it is bound to stays.
pub record Revised (a a' : ApprovalRequest) : Type 0 where
  pub legal : can_transition_to a.status a'.status ≡ true
  pub counted : a'.revision ≡ a.revision + 1
  pub same_id : a'.id ≡ a.id
  pub same_run : a'.run_id ≡ a.run_id
  pub same_action : a'.action_id ≡ a.action_id
  pub same_hash : a'.parameter_hash ≡ a.parameter_hash

pub data ApprovalStep (s t : State) : Type 0 where
  untouched : t.approvals ≡ s.approvals → t.action_claims ≡ s.action_claims → ApprovalStep s t
  requested :
      (a : ApprovalRequest)
      → a.status ≡ pending
      → any (same_action a) (values s.approvals) ≡ false
      → get a.id s.approvals ≡ none
      → t.approvals ≡ insert a.id a s.approvals
      → t.action_claims ≡ s.action_claims
      → ApprovalStep s t
  revised :
      (p : ApprovalId) (a a' : ApprovalRequest)
      → get p s.approvals ≡ some a
      → Revised a a'
      → t.approvals ≡ insert a'.id a' s.approvals
      → t.action_claims ≡ s.action_claims
      → ApprovalStep s t
  claimed :
      (p : ApprovalId) (a a' : ApprovalRequest) (c : ActionClaim)
      → get p s.approvals ≡ some a
      → Revised a a'
      → a'.status ≡ consumed
      → c.action_id ≡ a.action_id
      → c.run_id ≡ a.run_id
      → c.parameter_hash ≡ a.parameter_hash
      → get c.action_id s.action_claims ≡ none
      → t.approvals ≡ insert a'.id a' s.approvals
      → t.action_claims ≡ insert c.action_id c s.action_claims
      → ApprovalStep s t

-- The approval that a claim rests on.
pub record Backs (s : State) (c : ActionClaim) : Type 0 where
  pub approval : ApprovalRequest
  pub stored : get approval.id s.approvals ≡ some approval
  pub spent : approval.status ≡ consumed
  pub same_run : approval.run_id ≡ c.run_id
  pub same_action : approval.action_id ≡ c.action_id
  pub same_hash : approval.parameter_hash ≡ c.parameter_hash

pub record IsAuthorized (s : State) : Type 0 where
  pub filed : (p : ApprovalId) (a : ApprovalRequest) → get p s.approvals ≡ some a → a.id ≡ p
  -- No two approvals are for one action.
  pub single :
      (p q : ApprovalId) (a b : ApprovalRequest)
      → get p s.approvals ≡ some a
      → get q s.approvals ≡ some b
      → a.action_id ≡ b.action_id
      → p ≡ q
  pub named : (i : ActionId) (c : ActionClaim) → get i s.action_claims ≡ some c → c.action_id ≡ i
  pub backed : (i : ActionId) (c : ActionClaim) → get i s.action_claims ≡ some c → Backs s c

-- A stored approval is among the values that the search for a duplicate goes through.
no_other :
    (a b : ApprovalRequest) (q : ApprovalId) (m : Map ApprovalRequest)
    → any (same_action a) (values m) ≡ false
    → get q m ≡ some b
    → a.action_id ≢ b.action_id
unfolding get
no_other a b q [] h g e = cc
no_other a b q ((j, v) ∷ m) h g e = elim (Bool-cases (j == q)) [
  | inl here ↦ ground arith
  | inr there ↦ no_other a b q m (ground arith) (ground arith) e
]

-- The approvals after a write, read back.
after_insert :
    (s t : State) (a : ApprovalRequest) (p : ApprovalId)
    → t.approvals ≡ insert a.id a s.approvals
    → get p t.approvals ≡ (if a.id == p then some a else get p s.approvals)
after_insert s t a p e = ap (get p) e ∙ get-insert a.id p a s.approvals

Backs-same : (s t : State) (c : ActionClaim) → t.approvals ≡ s.approvals → Backs s c → Backs t c
Backs-same s t c e b = record {
  approval = b.approval;
  stored = ap (get b.approval.id) e ∙ b.stored;
  spent = b.spent;
  same_run = b.same_run;
  same_action = b.same_action;
  same_hash = b.same_hash;
}

module _ (s t : State) (v : IsAuthorized s) where
  filed-insert :
      (a : ApprovalRequest)
      → t.approvals ≡ insert a.id a s.approvals
      → (p : ApprovalId) (b : ApprovalRequest) → get p t.approvals ≡ some b
      → b.id ≡ p
  filed-insert a e p b g = ground (arith, v.filed p b, after_insert s t a p e)

  single-requested :
      (a : ApprovalRequest)
      → any (same_action a) (values s.approvals) ≡ false
      → t.approvals ≡ insert a.id a s.approvals
      → (p q : ApprovalId) (b c : ApprovalRequest) → get p t.approvals ≡ some b
      → get q t.approvals ≡ some c
      → b.action_id ≡ c.action_id
      → p ≡ q
  single-requested a fresh e p q b c gb gc same = ground (
    arith,
    after_insert s t a p e,
    after_insert s t a q e,
    v.single p q b c,
    no_other a b p s.approvals fresh,
    no_other a c q s.approvals fresh,
  )

  single-Revised :
      (p₀ : ApprovalId) (a a' : ApprovalRequest)
      → get p₀ s.approvals ≡ some a
      → Revised a a'
      → t.approvals ≡ insert a'.id a' s.approvals
      → (p q : ApprovalId) (b c : ApprovalRequest) → get p t.approvals ≡ some b
      → get q t.approvals ≡ some c
      → b.action_id ≡ c.action_id
      → p ≡ q
  single-Revised p₀ a a' g r e p q b c gb gc same = ground (
    arith,
    after_insert s t a' p e,
    after_insert s t a' q e,
    v.single p q b c,
    v.single p₀ q a c,
    v.single p p₀ b a,
    v.filed p₀ a g,
  )

  Backs-requested :
      (a : ApprovalRequest) (c : ActionClaim)
      → get a.id s.approvals ≡ none
      → t.approvals ≡ insert a.id a s.approvals
      → Backs s c
      → Backs t c
  Backs-requested a c fresh e b = record {
    approval = b.approval;
    stored = ground (arith, after_insert s t a b.approval.id e, b.stored);
    spent = b.spent;
    same_run = b.same_run;
    same_action = b.same_action;
    same_hash = b.same_hash;
  }

  -- A consumed approval has no further revision.
  Backs-Revised :
      (p : ApprovalId) (a a' : ApprovalRequest) (c : ActionClaim)
      → get p s.approvals ≡ some a
      → Revised a a'
      → t.approvals ≡ insert a'.id a' s.approvals
      → Backs s c
      → Backs t c
  unfolding can_transition_to
  Backs-Revised p a a' c g r e b = record {
    approval = b.approval;
    stored = ground (arith, after_insert s t a' b.approval.id e, b.stored, b.spent, v.filed p a g);
    spent = b.spent;
    same_run = b.same_run;
    same_action = b.same_action;
    same_hash = b.same_hash;
  }

  claim_of_before :
      (i : ActionId) (c : ActionClaim)
      → t.action_claims ≡ s.action_claims
      → get i t.action_claims ≡ some c
      → get i s.action_claims ≡ some c
  claim_of_before i c e g = sym (ap (get i) e) ∙ g

  named-claimed :
      (c : ActionClaim)
      → t.action_claims ≡ insert c.action_id c s.action_claims
      → (i : ActionId) (d : ActionClaim) → get i t.action_claims ≡ some d
      → d.action_id ≡ i
  named-claimed c e i d g =
      let w = ap (get i) e ∙ get-insert c.action_id i c s.action_claims in
      ground (arith, v.named i d)

  backed-claimed :
      (p : ApprovalId) (a a' : ApprovalRequest) (c : ActionClaim)
      → get p s.approvals ≡ some a
      → Revised a a'
      → a'.status ≡ consumed
      → c.action_id ≡ a.action_id
      → c.run_id ≡ a.run_id
      → c.parameter_hash ≡ a.parameter_hash
      → t.approvals ≡ insert a'.id a' s.approvals
      → t.action_claims ≡ insert c.action_id c s.action_claims
      → (i : ActionId) (d : ActionClaim) → get i t.action_claims ≡ some d
      → Backs t d
  backed-claimed p a a' c g r spent for_action for_run for_hash e f i d gd =
      let w : get i t.action_claims ≡ (if c.action_id == i then some c else get i s.action_claims) =
        ap (get i) f ∙ get-insert c.action_id i c s.action_claims in
      elim (Bool-cases (c.action_id == i)) [
        | inl new ↦
            let this : c ≡ d = ground arith in
            subst (Backs t) this (record {
              approval = a';
              stored = after_insert s t a' a'.id e ∙ ground arith;
              spent = spent;
              same_run = r.same_run ∙ sym for_run;
              same_action = r.same_action ∙ sym for_action;
              same_hash = r.same_hash ∙ sym for_hash;
            })
        | inr old ↦ Backs-Revised p a a' d g r e (v.backed i d (ground arith))
      ]

pub empty-IsAuthorized : IsAuthorized empty
unfolding get
empty-IsAuthorized = record {
  filed = λ p a g. cc;
  single = λ p q a b g h e. cc;
  named = λ i c g. cc;
  backed = λ i c g. cc;
}

-- Filing, revising and claiming keep the invariant of the approvals: each is stored under its
-- identifier, no two are for one action, and every claim rests on a stored consumed approval of the
-- same run, action and parameter hash.
pub ApprovalStep-IsAuthorized : (s t : State) → ApprovalStep s t → IsAuthorized s → IsAuthorized t
ApprovalStep-IsAuthorized s t (untouched e f) v = record {
  filed = λ p a g. v.filed p a (sym (ap (get p) e) ∙ g);
  single = λ p q a b g h. v.single p q a b (sym (ap (get p) e) ∙ g) (sym (ap (get q) e) ∙ h);
  named = λ i c g. v.named i c (claim_of_before s t v i c f g);
  backed = λ i c g. Backs-same s t c e (v.backed i c (claim_of_before s t v i c f g));
}
ApprovalStep-IsAuthorized s t (requested a p fresh new e f) v = record {
  filed = filed-insert s t v a e;
  single = single-requested s t v a fresh e;
  named = λ i c g. v.named i c (claim_of_before s t v i c f g);
  backed = λ i c g. Backs-requested s t v a c new e (v.backed i c (claim_of_before s t v i c f g));
}
ApprovalStep-IsAuthorized s t (revised p a a' g r e f) v = record {
  filed = filed-insert s t v a' e;
  single = single-Revised s t v p a a' g r e;
  named = λ i c h. v.named i c (claim_of_before s t v i c f h);
  backed =
      λ i c h. Backs-Revised s t v p a a' c g r e (v.backed i c (claim_of_before s t v i c f h));
}
ApprovalStep-IsAuthorized s t (claimed p a a' c g r spent sa sr sh new e f) v = record {
  filed = filed-insert s t v a' e;
  single = single-Revised s t v p a a' g r e;
  named = named-claimed s t v c f;
  backed = backed-claimed s t v p a a' c g r spent sa sr sh e f;
}

-- A step of the approvals never changes or removes the claim of an action.
pub claims_stay :
    (s t : State) (i : ActionId) (c : ActionClaim)
    → ApprovalStep s t
    → get i s.action_claims ≡ some c
    → get i t.action_claims ≡ some c
claims_stay s t i c (untouched e f) g = ap (get i) f ∙ g
claims_stay s t i c (requested a p fresh new e f) g = ap (get i) f ∙ g
claims_stay s t i c (revised p a a' h r e f) g = ap (get i) f ∙ g
claims_stay s t i c (claimed p a a' d h r spent sa sr sh new e f) g =
    let w : get i t.action_claims ≡ (if d.action_id == i then some d else get i s.action_claims) =
      ap (get i) f ∙ get-insert d.action_id i d s.action_claims in
    ground arith
