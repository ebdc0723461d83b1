-- ===== src/Executor/Claims.antt =====
-- What a verified claim stands for (crates/openwork-execution/src/action_executor.rs).
use openwork.Common.{
  ◌≡◌, refl, sym, ap, ◌∙◌, Bool, true, false, not, ◌||◌, Option, none, some, ◌==◌, str_eq, eq_iff,
  is_some_and, arith, not-eq-false,
}
use openwork.Common.Map.{get}
use openwork.Common.Exec.Rules.{
  Ensures, Ensures-pure, Ensures-bind, Ensures-refuse_if_why, Ensures-with_lock,
}
use openwork.Contract.Action.{ActionRequest, parameters_match_hash}
use openwork.Contract.External.{External}
use openwork.Store.{State, ActionClaim}
use openwork.Store.Authority.{Backs, IsAuthorized}
use openwork.Executor.{same_claim, verify, get_action_claim}

-- The claim is that of the action and stands in the store, and the action is untampered.
pub record IsExact (x : External) (s : State) (a : ActionRequest) (c : ActionClaim) : Type 0 where
  pub intact : parameters_match_hash x a ≡ true
  pub same_run : a.run_id ≡ c.run_id
  pub same_id : a.id ≡ c.action_id
  pub same_hash : a.parameter_hash ≡ c.parameter_hash
  pub persisted : get a.id s.action_claims ≡ some c

same_claim_refl : (c : ActionClaim) → same_claim c c ≡ true
unfolding same_claim
same_claim_refl c = ground (arith, eq_iff c.parameter_hash c.parameter_hash, eq_iff c.actor c.actor)

same_claim-eq : (a b : ActionClaim) → same_claim a b ≡ true → a ≡ b
unfolding same_claim
same_claim-eq a b h =
    let r : a.run_id ≡ b.run_id = ground (arith, h) in
    let i : a.action_id ≡ b.action_id = ground (arith, h) in
    let p : a.parameter_hash ≡ b.parameter_hash =
      ground (arith, h, eq_iff a.parameter_hash b.parameter_hash) in
    let o : a.actor ≡ b.actor = ground (arith, h, eq_iff a.actor b.actor) in
    let t : a.claimed_at ≡ b.claimed_at = ground (arith, h) in
    λ j. record {
      run_id = r j;
      action_id = i j;
      parameter_hash = p j;
      actor = o j;
      claimed_at = t j;
    }

-- The search for the persisted claim.
abbrev is_persisted : Option ActionClaim → ActionClaim → Bool
is_persisted found c = is_some_and found (λ stored. same_claim stored c)

is_persisted-some : (c : ActionClaim) → is_persisted (some c) c ≡ true
is_persisted-some c = same_claim_refl c

some-is_persisted :
    (found : Option ActionClaim) (c : ActionClaim) → is_persisted found c ≡ true → found ≡ some c
some-is_persisted none c h = cc
some-is_persisted (some p) c h = ap some (same_claim-eq p c h)

module _ (x : External) where
  exact :
      {a : ActionRequest} {c : ActionClaim} {s : State}
      → get a.id s.action_claims ≡ some c
      → (not (parameters_match_hash x a)
          || not (a.run_id == c.run_id)
          || not (a.id == c.action_id)
          || not (str_eq a.parameter_hash c.parameter_hash))
        ≡ false
      → IsExact x s a c
  exact {a} {c} {s} held bound = record {
    intact = ground (arith, bound);
    same_run = ground (arith, bound);
    same_id = ground (arith, bound);
    same_hash = ground (arith, bound, eq_iff a.parameter_hash c.parameter_hash);
    persisted = held;
  }

  -- On a store whose claims rest on consumed approvals, verify changes nothing, succeeds exactly when
  -- the action is untampered and the claim is its own and the stored one, and then a stored consumed
  -- approval of the same run, action and hash backs the claim.
  pub verify-IsExact :
      (a : ActionRequest) (c : ActionClaim) (s : State)
      → IsAuthorized s
      → Ensures
          (λ t. (t ≡ s) × (¬ IsExact x s a c))
          (λ r t. (t ≡ s) × (r ≡ record { action = a; claim = c }) × IsExact x s a c × Backs s c)
          (verify x a c)
          s
  unfolding verify get_action_claim
  verify-IsExact a c s v =
      Ensures-refuse_if_why _ _ _
        (λ h. (
          refl,
          λ e. ground (
            arith,
            h,
            e.intact,
            e.same_run,
            e.same_id,
            e.same_hash,
            eq_iff a.parameter_hash c.parameter_hash,
          ),
        ))
        λ bound.
          Ensures-bind (λ t. ⊥) (λ found t. (t ≡ s) × (found ≡ get a.id s.action_claims)) _ _
            (Ensures-with_lock _ (Ensures-pure _ (refl, refl))) (λ t z. absurd z)
            λ found t (same, q).
              Ensures-refuse_if_why _ _ _
                (λ h. (same, λ e. ground (arith, h, is_persisted-some c, q, e.persisted)))
                λ h.
                  let held : get a.id s.action_claims ≡ some c =
                    sym q ∙ some-is_persisted found c (not-eq-false (is_persisted found c) h) in
                  Ensures-pure _ (same, refl, exact held bound, v.backed a.id c held)
