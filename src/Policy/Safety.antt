-- ===== src/Policy/Safety.antt =====
-- What a configuration that was accepted can decide (crates/openwork-policy/src/config.rs, engine.rs).
use Prim.Native.String.{len}
use openwork.Common.{
  ℕ, ◌≤◌, ◌≡◌, refl, ◌≢◌, String, Bool, true, false, Option, none, some, [], ◌∷◌, arith, ltb, ◌∙◌,
  Bool-cases, not, inl, inr, if◌then◌else◌, &&-eq-true, ||-eq-false, not-eq-false,
}
use openwork.Common.Dict.{Dict, get, all_entries, find_entry}
use openwork.Common.Result.{
  Result, ok, err, fail_if, ok_or_else, ◌>>=◌, ◌>>◌, >>=-eq-ok, fail_if-eq-ok, ok-injective,
}
use openwork.Contract.{UtcTimestamp}
use openwork.Contract.Action.{ActionRequest, parameters_match_hash}
use openwork.Contract.External.{External}
use openwork.Contract.Policy.{
  RiskLevel, read, local_write, internal_mutation, external_effect, destructive_or_financial,
  PolicyDecision, require_approval, PolicyEvaluation,
}
use openwork.Contract.Policy as D
use openwork.Policy.Config.{
  ConfiguredDecision, allow, deny, approval, into, ActionRule, ResourceRules, PolicyConfig,
  RawPolicy, from_yaml, validate, max_policy_bytes, config_error, decoded, safe_decision,
  safe_resources, is_safe, accepted_rule, resources_are_valid,
}
use openwork.Policy.Engine.{
  PolicyEngine, evaluate_at, evaluate_rule, match_rule, match_resources, Match, exact_matches,
  evaluation,
}

-- The level of a risk, L0 to L4.
abbrev pub level : RiskLevel → ℕ
level read = 0
level local_write = 1
level internal_mutation = 2
level external_effect = 3
level destructive_or_financial = 4

-- The decisions that a risk bears.
abbrev pub Bears : RiskLevel → PolicyDecision → Type 0
Bears risk D.allow = level risk ≤ 1
Bears risk require_approval = level risk ≤ 3
Bears risk D.deny = Unit

safe_decision-Bears :
    (risk : RiskLevel) (d : ConfiguredDecision) → safe_decision risk d ≡ true → Bears risk (into d)
unfolding safe_decision
safe_decision-Bears read d h = elim d as (λ d. Bears read (into d)) [
  | allow ↦ omega arith
  | deny ↦ tt
  | approval ↦ omega arith
]
safe_decision-Bears local_write d h = elim d as (λ d. Bears local_write (into d)) [
  | allow ↦ omega arith
  | deny ↦ tt
  | approval ↦ omega arith
]
safe_decision-Bears internal_mutation d h = ground arith
safe_decision-Bears external_effect d h = ground arith
safe_decision-Bears destructive_or_financial d h = ground arith

module _ {V : Type 0} (p : String → V → Bool) where
  all_entries-get :
      (r : V → Bool) (k : String) (v : V) (m : Dict V)
      → ((j : String) (w : V) → p j w ≡ true → r w ≡ true)
      → all_entries p m ≡ true
      → get k m ≡ some v
      → r v ≡ true
  unfolding get
  all_entries-get r k v [] n h g = cc
  all_entries-get r k v ((j, w) ∷ m) n h g =
      ground (arith, &&-eq-true (p j w) (all_entries p m) h, n j w, all_entries-get r k v m n)

  all_entries-find_entry :
      (q : String → Bool) (k : String) (v : V) (m : Dict V)
      → all_entries p m ≡ true
      → find_entry q m ≡ some (k, v)
      → p k v ≡ true
  all_entries-find_entry q k v [] h g = cc
  all_entries-find_entry q k v ((j, w) ∷ m) h g =
      ground (arith, &&-eq-true (p j w) (all_entries p m) h, all_entries-find_entry q k v m)

module _ (x : External) where
  -- What a safe rule configures for a request is safe.
  match_resources_safe :
      (request : ActionRequest) (risk : RiskLevel) (resources : ResourceRules)
      (found : Option (String × ConfiguredDecision))
      → safe_decision risk resources.default ≡ true
      → ((k : String) (d : ConfiguredDecision) → found ≡ some (k, d) → safe_decision risk d ≡ true)
      → safe_decision risk (match_resources x request resources found).configured ≡ true
  unfolding match_resources
  match_resources_safe request risk resources none h n = h
  match_resources_safe request risk resources (some (k, d)) h n = n k d refl

  match_rule_safe :
      (matches : String → String → Bool) (request : ActionRequest) (rule : ActionRule)
      (resources : Option ResourceRules)
      → safe_decision rule.risk rule.decision ≡ true
      → safe_resources rule.risk resources ≡ true
      → safe_decision rule.risk (match_rule x matches request rule resources).configured ≡ true
  unfolding match_rule safe_resources
  match_rule_safe matches request rule none h g = h
  match_rule_safe matches request rule (some resources) h g =
      let (default_safe, exact_safe) = &&-eq-true (safe_decision rule.risk resources.default) _ g in
      match_resources_safe request rule.risk resources
        (find_entry (λ configured. matches configured request.resource) resources.exact)
        default_safe
        λ k d found.
          all_entries-find_entry (λ _ decision. safe_decision rule.risk decision)
            (λ configured. matches configured request.resource) k d resources.exact exact_safe found

  evaluate_rule-Bears :
      (engine : PolicyEngine) (request : ActionRequest) (now : UtcTimestamp)
      (rule : Option ActionRule)
      → ((r : ActionRule) → rule ≡ some r → is_safe r ≡ true)
      → let e = evaluate_rule x engine request now rule in Bears e.effective_risk e.decision
  unfolding evaluate_rule is_safe evaluation
  evaluate_rule-Bears engine request now none h = tt
  evaluate_rule-Bears engine request now (some rule) h = bears (parameters_match_hash x request)
    where
      found : Match
      found = match_rule x engine.matches request rule rule.resources

      ruled : Bears rule.risk (into found.configured)
      ruled =
          let (decision_safe, resources_safe) =
            &&-eq-true (safe_decision rule.risk rule.decision) _ (h rule refl) in
          safe_decision-Bears rule.risk found.configured (
            match_rule_safe engine.matches request rule rule.resources decision_safe resources_safe)

      bears :
          (intact : Bool)
          → let e =
              if not intact
              then evaluation request D.deny rule.risk "contract:binding_mismatch"
                  "action_binding_mismatch" now
              else evaluation request
                  (into found.configured)
                  rule.risk
                  found.rule_id
                  found.reason
                  now in
            Bears e.effective_risk e.decision
      bears true = ruled
      bears false = tt

-- A configuration that validates has safe rules.
validate-is_safe :
    (config : PolicyConfig) {u : Unit} (name : String) (rule : ActionRule)
    → validate config ≡ ok u
    → get name config.actions ≡ some rule
    → is_safe rule ≡ true
unfolding validate accepted_rule
validate-is_safe config name rule h g =
    all_entries-get accepted_rule is_safe name rule config.actions accepted_rule-is_safe
      (not-eq-false _ (||-eq-false _ _ (fail_if-eq-ok _ _ h)).1) g
  where
    accepted_rule-is_safe :
        (j : String) (r : ActionRule) → accepted_rule j r ≡ true → is_safe r ≡ true
    accepted_rule-is_safe j r a =
        (&&-eq-true _ (is_safe r) (&&-eq-true _ (resources_are_valid r) a).0).1

-- A chain of a check, a value and its validation, as `from_yaml` has it.
validated :
    (first : Result Unit) (read_config : Result PolicyConfig) {config : PolicyConfig}
    → (first >> (read_config >>= λ c. validate c >> ok c)) ≡ ok config
    → validate config ≡ ok tt
validated (err e) read_config h = cc
validated (ok u) (err e) h = cc
validated (ok u) (ok c) {config} h =
    let (_, valid, r) = >>=-eq-ok (validate c) (λ _. ok c) h in rw (← ok-injective c config r) valid

-- An accepted document is a configuration that validates.
from_yaml-validate :
    (parse : String → Option RawPolicy) (input : String) {config : PolicyConfig}
    → from_yaml parse input ≡ ok config
    → validate config ≡ ok tt
unfolding from_yaml
from_yaml-validate parse input h =
    validated
      (fail_if (ltb max_policy_bytes (len input))
        (config_error "policy configuration exceeds the 1 MiB limit"))
      (ok_or_else (decoded (parse input)) (config_error "policy YAML is invalid")) h

module _ (x : External) where
  -- Under a configuration that from_yaml accepted, whatever the YAML parser and the resource matcher,
  -- an evaluation allows only an action of risk L0 or L1, and asks for approval only of one up to L3; a
  -- riskier action is denied.
  pub evaluate_at-Bears :
      (parse : String → Option RawPolicy) (input : String) (engine : PolicyEngine)
      (request : ActionRequest) (now : UtcTimestamp)
      → from_yaml parse input ≡ ok engine.config
      → let e = evaluate_at x engine request now in Bears e.effective_risk e.decision
  unfolding evaluate_at
  evaluate_at-Bears parse input engine request now h =
      evaluate_rule-Bears x engine request now (get request.action engine.config.actions)
        λ rule found.
          validate-is_safe engine.config request.action rule (from_yaml-validate parse input h)
            found

-- The decision that a rule configures for a resource: its own, or that of the resource, or the default.
abbrev pub configured_for : ActionRule → String → ConfiguredDecision
configured_for rule resource = elim rule.resources [
  | none ↦ rule.decision
  | some resources ↦ elim (get resource resources.exact) [ none ↦ resources.default | some d ↦ d ]
]

-- A search for the first equal key is a lookup.
find_entry-get :
    (resource : String) (m : Dict ConfiguredDecision) (default : ConfiguredDecision)
    → elim (find_entry (λ configured. exact_matches configured resource) m) [
      | none ↦ default
      | some (k, d) ↦ d
    ]
      ≡ elim (get resource m) [ none ↦ default | some d ↦ d ]
unfolding get
find_entry-get resource [] default = refl
find_entry-get resource ((k, d) ∷ m) default = ground (arith, find_entry-get resource m default)

module _ (x : External) where
  match_rule-configured_for :
      (request : ActionRequest) (rule : ActionRule)
      → (match_rule x exact_matches request rule rule.resources).configured
        ≡ configured_for rule request.resource
  unfolding match_rule
  match_rule-configured_for request rule = go rule.resources
    where
      chosen :
          (resources : ResourceRules) (found : Option (String × ConfiguredDecision))
          → (match_resources x request resources found).configured
            ≡ elim found [ none ↦ resources.default | some (k, d) ↦ d ]
      chosen resources none = refl
      chosen resources (some (k, d)) = refl

      go :
          (resources : Option ResourceRules)
          → (match_rule x exact_matches request rule resources).configured ≡ elim resources [
            | none ↦ rule.decision
            | some rs ↦ elim (get request.resource rs.exact) [ none ↦ rs.default | some d ↦ d ]
          ]
      go none = refl
      go (some rs) =
          chosen rs (find_entry (λ configured. exact_matches configured request.resource) rs.exact)
          ∙ find_entry-get request.resource rs.exact rs.default

  -- With exact matching, an evaluation that is not a denial is of an action that the configuration
  -- names, with parameters that match the hash; the risk is that of the rule, and the decision is the
  -- one configured for the resource where there is one, else the default of the resources, else that of
  -- the rule.
  pub evaluate_at_grounded :
      (config : PolicyConfig) (request : ActionRequest) (now : UtcTimestamp)
      → let e = evaluate_at x (record { config = config; matches = exact_matches }) request now in
        e.decision ≢ D.deny
        → (rule : ActionRule) × (get request.action config.actions ≡ some rule)
          × (parameters_match_hash x request ≡ true)
          × (e.effective_risk ≡ rule.risk)
          × (e.decision ≡ into (configured_for rule request.resource))
  unfolding evaluate_at evaluate_rule evaluation
  evaluate_at_grounded config request now h = go (get request.action config.actions) refl h
    where
      engine : PolicyEngine
      engine = record { config = config; matches = exact_matches }

      go :
          (rule : Option ActionRule)
          → get request.action config.actions ≡ rule
          → (evaluate_rule x engine request now rule).decision ≢ D.deny
          → (r : ActionRule) × (get request.action config.actions ≡ some r)
            × (parameters_match_hash x request ≡ true)
            × ((evaluate_rule x engine request now rule).effective_risk ≡ r.risk)
            × ((evaluate_rule x engine request now rule).decision
                ≡ into (configured_for r request.resource))
      go none g n = absurd (n refl)
      go (some r) g n = elim (Bool-cases (parameters_match_hash x request)) [
        | inl intact ↦
            (r, g, intact, rw intact refl, rw (intact, match_rule-configured_for request r) refl)
        | inr broken ↦ absurd (n (rw broken refl))
      ]
