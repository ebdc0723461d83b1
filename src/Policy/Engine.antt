-- ===== src/Policy/Engine.antt =====
-- The evaluation of an action against the configuration, of crates/openwork-policy/src/engine.rs, and
-- the gateway of gateway.rs.
use Prim.Native.String.{◌++◌}
use openwork.Common.{String, Bool, Option, none, some, str_eq, if◌then◌else◌, not}
use openwork.Common.Dict.{get, find_entry}
use openwork.Common.Result.{Result, ok, ◌>>=◌}
use openwork.Contract.{UtcTimestamp}
use openwork.Contract.Action.{ActionRequest, parameters_match_hash}
use openwork.Contract.Digest.{sha256_bytes}
use openwork.Contract.External.{External}
use openwork.Contract.Policy.{
  RiskLevel, destructive_or_financial, PolicyDecision, deny, PolicyEvaluation,
}
use openwork.Policy.Config.{
  ConfiguredDecision, into, ActionRule, ResourceRules, PolicyConfig, RawPolicy, from_yaml,
}

-- `matches` is the trait `ResourceMatcher`: of the configured and the requested resource.
pub record PolicyEngine : Type 0 where
  pub config : PolicyConfig
  pub matches : String → String → Bool

-- `ExactResourceMatcher`
abbrev pub exact_matches : String → String → Bool
exact_matches configured requested = str_eq configured requested

unfoldable pub engine_from_yaml : (String → Option RawPolicy) → String → Result PolicyEngine
engine_from_yaml parse input = do
  config ← from_yaml parse input
  ok (record { config = config; matches = exact_matches })

unfoldable pub evaluation :
    ActionRequest → PolicyDecision → RiskLevel → String → String → UtcTimestamp → PolicyEvaluation
evaluation request decision risk rule_id reason_code evaluated_at = record {
  run_id = request.run_id;
  action_id = request.id;
  parameter_hash = request.parameter_hash;
  decision = decision;
  effective_risk = risk;
  policy_version = "yaml-v1";
  rule_id = rule_id;
  reason_code = reason_code;
  evaluated_at = evaluated_at;
}

-- What a rule configures for a request: the decision, the rule's name and the reason.
pub record Match : Type 0 where
  pub configured : ConfiguredDecision
  pub rule_id : String
  pub reason : String

module _ (x : External) where
  exact_rule_id : String → String → String
  exact_rule_id action resource =
      (("action:" ++ action) ++ ":resource-exact:") ++ sha256_bytes x resource

  unfoldable pub match_resources :
      ActionRequest → ResourceRules → Option (String × ConfiguredDecision) → Match
  unfolding exact_rule_id
  match_resources request resources none = record {
    configured = resources.default;
    rule_id = ("action:" ++ request.action) ++ ":resource-default";
    reason = "resource_default_match";
  }
  match_resources request resources (some (resource, decision)) = record {
    configured = decision;
    rule_id = exact_rule_id request.action resource;
    reason = "resource_exact_match";
  }

  unfoldable pub match_rule :
      (String → String → Bool) → ActionRequest → ActionRule → Option ResourceRules → Match
  unfolding match_resources
  match_rule matches request rule none = record {
    configured = rule.decision;
    rule_id = ("action:" ++ request.action) ++ ":default";
    reason = "action_rule_match";
  }
  match_rule matches request rule (some resources) =
      match_resources request resources
        (find_entry (λ configured. matches configured request.resource) resources.exact)

  unfoldable pub evaluate_rule :
      PolicyEngine → ActionRequest → UtcTimestamp → Option ActionRule → PolicyEvaluation
  unfolding evaluation match_rule
  evaluate_rule engine request evaluated_at none =
      evaluation request deny destructive_or_financial "default:unknown" "unknown_action_denied"
        evaluated_at
  evaluate_rule engine request evaluated_at (some rule) =
      if not (parameters_match_hash x request)
      then evaluation request deny rule.risk "contract:binding_mismatch" "action_binding_mismatch"
          evaluated_at
      else let found = match_rule engine.matches request rule rule.resources in
        evaluation request (into found.configured) rule.risk found.rule_id found.reason evaluated_at

  unfoldable pub evaluate_at : PolicyEngine → ActionRequest → UtcTimestamp → PolicyEvaluation
  unfolding evaluate_rule
  evaluate_at engine request evaluated_at =
      evaluate_rule engine request evaluated_at (get request.action engine.config.actions)

  -- `ActionGateway::decide` with this engine; `now` is the time that the policy reads.
  unfoldable pub decide : PolicyEngine → UtcTimestamp → ActionRequest → PolicyEvaluation
  unfolding evaluate_at
  decide engine now request = evaluate_at engine request now
