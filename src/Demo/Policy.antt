-- ===== src/Demo/Policy.antt =====
-- The policy engine on concrete inputs (crates/openwork-policy/src/engine.rs).
use openwork.Common.{◌≡◌, refl, ◌≢◌, String, true, Option, none, some, List, [], ◌∷◌}
use openwork.Common.Dict.{get}
use openwork.Common.Result.{ok}
use openwork.Core.Json.{null}
use openwork.Contract.Action.{ActionRequest, parameters_match_hash}
use openwork.Contract.Policy.{external_effect}
use openwork.Contract.Policy as D
use openwork.Policy.Config.{
  approval, deny, into, ActionRule, PolicyConfig, RawPolicy, RawRule, from_yaml,
}
use openwork.Policy.Engine.{PolicyEngine, exact_matches, evaluate_at}
use openwork.Policy.Safety.{Bears, configured_for, evaluate_at-Bears, evaluate_at_grounded}
use openwork.Demo.{demo}

abbrev send_rule : ActionRule
send_rule = record { risk = external_effect; decision = approval; resources = none }

abbrev raw : RawPolicy
raw = record {
  version = 1;
  unknown = deny;
  actions =
      ("mail.send", record { risk = external_effect; decision = approval; resources = none }) ∷ [];
}

abbrev parse : String → Option RawPolicy
parse input = some raw

abbrev config : PolicyConfig
config = record { version = 1; unknown = deny; actions = ("mail.send", send_rule) ∷ [] }

abbrev engine : PolicyEngine
engine = record { config = config; matches = exact_matches }

abbrev send : ActionRequest
send = record {
  id = 51;
  run_id = 7;
  action = "mail.send";
  resource = "list";
  parameters = null;
  parameter_hash = "abcd";
}

accepted : from_yaml parse "policy" ≡ ok config
unfolding from_yaml get openwork.Common.Dict.insert openwork.Policy.Config.valid_action_name
    openwork.Policy.Config.resources_are_valid
accepted = refl

evaluate_at-Bears_example :
    Bears (evaluate_at demo engine send 9).effective_risk (evaluate_at demo engine send 9).decision
evaluate_at-Bears_example = evaluate_at-Bears demo parse "policy" engine send 9 accepted

decided : (evaluate_at demo engine send 9).decision ≡ D.require_approval
unfolding evaluate_at get parameters_match_hash openwork.Contract.Action.action_parameter_hash
    openwork.Contract.Digest.sha256_bytes
decided = refl

not_denied : (evaluate_at demo engine send 9).decision ≢ D.deny
not_denied = λ h. cc (decided, h)

evaluate_at_grounded_example :
    (rule : ActionRule) × (get "mail.send" config.actions ≡ some rule)
    × (parameters_match_hash demo send ≡ true)
    × ((evaluate_at demo engine send 9).effective_risk ≡ rule.risk)
    × ((evaluate_at demo engine send 9).decision ≡ into (configured_for rule "list"))
evaluate_at_grounded_example = evaluate_at_grounded demo config send 9 not_denied
