-- ===== src/Policy/Config.antt =====
-- The policy configuration, of crates/openwork-policy/src/config.rs. `RawPolicy` is what serde's derived
-- deserializers hand to the code: the fields, and the entries of each mapping as they stand in the
-- document.
use Prim.Native.String.{len}
use openwork.Common.{
  ℕ, ◌*◌, String, Bool, true, false, not, ◌&&◌, ◌||◌, Option, none, some, List, [], ◌∷◌, ltb, leb,
  ◌==◌,
}
use openwork.Common.Dict.{Dict, insert, contains_key, all_entries}
use openwork.Common.Result.{
  OpenWorkError, config_invalid, Result, ok, fail_if, ok_or_else, ◌>>=◌, ◌>>◌,
}
use openwork.Core.Text.{codes, is_blank, is_lower, is_digit}
use openwork.Contract.Policy.{
  RiskLevel, read, local_write, internal_mutation, external_effect, destructive_or_financial,
  PolicyDecision,
}

pub data ConfiguredDecision : Type 0 where
  allow deny approval : ConfiguredDecision

abbrev pub into : ConfiguredDecision → PolicyDecision
into allow = PolicyDecision.allow
into deny = PolicyDecision.deny
into approval = PolicyDecision.require_approval

pub record ResourceRules : Type 0 where
  pub exact : Dict ConfiguredDecision
  pub default : ConfiguredDecision

pub record ActionRule : Type 0 where
  pub risk : RiskLevel
  pub decision : ConfiguredDecision
  pub resources : Option ResourceRules

-- `defaults` has the one field `unknown`.
pub record PolicyConfig : Type 0 where
  pub version : ℕ
  pub unknown : ConfiguredDecision
  pub actions : Dict ActionRule

pub record RawResources : Type 0 where
  pub exact : List (String × ConfiguredDecision)
  pub default : ConfiguredDecision

pub record RawRule : Type 0 where
  pub risk : RiskLevel
  pub decision : ConfiguredDecision
  pub resources : Option RawResources

pub record RawPolicy : Type 0 where
  pub version : ℕ
  pub unknown : ConfiguredDecision
  pub actions : List (String × RawRule)

abbrev pub policy_config_version : ℕ
policy_config_version = 1

-- The loop of `visit_map`: `decode` reads a value, and an entry whose key is there already is an error.
unfoldable pub visit_map {ℓ} :
    {R V : Type ℓ} → (R → Option V) → List (String × R) → Dict V → Option (Dict V)
visit_map decode [] values = some values
visit_map decode ((key, raw) ∷ entries) values = elim (decode raw) [
  | none ↦ none
  | some value ↦ elim (contains_key key values) [
    | true ↦ none
    | false ↦ visit_map decode entries (insert key value values)
  ]
]

abbrev pub unique_string_map {ℓ} :
    {R V : Type ℓ} → (R → Option V) → List (String × R) → Option (Dict V)
unique_string_map decode entries = visit_map decode entries []

unfoldable pub decode_resources : RawResources → Option ResourceRules
unfolding visit_map
decode_resources raw = elim (unique_string_map some raw.exact) [
  | none ↦ none
  | some exact ↦ some (record { exact = exact; default = raw.default })
]

unfoldable pub decode_rule : RawRule → Option ActionRule
unfolding decode_resources
decode_rule raw = elim raw.resources [
  | none ↦ some (record { risk = raw.risk; decision = raw.decision; resources = none })
  | some resources ↦ elim (decode_resources resources) [
    | none ↦ none
    | some rules ↦
        some (record { risk = raw.risk; decision = raw.decision; resources = some rules })
  ]
]

unfoldable pub decode_policy : RawPolicy → Option PolicyConfig
unfolding visit_map decode_rule
decode_policy raw = elim (unique_string_map decode_rule raw.actions) [
  | none ↦ none
  | some actions ↦ some (record { version = raw.version; unknown = raw.unknown; actions = actions })
]

abbrev pub max_policy_bytes : ℕ
max_policy_bytes = 1024 * 1024

abbrev pub config_error : String → OpenWorkError
config_error m = record { code = config_invalid; message = m }

is_allow : ConfiguredDecision → Bool
is_allow allow = true
is_allow _ = false

unfoldable pub is_deny : ConfiguredDecision → Bool
is_deny deny = true
is_deny _ = false

unfoldable pub safe_decision : RiskLevel → ConfiguredDecision → Bool
unfolding is_allow is_deny
safe_decision read d = true
safe_decision local_write d = true
safe_decision internal_mutation d = not (is_allow d)
safe_decision external_effect d = not (is_allow d)
safe_decision destructive_or_financial d = is_deny d

action_name_chars : List ℕ → Bool
action_name_chars [] = true
action_name_chars (c ∷ cs) =
    (is_lower c || is_digit c || c == b'.' || c == b'_' || c == b'-') && action_name_chars cs

-- A byte of a character beyond ASCII passes no test, and neither does its code point.
starts_lower : List ℕ → Bool
unfolding action_name_chars
starts_lower [] = false
starts_lower (c ∷ cs) = is_lower c && action_name_chars cs

unfoldable pub valid_action_name : String → Bool
unfolding starts_lower codes
valid_action_name name = leb (len name) 128 && starts_lower (codes name)

unfoldable pub safe_resources : RiskLevel → Option ResourceRules → Bool
unfolding safe_decision
safe_resources risk none = true
safe_resources risk (some resources) =
    safe_decision risk resources.default
    && all_entries (λ _ decision. safe_decision risk decision) resources.exact

unfoldable pub is_safe : ActionRule → Bool
unfolding safe_resources
is_safe rule = safe_decision rule.risk rule.decision && safe_resources rule.risk rule.resources

valid_resources : Option ResourceRules → Bool
valid_resources none = true
valid_resources (some resources) =
    all_entries (λ resource _. not (is_blank resource) && leb (len resource) 2048) resources.exact

unfoldable pub resources_are_valid : ActionRule → Bool
unfolding valid_resources
resources_are_valid rule = valid_resources rule.resources

unfoldable pub accepted_rule : String → ActionRule → Bool
unfolding is_safe
accepted_rule name rule = valid_action_name name && is_safe rule && resources_are_valid rule

unfoldable pub validate : PolicyConfig → Result (Unit {0})
unfolding is_deny accepted_rule
validate config =
    fail_if
      (not (config.version == policy_config_version)
        || not (is_deny config.unknown)
        || not (all_entries accepted_rule config.actions))
      (config_error "policy configuration violates M1 safety invariants")

-- `parse` is yaml_serde: the document's fields and entries, or none where it has no such shape.
abbrev pub decoded : Option RawPolicy → Option PolicyConfig
decoded none = none
decoded (some raw) = decode_policy raw

unfoldable pub from_yaml : (String → Option RawPolicy) → String → Result PolicyConfig
unfolding validate decode_policy
from_yaml parse input = do
  fail_if (ltb max_policy_bytes (len input))
      (config_error "policy configuration exceeds the 1 MiB limit")
  config ← ok_or_else (decoded (parse input)) (config_error "policy YAML is invalid")
  validate config
  ok config
