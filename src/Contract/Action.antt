-- ===== src/Contract/Action.antt =====
-- `ActionRequest` and the hash that binds its parameters, of crates/openwork-execution/src/lib.rs.
use Prim.Native.String.{len}
use openwork.Common.{ℕ, suc, String, Bool, false, ltb, str_eq}
use openwork.Common.Result.{Result, ok, err, invalid_contract, fail_if, ◌>>◌}
use openwork.Core.Json.{
  Value, null, bool, integer, negative, float, string, array, object, Values, nil, cons, Entries,
  end, entry,
}
use openwork.Contract.{RunId, ActionId, Sha256Digest}
use openwork.Contract.Audit.{canonical_json}
use openwork.Contract.Digest.{sha256_bytes}
use openwork.Contract.External.{External}

pub record ActionRequest : Type 0 where
  pub id : ActionId
  pub run_id : RunId
  pub action : String
  pub resource : String
  pub parameters : Value
  pub parameter_hash : Sha256Digest

abbrev pub max_action_parameter_bytes : ℕ
max_action_parameter_bytes = 65536

abbrev pub max_action_parameter_depth : ℕ
max_action_parameter_depth = 32

too_deep : ℕ → Result (Unit {0})
too_deep depth =
    fail_if (ltb max_action_parameter_depth depth)
      (invalid_contract "action parameters exceed the maximum depth")

unfoldable mutual
  unfolding too_deep

  pub validate_parameter_value : Value → ℕ → Result (Unit {0})
  validate_parameter_value (array vs) depth = too_deep depth >> validate_values vs (suc depth)
  validate_parameter_value (object es) depth = too_deep depth >> validate_entries es (suc depth)
  validate_parameter_value (float f) depth =
      too_deep depth
      >> err (invalid_contract "floating-point action parameters are not canonical in v1")
  validate_parameter_value null depth = too_deep depth
  validate_parameter_value (bool b) depth = too_deep depth
  validate_parameter_value (integer n) depth = too_deep depth
  validate_parameter_value (negative n) depth = too_deep depth
  validate_parameter_value (string s) depth = too_deep depth

  pub validate_values : Values → ℕ → Result (Unit {0})
  validate_values nil depth = ok tt
  validate_values (cons v vs) depth = validate_parameter_value v depth >> validate_values vs depth

  pub validate_entries : Entries → ℕ → Result (Unit {0})
  validate_entries end depth = ok tt
  validate_entries (entry k v es) depth =
      validate_parameter_value v depth >> validate_entries es depth

-- `is_ok_and(|expected| hash == expected)`
abbrev hash_is : Sha256Digest → Result Sha256Digest → Bool
hash_is hash (ok expected) = str_eq hash expected
hash_is hash (err e) = false

module _ (x : External) where
  unfoldable pub action_parameter_hash :
      RunId → ActionId → String → String → Value → Result Sha256Digest
  unfolding validate_parameter_value validate_values validate_entries
  action_parameter_hash run_id action_id action resource parameters = do
    validate_parameter_value parameters 0
    let bytes = x.to_string (
        array (
          cons (string "openwork-action-approval-v1") (
            cons (string (x.to_hyphenated run_id)) (
              cons (string (x.to_hyphenated action_id)) (
                cons (string action)
                  (cons (string resource) (cons (canonical_json parameters) nil)))))))
    fail_if (ltb max_action_parameter_bytes (len bytes))
        (invalid_contract "action binding exceeds the 64 KiB limit")
    ok (sha256_bytes x bytes)

  unfoldable pub parameters_match_hash : ActionRequest → Bool
  parameters_match_hash r =
      hash_is r.parameter_hash
        (action_parameter_hash r.run_id r.id r.action r.resource r.parameters)
