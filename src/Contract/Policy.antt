-- ===== src/Contract/Policy.antt =====
-- Risk levels and policy evaluations, of crates/openwork-execution/src/lib.rs.
use openwork.Common.{String}
use openwork.Contract.{RunId, ActionId, UtcTimestamp, Sha256Digest}

pub data RiskLevel : Type 0 where
  read local_write internal_mutation external_effect destructive_or_financial : RiskLevel

pub data PolicyDecision : Type 0 where
  allow deny require_approval : PolicyDecision

pub record PolicyEvaluation : Type 0 where
  pub run_id : RunId
  pub action_id : ActionId
  pub parameter_hash : Sha256Digest
  pub decision : PolicyDecision
  pub effective_risk : RiskLevel
  pub policy_version : String
  pub rule_id : String
  pub reason_code : String
  pub evaluated_at : UtcTimestamp
