-- ===== src/Contract/Approval.antt =====
-- Approvals and their states, of crates/openwork-execution/src/lib.rs.
use openwork.Common.{
  ℕ, ◌-◌, String, Bool, true, false, not, ◌&&◌, ◌||◌, Option, ltb, leb, ◌==◌, str_eq, is_some,
  is_some_and,
}
use openwork.Common.Result.{Result, invalid_contract, approval_error, fail_if, ◌>>◌}
use openwork.Core.Text.{is_blank}
use openwork.Contract.{RunId, ActionId, ApprovalId, UtcTimestamp, Sha256Digest, ActorId}
use openwork.Contract.Action.{ActionRequest, parameters_match_hash}
use openwork.Contract.External.{External}

pub data ApprovalStatus : Type 0 where
  pending approved denied expired consumed : ApprovalStatus

-- `ApprovalStatus::can_transition_to`
unfoldable pub can_transition_to : ApprovalStatus → ApprovalStatus → Bool
can_transition_to pending approved = true
can_transition_to pending denied = true
can_transition_to pending expired = true
can_transition_to approved consumed = true
can_transition_to approved expired = true
can_transition_to _ _ = false

abbrev pub is_pending : ApprovalStatus → Bool
is_pending pending = true
is_pending _ = false

abbrev pub is_approved : ApprovalStatus → Bool
is_approved approved = true
is_approved _ = false

pub data ApprovalDecision : Type 0 where
  approve deny : ApprovalDecision

abbrev pub is_approve : ApprovalDecision → Bool
is_approve approve = true
is_approve deny = false

pub record ApprovalDecisionRecord : Type 0 where
  pub decision : ApprovalDecision
  pub actor : ActorId
  pub reason : Option String
  pub decided_at : UtcTimestamp

pub record ApprovalRequest : Type 0 where
  pub id : ApprovalId
  pub run_id : RunId
  pub action_id : ActionId
  pub parameter_hash : Sha256Digest
  pub requested_by : ActorId
  pub request_reason : String
  pub created_at : UtcTimestamp
  pub expires_at : UtcTimestamp
  pub status : ApprovalStatus
  pub revision : ℕ
  pub decision : Option ApprovalDecisionRecord
  pub consumed_at : Option UtcTimestamp

-- 24 hours in nanoseconds
abbrev pub max_approval_ttl_nanos : ℕ
max_approval_ttl_nanos = 86400000000000

unfoldable pub valid_state : ApprovalStatus → ApprovalRequest → Bool
valid_state pending a = not (is_some a.decision) && not (is_some a.consumed_at)
valid_state approved a =
    is_some_and a.decision (λ r. is_approve r.decision) && not (is_some a.consumed_at)
valid_state denied a =
    is_some_and a.decision (λ r. not (is_approve r.decision)) && not (is_some a.consumed_at)
valid_state expired a = not (is_some a.consumed_at)
valid_state consumed a = is_some_and a.decision λ r.
    is_approve r.decision
    && is_some_and a.consumed_at (λ c. leb r.decided_at c && ltb c a.expires_at)

-- `ApprovalRequest::validate`; `ttl_nanos` is a signed difference
unfoldable pub validate : ApprovalRequest → Result (Unit {0})
unfolding valid_state
validate a = do
  fail_if (is_blank a.request_reason) (invalid_contract "approval request reason cannot be empty")
  fail_if
      (leb a.expires_at a.created_at || ltb max_approval_ttl_nanos (a.expires_at - a.created_at))
      (invalid_contract "approval TTL must be positive and no more than 24 hours")
  fail_if (not (valid_state a.status a))
      (invalid_contract "approval status is inconsistent with decision or consumption fields")
  fail_if
      (is_some_and a.decision (λ r. ltb r.decided_at a.created_at || leb a.expires_at r.decided_at))
      (invalid_contract "approval decision must occur before the trusted expiry time")

unfoldable pub is_expired_at : ApprovalRequest → UtcTimestamp → Bool
is_expired_at a trusted_now = leb a.expires_at trusted_now

module _ (x : External) where
  unfoldable pub binding_matches : ApprovalRequest → ActionRequest → Bool
  binding_matches a action =
      a.run_id == action.run_id
      && a.action_id == action.id
      && str_eq a.parameter_hash action.parameter_hash
      && parameters_match_hash x action

  unfoldable pub can_consume_at :
      ApprovalRequest → ActionRequest → ℕ → UtcTimestamp → Result (Unit {0})
  can_consume_at a action expected_revision trusted_now = do
    validate a
    fail_if
        (not (is_approved a.status)
          || not (a.revision == expected_revision)
          || is_expired_at a trusted_now
          || not (binding_matches a action))
        (approval_error "approval is expired, consumed, stale, or bound to another action")
