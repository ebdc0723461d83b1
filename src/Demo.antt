-- ===== src/Demo.antt =====
-- A concrete environment, and calls of the memory store on concrete inputs.
pub mod Records
pub mod Queue
pub mod Approvals
pub mod History
pub mod Progress
pub mod Policy
pub mod Executor
pub mod Files
pub mod Runtime
pub mod Worker
use openwork.Common.{[], ◌∷◌, none, some, false}
use openwork.Common.Int.{pos}
use openwork.Contract.External.{External}
use openwork.Contract.Run.{queued, planning, Run, Artifact}
use openwork.Contract.Approval as A
use openwork.Contract.Approval.{ApprovalRequest}
use openwork.Audit.{new_append}
use openwork.Store.{State, RunLease, empty}
use openwork.Store.Ops.{Op, run_ops}
use openwork.Store.Reach.{run_ops-IsValid}
use openwork.Store.Validity.{IsValid}

abbrev pub demo : External
demo = record {
  to_hyphenated = λ n. "id";
  format_rfc3339 = λ n. "time";
  max_timestamp = 100000000000000000000;
  to_string = λ v. "json";
  digest = λ s. 171 ∷ 205 ∷ [];
  redact_text = λ s. s;
}

abbrev pub fresh : Run
fresh = record {
  id = 7;
  runtime = "claude";
  workspace = "/w";
  status = queued;
  revision = 0;
  actor_id = "alice";
  prompt_sha256 = "p";
  created_at = 5;
  updated_at = 5;
  started_at = none;
  completed_at = none;
  terminal_reason = none;
}

abbrev pub report : Artifact
report = record {
  id = 31;
  run_id = 7;
  path = "report.md";
  media_type = "text/markdown";
  size_bytes = 12;
  sha256 = "r";
  created_at = 6;
}

abbrev pub request : ApprovalRequest
request = record {
  id = 41;
  run_id = 7;
  action_id = 51;
  parameter_hash = "abcd";
  requested_by = "alice";
  request_reason = "write";
  created_at = 6;
  expires_at = 100;
  status = A.pending;
  revision = 0;
  decision = none;
  consumed_at = none;
}

-- The lease that the second call below gives out.
abbrev pub lease : RunLease
lease = record {
  run = record fresh { status = planning; revision = 1; updated_at = 6 };
  token = 99;
  owner = "bob";
  acquired_at = 6;
  expires_at = 1006;
  cancel_requested = false;
}

abbrev pub create : Op
create = Op.create_run 1 fresh (new_append "alice" 5)

abbrev pub claim : Op
claim = Op.claim_next_run 2 99 "bob" 6 (pos 1000)

abbrev pub after_create : State
after_create = run_ops demo (create ∷ []) empty

abbrev pub after_claim : State
after_claim = run_ops demo (create ∷ claim ∷ []) empty

pub after_create-IsValid : IsValid demo after_create
after_create-IsValid = run_ops-IsValid demo (create ∷ [])

pub after_claim-IsValid : IsValid demo after_claim
after_claim-IsValid = run_ops-IsValid demo (create ∷ claim ∷ [])
