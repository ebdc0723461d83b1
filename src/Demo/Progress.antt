-- ===== src/Demo/Progress.antt =====
-- Successful calls of the memory store (crates/openwork-execution/src/store/mod.rs) on concrete
-- inputs.
use openwork.Common.{◌≡◌, refl, none, some, false, arith, length}
use openwork.Common.Int.{pos}
use openwork.Common.Exec.{◌>>=◌, pure, lift, with_lock, require, refuse_if, modify}
use openwork.Common.Exec.Rules.{Ensures}
use openwork.Common.Map.{get, insert}
use openwork.Core.Text.{is_blank}
use openwork.Core.Redact.{redact_json, is_secret_key}
use openwork.Contract.Run.{Run, planning, cancelled, failed, can_transition_to, is_terminal}
use openwork.Contract.Audit.{new_event, validate_audit_position, from_untrusted}
use openwork.Audit.{new_append, build, metadata_of}
use openwork.Store.{
  RunLease, empty, apply_memory_transition_with_reason, append_memory_audit, next_sequence,
  last_hash, precedes_last, push_events, advance, terminal_reason_of, or_empty, transition_event,
}
use openwork.Store.Records.{create_run, invalid_new_run}
use openwork.Store.Queue.{checked_lease_expiry, least, lease_not_current, cancelled_now}
use openwork.Store.Queue.Ops.{claim_next_run, claim_chosen, complete_leased_run, request_cancel}
use openwork.Store.Ops.{discard, perform, run_ops}
use openwork.Store.Refines.Touch.{Advanced}
use openwork.Store.Refines.Success.{create_run_succeeds}
use openwork.Store.Refines.Progress.{
  claim_next_run_succeeds, complete_leased_run_succeeds, request_cancel_succeeds,
}
use openwork.Demo.{
  demo, fresh, lease, after_create, after_claim, after_create-IsValid, after_claim-IsValid,
}

create_run_succeeds_example :
    Ensures
      (λ _. ⊥)
      (λ r t. (r ≡ fresh) × (get 7 t.runs ≡ some fresh))
      (create_run demo 1 fresh (new_append "alice" 5))
      empty
unfolding invalid_new_run is_blank get
create_run_succeeds_example =
    create_run_succeeds demo 1 fresh (new_append "alice" 5) empty refl refl refl

-- What the store holds after the run was created.
created_facts :
    (get 7 after_create.runs ≡ some fresh)
    × (get 7 after_create.leases ≡ none)
    × (least after_create.leases after_create.runs none ≡ some (7, fresh))
    × (precedes_last 6 (or_empty (get 7 after_create.audits)) ≡ false)
    × (length (or_empty (get 7 after_create.audits)) ≡ 1)
unfolding run_ops perform discard create_run ◌>>=◌ pure lift with_lock require refuse_if modify get
    insert is_blank invalid_new_run build new_event validate_audit_position from_untrusted
    metadata_of redact_json is_secret_key precedes_last least
created_facts = (refl, refl, refl, refl, refl)

claim_next_run_succeeds_example :
    Ensures
      (λ _. ⊥)
      (λ l t.
        (given : RunLease) × (l ≡ some given)
        × (get 7 t.leases ≡ some given)
        × (given.run.status ≡ planning)
        × (given.token ≡ 99)
        × (given.expires_at ≡ 1006))
      (claim_next_run demo 2 99 "bob" 6 (pos 1000))
      after_create
unfolding checked_lease_expiry
claim_next_run_succeeds_example =
    let (stored, free, first, late, one) = created_facts in
    claim_next_run_succeeds demo 2 99 "bob" 6 1006 (pos 1000) after_create 7 fresh fresh
      after_create-IsValid refl first stored refl late (omega arith) (omega (arith, one))

request_cancel_succeeds_example :
    Ensures
      (λ _. ⊥)
      (λ c t.
        (c ≡ cancelled_now) × ((r' : Run) × (r'.status ≡ cancelled) × (get 7 t.runs ≡ some r')))
      (request_cancel demo 2 7 "alice" 6)
      after_create
request_cancel_succeeds_example =
    let (stored, free, first, late, one) = created_facts in
    request_cancel_succeeds demo 2 7 "alice" 6 after_create fresh after_create-IsValid stored refl
      free late (omega arith) (omega (arith, one))

-- What the store holds after the run was claimed.
claimed_facts :
    (get 7 after_claim.leases ≡ some lease)
    × (get 7 after_claim.runs ≡ some lease.run)
    × (get 7 after_claim.cancel_requested ≡ none)
    × (precedes_last 10 (or_empty (get 7 after_claim.audits)) ≡ false)
    × (length (or_empty (get 7 after_claim.audits)) ≡ 2)
unfolding run_ops perform discard create_run claim_next_run claim_chosen ◌>>=◌ pure lift with_lock
    require refuse_if modify get insert is_blank invalid_new_run build new_event
    validate_audit_position from_untrusted metadata_of redact_json is_secret_key
    checked_lease_expiry least apply_memory_transition_with_reason append_memory_audit next_sequence
    last_hash precedes_last push_events advance can_transition_to is_terminal terminal_reason_of
claimed_facts = (refl, refl, refl, refl, refl)

complete_leased_run_succeeds_example :
    Ensures
      (λ _. ⊥)
      (λ r' t.
        (get 7 t.leases ≡ none)
        × Advanced 7 lease.run r' failed 10 (transition_event failed) after_claim t)
      (complete_leased_run demo 3 lease 1 failed (some "exit 1") 10)
      after_claim
unfolding lease_not_current can_transition_to
complete_leased_run_succeeds_example =
    let (leased, stored, free, late, two) = claimed_facts in
    complete_leased_run_succeeds demo 3 lease lease 1 failed (some "exit 1") 10 after_claim
      lease.run after_claim-IsValid leased stored refl refl refl refl late (omega arith)
      (omega (arith, two))
