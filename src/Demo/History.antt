-- ===== src/Demo/History.antt =====
-- Histories of calls on concrete inputs (crates/openwork-execution/src/store/mod.rs).
use openwork.Common.{◌++◌, ◌≡◌, refl, [], ◌∷◌, List, none, some}
use openwork.Common.Exec.{◌>>=◌, pure, lift, with_lock, require, refuse_if, modify}
use openwork.Common.Map.{get, insert}
use openwork.Common.Result.{err}
use openwork.Core.Text.{is_blank}
use openwork.Core.Redact.{redact_json, is_secret_key}
use openwork.Contract.Run.{Run, cancelled, planning, can_transition_to, is_terminal}
use openwork.Contract.Audit.{AuditEvent, new_event, validate_audit_position, from_untrusted}
use openwork.Audit.{new_append, build, metadata_of}
use openwork.Store.{
  State, empty, apply_memory_transition_with_reason, append_memory_audit, next_sequence, last_hash,
  precedes_last, push_events, advance, terminal_reason_of, run_missing, or_empty,
}
use openwork.Store.Records.{create_run, invalid_new_run, transition_run}
use openwork.Store.Queue.Ops.{request_cancel, cancel_waiting}
use openwork.Store.Ops.{Op, discard, perform, run_ops}
use openwork.Store.Validity.{IsValid}
use openwork.Store.Reach.{
  is_atomic, run_ops-IsValid, run_ops-finished, run_ops-append_only, run_ops-grows, perform-atomic,
}
use openwork.Lifecycle.History.{Later}
use openwork.Demo.{demo, fresh, create, claim, after_create, after_create-IsValid}

run_ops-IsValid_example : IsValid demo (run_ops demo (create ∷ claim ∷ create ∷ []) empty)
run_ops-IsValid_example = run_ops-IsValid demo (create ∷ claim ∷ create ∷ [])

abbrev cancel : Op
cancel = Op.request_cancel 2 7 "alice" 6

abbrev start : Op
start = Op.transition_run 3 7 1 planning none (new_append "alice" 8)

abbrev after_cancel : State
after_cancel = run_ops demo (create ∷ cancel ∷ []) empty

abbrev cancelled_run : Run
cancelled_run = record fresh {
  status = cancelled;
  revision = 1;
  updated_at = 6;
  completed_at = some 6;
  terminal_reason = some "unspecified";
}

cancel_works : get 7 after_cancel.runs ≡ some cancelled_run
unfolding run_ops perform discard create_run request_cancel cancel_waiting ◌>>=◌ pure lift with_lock
    require refuse_if modify get insert is_blank invalid_new_run build new_event
    validate_audit_position from_untrusted metadata_of redact_json is_secret_key
    apply_memory_transition_with_reason append_memory_audit next_sequence last_hash precedes_last
    push_events advance can_transition_to is_terminal terminal_reason_of
cancel_works = refl

run_ops-finished_example :
    get 7 (run_ops demo (start ∷ claim ∷ []) after_cancel).runs ≡ some cancelled_run
unfolding is_terminal
run_ops-finished_example =
    run_ops-finished demo (start ∷ claim ∷ []) after_cancel 7 cancelled_run
      (run_ops-IsValid demo (create ∷ cancel ∷ [])) cancel_works refl

run_ops-grows_example :
    (r' : Run) × (get 7 (run_ops demo (start ∷ claim ∷ []) after_cancel).runs ≡ some r')
    × Later cancelled_run r'
run_ops-grows_example =
    run_ops-grows demo (start ∷ claim ∷ []) after_cancel 7 cancelled_run
      (run_ops-IsValid demo (create ∷ cancel ∷ [])) cancel_works

start_fails : (perform demo start empty).0 ≡ err run_missing
unfolding perform discard transition_run ◌>>=◌ with_lock require refuse_if get
start_fails = refl

perform-atomic_example : (perform demo start empty).1 ≡ empty
unfolding is_atomic run_ops
perform-atomic_example =
    perform-atomic demo start empty run_missing (run_ops-IsValid demo []) refl start_fails

run_ops-append_only_example :
    (new : List AuditEvent) × (or_empty (get 7 (run_ops demo (claim ∷ []) after_create).audits)
      ≡ or_empty (get 7 after_create.audits) ++ new)
run_ops-append_only_example =
    run_ops-append_only demo (claim ∷ []) after_create 7 after_create-IsValid
