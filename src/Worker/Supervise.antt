-- ===== src/Worker/Supervise.antt =====
-- The supervision of a running sandbox, of crates/openwork-worker/src/lib.rs: heartbeats of the lease while
-- the sandbox runs in its thread, and one request to cancel.
use Prim.Native.Nat.{◌/◌}
use openwork.Common.{
  ℕ, Bool, true, false, not, ◌&&◌, ◌||◌, Option, none, some, List, [], ◌∷◌, ltb, leb, ◌==◌, is_some,
  if◌then◌else◌,
}
use openwork.Common.Int.{pos}
use openwork.Common.Result.{OpenWorkError, Result, ok, err, fail_if}
use openwork.Common.Result as Result
use openwork.Common.Exec.{Exec, pure, raise, lift, attempt, modify, ◌>>=◌, ◌>>◌}
use openwork.Contract.{RunId, UtcTimestamp}
use openwork.Contract.External.{External}
use openwork.Contract.Sandbox.{SandboxResult}
use openwork.Store.{State, RunLease}
use openwork.Store.Ops.{Op, run_ops}
use openwork.Store.Queue.Ops.{heartbeat_lease}
use openwork.Worker.{worker_error}

-- Both in nanoseconds.
pub record SupervisorConfig : Type 0 where
  pub heartbeat_interval : ℕ
  pub lease_ttl : ℕ

abbrev pub default_supervisor : SupervisorConfig
default_supervisor = record { heartbeat_interval = 5000000000; lease_ttl = 30000000000 }

unfoldable pub with_supervisor : SupervisorConfig → Result SupervisorConfig
with_supervisor supervisor =
    Result.◌>>=◌
      (fail_if
        (supervisor.heartbeat_interval == 0
          || supervisor.lease_ttl == 0
          || leb supervisor.lease_ttl supervisor.heartbeat_interval)
        (worker_error "worker heartbeat interval must be positive and shorter than lease TTL"))
      λ _. ok supervisor

-- `i64::MAX`, the seconds that a signed duration holds
abbrev pub i64_max : ℕ
i64_max = 9223372036854775807

-- A wait for the sandbox's result that timed out: the calls that others made of the store in its course,
-- and the time at its end.
pub record Tick : Type 0 where
  pub others : List Op
  pub now : UtcTimestamp

-- What the channel gives in the end.
pub data Ending : Type 0 where
  received : Result SandboxResult → Ending
  disconnected : Ending

-- The variables of the loop.
pub record Supervision : Type 0 where
  pub cancel_sent : Bool
  pub lease : RunLease
  pub primary_error : Option OpenWorkError

-- `match primary_error { Some(error) => Err(error), None => result.map(..) }`
abbrev pub unless_failed :
    Option OpenWorkError → Result SandboxResult → RunLease → Result (RunLease × SandboxResult)
unless_failed (some e) result lease = err e
unless_failed none result lease = Result.◌>>=◌ result λ r. ok (lease, r)

unfoldable pub conclude : Ending → Supervision → Result (RunLease × SandboxResult)
conclude (received result) w = unless_failed w.primary_error result w.lease
conclude disconnected w = err (worker_error "sandbox supervisor lost its execution result")

module _ (x : External) where
  -- `WorkerLeaseStore::heartbeat`
  unfoldable pub heartbeat : RunLease → UtcTimestamp → ℕ → Exec State RunLease
  heartbeat lease now ttl =
      if ltb i64_max (ttl / 1000000000)
      then raise (worker_error "invalid lease ttl")
      else heartbeat_lease x lease now (pos ttl)

  abbrev pub interfere : List Op → Exec State Unit
  interfere others = modify (run_ops x others)

  abbrev heard : Supervision → Result RunLease → Supervision
  heard w (ok lease) = record w { lease = lease }
  heard w (err e) = record w { primary_error = some e }

  -- `if primary_error.is_none()`
  abbrev pub beat_unless :
      Option OpenWorkError → SupervisorConfig → UtcTimestamp → Supervision → Exec State Supervision
  beat_unless (some e) supervisor now w = pure w
  beat_unless none supervisor now w =
      attempt (heartbeat w.lease now supervisor.lease_ttl) >>= λ r. pure (heard w r)

  unfoldable pub beat : SupervisorConfig → UtcTimestamp → Supervision → Exec State Supervision
  beat supervisor now w = beat_unless w.primary_error supervisor now w

  module _ (cancel : RunId → Result (Unit {0})) where
    -- `if let Err(error) = cancel(..) && primary_error.is_none()`
    abbrev cancel_error : Option OpenWorkError → Result (Unit {0}) → Option OpenWorkError
    cancel_error (some e) r = some e
    cancel_error none (ok _) = none
    cancel_error none (err e) = some e

    unfoldable pub ask_cancel : Supervision → Supervision
    ask_cancel w =
        if not w.cancel_sent && (is_some w.primary_error || w.lease.cancel_requested)
        then record w {
          cancel_sent = true;
          primary_error = cancel_error w.primary_error (cancel w.lease.run.id);
        }
        else w

    -- The loop, over the waits that time out; then the channel gives the ending.
    unfoldable pub supervise :
        SupervisorConfig
        → List Tick
        → List Op
        → Ending
        → Supervision
        → Exec State (RunLease × SandboxResult)
    supervise supervisor [] others ending w = interfere others >> lift (conclude ending w)
    supervise supervisor (tick ∷ ticks) others ending w =
        interfere tick.others
        >> (beat supervisor tick.now w >>= λ w'.
            supervise supervisor ticks others ending (ask_cancel w'))

    unfoldable pub execute_with_cancellation :
        SupervisorConfig
        → List Tick
        → List Op
        → Ending
        → RunLease
        → Exec State (RunLease × SandboxResult)
    execute_with_cancellation supervisor ticks others ending lease =
        supervise supervisor ticks others ending
          (record { cancel_sent = false; lease = lease; primary_error = none })
