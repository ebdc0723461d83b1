-- ===== src/Worker/Supervised.antt =====
-- The supervision of a running sandbox on the store (crates/openwork-worker/src/lib.rs).
use Prim.Native.Nat.{◌/◌}
use openwork.Common.{ltb, ℕ, ◌≡◌, ap, Option, none, some, List, [], ◌∷◌}
use openwork.Common.Int.{pos}
use openwork.Common.Result.{OpenWorkError, Result, ok, err, ok-injective}
use openwork.Common.Exec.Rules.{
  Ensures, Ensures-pure, Ensures-bind, Ensures-modify, Ensures-if, Ensures-raise, Ensures-attempt,
  Ensures-lift_last,
}
use openwork.Contract.{RunId, UtcTimestamp}
use openwork.Contract.External.{External}
use openwork.Contract.Sandbox.{SandboxResult}
use openwork.Store.{State, RunLease}
use openwork.Store.Ops.{Op, run_ops}
use openwork.Store.Slots.{Touches}
use openwork.Store.Came.{Came, Came-Ensures, attempted-Came}
use openwork.Store.Refines.Queue.{heartbeat_lease_lem}
use openwork.Worker.Supervise.{
  i64_max, SupervisorConfig, Tick, Ending, received, disconnected, Supervision, conclude,
  unless_failed, beat_unless, heartbeat, beat, ask_cancel, supervise,
}
use openwork.Worker.Steps.{run_ops-Came}

unless_failed-ok :
    (failure : Option OpenWorkError) (r : Result SandboxResult) (held lease : RunLease)
    (result : SandboxResult)
    → unless_failed failure r held ≡ ok (lease, result)
    → r ≡ ok result
unless_failed-ok (some e) r held lease result h = cc
unless_failed-ok none (ok r) held lease result h = ap (λ p. ok p.1) (ok-injective _ _ h)
unless_failed-ok none (err e) held lease result h = cc

-- The lease and the result are given only when the sandbox gave that result.
conclude-ok :
    (ending : Ending) (w : Supervision) (lease : RunLease) (result : SandboxResult)
    → conclude ending w ≡ ok (lease, result)
    → ending ≡ received (ok result)
unfolding conclude
conclude-ok (received r) w lease result h =
    ap received (unless_failed-ok w.primary_error r w.lease lease result h)
conclude-ok disconnected w lease result h = cc

module _ (x : External) (cancel : RunId → Result (Unit {0})) (supervisor : SupervisorConfig)
    (s : State) where
  heartbeat-Came :
      (lease : RunLease) (now : UtcTimestamp) (ttl : ℕ) (t : State)
      → Came x s t
      → Ensures
          (Came x s)
          (λ l u. Came x s u × Touches x lease.run.id t u)
          (heartbeat x lease now ttl)
          t
  unfolding heartbeat
  heartbeat-Came lease now ttl t c =
      Ensures-if (ltb i64_max (ttl / 1000000000)) _ _ (λ _. Ensures-raise _ c)
        λ _.
          Came-Ensures x lease.run.id _ s t c (heartbeat_lease_lem x lease now (pos ttl) t)
            λ _ u h. h

  beat_unless-Came :
      (failure : Option OpenWorkError) (now : UtcTimestamp) (w : Supervision) (t : State)
      → Came x s t
      → Ensures (Came x s) (λ _ u. Came x s u) (beat_unless x failure supervisor now w) t
  beat_unless-Came (some e) now w t c = Ensures-pure w c
  beat_unless-Came none now w t c =
      Ensures-bind _ _ _ _ (Ensures-attempt _ (heartbeat-Came w.lease now supervisor.lease_ttl t c))
        (λ u d. d) λ r u h. Ensures-pure _ (attempted-Came x s _ r u h)

  beat-Came :
      (now : UtcTimestamp) (w : Supervision) (t : State)
      → Came x s t
      → Ensures (Came x s) (λ _ u. Came x s u) (beat x supervisor now w) t
  unfolding beat
  beat-Came now w t c = beat_unless-Came w.primary_error now w t c

  pub supervise-Came :
      (ticks : List Tick) (others : List Op) (ending : Ending) (w : Supervision) (t : State)
      → Came x s t
      → Ensures
          (Came x s)
          (λ r u. Came x s u × (ending ≡ received (ok r.1)))
          (supervise x cancel supervisor ticks others ending w)
          t
  unfolding supervise
  supervise-Came [] others ending w t c = Ensures-modify _ _ (
      Ensures-lift_last _ (run_ops-Came x s others t c)
        λ r h. (run_ops-Came x s others t c, conclude-ok ending w r.0 r.1 h))
  supervise-Came (tick ∷ ticks) others ending w t c = Ensures-modify _ _ (
      Ensures-bind _ _ _ _
        (beat-Came tick.now w (run_ops x tick.others t) (run_ops-Came x s tick.others t c))
        (λ u d. d) λ w' u d. supervise-Came ticks others ending (ask_cancel x cancel w') u d)
