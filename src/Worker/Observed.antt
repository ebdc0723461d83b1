-- ===== src/Worker/Observed.antt =====
-- The worker with the decoding of crates/openwork-runtime/src/task/mod.rs: what a success rests on
-- (crates/openwork-worker/src/lib.rs).
use openwork.Common.{
  ℕ, zero, suc, String, ◌≡◌, ◌≢◌, refl, ap, ◌∙◌, Bool, true, false, inl, inr, some, List, [], ◌∷◌,
  map, last, is_some_and,
}
use openwork.Common.Int.{pos}
use openwork.Common.Result.{Result, ok, err, ok-injective}
use openwork.Common.Exec.Rules.{Ensures, Outcome, Ensures-weaken}
use openwork.Contract.{RunId}
use openwork.Contract.External.{External}
use openwork.Contract.Run.{succeeded, Run}
use openwork.Contract.Sandbox.{exited, SandboxResult}
use openwork.Contract.Task as Task
use openwork.Contract.Task.{RuntimeTask, RuntimeEvent, RuntimeEventPayload}
use openwork.Store.{State, RunLease}
use openwork.Store.Ops.{Op}
use openwork.Store.Slots.{Effect}
use openwork.Store.Validity.{IsValid}
use openwork.Orchestrator.Scanner.{FileSystem}
use openwork.Runtime.Decode.{RuntimeEventDecoder, decode_sandbox_result, is_completed}
use openwork.Runtime.Event.{IsStream, event}
use openwork.Runtime.Stream.{IsDecoded, decode_sandbox_result-IsDecoded}
use openwork.Worker.Select.{WorkerTaskSpec}
use openwork.Worker.Supervise.{SupervisorConfig, Tick, Ending, received}
use openwork.Worker.Draws.{
  WorkerEnvironment, StartDisposition, WorkerOutcome, completed, Draws, is_success,
}
use openwork.Worker.Ops.{execute}
use openwork.Worker.Outcome.{EndedBy, ran_out, done, disposed, IsJustified, waits, closed, ended}
use openwork.Worker.Finish.{execute-IsJustified}

-- The payloads of the events that were decoded.
abbrev pub payloads : Result (List RuntimeEvent) → Result (List RuntimeEventPayload)
payloads (ok events) = ok (map (λ e. e.payload) events)
payloads (err e) = err e

absurd_eq : {P : Type 0} {b : Bool} → b ≡ true → b ≡ false → P
absurd_eq p q = cc

is_success-is_completed : (p : RuntimeEventPayload) → is_success p ≡ true → is_completed p ≡ true
is_success-is_completed (Task.completed code) h = refl
is_success-is_completed (Task.failed code message) h = cc
is_success-is_completed Task.cancelled h = cc
is_success-is_completed (Task.stderr chunk truncated) h = cc
is_success-is_completed Task.started h = cc
is_success-is_completed (Task.stdout chunk truncated) h = cc
is_success-is_completed (Task.message content) h = cc
is_success-is_completed (Task.tool_call name parameters) h = cc
is_success-is_completed (Task.artifact relative_path) h = cc

IsStream-observed :
    (x : External) (result : SandboxResult) (k : ℕ) (events : List RuntimeEvent)
    → IsStream x result k events
    → is_some_and (last (map (λ e. e.payload) events)) is_success ≡ true
    → result.exit_code ≡ some (pos zero)
IsStream-observed x result k [] s h = cc
IsStream-observed x result k (e ∷ []) (event _ _ _ w t s) h = elim w.honest.observed [
  | inl n ↦ absurd_eq (is_success-is_completed e.payload h) n
  | inr o ↦ o.1
]
IsStream-observed x result k (e ∷ f ∷ events) (event _ _ _ w t s) h =
    IsStream-observed x result (suc k) (f ∷ events) s h

module _ {D : Type 0} (x : External) (decoder : RuntimeEventDecoder D) (d : D) where
  -- The decoder is made anew for each result.
  abbrev pub decode : SandboxResult → Result (List RuntimeEventPayload)
  decode result = payloads (decode_sandbox_result x decoder result d).0

  decode-observed :
      (result : SandboxResult) (events : List RuntimeEventPayload)
      → decode result ≡ ok events
      → is_some_and (last events) is_success ≡ true
      → result.exit_code ≡ some (pos zero)
  decode-observed result events h success =
      go (decode_sandbox_result x decoder result d)
        (decode_sandbox_result-IsDecoded x decoder result d).ended h
    where
      go :
          (o : Result (List RuntimeEvent) × D)
          → Outcome (λ _. Unit {0}) (λ more _. IsDecoded x result more) o
          → payloads o.0 ≡ ok events
          → result.exit_code ≡ some (pos zero)
      go (ok more, _) w p =
          IsStream-observed x result 1 more w.stream
            (ap (λ l. is_some_and (last l) is_success) (ok-injective _ _ p) ∙ success)
      go (err e, _) w p = cc

  -- A run that waits, that did not succeed, or whose sandbox exited with the code 0.
  pub data IsEarned (from : SandboxResult → Type 0) : WorkerOutcome → Type 0 where
    waiting : (r : Run) → IsEarned from (WorkerOutcome.awaiting_approval r)
    unsuccessful : (r : Run) → r.status ≢ succeeded → IsEarned from (completed r)
    earned :
        (r : Run) (result : SandboxResult)
        → from result
        → result.termination ≡ exited
        → result.exit_code ≡ some (pos zero)
        → IsEarned from (completed r)

  module _ (draws : Draws) (fs : FileSystem) (s : State) (from : SandboxResult → Type 0) where
    EndedBy-IsEarned :
        (result : SandboxResult) (r : Run)
        → from result
        → EndedBy x draws fs decode s result r
        → IsEarned from (completed r)
    EndedBy-IsEarned result r given (ran_out left reached) = unsuccessful r λ h. cc
    EndedBy-IsEarned result r given (disposed _ _ _ _ _ _ reached) = unsuccessful r λ h. cc
    EndedBy-IsEarned result r given (done left events decoded success _ _ _ _ _ _) =
        earned r result given left (decode-observed result events decoded success)

    IsJustified-IsEarned :
        (o : WorkerOutcome) → IsJustified x draws fs decode s from o → IsEarned from o
    IsJustified-IsEarned _ (waits r) = waiting r
    IsJustified-IsEarned _ (closed r reached) = unsuccessful r λ h. cc
    IsJustified-IsEarned _ (ended r result given _ how) = EndedBy-IsEarned result r given how

  module _ {Invocation Request : Type 0} (draws : Draws) (fs : FileSystem) (s : State)
      (health : Result (Unit {0})) (prepare : RuntimeTask → Result Invocation)
      (into_sandbox_request : Invocation → RunId → WorkerEnvironment → Result Request)
      (cancel : RunId → Result (Unit {0})) (supervisor : SupervisorConfig) (ticks : List Tick)
      (others : List Op) (sandbox : Request → Ending) where
    -- From a valid store, with the decoding of the runtime crate and whatever its decoder, the adapter,
    -- the sandbox and the calls of others, every run took steps of its life (Lifecycle.Step) only, also
    -- on an error; a run that the worker returns waits for an approval, did not succeed, or was run by
    -- a sandbox that gave a result with an exit and the exit code 0.
    pub execute-IsEarned :
        (lease : RunLease) (spec : WorkerTaskSpec) (prompt : String)
        (environment : WorkerEnvironment) (disposition : StartDisposition)
        → IsValid x s
        → Ensures
            (λ t. Effect x s t)
            (λ o t.
              Effect x s t
              × IsEarned (λ result. (q : Request) × (sandbox q ≡ received (ok result))) o)
            (execute x draws fs decode health prepare into_sandbox_request cancel supervisor ticks
              others sandbox lease spec prompt environment disposition)
            s
    execute-IsEarned lease spec prompt environment disposition v =
        Ensures-weaken
          (execute-IsJustified x draws fs decode s health prepare into_sandbox_request cancel
            supervisor ticks others sandbox lease spec prompt environment disposition v)
          (λ t e. e) λ o t h. (h.0, IsJustified-IsEarned draws fs s _ o h.1)
