-- ===== src/Runtime/Stream.antt =====
-- What a decoded stream of events is (crates/openwork-runtime/src/task/mod.rs).
use openwork.Common.{
  ◌⊎◌, inl, inr, ◌≢◌, ℕ, ◌≡◌, sym, ap, subst, ◌∙◌, true, false, not, Option, none, some, List, [],
  ◌∷◌, last, is_some_and, not-eq-false,
}
use openwork.Common.Result.{Result, ok, err, fail_if, fail_if-eq-ok, >>=-eq-ok, ok-injective}
use openwork.Common.Exec.Rules.{
  Ensures, Outcome, Ensures-pure, Ensures-bind, Ensures-lift, Ensures-lift_last, Ensures-require,
  Ensures-weaken,
}
use openwork.Common.Exec.{Exec}
use openwork.Contract.External.{External}
use openwork.Contract.Sandbox.{
  SandboxTermination, exited, SandboxCleanupStatus, SandboxResult, validate,
}
use openwork.Contract.Sandbox as Sandbox
use openwork.Contract.Task.{RuntimeEvent}
use openwork.Runtime.Decode.{
  runtime_error, RuntimeEventDecoder, stdout, stderr, finish, is_terminal_event,
  append_decoded_event, append_events, decode_stdout, decode_stderr, append_final, finish_stream,
  is_dirty, decode_sandbox_result, lines,
}
use openwork.Runtime.Event.{
  IsStream, nothing, append_decoded_event-IsAppended, append_decoded_event-IsStream, final-terminal,
  last-snoc,
}

module _ (x : External) (result : SandboxResult) where
  -- The stream after an exit ends in a terminal event.
  pub record IsDecoded (events : List RuntimeEvent) : Type 0 where
    pub valid : validate result ≡ ok tt
    pub clean : is_dirty result.cleanup ≡ false
    pub whole : result.truncated ≡ false
    pub stream : IsStream x result 1 events
    pub ended : (result.termination ≢ exited) ⊎ (is_some_and (last events) is_terminal_event ≡ true)

module _ {D : Type 0} (x : External) (decoder : RuntimeEventDecoder D)
    (result : SandboxResult) where
  append_events-IsStream :
      (events decoded more : List RuntimeEvent)
      → append_events x decoder result events decoded ≡ ok more
      → IsStream x result 1 events
      → IsStream x result 1 more
  unfolding append_events
  append_events-IsStream events [] more h s = subst (IsStream x result 1) (ok-injective _ _ h) s
  append_events-IsStream events (e ∷ rest) more h s =
      let (next, appended, h1) = >>=-eq-ok (append_decoded_event x result events e stdout) _ h in
      append_events-IsStream next rest more h1
        (append_decoded_event-IsStream x result events next e stdout appended s)

  -- Nothing is said of the decoder.
  Silent : {A : Type 0} (m : Exec D A) (d : D) → Ensures (λ _. Unit {0}) (λ _ _. Unit {0}) m d
  Silent {A = A} m d = record { ended = go (m d) }
    where
      go : (o : Result A × D) → Outcome (λ _. Unit {0}) (λ _ _. Unit {0}) o
      go (ok a, d') = tt
      go (err e, d') = tt

  decode_stdout-IsStream :
      (events : List RuntimeEvent) (given : List (List ℕ)) (d : D)
      → IsStream x result 1 events
      → Ensures
          (λ _. Unit {0})
          (λ more _. IsStream x result 1 more)
          (decode_stdout x decoder result events given)
          d
  unfolding decode_stdout
  decode_stdout-IsStream events [] d s = Ensures-pure events s
  decode_stdout-IsStream events (line ∷ rest) d s =
      Ensures-bind _ _ _ _ (Silent (decoder.decode_stdout_line line) d) (λ _ _. tt)
        λ decoded d1 _. Ensures-lift _ _ tt λ more h.
          decode_stdout-IsStream more rest d1 (append_events-IsStream events decoded more h s)

  decode_stderr-IsStream :
      (events : List RuntimeEvent) (given : List (List ℕ)) (d : D)
      → IsStream x result 1 events
      → Ensures
          (λ _. Unit {0})
          (λ more _. IsStream x result 1 more)
          (decode_stderr x decoder result events given)
          d
  unfolding decode_stderr
  decode_stderr-IsStream events [] d s = Ensures-pure events s
  decode_stderr-IsStream events (line ∷ rest) d s =
      Ensures-bind _ _ _ _ (Silent (decoder.decode_stderr_line line) d) (λ _ _. tt)
        λ e d1 _. Ensures-lift _ _ tt λ more h.
          decode_stderr-IsStream more rest d1
            (append_decoded_event-IsStream x result events more e stderr h s)

  append_final-IsStream :
      (events more : List RuntimeEvent) (e : Option RuntimeEvent)
      → append_final x decoder result events e ≡ ok more
      → IsStream x result 1 events
      → IsStream x result 1 more × (is_some_and (last more) is_terminal_event ≡ true)
  unfolding append_final
  append_final-IsStream events more (some e) h s =
      let a = append_decoded_event-IsAppended x result events more e finish h in
      (
        append_decoded_event-IsStream x result events more e finish h s,
        ap (λ l. is_some_and (last l) is_terminal_event) (sym a.is)
            ∙ last-snoc x result events e
            ∙ final-terminal x result e.payload result.exit_code a.sourced,
      )
  append_final-IsStream events more none h s =
      let (_, closed, h1) =
        >>=-eq-ok
          (fail_if (not (is_some_and (last events) is_terminal_event))
            (runtime_error "runtime decoder omitted its terminal exit event"))
          _ h in
      let same : events ≡ more = ok-injective _ _ h1 in
      (
        subst (IsStream x result 1) same s,
        ap (λ l. is_some_and (last l) is_terminal_event) (sym same)
            ∙ not-eq-false _ (fail_if-eq-ok _ _ closed),
      )

  finish_stream-IsStream :
      (t : SandboxTermination) (events : List RuntimeEvent) (d : D)
      → IsStream x result 1 events
      → Ensures
          (λ _. Unit {0})
          (λ more _.
            IsStream x result 1 more
            × ((t ≢ exited) ⊎ (is_some_and (last more) is_terminal_event ≡ true)))
          (finish_stream x decoder result t events)
          d
  unfolding finish_stream
  finish_stream-IsStream exited events d s = Ensures-require _ _ _ tt λ code observed.
      Ensures-bind _ _ _ _ (Silent (decoder.finish code) d) (λ _ _. tt)
        λ e d1 _.
          Ensures-lift_last _ tt
            λ more h. let r = append_final-IsStream events more e h s in (r.0, inr r.1)
  finish_stream-IsStream Sandbox.cancelled events d s = Ensures-pure events (s, inl λ h. cc)
  finish_stream-IsStream Sandbox.timed_out events d s = Ensures-pure events (s, inl λ h. cc)
  finish_stream-IsStream Sandbox.out_of_memory events d s = Ensures-pure events (s, inl λ h. cc)
  finish_stream-IsStream SandboxTermination.failed events d s = Ensures-pure events (s, inl λ h. cc)

  -- Whatever the decoder of the provider, events are given only of a valid result with a clean disposal
  -- whose output is whole. They belong to the run of the result, have the numbers from 1 on, at most
  -- 4096, each within the size limit, and none but the last is terminal; none is a cancellation, and a
  -- completion has the exit code 0, which the sandbox observed. After an exit the last is terminal.
  pub decode_sandbox_result-IsDecoded :
      (d : D)
      → Ensures
          (λ _. Unit {0})
          (λ events _. IsDecoded x result events)
          (decode_sandbox_result x decoder result)
          d
  unfolding decode_sandbox_result
  decode_sandbox_result-IsDecoded d = Ensures-lift _ _ tt λ u valid. Ensures-lift _ _ tt λ _ clean.
      Ensures-lift _ _ tt λ _ whole.
        Ensures-bind _ _ _ _ (decode_stdout-IsStream [] (lines result.stdout) d (nothing 1))
          (λ _ _. tt)
          λ events d1 s.
            Ensures-bind _ _ _ _ (decode_stderr-IsStream events (lines result.stderr) d1 s)
              (λ _ _. tt)
              λ more d2 s2.
                Ensures-weaken (finish_stream-IsStream result.termination more d2 s2) (λ _ _. tt)
                  λ final _ h. record {
                    valid = valid;
                    clean = fail_if-eq-ok _ _ clean;
                    whole = fail_if-eq-ok _ _ whole;
                    stream = h.0;
                    ended = h.1;
                  }
