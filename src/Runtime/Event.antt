-- ===== src/Runtime/Event.antt =====
-- What an event of a decoded stream is (crates/openwork-runtime/src/task/mod.rs).
use openwork.Common.{
  ◌⊎◌, inl, inr, ℕ, zero, suc, ◌+◌, ◌≡◌, refl, subst, true, false, not, ◌||◌, Option, none, some,
  List, [], ◌∷◌, ◌++◌, length, last, ltb, is_some_and, ◌==◌, ==-eq, not-eq-false, not-eq-true,
  ||-eq-false, arith,
}
use openwork.Common.Int.{ℤ, pos, negsuc}
use openwork.Common.Result.{ok, fail_if, fail_if-eq-ok, >>=-eq-ok, ok-injective}
use openwork.Contract.External.{External}
use openwork.Contract.Sandbox.{SandboxResult}
use openwork.Contract.Task as Task
use openwork.Contract.Task.{RuntimeEvent, RuntimeEventPayload}
use openwork.Runtime.Decode.{
  runtime_error, max_runtime_events, DecodedEventSource, stdout, stderr, finish,
  ensure_event_bounds, is_completed, is_cancelled, is_stderr, final_valid, source_valid,
  is_terminal_event, is_terminal_payload, append_decoded_event,
}

-- A completion carries the exit code 0, which the sandbox observed; nothing else ends a stream well.
pub record IsHonest (result : SandboxResult) (payload : RuntimeEventPayload) : Type 0 where
  pub uncancelled : is_cancelled payload ≡ false
  pub observed :
      (is_completed payload ≡ false)
      ⊎ ((payload ≡ Task.completed (pos zero)) × (result.exit_code ≡ some (pos zero)))

module _ (x : External) (result : SandboxResult) where
  -- The event at place `k` of the stream.
  pub record IsEvent (k : ℕ) (e : RuntimeEvent) : Type 0 where
    pub owned : e.run_id ≡ result.run_id
    pub numbered : e.sequence ≡ k
    pub counted : ltb max_runtime_events e.sequence ≡ false
    pub bounded : ensure_event_bounds x e.payload e.vendor_metadata ≡ ok tt
    pub honest : IsHonest result e.payload

  -- Numbered from `k` on, with a terminal event at most at the end.
  pub data IsStream : ℕ → List RuntimeEvent → Type 0 where
    nothing : (k : ℕ) → IsStream k []
    event :
        (k : ℕ) (e : RuntimeEvent) (es : List RuntimeEvent)
        → IsEvent k e
        → (is_terminal_event e ≡ true → es ≡ [])
        → IsStream (suc k) es
        → IsStream k (e ∷ es)

  IsStream-snoc :
      (k n : ℕ) (es : List RuntimeEvent) (e : RuntimeEvent)
      → IsStream k es
      → is_some_and (last es) is_terminal_event ≡ false
      → n ≡ length es + k
      → IsEvent n e
      → IsStream k (es ++ (e ∷ []))
  IsStream-snoc k n [] e (nothing _) h p v =
      event k e [] (subst (λ i. IsEvent i e) (omega arith) v) (λ _. refl) (nothing (suc k))
  IsStream-snoc k n (d ∷ []) e (event _ _ _ w t s) h p v =
      event k d (e ∷ []) w (λ b. cc) (IsStream-snoc (suc k) n [] e s refl (omega arith) v)
  IsStream-snoc k n (d ∷ c ∷ es) e (event _ _ _ w t s) h p v =
      event k d (c ∷ es ++ (e ∷ [])) w (λ b. let g = t b in cc)
        (IsStream-snoc (suc k) n (c ∷ es) e s h (omega arith) v)

  stderr-IsHonest :
      (payload : RuntimeEventPayload) → is_stderr payload ≡ true → IsHonest result payload
  stderr-IsHonest (Task.stderr chunk truncated) h = record {
    uncancelled = refl;
    observed = inl refl;
  }
  stderr-IsHonest Task.started h = cc
  stderr-IsHonest (Task.stdout chunk truncated) h = cc
  stderr-IsHonest (Task.message content) h = cc
  stderr-IsHonest (Task.tool_call name parameters) h = cc
  stderr-IsHonest (Task.artifact relative_path) h = cc
  stderr-IsHonest (Task.completed exit_code) h = cc
  stderr-IsHonest (Task.failed code message) h = cc
  stderr-IsHonest Task.cancelled h = cc

  final-IsHonest :
      (payload : RuntimeEventPayload) (code : Option ℤ)
      → result.exit_code ≡ code
      → final_valid payload code ≡ true
      → IsHonest result payload
  final-IsHonest (Task.completed (pos zero)) (some (pos zero)) p h = record {
    uncancelled = refl;
    observed = inr (refl, p);
  }
  final-IsHonest (Task.completed (pos zero)) (some (pos (suc n))) p h = cc
  final-IsHonest (Task.completed (pos zero)) (some (negsuc n)) p h = cc
  final-IsHonest (Task.completed (pos zero)) none p h = cc
  final-IsHonest (Task.completed (pos (suc n))) code p h = cc
  final-IsHonest (Task.completed (negsuc n)) code p h = cc
  final-IsHonest (Task.failed code message) observed p h = record {
    uncancelled = refl;
    observed = inl refl;
  }
  final-IsHonest (Task.stderr chunk truncated) code p h = cc
  final-IsHonest Task.started code p h = cc
  final-IsHonest (Task.stdout chunk truncated) code p h = cc
  final-IsHonest (Task.message content) code p h = cc
  final-IsHonest (Task.tool_call name parameters) code p h = cc
  final-IsHonest (Task.artifact relative_path) code p h = cc
  final-IsHonest Task.cancelled code p h = cc

  source_valid-IsHonest :
      (source : DecodedEventSource) (payload : RuntimeEventPayload)
      → source_valid source payload result.exit_code ≡ true
      → IsHonest result payload
  source_valid-IsHonest stdout payload h =
      let parts = ||-eq-false (is_completed payload) _ (not-eq-true _ h) in
      record { uncancelled = parts.1; observed = inl parts.0 }
  source_valid-IsHonest stderr payload h = stderr-IsHonest payload h
  source_valid-IsHonest finish payload h = final-IsHonest payload result.exit_code refl h

  -- What an event that is appended must be.
  pub record IsAppended (events more : List RuntimeEvent) (e : RuntimeEvent)
      (source : DecodedEventSource) : Type 0 where
    pub open_still : is_some_and (last events) is_terminal_event ≡ false
    pub event : IsEvent (length events + 1) e
    pub sourced : source_valid source e.payload result.exit_code ≡ true
    pub is : events ++ (e ∷ []) ≡ more

  pub append_decoded_event-IsAppended :
      (events more : List RuntimeEvent) (e : RuntimeEvent) (source : DecodedEventSource)
      → append_decoded_event x result events e source ≡ ok more
      → IsAppended events more e source
  unfolding append_decoded_event
  append_decoded_event-IsAppended events more e source h =
      let (_, open_still, h1) =
        >>=-eq-ok
          (fail_if (is_some_and (last events) is_terminal_event)
            (runtime_error "runtime decoder emitted data after termination"))
          _ h in
      let (_, enveloped, h2) =
        >>=-eq-ok
          (fail_if
            (not (e.run_id == result.run_id)
              || not (e.sequence == length events + 1)
              || ltb max_runtime_events e.sequence)
            (runtime_error "runtime decoder emitted an invalid event envelope"))
          _ h1 in
      let (u, bounded, h3) = >>=-eq-ok (ensure_event_bounds x e.payload e.vendor_metadata) _ h2 in
      let (_, sourced, h4) =
        >>=-eq-ok
          (fail_if (not (source_valid source e.payload result.exit_code))
            (runtime_error "runtime decoder emitted an event from an invalid source"))
          _ h3 in
      let parts =
        ||-eq-false (not (e.run_id == result.run_id) || not (e.sequence == length events + 1)) _
          (fail_if-eq-ok _ _ enveloped) in
      let both = ||-eq-false (not (e.run_id == result.run_id)) _ parts.0 in
      let checked : source_valid source e.payload result.exit_code ≡ true =
        not-eq-false _ (fail_if-eq-ok _ _ sourced) in
      record {
        open_still = fail_if-eq-ok _ _ open_still;
        event = record {
          owned = ==-eq e.run_id result.run_id (not-eq-false _ both.0);
          numbered = ==-eq e.sequence (length events + 1) (not-eq-false _ both.1);
          counted = parts.1;
          bounded = bounded;
          honest = source_valid-IsHonest source e.payload checked;
        };
        sourced = checked;
        is = ok-injective _ _ h4;
      }

  pub append_decoded_event-IsStream :
      (events more : List RuntimeEvent) (e : RuntimeEvent) (source : DecodedEventSource)
      → append_decoded_event x result events e source ≡ ok more
      → IsStream 1 events
      → IsStream 1 more
  append_decoded_event-IsStream events more e source h s =
      let a = append_decoded_event-IsAppended events more e source h in
      subst (IsStream 1) a.is
        (IsStream-snoc 1 (length events + 1) events e s a.open_still refl a.event)

  pub final-terminal :
      (payload : RuntimeEventPayload) (code : Option ℤ)
      → final_valid payload code ≡ true
      → is_terminal_payload payload ≡ true
  final-terminal (Task.completed exit_code) code h = refl
  final-terminal (Task.failed code message) observed h = refl
  final-terminal Task.cancelled code h = refl
  final-terminal (Task.stderr chunk truncated) code h = cc
  final-terminal Task.started code h = cc
  final-terminal (Task.stdout chunk truncated) code h = cc
  final-terminal (Task.message content) code h = cc
  final-terminal (Task.tool_call name parameters) code h = cc
  final-terminal (Task.artifact relative_path) code h = cc

  pub last-snoc :
      (es : List RuntimeEvent) (e : RuntimeEvent)
      → is_some_and (last (es ++ (e ∷ []))) is_terminal_event ≡ is_terminal_event e
  last-snoc [] e = refl
  last-snoc (d ∷ []) e = refl
  last-snoc (d ∷ c ∷ es) e = last-snoc (c ∷ es) e
