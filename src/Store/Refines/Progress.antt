-- ===== src/Store/Refines/Progress.antt =====
-- Conditions under which claims, completions and cancellations on the memory store
-- (crates/openwork-execution/src/store/mod.rs) end in success.
use openwork.Common.{
  ℕ, ◌≤◌, ◌<◌, ◌≡◌, refl, sym, ap, subst, ◌∙◌, true, false, not, ◌&&◌, ◌||◌, Option, none, some,
  List, String, arith, length, ltb,
}
use openwork.Common.Int.{ℤ}
use openwork.Common.Map.{get, contains_key, get-insert_self, get-remove_self}
use openwork.Common.Result.{ok}
use openwork.Common.Exec.Rules.{
  Ensures, Ensures-pure, Ensures-with_lock, Ensures-pass, Ensures-lift-ok, Ensures-modify,
  Ensures-require-some, Ensures-bind, Ensures-if, Ensures-weaken, Ensures-both,
}
use openwork.Contract.{RunId, AuditEventId, UtcTimestamp, ActorId, u64_max}
use openwork.Contract.External.{External}
use openwork.Contract.Run.{
  RunStatus, can_transition_to, planning, cancelled, is_terminal, is_queued, is_succeeded, Run,
}
use openwork.Contract.Audit.{AuditEvent, runtime_selected, cancel_confirmed}
use openwork.Audit.Chain.{end_time}
use openwork.Store.{State, RunLease, LeaseToken, precedes_last, or_empty, transition_event}
use openwork.Store.Chains.{end_time-le}
use openwork.Store.Queue.{
  checked_lease_expiry, lease_not_current, validate_memory_lease, least, is_completion,
  cancelled_now, is_waiting,
}
use openwork.Store.Queue.Ops.{
  claim_chosen, claim_next_run, complete_leased_run, request_cancel, cancel_waiting,
}
use openwork.Store.Slots.{slot}
use openwork.Store.Validity.{IsValid, IsValid-IsNamed}
use openwork.Store.Refines.Touch.{Advanced}
use openwork.Store.Refines.Queue.{complete_leased_run_lem}
use openwork.Store.Refines.Success.{transition_fits}
use openwork.Lifecycle.Soundness.{parts_of_run}

same_run : {o : Option Run} {r c : Run} → o ≡ some c → o ≡ some r → c ≡ r
same_run h k = cc

queued_may_plan : (s : RunStatus) → is_queued s ≡ true → can_transition_to s planning ≡ true
unfolding can_transition_to
queued_may_plan s h = ground arith

module _ (x : External) where
  -- In a valid store a run is not ahead of its chain.
  not_ahead :
      (id : RunId) (now : UtcTimestamp) (s : State) (r : Run) (events : List AuditEvent)
      → IsValid x s
      → get id s.runs ≡ some r
      → get id s.audits ≡ some events
      → precedes_last now events ≡ false
      → (r.updated_at ≤ now) × (r.id ≡ id)
  not_ahead id now s r events v stored held late =
      let (es, held', tracked, _) = parts_of_run x id (slot s id) r (v id) stored in
      let same : es ≡ events = ground arith in
      (
        omega (arith, tracked.recent, ap (end_time 0) same, end_time-le now events late),
        tracked.named,
      )

  -- The chain of a stored run, and what is assumed of it.
  chain_of :
      (id : RunId) (now : UtcTimestamp) (s : State) (r : Run)
      → IsValid x s
      → get id s.runs ≡ some r
      → precedes_last now (or_empty (get id s.audits)) ≡ false
      → length (or_empty (get id s.audits)) < u64_max
      → (events : List AuditEvent) × (get id s.audits ≡ some events)
        × (precedes_last now events ≡ false)
        × (length events < u64_max)
  chain_of id now s r v stored late room =
      let (es, held, _, _) = parts_of_run x id (slot s id) r (v id) stored in
      (
        es,
        held,
        subst (λ o. precedes_last now (or_empty o) ≡ false) held late,
        subst (λ o. length (or_empty o) < u64_max) held room,
      )

  -- From a valid store whose search finds a queued run, with a legal ttl, a time that is not before the
  -- end of its chain and no overflow of its revision or chain, claim_next_run succeeds and gives out a
  -- lease of the run in planning, with the token and the expiry computed, which the store holds.
  pub claim_next_run_succeeds :
      (event_id : AuditEventId) (token : LeaseToken) (owner : ActorId)
      (now expires_at : UtcTimestamp) (ttl : ℤ) (s : State) (id : RunId) (c r : Run)
      → IsValid x s
      → checked_lease_expiry x now ttl ≡ ok expires_at
      → least s.leases s.runs none ≡ some (id, c)
      → get id s.runs ≡ some r
      → is_queued r.status ≡ true
      → precedes_last now (or_empty (get id s.audits)) ≡ false
      → r.revision < u64_max
      → length (or_empty (get id s.audits)) < u64_max
      → Ensures
          (λ _. ⊥)
          (λ l t.
            (lease : RunLease) × (l ≡ some lease)
            × (get id t.leases ≡ some lease)
            × (lease.run.status ≡ planning)
            × (lease.token ≡ token)
            × (lease.expires_at ≡ expires_at))
          (claim_next_run x event_id token owner now ttl)
          s
  unfolding claim_next_run claim_chosen
  claim_next_run_succeeds event_id token owner now expires_at ttl s id c r v timed first stored
        queued ahead small space =
      let (events, held, late, room) = chain_of id now s r v stored ahead space in
      let (forward, named) = not_ahead id now s r events v stored held late in
      Ensures-lift-ok _ _ expires_at timed (
        Ensures-with_lock _ (
          rw (first) (
            Ensures-require-some _ _ _ r stored (
              Ensures-pass _ _ _ (ground arith) (
                Ensures-bind _ _ _ _
                  (transition_fits x event_id r planning none now owner runtime_selected s events
                    (queued_may_plan r.status queued) forward small
                    (ap (λ k. get k s.audits) named ∙ held) late room)
                  (λ u c. c)
                  λ r' u q.
                    Ensures-modify _ _ (
                      Ensures-pure _ (_, refl, get-insert_self id _ u.leases, q.0, refl, refl)))))))

  validated :
      (lease holder : RunLease) (expected : ℕ) (now : UtcTimestamp) (s : State) (r : Run)
      (events : List AuditEvent)
      → get lease.run.id s.leases ≡ some holder
      → get lease.run.id s.runs ≡ some r
      → lease_not_current holder lease r expected now ≡ false
      → r.updated_at ≤ now
      → get lease.run.id s.audits ≡ some events
      → precedes_last now events ≡ false
      → Ensures (λ _. ⊥) (λ c u. (c ≡ r) × (u ≡ s)) (validate_memory_lease s lease expected now) s
  unfolding validate_memory_lease
  validated lease holder expected now s r events leased stored current forward held late =
      Ensures-require-some _ _ _ holder leased (
        Ensures-require-some _ _ _ r stored (
          Ensures-pass _ _ _ current
            (Ensures-pass _ _ _ (ground arith) (Ensures-pure r (refl, refl)))))

  complete_leased_run_ends :
      (event_id : AuditEventId) (lease holder : RunLease) (expected : ℕ) (next : RunStatus)
      (reason : Option String) (now : UtcTimestamp) (s : State) (r : Run)
      → IsValid x s
      → get lease.run.id s.leases ≡ some holder
      → get lease.run.id s.runs ≡ some r
      → lease_not_current holder lease r expected now ≡ false
      → is_completion next ≡ true
      → can_transition_to r.status next ≡ true
      → (is_succeeded next && contains_key lease.run.id s.cancel_requested) ≡ false
      → precedes_last now (or_empty (get lease.run.id s.audits)) ≡ false
      → r.revision < u64_max
      → length (or_empty (get lease.run.id s.audits)) < u64_max
      → Ensures
          (λ _. ⊥)
          (λ r' t. get lease.run.id t.leases ≡ none)
          (complete_leased_run x event_id lease expected next reason now)
          s
  unfolding complete_leased_run
  complete_leased_run_ends event_id lease holder expected next reason now s r v leased stored
        current ending legal wanted ahead small space =
      let (events, held, late, room) = chain_of lease.run.id now s r v stored ahead space in
      let (forward, named) = not_ahead lease.run.id now s r events v stored held late in
      Ensures-pass _ _ _ (ground arith) (
        Ensures-with_lock _ (
          Ensures-bind _ _ _ _
            (validated lease holder expected now s r events leased stored current forward held late)
            (λ u c. c)
            λ c u same.
              rw (same.0, same.1)
                (Ensures-pass _ _ _ wanted (
                  Ensures-bind _ _ _ _
                    (transition_fits x event_id r next reason now lease.owner
                      (transition_event next) s events legal forward small
                      (ap (λ k. get k s.audits) named ∙ held) late room)
                    (λ w c. c)
                    λ r' w q.
                      Ensures-modify _ _
                        (Ensures-pure r' (get-remove_self lease.run.id w.leases))))))

  -- From a valid store, a completion with a current lease, to a legal final state that is not success
  -- after a noted cancellation, at a time that is not before the end of the chain and without an
  -- overflow, succeeds: the run returned is the stored one, moved from the old one to that state at
  -- that time, its chain has one more event, of the type of that state, and its lease is gone.
  pub complete_leased_run_succeeds :
      (event_id : AuditEventId) (lease holder : RunLease) (expected : ℕ) (next : RunStatus)
      (reason : Option String) (now : UtcTimestamp) (s : State) (r : Run)
      → IsValid x s
      → get lease.run.id s.leases ≡ some holder
      → get lease.run.id s.runs ≡ some r
      → lease_not_current holder lease r expected now ≡ false
      → is_completion next ≡ true
      → can_transition_to r.status next ≡ true
      → (is_succeeded next && contains_key lease.run.id s.cancel_requested) ≡ false
      → precedes_last now (or_empty (get lease.run.id s.audits)) ≡ false
      → r.revision < u64_max
      → length (or_empty (get lease.run.id s.audits)) < u64_max
      → Ensures
          (λ _. ⊥)
          (λ r' t.
            (get lease.run.id t.leases ≡ none)
            × Advanced lease.run.id r r' next now (transition_event next) s t)
          (complete_leased_run x event_id lease expected next reason now)
          s
  complete_leased_run_succeeds event_id lease holder expected next reason now s r v leased stored
        current ending legal wanted ahead small space =
      Ensures-weaken
        (Ensures-both
          (complete_leased_run_ends event_id lease holder expected next reason now s r v leased
            stored current ending legal wanted ahead small space)
          (complete_leased_run_lem x event_id lease expected next reason now s
            (IsValid-IsNamed x s v)))
        (λ u c. c)
        λ r' t (freed, h).
          let (c, a) = h.4 in
          let same : c ≡ r = same_run a.stored stored in
          (
            freed,
            subst (λ b. Advanced lease.run.id b r' next now (transition_event next) s t) same a,
          )

  waiting_may_cancel :
      (s : RunStatus)
      → is_waiting s ≡ true
      → (is_terminal s ≡ false) × (can_transition_to s cancelled ≡ true)
  unfolding is_terminal can_transition_to
  waiting_may_cancel s h = (ground arith, ground arith)

  -- From a valid store, a cancellation of a queued or waiting run without a lease, at a time that is
  -- not before the end of its chain and without an overflow, succeeds at once: the stored run is
  -- cancelled.
  pub request_cancel_succeeds :
      (event_id : AuditEventId) (id : RunId) (actor : ActorId) (now : UtcTimestamp) (s : State)
      (r : Run)
      → IsValid x s
      → get id s.runs ≡ some r
      → is_waiting r.status ≡ true
      → get id s.leases ≡ none
      → precedes_last now (or_empty (get id s.audits)) ≡ false
      → r.revision < u64_max
      → length (or_empty (get id s.audits)) < u64_max
      → Ensures
          (λ _. ⊥)
          (λ c t.
            (c ≡ cancelled_now)
            × ((r' : Run) × (r'.status ≡ cancelled) × (get id t.runs ≡ some r')))
          (request_cancel x event_id id actor now)
          s
  unfolding request_cancel cancel_waiting
  request_cancel_succeeds event_id id actor now s r v stored waits free ahead small space =
      let (open_now, legal) = waiting_may_cancel r.status waits in
      let (events, held, late, room) = chain_of id now s r v stored ahead space in
      let (forward, named) = not_ahead id now s r events v stored held late in
      let in_time : (ltb now r.updated_at || precedes_last now (or_empty (get id s.audits)))
          ≡ false =
        ground arith in
      let cancelling =
        transition_fits x event_id r cancelled none now actor cancel_confirmed s events legal
          forward small (ap (λ k. get k s.audits) named ∙ held) late room in
      Ensures-with_lock _ (
        Ensures-require-some _ _ _ r stored (
          Ensures-if (is_terminal r.status) _ _ (λ ended. absurd (ground arith))
            λ _.
              Ensures-if (is_waiting r.status && not (contains_key id s.leases)) _ _
                (λ _. Ensures-pass _ _ _ in_time (
                  Ensures-bind _ _ _ _ cancelling (λ u c. c)
                    λ r' u q.
                      Ensures-pure cancelled_now
                        (refl, (r', q.0, ap (λ k. get k u.runs) (sym named) ∙ q.1))))
                (λ bad. absurd (ground arith))))
