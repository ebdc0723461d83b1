-- ===== src/Store/Refines/Queue.antt =====
-- The operations of `RunQueueRepository` on the memory store
-- (crates/openwork-execution/src/store/mod.rs), as steps of the machine of Lifecycle.
use openwork.Common.{
  ℕ, String, ◌≤◌, ◌<◌, ◌≡◌, refl, sym, ap, subst, ◌∙◌, true, false, Option, none, some, List, [],
  ◌∷◌, arith, ◌&&◌, str_eq,
}
use openwork.Common.Int.{ℤ}
use openwork.Common.Map.{get, contains_key, get-insert_self, get-insert_ne, get-remove_self}
use openwork.Common.Exec.Rules.{
  Ensures, Ensures-pure, Ensures-with_lock, Ensures-refuse_if, Ensures-modify, Ensures-require,
  Ensures-require-some, Ensures-lift, Ensures-weaken, Ensures-bind, Ensures-check,
  Ensures-get_state,
}
use openwork.Contract.{RunId, AuditEventId, UtcTimestamp, ActorId}
use openwork.Contract.External.{External}
use openwork.Contract.Run.{RunStatus, planning, is_terminal, is_succeeded, Run, Artifact}
use openwork.Contract.Audit.{AuditEventType, AuditEvent, runtime_selected}
use openwork.Audit.{new_append}
use openwork.Store.{State, RunLease, LeaseToken, precedes_last, or_empty, transition_event}
use openwork.Store.Queue.{lease_not_current, validate_memory_lease, is_completion}
use openwork.Store.Queue.Ops.{
  claim_chosen, heartbeat_lease, transition_leased_run, complete_leased_run,
  append_leased_runtime_audit, record_leased_artifacts,
}
use openwork.Store.Chains.{build-Extends, artifact_events-Extends}
use openwork.Store.Slots.{slot-eq, IsNamed, Touches, Touches-Step}
use openwork.Store.Refines.{
  same_leases, same_cancels, transition_lem, push_events-Ensures, push_events_lem,
}
use openwork.Store.Refines.Filing.{validate_artifact_batch_lem, BatchFits, Filed, filed}
use openwork.Store.Refines.Touch.{Advanced, advanced, touch_logged, touch_moved, touch_closed}
use openwork.Lifecycle.{claimed, refreshed, renewed}

-- What `validate_memory_lease` has checked: the lease that is presented, and the run's revision.
pub record Validated (s : State) (lease : RunLease) (expected : ℕ) (now : UtcTimestamp) (r : Run)
    : Type 0 where
  pub holder : RunLease
  pub held : get lease.run.id s.leases ≡ some holder
  pub stored : get lease.run.id s.runs ≡ some r
  pub token : holder.token ≡ lease.token
  pub owner : str_eq holder.owner lease.owner ≡ true
  pub revision : r.revision ≡ expected
  pub started : holder.acquired_at ≤ now
  pub unexpired : now < holder.expires_at
  pub late : precedes_last now (or_empty (get lease.run.id s.audits)) ≡ false

pub validate_memory_lease_lem :
    (lease : RunLease) (expected : ℕ) (now : UtcTimestamp) (s : State)
    → Ensures
        (λ t. t ≡ s)
        (λ r t. (t ≡ s) × Validated s lease expected now r)
        (validate_memory_lease s lease expected now)
        s
unfolding validate_memory_lease lease_not_current
validate_memory_lease_lem lease expected now s = Ensures-require _ _ _ refl λ holder held.
    Ensures-require _ _ _ refl λ r stored. Ensures-refuse_if _ _ _ refl λ current.
      Ensures-refuse_if _ _ _ refl λ late. Ensures-pure r (
        refl,
        record {
          holder = holder;
          held = held;
          stored = stored;
          token = ground arith;
          owner = ground arith;
          revision = ground arith;
          started = ground arith;
          unexpired = ground arith;
          late = ground arith;
        },
      )

-- The lease that a claim of a run gives out, which the store then holds.
pub record Claimed (id : RunId) (token : LeaseToken) (owner : ActorId)
    (now expires_at : UtcTimestamp) (s : State) (l : Option RunLease) (t : State) : Type 0 where
  pub before : Run
  pub lease : RunLease
  pub given : l ≡ some lease
  pub free : get id s.leases ≡ none
  pub moved : Advanced id before lease.run planning now runtime_selected s t
  pub held : get id t.leases ≡ some lease
  pub token_given : lease.token ≡ token
  pub owner_given : lease.owner ≡ owner
  pub acquired : lease.acquired_at ≡ now
  pub expires : lease.expires_at ≡ expires_at
  pub uncancelled : lease.cancel_requested ≡ false

-- What a transition under a lease has done: the run is moved, and the lease carries it.
pub record Carried (lease : RunLease) (expected : ℕ) (next : RunStatus) (now : UtcTimestamp)
    (s : State) (l : RunLease) (t : State) : Type 0 where
  pub before : Run
  pub valid : Validated s lease expected now before
  pub open_still : is_terminal next ≡ false
  pub moved : Advanced lease.run.id before l.run next now (transition_event next) s t
  pub held : get lease.run.id t.leases ≡ some l
  pub renewed : l ≡ record valid.holder {
    run = l.run;
    cancel_requested = contains_key lease.run.id s.cancel_requested;
  }

completion_is_terminal : (n : RunStatus) → is_completion n ≡ true → is_terminal n ≡ true
unfolding is_terminal
completion_is_terminal n h = ground arith

module _ (x : External) where
  pub claim_chosen_lem :
      (event_id : AuditEventId) (token : LeaseToken) (owner : ActorId)
      (now expires_at : UtcTimestamp) (s : State) (id : RunId) (c : Run)
      → IsNamed s
      → get id s.leases ≡ none
      → Ensures
          (λ t. t ≡ s)
          (λ l t. Touches x id s t × Claimed id token owner now expires_at s l t)
          (claim_chosen x event_id token owner now expires_at s (some (id, c)))
          s
  unfolding claim_chosen
  claim_chosen_lem event_id token owner now expires_at s id c named free =
      Ensures-require _ _ _ refl λ r stored. Ensures-refuse_if _ _ _ refl λ forward.
        Ensures-bind _ _ _ _
          (transition_lem x event_id r planning none now owner runtime_selected s) (λ t e. e)
          λ r' t tr. Ensures-modify _ _ (
            Ensures-pure _ (
              touch_moved x id s _ tr (named id r stored) stored refl refl
                  (claimed _ free refl (get-insert_self id _ t.leases) refl
                    (ap (get id) (same_cancels tr)))
                  (λ j h. get-insert_ne id j _ t.leases h ∙ ap (get j) (same_leases tr))
                  (λ j h. ap (get j) (same_cancels tr)),
              record {
                before = r;
                lease = _;
                given = refl;
                free = free;
                moved = advanced s _ tr (named id r stored) stored refl refl;
                held = get-insert_self id _ t.leases;
                token_given = refl;
                owner_given = refl;
                acquired = refl;
                expires = refl;
                uncancelled = refl;
              },
            ))

  -- heartbeat_lease fails without a change, or succeeds; then that run took steps of its life
  -- (Lifecycle.Step) only, and every other run is as it was.
  pub heartbeat_lease_lem :
      (lease : RunLease) (now : UtcTimestamp) (ttl : ℤ) (s : State)
      → Ensures (λ t. t ≡ s) (λ l t. Touches x lease.run.id s t) (heartbeat_lease x lease now ttl) s
  unfolding heartbeat_lease
  heartbeat_lease_lem lease now ttl s = Ensures-lift _ _ refl λ expires_at _. Ensures-with_lock _ (
      Ensures-require _ _ _ refl λ r stored. Ensures-require _ _ _ refl λ holder held.
        Ensures-refuse_if _ _ _ refl λ current. Ensures-modify _ _ (
          Ensures-pure _ (
            Touches-Step x lease.run.id s _
              (renewed holder _ held refl
                (slot-eq refl refl (get-insert_self lease.run.id _ s.leases) refl))
              λ j h. slot-eq refl refl (get-insert_ne lease.run.id j _ s.leases h) refl)))

  -- With runs stored under their own identifiers, transition_leased_run fails without a change, or
  -- succeeds: then the state asked for is not terminal and the lease presented was the stored, current
  -- and unexpired one of that token, owner and revision; the run is moved to that state at that time
  -- with one more event on its chain, of the type of that state, and the stored lease is the one
  -- returned, the old one with the moved run and the noted cancellation; then that run took steps of
  -- its life (Lifecycle.Step) only, and every other run is as it was.
  pub transition_leased_run_lem :
      (event_id : AuditEventId) (lease : RunLease) (expected : ℕ) (n : RunStatus)
      (now : UtcTimestamp) (s : State)
      → IsNamed s
      → Ensures
          (λ t. t ≡ s)
          (λ l t. Touches x lease.run.id s t × Carried lease expected n now s l t)
          (transition_leased_run x event_id lease expected n now)
          s
  unfolding transition_leased_run
  transition_leased_run_lem event_id lease expected n now s named =
      Ensures-refuse_if _ _ _ refl λ active. Ensures-with_lock _ (
        Ensures-check _ _ _ (validate_memory_lease_lem lease expected now s) refl λ r v.
          Ensures-bind _ _ _ _
            (transition_lem x event_id r n none now lease.owner (transition_event n) s) (λ t e. e)
            λ r' t tr. Ensures-get_state _ (
              Ensures-require-some _ _ _ v.holder (ap (get lease.run.id) (same_leases tr) ∙ v.held)
                (Ensures-modify _ _ (
                  Ensures-pure _ (
                    touch_moved x lease.run.id s _ tr (named lease.run.id r v.stored) v.stored refl
                        refl
                        (refreshed _ active (get-insert_self lease.run.id _ t.leases)
                          (ap (λ m. contains_key lease.run.id m) (same_cancels tr))
                          (ap (get lease.run.id) (same_cancels tr)))
                        (λ j h.
                          get-insert_ne lease.run.id j _ t.leases h ∙ ap (get j) (same_leases tr))
                        (λ j h. ap (get j) (same_cancels tr)),
                    record {
                      before = r;
                      valid = v;
                      open_still = active;
                      moved = advanced s _ tr (named lease.run.id r v.stored) v.stored refl refl;
                      held = get-insert_self lease.run.id _ t.leases;
                      renewed =
                          ap (λ b. record v.holder { run = r'; cancel_requested = b })
                            (ap (λ m. contains_key lease.run.id m) (same_cancels tr));
                    },
                  )))))

  -- With runs stored under their own identifiers, complete_leased_run fails without a change, or
  -- succeeds: then the lease presented was the stored, current and unexpired one of that token, owner
  -- and revision, and success was not reported of a run with a cancellation noted; the run returned has
  -- the state asked for and is the stored one, moved to it at that time with one more event on its
  -- chain, of the type of that state, and its lease is gone; then that run took steps of its life
  -- (Lifecycle.Step) only, and every other run is as it was.
  pub complete_leased_run_lem :
      (event_id : AuditEventId) (lease : RunLease) (expected : ℕ) (n : RunStatus)
      (reason : Option String) (now : UtcTimestamp) (s : State)
      → IsNamed s
      → Ensures
          (λ t. t ≡ s)
          (λ r t.
            Touches x lease.run.id s t
            × ((c : Run) × Validated s lease expected now c)
            × (is_succeeded n && contains_key lease.run.id s.cancel_requested ≡ false)
            × (r.status ≡ n)
            × ((c : Run) × Advanced lease.run.id c r n now (transition_event n) s t)
            × (get lease.run.id t.leases ≡ none))
          (complete_leased_run x event_id lease expected n reason now)
          s
  unfolding complete_leased_run
  complete_leased_run_lem event_id lease expected n reason now s named =
      Ensures-refuse_if _ _ _ refl λ ending. Ensures-with_lock _ (
        Ensures-check _ _ _ (validate_memory_lease_lem lease expected now s) refl λ r v.
          Ensures-refuse_if _ _ _ refl λ wanted.
            Ensures-bind _ _ _ _
              (transition_lem x event_id r n reason now lease.owner (transition_event n) s)
              (λ t e. e)
              λ r' t tr. Ensures-modify _ _ (
                Ensures-pure r' (
                  touch_closed x s t tr (named lease.run.id r v.stored) v.stored
                      (completion_is_terminal n (ground arith)),
                  (r, v),
                  wanted,
                  tr.moved.reached,
                  (r, advanced s _ tr (named lease.run.id r v.stored) v.stored refl refl),
                  get-remove_self lease.run.id t.leases,
                )))

  -- The check of the chain's end, where the chain is there.
  at_end :
      (now : UtcTimestamp) (id : RunId) (s : State) (events : List AuditEvent)
      → get id s.audits ≡ some events
      → precedes_last now (or_empty (get id s.audits)) ≡ false
      → precedes_last now events ≡ false
  at_end now id s events held late = subst (λ o. precedes_last now (or_empty o) ≡ false) held late

  -- append_leased_runtime_audit fails without a change, or succeeds; then that run took steps of its
  -- life (Lifecycle.Step) only, and every other run is as it was.
  pub append_leased_runtime_audit_lem :
      (event_id : AuditEventId) (lease : RunLease) (expected : ℕ) (type : AuditEventType)
      (now : UtcTimestamp) (s : State)
      → Ensures
          (λ t. t ≡ s)
          (λ e t. Touches x lease.run.id s t)
          (append_leased_runtime_audit x event_id lease expected type now)
          s
  unfolding append_leased_runtime_audit
  append_leased_runtime_audit_lem event_id lease expected type now s =
      Ensures-refuse_if _ _ _ refl λ worker. Ensures-with_lock _ (
        Ensures-check _ _ _ (validate_memory_lease_lem lease expected now s) refl λ r v.
          Ensures-require _ _ _ refl λ events held. Ensures-lift _ _ refl λ n count.
            Ensures-lift _ _ refl λ event built.
              push_events-Ensures lease.run.id events (event ∷ []) _ _ held (
                Ensures-pure event (
                  touch_logged x lease.run.id s _ events (event ∷ []) held
                    (build-Extends x event_id (new_append lease.owner now) lease.run.id events n
                      type event (at_end now lease.run.id s events held v.late) count built).0
                    refl refl refl refl)))

  pub record_leased_artifacts_lem :
      (event_ids : ℕ → AuditEventId) (lease : RunLease) (expected : ℕ) (files : List Artifact)
      (now : UtcTimestamp) (s : State)
      → Ensures
          (λ t. t ≡ s)
          (λ _ t. Touches x lease.run.id s t × Filed lease.run.id files s t)
          (record_leased_artifacts x event_ids lease expected files now)
          s
  unfolding record_leased_artifacts
  record_leased_artifacts_lem event_ids lease expected files now s = Ensures-with_lock _ (
      Ensures-check _ _ _ (validate_memory_lease_lem lease expected now s) refl λ r v.
        Ensures-check (λ _. BatchFits s lease.run.id files) _ _
          (validate_artifact_batch_lem lease.run.id files s) refl
          λ _ fits. Ensures-require _ _ _ refl λ chain held. Ensures-lift _ _ refl λ n count.
            Ensures-lift _ _ refl λ events built.
              let (extends, size, _) =
                artifact_events-Extends x (new_append lease.owner now) lease.run.id event_ids n
                  files chain events (at_end now lease.run.id s chain held v.late) count built in
              Ensures-modify _ _ (
                Ensures-weaken (push_events_lem lease.run.id chain events _ held) (λ t c. absurd c)
                  λ _ t q.
                    subst (λ u. Touches x lease.run.id s u × Filed lease.run.id files s u) (sym q)
                      (
                        touch_logged x lease.run.id s _ chain events held extends refl refl refl
                            refl,
                        filed lease.run.id files s chain events held size fits.0,
                      )))
