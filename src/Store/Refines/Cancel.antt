-- ===== src/Store/Refines/Cancel.antt =====
-- Cancellation and recovery on the memory store (crates/openwork-execution/src/store/mod.rs), as steps of
-- the machine of Lifecycle.
use openwork.Common.{
  ◌≤◌, ◌<◌, ◌≡◌, false, List, ◌++◌, str_eq, not-eq-false, refl, sym, ap, subst, ◌∙◌, true, none,
  some, [], ◌∷◌, arith, not, ◌&&◌,
}
use openwork.Common.Map.{get, insert, contains_key, get-insert_self, get-insert_ne, get-remove_self}
use openwork.Common.Exec.Rules.{
  Ensures, Ensures-pure, Ensures-with_lock, Ensures-refuse_if, Ensures-modify, Ensures-require,
  Ensures-if, Ensures-bind,
}
use openwork.Contract.{RunId, AuditEventId, UtcTimestamp, ActorId}
use openwork.Contract.External.{External}
use openwork.Contract.Run.{cancelled, is_terminal, Run}
use openwork.Contract.Audit.{cancel_requested, cancel_confirmed, AuditEvent}
use openwork.Store.{State, RunLease}
use openwork.Store.Queue.{
  CancelRequest, cancelled_now, requested, already_terminal, CancellationEvidence, is_waiting,
  is_active,
}
use openwork.Store.Queue.Ops.{
  mark_cancelled, request_leased_cancel, cancel_waiting, request_cancel, lease_cancel_requested,
  confirm_cancel,
}
use openwork.Store.Slots.{slot-eq, IsNamed, Touches, Touches-Step, Touches-refl}
use openwork.Store.Refines.{
  Appended, same_leases, same_cancels, append_memory_audit_lem, pushed, transition_lem,
}
use openwork.Store.Refines.Records.{get-none, get-some}
use openwork.Store.Refines.Touch.{Advanced, advanced, touch_moved, touch_closed}
use openwork.Lifecycle.{unleased, cancel_noted}

-- What a request to cancel has come to, by the state of the run.
pub data Asked (id : RunId) (now : UtcTimestamp) (s : State) (c : CancelRequest) (t : State)
    : Type 0 where
  over :
      (r : Run)
      → get id s.runs ≡ some r
      → is_terminal r.status ≡ true
      → c ≡ already_terminal r.status
      → t ≡ s
      → Asked id now s c t
  ended :
      (r r' : Run)
      → get id s.leases ≡ none
      → is_waiting r.status ≡ true
      → c ≡ cancelled_now
      → Advanced id r r' cancelled now cancel_confirmed s t
      → Asked id now s c t
  repeated :
      (r : Run)
      → get id s.runs ≡ some r
      → is_active r.status ≡ true
      → contains_key id s.leases ≡ true
      → contains_key id s.cancel_requested ≡ true
      → c ≡ requested
      → t ≡ s
      → Asked id now s c t
  asked :
      (r : Run) (l : RunLease) (events : List AuditEvent) (event : AuditEvent)
      → get id s.runs ≡ some r
      → is_active r.status ≡ true
      → get id s.leases ≡ some l
      → contains_key id s.cancel_requested ≡ false
      → c ≡ requested
      → get id s.audits ≡ some events
      → get id t.audits ≡ some (events ++ event ∷ [])
      → event.event_type ≡ cancel_requested
      → get id t.leases ≡ some (record l { cancel_requested = true })
      → get id t.cancel_requested ≡ some now
      → Asked id now s c t

-- A cancellation that was confirmed: by the holder of the lease, with evidence for it, of a run whose
-- cancellation was noted.
pub record Confirmed (lease : RunLease) (evidence : CancellationEvidence) (now : UtcTimestamp)
    (s : State) (r : Run) (t : State) : Type 0 where
  pub holder : RunLease
  pub held : get lease.run.id s.leases ≡ some holder
  pub before : Run
  pub moved : Advanced lease.run.id before r cancelled now cancel_confirmed s t
  pub same_run : evidence.run_id ≡ lease.run.id
  pub same_token : evidence.lease_token ≡ lease.token
  pub same_owner : str_eq evidence.lease_owner lease.owner ≡ true
  pub disposed : str_eq evidence.sandbox_id "" ≡ false
  pub token : holder.token ≡ lease.token
  pub owner : str_eq holder.owner lease.owner ≡ true
  pub carried : holder.run.revision ≡ lease.run.revision
  pub revision : before.revision ≡ lease.run.revision
  pub started : holder.acquired_at ≤ now
  pub unexpired : now < holder.expires_at
  pub noted : contains_key lease.run.id s.cancel_requested ≡ true
  pub released : get lease.run.id t.leases ≡ none
  pub settled : get lease.run.id t.cancel_requested ≡ none

mark_cancelled_lem :
    (id : RunId) (l : RunLease) (s : State)
    → get id s.leases ≡ some l
    → mark_cancelled id s
      ≡ record s { leases = insert id (record l { cancel_requested = true }) s.leases }
mark_cancelled_lem id l s h = rw (h, mark_cancelled)

module _ (x : External) where
  request_leased_cancel_lem :
      (event_id : AuditEventId) (id : RunId) (actor : ActorId) (now : UtcTimestamp) (r : Run)
      (s : State) (l : RunLease)
      → get id s.leases ≡ some l
      → get id s.runs ≡ some r
      → contains_key id s.cancel_requested ≡ false
      → is_active r.status ≡ true
      → Ensures
          (λ t. t ≡ s)
          (λ c t. Touches x id s t × Asked id now s c t)
          (request_leased_cancel x event_id id actor now r s)
          s
  unfolding request_leased_cancel
  request_leased_cancel_lem event_id id actor now r s l held stored first active =
      Ensures-refuse_if _ _ _ refl λ late.
        Ensures-bind _ _ _ _ (append_memory_audit_lem x event_id id actor now cancel_requested s)
          (λ t e. e)
          λ _ t (a, typed). Ensures-modify _ _ (
            Ensures-modify _ _ (
              Ensures-pure _ (
                subst
                  (λ u.
                    Touches x id s (mark_cancelled id (noted u))
                    × Asked id now s requested (mark_cancelled id (noted u)))
                  (sym a.result)
                  (subst (λ u. Touches x id s u × Asked id now s requested u)
                    (sym (mark_cancelled_lem id l (noted (after a)) held))
                    (marked a, written a typed)))))
    where
      noted : State → State
      noted u = record u { cancel_requested = insert id now u.cancel_requested }

      after : {t : State} → Appended x id now s t → State
      after a = pushed id a.events (a.event ∷ []) s

      written :
          {t : State} (a : Appended x id now s t)
          → a.event.event_type ≡ cancel_requested
          → Asked id now s requested (record (noted (after a)) {
            leases = insert id (record l { cancel_requested = true }) s.leases;
          })
      written a typed =
          asked r l a.events a.event stored active held first refl a.held
            (get-insert_self id _ s.audits) typed (get-insert_self id _ s.leases)
            (get-insert_self id now s.cancel_requested)

      marked :
          {t : State} (a : Appended x id now s t)
          → Touches x id s (record (noted (after a)) {
            leases = insert id (record l { cancel_requested = true }) s.leases;
          })
      marked a =
          Touches-Step x id s _
            (cancel_noted l _ a.events (a.event ∷ []) now held a.held a.extends refl (
              slot-eq refl (get-insert_self id _ s.audits) (get-insert_self id _ s.leases)
                (get-insert_self id now s.cancel_requested)))
            λ j h.
              slot-eq refl (get-insert_ne id j _ s.audits h) (get-insert_ne id j _ s.leases h)
                (get-insert_ne id j now s.cancel_requested h)

  cancel_waiting_lem :
      (event_id : AuditEventId) (id : RunId) (actor : ActorId) (now : UtcTimestamp) (r : Run)
      (s : State)
      → r.id ≡ id
      → get id s.runs ≡ some r
      → get id s.leases ≡ none
      → is_waiting r.status ≡ true
      → Ensures
          (λ t. t ≡ s)
          (λ c t. Touches x id s t × Asked id now s c t)
          (cancel_waiting x event_id id actor now r s)
          s
  unfolding cancel_waiting
  cancel_waiting_lem event_id id actor now r s named stored free waits =
      Ensures-refuse_if _ _ _ refl λ late.
        Ensures-bind _ _ _ _ (transition_lem x event_id r _ none now actor _ s) (λ t e. e)
          λ r' t tr. Ensures-pure _ (
            touch_moved x id s t tr named stored refl refl
                (unleased free (ap (get id) (same_leases tr) ∙ free)
                  (ap (get id) (same_cancels tr)))
                (λ j h. ap (get j) (same_leases tr)) (λ j h. ap (get j) (same_cancels tr)),
            ended r r' free waits refl (advanced s t tr named stored refl refl),
          )

  -- With runs stored under their own identifiers, request_cancel fails without a change, or succeeds in
  -- one of four ways: the run is terminal, and nothing changes; it is queued or waiting without a
  -- lease, and is stored as cancelled with one more event, that of a confirmed cancellation; it is
  -- active under a lease with its cancellation noted, and nothing changes; or it is active under a
  -- lease, and then the cancellation is noted with its time, the lease shows it and the chain has one
  -- more event, that of a requested cancellation. The result is the one of that way, requested in both
  -- of the last. That run took steps of its life (Lifecycle.Step) only, and every other run is as it
  -- was.
  pub request_cancel_lem :
      (event_id : AuditEventId) (id : RunId) (actor : ActorId) (now : UtcTimestamp) (s : State)
      → IsNamed s
      → Ensures
          (λ t. t ≡ s)
          (λ c t. Touches x id s t × Asked id now s c t)
          (request_cancel x event_id id actor now)
          s
  unfolding request_cancel
  request_cancel_lem event_id id actor now s named = Ensures-with_lock _ (
      Ensures-require _ _ _ refl λ r stored.
        Ensures-if (is_terminal r.status) _ _
          (λ done. Ensures-pure _ (Touches-refl x id s, over r stored done refl refl))
          λ live.
            Ensures-if (is_waiting r.status && not (contains_key id s.leases)) _ _
              (λ waiting.
                cancel_waiting_lem event_id id actor now r s (named id r stored) stored
                  (get-none _ (ground arith)) (ground arith))
              λ busy. Ensures-refuse_if _ _ _ refl λ active.
                Ensures-refuse_if (not (contains_key id s.leases)) _ _ refl λ leased.
                  Ensures-if (contains_key id s.cancel_requested) _ _
                    (λ again. Ensures-pure _ (
                      Touches-refl x id s,
                      repeated r stored (not-eq-false _ active) (not-eq-false _ leased) again refl
                          refl,
                    ))
                    λ first.
                      let (l, held) = get-some (get id s.leases) (ground arith) in
                      request_leased_cancel_lem event_id id actor now r s l held stored first
                        (not-eq-false _ active))

  pub lease_cancel_requested_lem :
      (lease : RunLease) (now : UtcTimestamp) (s : State)
      → Ensures (λ t. t ≡ s) (λ b t. t ≡ s) (lease_cancel_requested x lease now) s
  unfolding lease_cancel_requested
  lease_cancel_requested_lem lease now s = Ensures-with_lock _ (
      Ensures-require _ _ _ refl
        λ holder held. Ensures-refuse_if _ _ _ refl λ current. Ensures-pure _ refl)

  -- With runs stored under their own identifiers, confirm_cancel fails without a change, or succeeds:
  -- then the evidence is of a sandbox and of the run, token and owner of the lease presented, which was
  -- the stored, current and unexpired one, and the cancellation was noted; the run returned is the
  -- stored one, moved to cancelled at that time with one more event on its chain, that of a confirmed
  -- cancellation, and its lease and the note are gone; then that run took steps of its life
  -- (Lifecycle.Step) only, and every other run is as it was.
  pub confirm_cancel_lem :
      (event_id : AuditEventId) (lease : RunLease) (now : UtcTimestamp)
      (evidence : CancellationEvidence) (s : State)
      → IsNamed s
      → Ensures
          (λ t. t ≡ s)
          (λ r t. Touches x lease.run.id s t × Confirmed lease evidence now s r t)
          (confirm_cancel x event_id lease now evidence)
          s
  unfolding confirm_cancel
  confirm_cancel_lem event_id lease now evidence s named = Ensures-refuse_if _ _ _ refl λ matches.
      Ensures-with_lock _ (
        Ensures-require _ _ _ refl λ holder held. Ensures-refuse_if _ _ _ refl λ eligible.
          Ensures-require _ _ _ refl λ r stored. Ensures-refuse_if _ _ _ refl λ current.
            Ensures-refuse_if _ _ _ refl λ late.
              Ensures-bind _ _ _ _ (transition_lem x event_id r cancelled none now lease.owner _ s)
                (λ t e. e)
                λ r' t tr. Ensures-modify _ _ (
                  Ensures-pure r' (
                    touch_closed x s t tr (named lease.run.id r stored) stored
                        (unfold is_terminal in refl),
                    record {
                      holder = holder;
                      held = held;
                      before = r;
                      moved = advanced s _ tr (named lease.run.id r stored) stored refl refl;
                      same_run = ground arith;
                      same_token = ground arith;
                      same_owner = ground arith;
                      disposed = ground arith;
                      token = ground arith;
                      owner = ground arith;
                      carried = ground arith;
                      revision = ground arith;
                      started = ground arith;
                      unexpired = ground arith;
                      noted = ground arith;
                      released = get-remove_self lease.run.id t.leases;
                      settled = get-remove_self lease.run.id t.cancel_requested;
                    },
                  )))
