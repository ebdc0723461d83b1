-- ===== src/Worker/Routing.antt =====
-- The routing of a claimed run to an adapter (crates/openwork-worker/src/lib.rs).
use openwork.Common.{
  ◌⊎◌, inl, inr, String, ◌≡◌, refl, sym, ap, subst, ◌∙◌, Bool, true, false, not, Option, none, some,
  List, [], ◌∷◌, is_some, str_eq, if◌then◌else◌,
}
use openwork.Common.Result.{
  OpenWorkError, ok, fail_if, ok_or_else, fail_if-eq-ok, >>=-eq-ok, ok-injective,
}
use openwork.Store.{RunLease}
use openwork.Worker.{worker_error, auto_runtime_id}
use openwork.Worker.Select.{
  WorkerTaskSpec, RuntimeExecutableConfig, RuntimeSelection, TaskAdapter, available_in_auto_order,
  configured_runtime, select_auto, select_explicit, select_runtime, new_router, resolve_task_spec,
  adapter,
}
use openwork.Worker.Adapters.{IsAdapterOf, new_router-holds, first_available, explicit}

-- A selection that has an adapter, and that is the runtime asked for unless the choice was left open.
pub record IsRouted (c : RuntimeExecutableConfig) (requested : String)
    (selection : RuntimeSelection) : Type 0 where
  pub chosen : TaskAdapter
  pub fits : IsAdapterOf c selection.selected_runtime chosen
  pub found : adapter (new_router c) selection ≡ ok chosen
  pub asked : (str_eq requested auto_runtime_id ≡ true) ⊎ (selection.selected_runtime ≡ requested)

ok_or_else-eq-ok :
    (o : Option (Option String)) (e : OpenWorkError) (p : Option String)
    → ok_or_else o e ≡ ok p
    → o ≡ some p
ok_or_else-eq-ok none e p h = cc
ok_or_else-eq-ok (some q) e p h = ap some (ok-injective _ _ h)

select_auto-IsRouted :
    (c : RuntimeExecutableConfig) (selection : RuntimeSelection)
    → select_auto (available_in_auto_order c) ≡ ok selection
    → (a : TaskAdapter) × IsAdapterOf c selection.selected_runtime a
unfolding select_auto available_in_auto_order
select_auto-IsRouted c selection h = go (available_in_auto_order c) refl h
  where
    go :
        (l : List String)
        → available_in_auto_order c ≡ l
        → select_auto l ≡ ok selection
        → (a : TaskAdapter) × IsAdapterOf c selection.selected_runtime a
    go [] e s = cc
    go (runtime ∷ rest) e s =
        subst (λ w. (a : TaskAdapter) × IsAdapterOf c w a)
          (ap (λ z. z.selected_runtime) (ok-injective _ _ s))
          (first_available c c.codex c.claude_code c.opencode c.pi refl refl refl refl runtime rest
            e)

select_explicit-eq :
    (c : RuntimeExecutableConfig) (runtime : String) (selection : RuntimeSelection)
    → select_explicit runtime c ≡ ok selection
    → (selection.selected_runtime ≡ runtime)
      × ((e : String) × (configured_runtime runtime c ≡ some (some e)))
unfolding select_explicit
select_explicit-eq c runtime selection h =
    let (o, found, h1) =
      >>=-eq-ok
        (ok_or_else (configured_runtime runtime c)
          (worker_error "claimed runtime is not supported by the worker"))
        _ h in
    let (_, enabled, h2) =
      >>=-eq-ok
        (fail_if (not (is_some o))
          (worker_error "claimed runtime is not configured for this worker"))
        _ h1 in
    enabled_executable o found (fail_if-eq-ok _ _ enabled) (ok-injective _ _ h2)
  where
    enabled_executable :
        (o : Option String)
        → ok_or_else
            (configured_runtime runtime c)
            (worker_error "claimed runtime is not supported by the worker")
          ≡ ok o
        → not (is_some o) ≡ false
        → ◌≡◌ {A = RuntimeSelection}
            (record {
              requested_runtime = runtime;
              selected_runtime = runtime;
              rationale = "explicit runtime selection";
            })
            selection
        → (selection.selected_runtime ≡ runtime)
          × ((e : String) × (configured_runtime runtime c ≡ some (some e)))
    enabled_executable none found enabled same = cc
    enabled_executable (some e) found enabled same =
        (sym (ap (λ z. z.selected_runtime) same), (e, ok_or_else-eq-ok _ _ _ found))

select_runtime-IsRouted :
    (c : RuntimeExecutableConfig) (requested : String) (selection : RuntimeSelection)
    → select_runtime requested c ≡ ok selection
    → IsRouted c requested selection
unfolding select_runtime adapter
select_runtime-IsRouted c requested selection h = go (str_eq requested auto_runtime_id) refl h
  where
    found :
        (a : TaskAdapter)
        → IsAdapterOf c selection.selected_runtime a
        → adapter (new_router c) selection ≡ ok a
    found a w =
        ap (λ o. ok_or_else o (worker_error "selected runtime adapter is unavailable"))
          (new_router-holds c selection.selected_runtime a w)

    go :
        (b : Bool)
        → str_eq requested auto_runtime_id ≡ b
        → (if b then select_auto (available_in_auto_order c) else select_explicit requested c)
          ≡ ok selection
        → IsRouted c requested selection
    go true e r =
        let (a, w) = select_auto-IsRouted c selection r in
        record { chosen = a; fits = w; found = found a w; asked = inl e }
    go false e r =
        let (same, (executable, configured)) = select_explicit-eq c requested selection r in
        let (a, v) = explicit c requested executable configured in
        let w = subst (λ i. IsAdapterOf c i a) (sym same) v in
        record { chosen = a; fits = w; found = found a w; asked = inr same }

-- A task that the router resolves has an adapter in the router, which was made from the executable
-- configured for the selected runtime; the task is the given one for that runtime, and the runtime is
-- the one that the run asked for unless the run left the choice open.
pub resolve_task_spec-IsRouted :
    (c : RuntimeExecutableConfig) (lease : RunLease) (spec resolved : WorkerTaskSpec)
    (selection : RuntimeSelection)
    → resolve_task_spec (new_router c) lease spec ≡ ok (selection, resolved)
    → IsRouted c lease.run.runtime selection
      × (resolved ≡ record spec { runtime = selection.selected_runtime })
unfolding resolve_task_spec new_router
resolve_task_spec-IsRouted c lease spec resolved selection h =
    let (_, _, h1) =
      >>=-eq-ok
        (fail_if (not (str_eq spec.runtime lease.run.runtime))
          (worker_error "task spec runtime does not match claimed run"))
        _ h in
    let (choice, selected, h2) = >>=-eq-ok (select_runtime lease.run.runtime c) _ h1 in
    let pair = ok-injective _ _ h2 in
    let is : choice ≡ selection = ap (λ p. p.0) pair in
    (
      select_runtime-IsRouted c lease.run.runtime selection (selected ∙ ap ok is),
      sym (ap (λ p. p.1) pair) ∙ ap (λ w. record spec { runtime = w.selected_runtime }) is,
    )
