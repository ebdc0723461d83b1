-- ===== src/Worker/Adapters.antt =====
-- The adapters that the worker makes for the configured runtimes (crates/openwork-worker/src/lib.rs).
use openwork.Common.{
  String, ◌≡◌, refl, sym, ap, subst, ◌∙◌, Bool, true, false, Option, none, some, List, [], ◌∷◌,
  is_some, str_eq, if◌then◌else◌,
}
use openwork.Common.Dict.{Dict, get}
use text.Mathlib.TextEquality.{eq_iff}
use openwork.Common.Dict.Laws.{get-insert_self, get-insert_ne}
use openwork.Worker.{codex_runtime_id, claude_runtime_id, opencode_runtime_id, pi_runtime_id}
use openwork.Worker.Select.{
  RuntimeExecutableConfig, TaskAdapter, codex, claude, opencode, pi, add_adapter, when_enabled,
  configured_runtime, new_router,
}

-- The adapter of a configured runtime, with the executable configured for it.
pub data IsAdapterOf (c : RuntimeExecutableConfig) : String → TaskAdapter → Type 0 where
  of_codex : (e : String) → c.codex ≡ some e → IsAdapterOf c codex_runtime_id (codex e)
  of_claude : (e : String) → c.claude_code ≡ some e → IsAdapterOf c claude_runtime_id (claude e)
  of_opencode : (e : String) → c.opencode ≡ some e → IsAdapterOf c opencode_runtime_id (opencode e)
  of_pi : (e : String) → c.pi ≡ some e → IsAdapterOf c pi_runtime_id (pi e)

get-add_adapter_self :
    (make : String → TaskAdapter) (runtime : String) (o : Option String) (e : String)
    (d : Dict TaskAdapter)
    → o ≡ some e
    → get runtime (add_adapter make runtime o d) ≡ some (make e)
get-add_adapter_self make runtime o e d p =
    ap (λ q. get runtime (add_adapter make runtime q d)) p ∙ get-insert_self runtime (make e) d

get-add_adapter_ne :
    (make : String → TaskAdapter) (runtime other : String) (o : Option String)
    (d : Dict TaskAdapter)
    → str_eq runtime other ≡ false
    → get other (add_adapter make runtime o d) ≡ get other d
get-add_adapter_ne make runtime other none d h = refl
get-add_adapter_ne make runtime other (some e) d h = get-insert_ne runtime (make e) other d h

-- The router has the adapter of each configured runtime.
pub new_router-holds :
    (c : RuntimeExecutableConfig) (runtime : String) (a : TaskAdapter)
    → IsAdapterOf c runtime a
    → get runtime (new_router c).adapters ≡ some a
unfolding new_router
new_router-holds c runtime a (of_codex e p) =
    get-add_adapter_ne pi pi_runtime_id codex_runtime_id c.pi _ refl
    ∙ get-add_adapter_ne opencode opencode_runtime_id codex_runtime_id c.opencode _ refl
    ∙ get-add_adapter_ne claude claude_runtime_id codex_runtime_id c.claude_code _ refl
    ∙ get-add_adapter_self codex _ c.codex e [] p
new_router-holds c runtime a (of_claude e p) =
    get-add_adapter_ne pi pi_runtime_id claude_runtime_id c.pi _ refl
    ∙ get-add_adapter_ne opencode opencode_runtime_id claude_runtime_id c.opencode _ refl
    ∙ get-add_adapter_self claude _ c.claude_code e (add_adapter codex codex_runtime_id c.codex [])
        p
new_router-holds c runtime a (of_opencode e p) =
    get-add_adapter_ne pi pi_runtime_id opencode_runtime_id c.pi _ refl
    ∙ get-add_adapter_self opencode _ c.opencode e
        (add_adapter claude claude_runtime_id c.claude_code
          (add_adapter codex codex_runtime_id c.codex []))
        p
new_router-holds c runtime a (of_pi e p) =
    get-add_adapter_self pi _ c.pi e
      (add_adapter opencode opencode_runtime_id c.opencode (
        add_adapter claude claude_runtime_id c.claude_code
          (add_adapter codex codex_runtime_id c.codex [])))
      p

head_eq : {s t : String} {l m : List String} → s ∷ l ≡ t ∷ m → s ≡ t
head_eq h = cc

some_eq : {o p : Option String} → some o ≡ some p → o ≡ p
some_eq h = cc

either :
    {P : Type 0} (b : Bool) (o p q : Option (Option String))
    → (if b then o else p) ≡ q
    → (b ≡ true → o ≡ q → P)
    → (b ≡ false → p ≡ q → P)
    → P
either true o p q h f g = f refl h
either false o p q h f g = g refl h

-- The first configured runtime, by which of the four are configured.
pub first_available :
    (c : RuntimeExecutableConfig) (o p q r : Option String)
    → c.codex ≡ o
    → c.claude_code ≡ p
    → c.opencode ≡ q
    → c.pi ≡ r
    → (runtime : String) (rest : List String)
    → when_enabled (is_some o) codex_runtime_id (
        when_enabled (is_some p) claude_runtime_id (
          when_enabled (is_some q) opencode_runtime_id (when_enabled (is_some r) pi_runtime_id [])))
      ≡ runtime ∷ rest
    → (a : TaskAdapter) × IsAdapterOf c runtime a
first_available c (some e) p q r h1 h2 h3 h4 runtime rest h =
    (codex e, subst (λ s. IsAdapterOf c s (codex e)) (head_eq h) (of_codex e h1))
first_available c none (some e) q r h1 h2 h3 h4 runtime rest h =
    (claude e, subst (λ s. IsAdapterOf c s (claude e)) (head_eq h) (of_claude e h2))
first_available c none none (some e) r h1 h2 h3 h4 runtime rest h =
    (opencode e, subst (λ s. IsAdapterOf c s (opencode e)) (head_eq h) (of_opencode e h3))
first_available c none none none (some e) h1 h2 h3 h4 runtime rest h =
    (pi e, subst (λ s. IsAdapterOf c s (pi e)) (head_eq h) (of_pi e h4))
first_available c none none none none h1 h2 h3 h4 runtime rest h = cc

pub explicit :
    (c : RuntimeExecutableConfig) (runtime e : String)
    → configured_runtime runtime c ≡ some (some e)
    → (a : TaskAdapter) × IsAdapterOf c runtime a
unfolding configured_runtime
explicit c runtime e h =
    either (str_eq runtime codex_runtime_id) _ _ _ h
      (λ b g. (codex e, named runtime _ _ b (of_codex e (some_eq g))))
      λ _ h1.
        either (str_eq runtime claude_runtime_id) _ _ _ h1
          (λ b g. (claude e, named runtime _ _ b (of_claude e (some_eq g))))
          λ _ h2.
            either (str_eq runtime opencode_runtime_id) _ _ _ h2
              (λ b g. (opencode e, named runtime _ _ b (of_opencode e (some_eq g))))
              λ _ h3.
                either (str_eq runtime pi_runtime_id) _ _ _ h3
                  (λ b g. (pi e, named runtime _ _ b (of_pi e (some_eq g)))) λ _ h4. cc
  where
    named :
        (s t : String) (a : TaskAdapter) → str_eq s t ≡ true → IsAdapterOf c t a → IsAdapterOf c s a
    named s t a b w = subst (λ u. IsAdapterOf c u a) (sym ((eq_iff s t).0 b)) w
