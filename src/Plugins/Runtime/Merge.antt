-- ===== src/Plugins/Runtime/Merge.antt =====
-- How a plugin's registry is filled and merged into the worker's: both keep the factories and the state
-- classes together.
use scenario_pipeliner.Base.{
  ◌≡◌, refl, ap, sym, ◌∙◌, subst, ◌⊎◌, inl, inr, Bool, true, false, ◌||◌, Option, none, some, List,
  [], ◌∷◌, if◌then◌else◌, arith, Bool-cases,
}
use scenario_pipeliner.Text.{String, str_eq, strip, is_empty, eq_iff, eq_refl}
use scenario_pipeliner.Text.Laws.{strip_twice}
use scenario_pipeliner.Dict.{lookup, put, in_names, keys}
use scenario_pipeliner.Db.Tx.{value_error, Result, ok, err}
use scenario_pipeliner.Exec.Router.{StateClass}
use scenario_pipeliner.Plugins.Manifest.{PluginManifestV1}
use scenario_pipeliner.Plugins.Runtime.{
  ScenarioPluginDefinition, BrokerPluginDefinition, sorted, insert_name, all_in, Main, Script,
  returns, raises, register_scenario, add_hooks, read_registry, register, add_broker_hooks,
  run_script, validate_registered_scenarios, then_main, and_then, merge_one, merge_scenarios,
  merge_hooks, merge_runtime_registry,
}

abbrev add_name : String → List String → List String
add_name s [] = s ∷ []
add_name s (t ∷ names) = let rest = add_name s names in if str_eq t s then t ∷ names else t ∷ rest

keys-put :
    {V : Type 0} (k : String) (v : V) (m : List (String × V))
    → keys (put k v m) ≡ add_name k (keys m)
unfolding put
keys-put k v [] = refl
keys-put k v ((j, w) ∷ m) = elim (Bool-cases (str_eq j k)) [
  | inl e ↦ rw e refl
  | inr e ↦ rw e (ap (λ x. j ∷ x) (keys-put k v m))
]

in_names-add :
    (s t : String) (names : List String)
    → in_names s (add_name t names) ≡ (str_eq t s || in_names s names)
in_names-add s t [] = refl
in_names-add s t (x ∷ names) =
    ground (arith, in_names-add s t names, eq_iff x t, eq_iff x s, eq_iff t s)

in_names-insert :
    (s t : String) (names : List String)
    → in_names s (insert_name t names) ≡ (str_eq t s || in_names s names)
in_names-insert s t [] = refl
in_names-insert s t (x ∷ names) = ground (arith, in_names-insert s t names)

in_names-sorted : (s : String) (names : List String) → in_names s (sorted names) ≡ in_names s names
unfolding sorted
in_names-sorted s [] = refl
in_names-sorted s (t ∷ names) =
    in_names-insert s t (sorted names) ∙ ap (λ b. str_eq t s || b) (in_names-sorted s names)

all_in_lem :
    (s : String) (xs names : List String)
    → all_in xs names ≡ true
    → in_names s xs ≡ true
    → in_names s names ≡ true
all_in_lem s [] names a h = cc
all_in_lem s (x ∷ xs) names a h = ground (arith, all_in_lem s xs names, eq_iff x s)

added_stripped :
    (scenario s : String) (names : List String)
    → ((t : String) → in_names t names ≡ true → strip t ≡ t)
    → in_names s (add_name (strip scenario) names) ≡ true
    → strip s ≡ s
added_stripped scenario s names stripped i =
    let h = sym (in_names-add s (strip scenario) names) ∙ i in
    elim (Bool-cases (str_eq (strip scenario) s)) [
      | inl e ↦ subst (λ x. strip x ≡ x) ((eq_iff (strip scenario) s).0 e) (strip_twice scenario)
      | inr e ↦ stripped s (ground arith)
    ]

-- Where a chain of results gives one, its first part did.
pub and_then-ok {ℓ κ} :
    {A : Type ℓ} {B : Type κ} (r : Result A) (f : A → Result B) (b : B)
    → and_then r f ≡ ok b
    → (a : A) × (r ≡ ok a) × (f a ≡ ok b)
and_then-ok (ok a) f b h = (a, refl, h)
and_then-ok (err e) f b h = cc

abbrev pub lists_scenario : String → Result PluginManifestV1 → Bool
lists_scenario s (ok m) = in_names s m.scenarios
lists_scenario s (err e) = false

module _ {F H : Type 0} where
  -- the factories and the state classes have the same scenarios, and each is a stripped text
  abbrev pub Tidy : Main F H → Type 0
  Tidy registry =
      (keys registry.pipeline_factories ≡ keys registry.state_classes)
      × ((s : String) → in_names s (keys registry.pipeline_factories) ≡ true → strip s ≡ s)

  -- A registration raises and changes nothing, or adds its stripped scenario.
  register-cases :
      (d : ScenarioPluginDefinition F) (registry : Main F H)
      → let (answer, after) = register d registry in
        ((answer ≡ err value_error) × (after ≡ registry))
        ⊎ ((answer ≡ ok tt)
            × (after ≡ record registry {
              pipeline_factories =
                  put (strip d.scenario) d.pipeline_factory registry.pipeline_factories;
              state_classes = put (strip d.scenario) d.state_cls registry.state_classes;
            }))
  unfolding register
  register-cases d registry = elim (Bool-cases (is_empty (strip d.scenario))) [
    | inl e ↦ inl (rw (e, register) refl, rw (e, register) refl)
    | inr e ↦ elim (Bool-cases (in_names (strip d.scenario) (keys registry.pipeline_factories))) [
      | inl i ↦ inl (rw (e, i, register) refl, rw (e, i, register) refl)
      | inr i ↦ inr (rw (e, i, register) refl, rw (e, i, register) refl)
    ]
  ]

  register-Tidy :
      (d : ScenarioPluginDefinition F) (registry : Main F H)
      → Tidy registry
      → Tidy (register d registry).1
  register-Tidy d registry (same, stripped) = elim (register-cases d registry) [
    | inl (_, e) ↦ subst Tidy (sym e) (same, stripped)
    | inr (_, e) ↦ subst Tidy (sym e) (
      keys-put (strip d.scenario) d.pipeline_factory registry.pipeline_factories
          ∙ ap (add_name (strip d.scenario)) same
          ∙ sym (keys-put (strip d.scenario) d.state_cls registry.state_classes),
      λ s i. added_stripped d.scenario s (keys registry.pipeline_factories) stripped (
          ap (in_names s)
            (sym (keys-put (strip d.scenario) d.pipeline_factory registry.pipeline_factories))
          ∙ i),
    )
  ]

  add_broker_hooks-keeps :
      (name : String) (hooks : H) (registry : Main F H)
      → let after = (add_broker_hooks name hooks registry).1 in
        (after.pipeline_factories ≡ registry.pipeline_factories)
        × (after.state_classes ≡ registry.state_classes)
  unfolding add_broker_hooks
  add_broker_hooks-keeps name hooks registry = ground arith

  pub run_script-Tidy :
      (script : Script F H) (registry : Main F H)
      → Tidy registry
      → Tidy (run_script script registry).1
  unfolding run_script
  run_script-Tidy returns registry t = t
  run_script-Tidy (raises e) registry t = t
  run_script-Tidy (register_scenario d next) registry t =
      run_script-Tidy (next (register d registry).0) (register d registry).1
        (register-Tidy d registry t)
  run_script-Tidy (add_hooks name hooks next) registry t =
      run_script-Tidy (next (add_broker_hooks name hooks registry).0)
        (add_broker_hooks name hooks registry).1
        (let (p, q) = add_broker_hooks-keeps name hooks registry in rw (p, q) t)
  run_script-Tidy (read_registry next) registry t = run_script-Tidy (next registry) registry t

  -- A registration that succeeds adds the scenario.
  register-names :
      (d : ScenarioPluginDefinition F) (registry : Main F H) (s : String)
      → (register d registry).0 ≡ ok tt
      → in_names s (keys (register d registry).1.pipeline_factories)
        ≡ (str_eq (strip d.scenario) s || in_names s (keys registry.pipeline_factories))
  register-names d registry s h = elim (register-cases d registry) [
    | inl (bad, _) ↦ absurd (ground arith)
    | inr (_, e) ↦ rw e (
        ap (in_names s) (keys-put (strip d.scenario) d.pipeline_factory registry.pipeline_factories)
        ∙ in_names-add s (strip d.scenario) (keys registry.pipeline_factories))
  ]

  abbrev pub Grown : List String → Main F H → Main F H → Type 0
  Grown names before after =
      Tidy after
      × ((s : String)
          → in_names s (keys after.pipeline_factories)
            ≡ (in_names s names || in_names s (keys before.pipeline_factories)))

  merge_one-Grown :
      (scenario : String) (f : Option F) (c : Option StateClass) (target : Main F H)
      → strip scenario ≡ scenario
      → Tidy target
      → (merge_one scenario f c target).0 ≡ ok tt
      → Grown (scenario ∷ []) target (merge_one scenario f c target).1
  merge_one-Grown scenario none c target st t h = cc
  merge_one-Grown scenario (some f) none target st t h = cc
  merge_one-Grown scenario (some f) (some c) target st t h =
      let d : ScenarioPluginDefinition F = record {
        scenario = scenario;
        pipeline_factory = f;
        state_cls = c;
      } in
      (register-Tidy d target t, λ s. register-names d target s h ∙ rw st (ground arith))

  pub then_main-ok :
      (r : Result (Unit {0}) × Main F H) (next : Main F H → Result (Main F H)) (after : Main F H)
      → then_main r next ≡ ok after
      → (r.0 ≡ ok tt) × (next r.1 ≡ ok after)
  then_main-ok (ok _, m) next after h = (refl, h)
  then_main-ok (err e, m) next after h = cc

  merge_scenarios-Grown :
      (source : Main F H) (names : List String) (target after : Main F H)
      → ((s : String) → in_names s names ≡ true → strip s ≡ s)
      → Tidy target
      → merge_scenarios source names target ≡ ok after
      → Grown names target after
  unfolding merge_scenarios
  merge_scenarios-Grown source [] target after st t h =
      let e : target ≡ after = ground arith in subst (Grown [] target) e (t, λ s. refl)
  merge_scenarios-Grown source (n ∷ names) target after st t h =
      let one =
        merge_one n (lookup n source.pipeline_factories) (lookup n source.state_classes) target in
      let (first, rest) = then_main-ok one (merge_scenarios source names) after h in
      let (t1, g1) =
        merge_one-Grown n (lookup n source.pipeline_factories) (lookup n source.state_classes)
          target (st n (rw (eq_refl n) refl)) t first in
      let (t2, g2) =
        merge_scenarios-Grown source names one.1 after (λ s i. st s (ground arith)) t1 rest in
      (t2, λ s. g2 s ∙ rw (g1 s) (ground arith))

  merge_hooks-keeps :
      (plugins : List (String × BrokerPluginDefinition H)) (target after : Main F H)
      → merge_hooks plugins target ≡ ok after
      → (after.pipeline_factories ≡ target.pipeline_factories)
        × (after.state_classes ≡ target.state_classes)
  unfolding merge_hooks
  merge_hooks-keeps [] target after h =
      let e : target ≡ after = ground arith in
      subst
        (λ x.
          (x.pipeline_factories ≡ target.pipeline_factories)
          × (x.state_classes ≡ target.state_classes))
        e (refl, refl)
  merge_hooks-keeps ((name, d) ∷ plugins) target after h =
      let one = add_broker_hooks name d.hooks target in
      let (_, rest) = then_main-ok one (merge_hooks plugins) after h in
      let (p, q) = merge_hooks-keeps plugins one.1 after rest in
      let (u, w) = add_broker_hooks-keeps name d.hooks target in (p ∙ u, q ∙ w)

  pub merge-Grown :
      (target source after : Main F H)
      → Tidy source
      → Tidy target
      → merge_runtime_registry target source ≡ ok after
      → Grown (keys source.pipeline_factories) target after
  unfolding merge_runtime_registry
  merge-Grown target source after (_, st) t h =
      let (m, good, rest) =
        and_then-ok (merge_scenarios source (sorted (keys source.pipeline_factories)) target)
          (merge_hooks source.broker_plugins) after h in
      let ((same, tidy), grown) =
        merge_scenarios-Grown source (sorted (keys source.pipeline_factories)) target m
          (λ s i. st s (sym (in_names-sorted s (keys source.pipeline_factories)) ∙ i)) t good in
      let (p, q) = merge_hooks-keeps source.broker_plugins m after rest in
      (
        (
          ap keys p ∙ same ∙ sym (ap keys q),
          λ s i. tidy s (ap (λ x. in_names s (keys x)) (sym p) ∙ i),
        ),
        λ s.
            ap (λ x. in_names s (keys x)) p
            ∙ grown s
            ∙ ap (λ b. b || in_names s (keys target.pipeline_factories))
                (in_names-sorted s (keys source.pipeline_factories)),
      )

  pub validated_names :
      (registry : Main F H) (expected : List String) (s : String) {u : Unit {0}}
      → validate_registered_scenarios registry expected ≡ ok u
      → in_names s (keys registry.pipeline_factories) ≡ in_names s expected
  unfolding validate_registered_scenarios
  validated_names registry expected s h = ground (
    arith,
    all_in_lem s expected (keys registry.pipeline_factories),
    all_in_lem s (keys registry.pipeline_factories) expected,
  )
