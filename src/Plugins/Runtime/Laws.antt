-- ===== src/Plugins/Runtime/Laws.antt =====
-- What the runtime registry holds after it is built: the scenarios of the manifests, each with a factory
-- and a state class.
use scenario_pipeliner.Base.{
  ◌≡◌, refl, ap, sym, ◌∙◌, subst, ◌≢◌, Bool, false, ◌||◌, some, List, [], ◌∷◌, arith, is_some,
}
use scenario_pipeliner.Text.{String}
use scenario_pipeliner.Dict.{lookup, in_names, keys, in_names-keys}
use scenario_pipeliner.Api.{Mode}
use scenario_pipeliner.Db.Tx.{lookup_error, ok, err}
use scenario_pipeliner.Exec.Router.{Router, Typed, promote_task_state}
use scenario_pipeliner.Exec.Router.Laws.{promote_finds_class}
use scenario_pipeliner.Plugins.Manifest.{PluginManifestV1, Host, load_manifest}
use scenario_pipeliner.Plugins.Registry.{
  PluginRegistryV1, empty_registry, register as enter_manifest,
}
use scenario_pipeliner.Plugins.Runtime.{
  Main, empty_main, Discovered, Importer, run_script, validate_registered_scenarios,
  merge_runtime_registry, resolve_entrypoint, build_plugin_registry, build_from,
  build_worker_registry_from_manifests,
}
use scenario_pipeliner.Plugins.Runtime.Merge.{
  and_then-ok, lists_scenario, Tidy, run_script-Tidy, then_main-ok, merge-Grown, validated_names,
}

module _ {F H : Type 0} where
  module _ (host : Host) (imported : Importer F H) where
    -- The registry that one plugin fills has the scenarios of its manifest.
    build_plugin_registry-names :
        (m : PluginManifestV1) (found : Discovered) (registry : Main F H)
        → build_plugin_registry host imported m found ≡ ok registry
        → Tidy registry
          × ((s : String) → in_names s (keys registry.pipeline_factories) ≡ in_names s m.scenarios)
    unfolding build_plugin_registry validate_registered_scenarios
    build_plugin_registry-names m found registry h =
        let (script, _, h1) = and_then-ok (resolve_entrypoint host imported m found) _ registry h in
        let run = run_script script (empty_main {F = F} {H = H}) in
        let (_, h2) = then_main-ok run _ registry h1 in
        let (_, valid, h3) =
          and_then-ok (validate_registered_scenarios run.1 m.scenarios) _ registry h2 in
        let same : run.1 ≡ registry = ground arith in
        let tidy = run_script-Tidy script (empty_main {F = F} {H = H}) (refl, λ s i. cc) in
        subst
          (λ x.
            Tidy x
            × ((s : String) → in_names s (keys x.pipeline_factories) ≡ in_names s m.scenarios))
          same (tidy, λ s. validated_names run.1 m.scenarios s valid)

    -- some manifest that was found lists the scenario
    abbrev pub listed : String → List Discovered → Bool
    listed s [] = false
    listed s (found ∷ others) =
        lists_scenario s (load_manifest host found.manifest_path found.text) || listed s others

    build_from-names :
        (mode : Mode) (v : String) (found : List Discovered) (policy : PluginRegistryV1)
        (runtime after : Main F H)
        → Tidy runtime
        → build_from host imported mode v found policy runtime ≡ ok after
        → Tidy after
          × ((s : String)
              → in_names s (keys after.pipeline_factories)
                ≡ (listed s found || in_names s (keys runtime.pipeline_factories)))
    unfolding build_from
    build_from-names mode v [] policy runtime after t h =
        let e : runtime ≡ after = ground arith in
        subst
          (λ x.
            Tidy x
            × ((s : String)
                → in_names s (keys x.pipeline_factories)
                  ≡ in_names s (keys runtime.pipeline_factories)))
          e (t, λ s. refl)
    build_from-names mode v (found ∷ others) policy runtime after t h =
        let (m, loaded, h1) =
          and_then-ok (load_manifest host found.manifest_path found.text) _ after h in
        let (_, _, h2) =
          and_then-ok (enter_manifest host m mode v (some found.plugin_dir) policy).0 _ after h1 in
        let (source, built, h3) =
          and_then-ok (build_plugin_registry host imported m found) _ after h2 in
        let (merged, joined, h4) = and_then-ok (merge_runtime_registry runtime source) _ after h3 in
        let (ts, names) = build_plugin_registry-names m found source built in
        let (tm, grown) = merge-Grown runtime source merged ts t joined in
        let (ta, rest) =
          build_from-names mode v others
            (enter_manifest host m mode v (some found.plugin_dir) policy).1 merged after tm h4 in
        (ta, λ s. rest s ∙ rw (grown s, names s, loaded) (ground arith))

    -- Where the registry is built, it has the scenarios of the manifests that were found and no other.
    pub built_scenarios :
        (mode : Mode) (v : String) (found : List Discovered) (built : Main F H) (s : String)
        → build_worker_registry_from_manifests host imported mode v found ≡ ok built
        → (in_names s (keys built.pipeline_factories) ≡ listed s found)
          × (in_names s (keys built.state_classes) ≡ listed s found)
    unfolding build_worker_registry_from_manifests
    built_scenarios mode v found built s h =
        let ((same, _), names) =
          build_from-names mode v found empty_registry (empty_main {F = F} {H = H}) built
            (refl, λ s i. cc) h in
        (names s ∙ ground arith, ap (in_names s) (sym same) ∙ names s ∙ ground arith)

    abbrev pub router_of : Main F H → String → Router F
    router_of built default_key = record {
      pipeline_factories = built.pipeline_factories;
      state_classes = built.state_classes;
      default_pipeline_key = default_key;
    }

    -- Where the runtime registry is built, a router made of it promotes no state to a missing class: the
    -- promotion does not fail with a lookup error, whatever the task's scenario is.
    pub built_router_promotes :
        (mode : Mode) (v : String) (found : List Discovered) (built : Main F H)
        (default_key : String) (t : Typed)
        → build_worker_registry_from_manifests host imported mode v found ≡ ok built
        → promote_task_state (router_of built default_key) t ≢ err lookup_error
    built_router_promotes mode v found built default_key t h =
        let s = t.state.scenario in
        let (f, c) = built_scenarios mode v found built s h in
        let same : is_some (lookup s built.pipeline_factories)
            ≡ is_some (lookup s built.state_classes) =
          sym (in_names-keys s built.pipeline_factories)
          ∙ f
          ∙ sym c
          ∙ in_names-keys s built.state_classes in
        promote_finds_class (router_of built default_key) t same
