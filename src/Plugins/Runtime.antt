-- ===== src/Plugins/Runtime.antt =====
-- worker/plugin_registry.py and worker/runtime/registry.py: the registry of what runs, built from the
-- manifests that were found. A plugin's `register` is code that calls the registry it is given (Script).
pub mod Laws
pub mod Merge
use scenario_pipeliner.Base.{
  ℕ, zero, suc, ◌+◌, Bool, true, false, not, ◌&&◌, ◌||◌, ◌==◌, Option, none, some, List, [], ◌∷◌,
  if◌then◌else◌,
}
use Prim.Native.Char.{code}
use scenario_pipeliner.Text.{String, concat, str_eq, str_lt, strip, is_empty}
use scenario_pipeliner.Dict.{lookup, put, in_names, keys}
use scenario_pipeliner.Api.{Mode}
use scenario_pipeliner.Db.Tx.{Exc, lookup_error, value_error, Result, ok, err}
use scenario_pipeliner.Exec.Router.{StateClass}
use scenario_pipeliner.Plugins.Names.{is_lower, is_digit, starts_with_digit, with_prefix}
use scenario_pipeliner.Plugins.Manifest.{PluginManifestV1, Host, load_manifest}
use scenario_pipeliner.Plugins.Registry.{
  PluginPath, PluginRegistryV1, empty_registry, register as enter_manifest,
}

pub record ScenarioPluginDefinition (F : Type 0) : Type 0 where
  pub scenario : String
  pub pipeline_factory : F
  pub state_cls : StateClass

pub record BrokerPluginDefinition (H : Type 0) : Type 0 where
  pub plugin_name : String
  -- the hooks and the settings provider
  pub hooks : H

pub record MainPipelinePluginRegistry (F H : Type 0) : Type 0 where
  pub pipeline_factories : List (String × F)
  pub state_classes : List (String × StateClass)
  pub broker_plugins : List (String × BrokerPluginDefinition H)

-- sorted(names)
abbrev insert_name : String → List String → List String
insert_name s [] = s ∷ []
insert_name s (t ∷ names) =
    let rest = insert_name s names in if str_lt t s then t ∷ rest else s ∷ t ∷ names

unfoldable pub sorted : List String → List String
sorted [] = []
sorted (s ∷ names) = insert_name s (sorted names)

-- every name of the first list is in the second
abbrev pub all_in : List String → List String → Bool
all_in [] names = true
all_in (s ∷ others) names = in_names s names && all_in others names

-- re.sub(r"[^0-9a-zA-Z_]", "_", value)
unfoldable ident_chars : String → String
ident_chars String.[] = String.[]
ident_chars (String.◌∷◌ c s) =
    let rest = ident_chars s in
    if is_digit (code c) || is_lower (code c) || is_lower (code c + 32) || code c == 95
    then String.◌∷◌ c rest
    else String.◌∷◌ "_" rest

-- what is left after the substitution starts with an ASCII digit where `isdigit` holds of its first
unfoldable pub safe_ident : String → String
unfolding ident_chars
safe_ident value =
    let ident = ident_chars value in
    if is_empty ident || starts_with_digit ident then with_prefix ident else ident

-- text.split(sep, 1): what stands before the first separator, and what after it
unfoldable pub split_first : ℕ → String → String × Option String
split_first sep String.[] = (String.[], none)
split_first sep (String.◌∷◌ c s) =
    let (before, rest) = split_first sep s in
    if code c == sep then (String.[], some s) else (String.◌∷◌ c before, rest)

abbrev count : ℕ → String → ℕ
count sep String.[] = 0
count sep (String.◌∷◌ c s) = if code c == sep then suc (count sep s) else count sep s

-- the module and the object of an entrypoint
unfoldable pub split_entrypoint : String → Result (String × String)
unfolding split_first
split_entrypoint entrypoint =
    if not (count 58 entrypoint == 1)
    then err value_error
    else elim ((split_first 58 entrypoint).1) [
      | none ↦ err value_error
      | some object_path ↦
          if is_empty ((split_first 58 entrypoint).0) || is_empty object_path
          then err value_error
          else ok ((split_first 58 entrypoint).0, object_path)
    ]

-- _target_module_name; the parts of the dotted name after the first are what follows the first dot
unfoldable pub target_module_name : String → String → String → String → String
unfolding split_first
target_module_name unique entrypoint_module dir_name plugin_name =
    let (first, rest) = split_first 46 entrypoint_module in
    if str_eq first dir_name || str_eq first plugin_name
    then elim rest [ none ↦ unique | some tail ↦ concat unique (concat "." tail) ]
    else concat unique (concat "." entrypoint_module)

-- a registry with factories of type F and hooks of type H
abbrev pub Main : Type 0 → Type 0 → Type 0
Main F H = MainPipelinePluginRegistry F H

abbrev pub empty_main : {F H : Type 0} → Main F H
empty_main = record { pipeline_factories = []; state_classes = []; broker_plugins = [] }

-- plugin code: what it does next depends on what a call answers
pub data Script (F H : Type 0) : Type 0 where
  returns : Script F H
  raises : Exc → Script F H
  register_scenario : ScenarioPluginDefinition F → (Result (Unit {0}) → Script F H) → Script F H
  add_hooks : String → H → (Result (Unit {0}) → Script F H) → Script F H
  read_registry : (Main F H → Script F H) → Script F H

abbrev pub and_then {ℓ κ} : {A : Type ℓ} {B : Type κ} → Result A → (A → Result B) → Result B
and_then (ok a) f = f a
and_then (err e) f = err e

-- a manifest file that was found, its text, and the directory that it stands in with the name of it
pub record Discovered : Type 0 where
  pub manifest_path : String
  pub text : Option String
  pub plugin_dir : PluginPath
  pub dir_name : String
  -- the package name with the digest of the directory's path
  pub unique : String

-- import_module and getattr, and the call of what they give
abbrev pub Importer : Type 0 → Type 0 → Type 0
Importer F H = String → String → Result (Script F H)

module _ {F H : Type 0} where
  -- MainPipelinePluginRegistry.register
  unfoldable pub register : ScenarioPluginDefinition F → Main F H → Result (Unit {0}) × Main F H
  unfolding strip put
  register definition registry =
      let scenario = strip definition.scenario in
      if is_empty scenario
      then (err value_error, registry)
      else if in_names scenario (keys registry.pipeline_factories)
      then (err value_error, registry)
      else (
        ok tt,
        record registry {
          pipeline_factories = put scenario definition.pipeline_factory registry.pipeline_factories;
          state_classes = put scenario definition.state_cls registry.state_classes;
        },
      )

  unfoldable pub add_broker_hooks : String → H → Main F H → Result (Unit {0}) × Main F H
  unfolding strip put
  add_broker_hooks plugin_name hooks registry =
      let name = strip plugin_name in
      if is_empty name
      then (err value_error, registry)
      else if in_names name (keys registry.broker_plugins)
      then (err value_error, registry)
      else (
        ok tt,
        record registry {
          broker_plugins =
              put name (record { plugin_name = name; hooks = hooks }) registry.broker_plugins;
        },
      )

  -- _invoke_entrypoint_register
  unfoldable pub run_script : Script F H → Main F H → Result (Unit {0}) × Main F H
  unfolding register add_broker_hooks
  run_script returns registry = (ok tt, registry)
  run_script (raises e) registry = (err e, registry)
  run_script (register_scenario definition next) registry =
      run_script (next (register definition registry).0) (register definition registry).1
  run_script (add_hooks name hooks next) registry =
      run_script (next (add_broker_hooks name hooks registry).0)
        (add_broker_hooks name hooks registry).1
  run_script (read_registry next) registry = run_script (next registry) registry

  -- _validate_registered_scenarios: both sets are the same
  unfoldable pub validate_registered_scenarios : Main F H → List String → Result (Unit {0})
  validate_registered_scenarios registry expected =
      if all_in expected (keys registry.pipeline_factories)
        && all_in (keys registry.pipeline_factories) expected
      then ok tt
      else err value_error

  abbrev pub then_main :
      Result (Unit {0}) × Main F H → (Main F H → Result (Main F H)) → Result (Main F H)
  then_main (ok _, registry) next = next registry
  then_main (err e, registry) next = err e

  abbrev pub merge_one :
      String → Option F → Option StateClass → Main F H → Result (Unit {0}) × Main F H
  merge_one scenario (some factory) (some cls) target =
      register (record { scenario = scenario; pipeline_factory = factory; state_cls = cls }) target
  merge_one scenario (some factory) none target = (err lookup_error, target)
  merge_one scenario none cls target = (err lookup_error, target)

  unfoldable pub merge_scenarios : Main F H → List String → Main F H → Result (Main F H)
  unfolding lookup register
  merge_scenarios source [] target = ok target
  merge_scenarios source (scenario ∷ scenarios) target =
      then_main
        (merge_one scenario (lookup scenario source.pipeline_factories)
          (lookup scenario source.state_classes) target)
        (merge_scenarios source scenarios)

  unfoldable pub merge_hooks :
      List (String × BrokerPluginDefinition H) → Main F H → Result (Main F H)
  unfolding add_broker_hooks
  merge_hooks [] target = ok target
  merge_hooks ((plugin_name, definition) ∷ plugins) target =
      then_main (add_broker_hooks plugin_name definition.hooks target) (merge_hooks plugins)

  -- _merge_runtime_registry
  unfoldable pub merge_runtime_registry : Main F H → Main F H → Result (Main F H)
  unfolding sorted merge_scenarios merge_hooks
  merge_runtime_registry target source =
      and_then (merge_scenarios source (sorted (keys source.pipeline_factories)) target)
        (merge_hooks source.broker_plugins)

  module _ (host : Host) (imported : Importer F H) where
    -- _resolve_entrypoint, without the packages that it puts into sys.modules
    unfoldable pub resolve_entrypoint : PluginManifestV1 → Discovered → Result (Script F H)
    unfolding split_entrypoint target_module_name
    resolve_entrypoint manifest found = and_then (split_entrypoint manifest.entrypoint) λ parts.
        imported (target_module_name found.unique parts.0 found.dir_name manifest.plugin_name)
          parts.1

    unfoldable pub build_plugin_registry : PluginManifestV1 → Discovered → Result (Main F H)
    unfolding run_script validate_registered_scenarios
    build_plugin_registry manifest found = and_then (resolve_entrypoint manifest found) λ script.
        then_main (run_script script empty_main) λ registry.
          and_then (validate_registered_scenarios registry manifest.scenarios) λ _. ok registry

    -- the loop of build_worker_registry_from_manifests
    unfoldable pub build_from :
        Mode → String → List Discovered → PluginRegistryV1 → Main F H → Result (Main F H)
    unfolding build_plugin_registry merge_runtime_registry enter_manifest load_manifest
    build_from mode core_version [] policy runtime = ok runtime
    build_from mode core_version (found ∷ others) policy runtime =
        and_then (load_manifest host found.manifest_path found.text) λ manifest.
          let (answer, claimed) =
            enter_manifest host manifest mode core_version (some found.plugin_dir) policy in
          and_then answer λ _. and_then (build_plugin_registry manifest found) λ plugin_registry.
            and_then (merge_runtime_registry runtime plugin_registry)
              λ merged. build_from mode core_version others claimed merged

    unfoldable pub build_worker_registry_from_manifests :
        Mode → String → List Discovered → Result (Main F H)
    unfolding build_from
    build_worker_registry_from_manifests mode core_version found =
        build_from mode core_version found empty_registry empty_main
