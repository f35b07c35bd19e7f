-- ===== src/Plugins/DryRun.antt =====
-- core/dry_run.py: the report on the plugins that were found. What pathlib reads of a plugin is the
-- record Candidate; a file that cannot be read does not occur.
pub mod Laws
use scenario_pipeliner.Base.{
  ℕ, zero, suc, ◌+◌, Bool, true, false, not, ◌&&◌, ◌||◌, Option, none, some, List, [], ◌∷◌, ◌++◌,
  length, any, if◌then◌else◌,
}
use scenario_pipeliner.Text.{String, concat, str_eq, str_lt}
use scenario_pipeliner.Api.{
  Mode, DryRunStatus, LoadStatus, loaded, skipped, ChecksumStatus, not_checked, ChecksumReportScope,
  unknown, report_scope, is_loaded, is_skipped, DryRunErrorCode, plugin_load_error,
  migration_path_missing, migration_path_not_file,
}
use scenario_pipeliner.Db.Tx.{
  Exc, dry_run_error, value_error, invalid_schema_name, sql_template, sql_split,
  file_not_found_error, os_error, Result, ok, err,
}
use scenario_pipeliner.Plugins.Manifest.{
  PluginMigrations, PluginManifestV1, Host, Resolved, resolve_plugin_migration_path, load_manifest,
}
use scenario_pipeliner.Plugins.Registry.{
  PluginPath, PluginRegistryV1, empty_registry, RegistryRegisterResult, register,
}

pub record MigrationPlanItem : Type 0 where
  pub path : String
  pub order : String
  pub plugin_name : String

pub record PluginDryRunResult : Type 0 where
  pub plugin_name : String
  pub plugin_version : String
  pub load_status : LoadStatus
  pub reasons : List String
  pub scenarios : List String
  pub checksum_status : ChecksumStatus
  pub checksum_scope : ChecksumReportScope
  pub migration_plan : List MigrationPlanItem

pub record DryRunSummary : Type 0 where
  pub plugins_discovered : ℕ
  pub plugins_loaded : ℕ
  pub plugins_skipped : ℕ
  pub migrations_planned : ℕ

pub record DryRunError : Type 0 where
  pub code : DryRunErrorCode
  pub message : String

pub record DryRunReport : Type 0 where
  pub status : DryRunStatus
  pub mode : Mode
  pub core_version : String
  pub summary : DryRunSummary
  pub plugins : List PluginDryRunResult
  pub errors : List DryRunError

-- a manifest that was found: its text, its directory, and where a path of the manifest leads
pub record Candidate : Type 0 where
  pub manifest_path : String
  pub text : Option String
  pub plugin_dir : PluginPath
  pub dir_name : String
  pub resolve : String → Resolved
  pub exists : String → Bool
  pub is_file : String → Bool

-- except DryRunPluginError as e: its code and message
abbrev pub as_dry_run_error : Exc → Option (DryRunErrorCode × String)
as_dry_run_error (dry_run_error code message) = some (code, message)
as_dry_run_error _ = none

-- except (ValueError, OSError), past the handler of DryRunPluginError
abbrev pub is_value_or_os_error : Exc → Bool
is_value_or_os_error value_error = true
is_value_or_os_error invalid_schema_name = true
is_value_or_os_error sql_template = true
is_value_or_os_error sql_split = true
is_value_or_os_error file_not_found_error = true
is_value_or_os_error os_error = true
is_value_or_os_error _ = false

-- _pick_backend_migration_path
unfoldable pub pick_backend_migration_path :
    Candidate → Option PluginMigrations → Result (Option String)
unfolding resolve_plugin_migration_path
pick_backend_migration_path c none = ok none
pick_backend_migration_path c (some migrations) = elim migrations.postgresql [
  | none ↦ ok none
  | some raw_path ↦ elim (resolve_plugin_migration_path c.resolve raw_path) [
    | err e ↦ err e
    | ok path ↦ ok (some path)
  ]
]

abbrev migration_order : Option PluginMigrations → String
migration_order none = ""
migration_order (some m) = m.migration_order

-- the plan of a plugin with a migration path, and its checks
abbrev pub planned : Candidate → PluginManifestV1 → Option String → Result (List MigrationPlanItem)
planned c manifest none = ok []
planned c manifest (some path) =
    if not (c.exists path)
    then err (dry_run_error migration_path_missing (concat "migration file does not exist: " path))
    else if not (c.is_file path)
    then err (
        dry_run_error migration_path_not_file (concat "migration path must point to a file: " path))
    else ok (
        record {
          path = path;
          order = migration_order manifest.migrations;
          plugin_name = manifest.plugin_name;
        }
        ∷ [])

-- what is done before the registration
unfoldable pub migration_plan_of : Candidate → PluginManifestV1 → Result (List MigrationPlanItem)
unfolding pick_backend_migration_path
migration_plan_of c manifest = elim (pick_backend_migration_path c manifest.migrations) [
  | err e ↦ err e
  | ok path ↦ planned c manifest path
]

abbrev pub no_path : List MigrationPlanItem → Bool
no_path [] = true
no_path (_ ∷ _) = false

unfoldable pub plugin_result :
    PluginManifestV1 → List MigrationPlanItem → RegistryRegisterResult → PluginDryRunResult
unfolding report_scope
plugin_result manifest plan result =
    let is_skipped = no_path plan in
    record {
      plugin_name = manifest.plugin_name;
      plugin_version = manifest.plugin_version;
      load_status = if is_skipped then skipped else loaded;
      reasons =
          result.warnings
          ++ (if is_skipped then "no migration path for backend=postgresql" ∷ [] else []);
      scenarios = manifest.scenarios;
      checksum_status = result.checksum_status;
      checksum_scope = report_scope manifest.checksum.scope;
      migration_plan = plan;
    }

-- _build_error_plugin_result; the manifest is `none` where it was not loaded
unfoldable pub build_error_plugin_result :
    Option PluginManifestV1 → Candidate → String → PluginDryRunResult
build_error_plugin_result manifest c reason = record {
  plugin_name = elim manifest [ none ↦ c.dir_name | some m ↦ m.plugin_name ];
  plugin_version = elim manifest [ none ↦ "unknown" | some m ↦ m.plugin_version ];
  load_status = LoadStatus.error;
  reasons = reason ∷ [];
  scenarios = [];
  checksum_status = not_checked;
  checksum_scope = unknown;
  migration_plan = [];
}

-- _plugin_result_sort_key; a plan has at most one item
abbrev pub sort_key : PluginDryRunResult → ℕ × String × String
sort_key item = elim item.migration_plan [
  | [] ↦ (1, "99999999999999", item.plugin_name)
  | m ∷ _ ↦ (0, m.order, item.plugin_name)
]

-- `<` on keys
unfoldable pub key_lt : ℕ × String × String → ℕ × String × String → Bool
key_lt (zero, o, n) (zero, p, m) = str_lt o p || str_eq o p && str_lt n m
key_lt (zero, o, n) (suc k, p, m) = true
key_lt (suc k, o, n) (zero, p, m) = false
key_lt (suc k, o, n) (suc j, p, m) = str_lt o p || str_eq o p && str_lt n m

abbrev pub insert_by_key : PluginDryRunResult → List PluginDryRunResult → List PluginDryRunResult
insert_by_key x [] = x ∷ []
insert_by_key x (y ∷ items) =
    let rest = insert_by_key x items in
    if key_lt (sort_key y) (sort_key x) then y ∷ rest else x ∷ y ∷ items

-- plugin_results.sort, which is stable
unfoldable pub sort_results : List PluginDryRunResult → List PluginDryRunResult
unfolding key_lt
sort_results [] = []
sort_results (x ∷ items) = insert_by_key x (sort_results items)

abbrev pub count_status : (LoadStatus → Bool) → List PluginDryRunResult → ℕ
count_status p [] = 0
count_status p (x ∷ items) =
    if p x.load_status then suc (count_status p items) else count_status p items

abbrev has_reasons : List String → Bool
has_reasons [] = false
has_reasons (_ ∷ _) = true

-- _has_warnings
unfoldable pub has_warnings : List PluginDryRunResult → Bool
has_warnings items =
    any (λ x. (is_loaded x.load_status || is_skipped x.load_status) && has_reasons x.reasons) items

-- plugin_results, errors and migration_plan_count
pub record Outcomes : Type 0 where
  pub results : List PluginDryRunResult
  pub errors : List DryRunError
  pub migrations : ℕ

abbrev pub join : Outcomes → Outcomes → Outcomes
join o rest = record {
  results = o.results ++ rest.results;
  errors = o.errors ++ rest.errors;
  migrations = o.migrations + rest.migrations;
}

abbrev pub add_outcome : Outcomes → Result Outcomes → Result Outcomes
add_outcome o (err e) = err e
add_outcome o (ok rest) = ok (join o rest)

abbrev pub is_none_left : List DryRunError → Bool
is_none_left [] = true
is_none_left (_ ∷ _) = false

module _ (host : Host) where
  -- what the try block gives, with the registry after it
  abbrev pub Tried : Type 0
  Tried = Result (PluginDryRunResult × ℕ) × PluginRegistryV1

  abbrev tried_result :
      PluginManifestV1
      → List MigrationPlanItem
      → Result RegistryRegisterResult × PluginRegistryV1
      → Tried
  tried_result manifest plan (err e, registry) = (err e, registry)
  tried_result manifest plan (ok result, registry) =
      (ok (plugin_result manifest plan result, length plan), registry)

  unfoldable pub try_manifest :
      Mode → String → Candidate → PluginManifestV1 → PluginRegistryV1 → Tried
  unfolding migration_plan_of register plugin_result
  try_manifest mode core_version c manifest registry = elim (migration_plan_of c manifest) [
    | err e ↦ (err e, registry)
    | ok plan ↦
        tried_result manifest plan
          (register host manifest mode core_version (some c.plugin_dir) registry)
  ]

  abbrev pub one_error : Option PluginManifestV1 → Candidate → DryRunErrorCode → String → Outcomes
  one_error manifest c code message = record {
    results = build_error_plugin_result manifest c message ∷ [];
    errors = record { code = code; message = message } ∷ [];
    migrations = 0;
  }

  -- the handlers; another exception ends the report
  unfoldable pub handled : Option PluginManifestV1 → Candidate → Exc → Result Outcomes
  unfolding build_error_plugin_result
  handled manifest c e = elim (as_dry_run_error e) [
    | some (code, message) ↦ ok (one_error manifest c code message)
    | none ↦
        if is_value_or_os_error e
        then ok (one_error manifest c plugin_load_error (host.text_of e))
        else err e
  ]

  abbrev pub outcome :
      PluginManifestV1 → Candidate → Result (PluginDryRunResult × ℕ) → Result Outcomes
  outcome manifest c (ok (result, planned_migrations)) =
      ok (record { results = result ∷ []; errors = []; migrations = planned_migrations })
  outcome manifest c (err e) = handled (some manifest) c e

  -- one iteration of the loop
  unfoldable pub run_candidate :
      Mode → String → Candidate → PluginRegistryV1 → Result Outcomes × PluginRegistryV1
  unfolding try_manifest handled load_manifest
  run_candidate mode core_version c registry = elim (load_manifest host c.manifest_path c.text) [
    | err e ↦ (handled none c e, registry)
    | ok manifest ↦
        let (tried, after) = try_manifest mode core_version c manifest registry in
        (outcome manifest c tried, after)
  ]

  unfoldable pub run_candidates :
      Mode → String → List Candidate → PluginRegistryV1 → Result Outcomes
  unfolding run_candidate
  run_candidates mode core_version [] registry =
      ok (record { results = []; errors = []; migrations = 0 })
  run_candidates mode core_version (c ∷ others) registry =
      let (one, after) = run_candidate mode core_version c registry in
      elim one [
        | err e ↦ err e
        | ok o ↦ add_outcome o (run_candidates mode core_version others after)
      ]

  unfoldable pub report_of : Mode → String → ℕ → Outcomes → DryRunReport
  unfolding sort_results has_warnings
  report_of mode core_version discovered o =
      let results = sort_results o.results in
      record {
        status =
            if not (is_none_left o.errors)
            then DryRunStatus.error
            else if has_warnings results
            then DryRunStatus.warning
            else DryRunStatus.ok;
        mode = mode;
        core_version = core_version;
        summary = record {
          plugins_discovered = discovered;
          plugins_loaded = count_status is_loaded results;
          plugins_skipped = count_status is_skipped results;
          migrations_planned = o.migrations;
        };
        plugins = results;
        errors = o.errors;
      }

  unfoldable pub build_dry_run_report : Mode → String → List Candidate → Result DryRunReport
  unfolding run_candidates report_of
  build_dry_run_report mode core_version candidates =
      elim (run_candidates mode core_version candidates empty_registry) [
        | err e ↦ err e
        | ok o ↦ ok (report_of mode core_version (length candidates) o)
      ]
