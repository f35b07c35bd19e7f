-- ===== src/Tests/Discovery.antt =====
-- Tests and examples for what is built from the manifests that were found: the worker's registry and the
-- dry run.
use scenario_pipeliner.Base.{
  ◌≡◌, ◌≢◌, ◌+◌, ◌==◌, not, length, refl, true, false, none, some, [], ◌∷◌,
}
use scenario_pipeliner.Text.{String, strip}
use scenario_pipeliner.Dict.{keys, in_names}
use scenario_pipeliner.Api.{dev, DryRunStatus}
use scenario_pipeliner.Db.Tx.{ok, err, lookup_error}
use scenario_pipeliner.Db.Enums.{new, inner, linear}
use scenario_pipeliner.Task.State.{TaskState}
use scenario_pipeliner.Task.Rows.{fresh_result}
use scenario_pipeliner.Exec.Router.{StateClass, Typed, promote_task_state}
use scenario_pipeliner.Plugins.Registry.{empty_registry}
use scenario_pipeliner.Plugins.Runtime.{
  Main, Script, returns, register_scenario, Discovered, Importer,
  build_worker_registry_from_manifests, sorted, resolve_entrypoint,
}
use scenario_pipeliner.Plugins.Runtime.Laws.{
  listed, built_scenarios, built_router_promotes, router_of,
}
use scenario_pipeliner.Plugins.DryRun.{
  Candidate, DryRunReport, build_dry_run_report, run_candidate, run_candidates, add_outcome,
  Outcomes,
}
use scenario_pipeliner.Plugins.DryRun.Laws.{is_error, report_counts, error_isolated}
use scenario_pipeliner.Plugins.Checksum.{directory_bytes, is_ignored, canonical_manifest_digest}
use scenario_pipeliner.Plugins.Names.{
  named_schema, sanitized, is_word, validate_schema_name, check_schema, is_reserved,
}
use scenario_pipeliner.Tests.Plugins.{host, plugin_dir}

abbrev cls : StateClass
cls = record { name = "XState"; fields = []; ancestors = "XState" ∷ "TaskState" ∷ [] }

-- a plugin that registers its scenario with a space around it
abbrev script : Script String String
script =
    register_scenario (record { scenario = " a.x "; pipeline_factory = "make"; state_cls = cls })
      λ answer. returns

abbrev imported : Importer String String
imported = λ m o. ok script

abbrev found : Discovered
found = record {
  manifest_path = "plugins/a/plugin.manifest.json";
  text = some "old";
  plugin_dir = plugin_dir;
  dir_name = "a";
  unique = "_sp_plugin_a_0";
}

abbrev built : Main String String
built = record {
  pipeline_factories = ("a.x", "make") ∷ [];
  state_classes = ("a.x", cls) ∷ [];
  broker_plugins = [];
}

builds : build_worker_registry_from_manifests host imported dev "0.1" (found ∷ []) ≡ ok built
unfolding build_worker_registry_from_manifests directory_bytes is_ignored canonical_manifest_digest
    named_schema sanitized is_word validate_schema_name check_schema is_reserved strip sorted
    resolve_entrypoint
builds = refl

built_scenarios_example :
    (in_names "a.x" (keys built.pipeline_factories) ≡ listed host imported "a.x" (found ∷ []))
    × (in_names "a.x" (keys built.state_classes) ≡ listed host imported "a.x" (found ∷ []))
built_scenarios_example = built_scenarios host imported dev "0.1" (found ∷ []) built "a.x" builds

abbrev state : TaskState
state = record {
  task_id = 1;
  scenario = "a.x";
  alias = none;
  status = new;
  source = inner;
  type_task = linear;
  interval_seconds = some 60;
  max_executions = none;
  current_executions = 0;
  next_run_at = none;
  is_block = false;
  parent_id = none;
  payload = none;
  result = fresh_result;
  steps_names = [];
  is_cancelled = false;
}

abbrev typed : Typed
typed = record {
  cls = record { name = "TaskState"; fields = []; ancestors = "TaskState" ∷ [] };
  state = state;
}

built_router_promotes_example :
    promote_task_state (router_of host imported built "default") typed ≢ err lookup_error
built_router_promotes_example =
    built_router_promotes host imported dev "0.1" (found ∷ []) built "default" typed builds

abbrev candidate : Candidate
candidate = record {
  manifest_path = "plugins/a/plugin.manifest.json";
  text = some "old";
  plugin_dir = plugin_dir;
  dir_name = "a";
  resolve = λ s. record { is_absolute = false; resolved = s; within = true };
  exists = λ s. true;
  is_file = λ s. true;
}

-- its manifest file is gone
abbrev lost : Candidate
lost = record candidate { text = none }

abbrev report : DryRunReport
report = elim (build_dry_run_report host dev "0.1" (lost ∷ candidate ∷ [])) [
  | ok r ↦ r
  | err e ↦ record {
    status = DryRunStatus.ok;
    mode = dev;
    core_version = "";
    summary = record {
      plugins_discovered = 0;
      plugins_loaded = 0;
      plugins_skipped = 0;
      migrations_planned = 0;
    };
    plugins = [];
    errors = [];
  }
]

reports : build_dry_run_report host dev "0.1" (lost ∷ candidate ∷ []) ≡ ok report
unfolding build_dry_run_report directory_bytes is_ignored canonical_manifest_digest named_schema
    sanitized is_word validate_schema_name check_schema is_reserved strip sorted
reports = refl

report_counts_example :
    (length report.plugins ≡ report.summary.plugins_discovered)
    × (report.summary.plugins_discovered ≡ 2)
    × (report.summary.plugins_loaded + report.summary.plugins_skipped + length report.errors
        ≡ report.summary.plugins_discovered)
    × (report.summary.migrations_planned ≡ report.summary.plugins_loaded)
    × (is_error report.status ≡ not (length report.errors == 0))
report_counts_example = report_counts host dev "0.1" (lost ∷ candidate ∷ []) report reports

abbrev missing : Outcomes
missing = elim (run_candidate host dev "0.1" lost empty_registry).0 [
  | ok o ↦ o
  | err e ↦ record { results = []; errors = []; migrations = 0 }
]

goes_missing : (run_candidate host dev "0.1" lost empty_registry).0 ≡ ok missing
unfolding run_candidate directory_bytes is_ignored canonical_manifest_digest named_schema sanitized
    is_word validate_schema_name check_schema is_reserved strip sorted
goes_missing = refl

has_error : missing.errors ≢ []
unfolding run_candidate directory_bytes is_ignored canonical_manifest_digest named_schema sanitized
    is_word validate_schema_name check_schema is_reserved strip sorted
has_error h = cc

error_isolated_example :
    run_candidates host dev "0.1" (lost ∷ candidate ∷ []) empty_registry
    ≡ add_outcome missing (run_candidates host dev "0.1" (candidate ∷ []) empty_registry)
error_isolated_example =
    error_isolated host dev "0.1" lost (candidate ∷ []) empty_registry missing goes_missing
      has_error
