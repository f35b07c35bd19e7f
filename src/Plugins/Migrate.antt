-- ===== src/Plugins/Migrate.antt =====
-- core/plugin_migrate.py and the ledger of db/schema_utils.py: the plugins' migrations, in their order, and
-- what of them was applied before. What PostgreSQL does with a plugin's statements is the record Sql.
pub mod Laws
use scenario_pipeliner.Base.{
  ℕ, Bool, true, false, not, ◌&&◌, ◌||◌, Option, none, some, List, [], ◌∷◌, ◌++◌, if◌then◌else◌,
}
use scenario_pipeliner.Text.{String, concat, str_eq, str_lt, is_empty}
use scenario_pipeliner.Db.Tables.{SettingRow, PluginMigrationRow, Database}
use scenario_pipeliner.Db.Settings.{get_setting, upsert_setting}
use scenario_pipeliner.Db.Tx.{
  Exc, runtime_error, schema_mapping_mismatch, migration_conflict, Result, ok, err, Tx, pure, raise,
  gets, begin, ◌>>=◌, ◌>>◌,
}
use scenario_pipeliner.Plugins.Names.{validate_schema_name, plugin_schema_name}
use scenario_pipeliner.Plugins.Manifest.{
  PluginManifestV1, Host, Resolved, is_missing, load_manifest, resolve_plugin_migration_path,
}
use scenario_pipeliner.Plugins.Registry.{Identities, claim_plugin_identity}
use scenario_pipeliner.Plugins.Sql.{Letters, render_plugin_sql, split_sql_statements}

-- f"plugin_schema_{plugin_name}"
abbrev pub plugin_schema_settings_key : String → String
plugin_schema_settings_key plugin_name = concat "plugin_schema_" plugin_name

abbrev pub put_setting : String → String → Tx (Unit {0})
put_setting key value db = (ok tt, record db { settings = upsert_setting key value db.settings })

-- the body that persist_core_schema and persist_plugin_schema share
abbrev pub persist_mapping : String → String → Tx (Unit {0})
persist_mapping key schema db = elim (get_setting key db.settings) [
  | none ↦ put_setting key schema db
  | some existing ↦
      if not (str_eq existing schema) then (err schema_mapping_mismatch, db) else (ok tt, db)
]

unfoldable pub persist_core_schema : String → Tx (Unit {0})
unfolding get_setting upsert_setting
persist_core_schema schema_name = persist_mapping "db_schema" schema_name

unfoldable pub persist_plugin_schema : String → String → Tx (Unit {0})
unfolding get_setting upsert_setting
persist_plugin_schema plugin_name plugin_schema =
    persist_mapping (plugin_schema_settings_key plugin_name) plugin_schema

-- get_plugin_migration: the order and the digest of the row
unfoldable pub get_plugin_migration : String → List PluginMigrationRow → Option (String × String)
get_plugin_migration plugin_name [] = none
get_plugin_migration plugin_name (row ∷ migrations) =
    if str_eq row.plugin_name plugin_name
    then some (row.migration_order, row.sql_sha256)
    else get_plugin_migration plugin_name migrations

-- whether the file was applied before
unfoldable pub check_plugin_migration_replay :
    String → String → Option (String × String) → Result Bool
check_plugin_migration_replay migration_order sql_sha256 none = ok false
check_plugin_migration_replay migration_order sql_sha256 (some (applied_order, applied_sha)) =
    if str_lt migration_order applied_order
    then err migration_conflict
    else if str_eq applied_sha sql_sha256
    then ok true
    else if str_eq applied_order migration_order
    then err migration_conflict
    else ok false

-- record_plugin_migration: INSERT … ON CONFLICT (plugin_name) DO UPDATE
unfoldable pub record_plugin_migration :
    ℕ → String → String → String → List PluginMigrationRow → List PluginMigrationRow
record_plugin_migration now plugin_name migration_order sql_sha256 [] =
    record {
      plugin_name = plugin_name;
      migration_order = migration_order;
      sql_sha256 = sql_sha256;
      applied_at = now;
    }
    ∷ []
record_plugin_migration now plugin_name migration_order sql_sha256 (row ∷ migrations) =
    let rest = record_plugin_migration now plugin_name migration_order sql_sha256 migrations in
    if str_eq row.plugin_name plugin_name
    then record row { migration_order = migration_order; sql_sha256 = sql_sha256; applied_at = now }
      ∷ migrations
    else row ∷ rest

-- PostgreSQL: a schema that is made where it is missing, and a statement of a plugin
pub record Sql : Type 0 where
  pub schema_exists : String → Database → Bool
  pub create_schema : String → Tx (Unit {0})
  pub execute : String → Tx (Unit {0})

-- a manifest that was found; a path of it leads to a file with its text, or to none
pub record Source : Type 0 where
  pub manifest_path : String
  pub text : Option String
  pub resolve : String → Resolved

-- (order, plugin_name, sql_path)
abbrev pub Plan : Type 0
Plan = String × String × String

abbrev plan_lt : Plan → Plan → Bool
plan_lt (order, name, _) (other, other_name, _) =
    str_lt order other || str_eq order other && str_lt name other_name

abbrev pub insert_plan : Plan → List Plan → List Plan
insert_plan p [] = p ∷ []
insert_plan p (q ∷ plans) =
    let rest = insert_plan p plans in if plan_lt q p then q ∷ rest else p ∷ q ∷ plans

-- plans.sort
unfoldable pub sort_plans : List Plan → List Plan
sort_plans [] = []
sort_plans (p ∷ plans) = insert_plan p (sort_plans plans)

abbrev and_then {ℓ κ} : {A : Type ℓ} {B : Type κ} → Result A → (A → Result B) → Result B
and_then (ok a) f = f a
and_then (err e) f = err e

abbrev pub lift {ℓ} : {A : Type ℓ} → Result A → Tx A
lift r db = (r, db)

module _ (host : Host) where
  -- the plan of one manifest, before those of the others
  abbrev with_plan : Source → PluginManifestV1 → List Plan → Result (List Plan)
  with_plan source manifest plans = elim manifest.migrations [
    | none ↦ ok plans
    | some m ↦ elim m.postgresql [
      | none ↦ ok plans
      | some relative ↦
          if is_empty relative
          then ok plans
          else and_then (resolve_plugin_migration_path source.resolve relative)
              λ path. ok ((m.migration_order, manifest.plugin_name, path) ∷ plans)
    ]
  ]

  -- the loop of collect_plugin_migration_plans
  unfoldable pub collect_plans : List Source → Identities → Result (List Plan)
  unfolding load_manifest claim_plugin_identity resolve_plugin_migration_path
  collect_plans [] identities = ok []
  collect_plans (source ∷ sources) identities =
      and_then (load_manifest host source.manifest_path source.text) λ manifest.
        let (claimed, seen) = claim_plugin_identity host manifest.plugin_name identities in
        and_then claimed λ _.
          and_then (with_plan source manifest [])
            λ plan. and_then (collect_plans sources seen) λ plans. ok (plan ++ plans)

  unfoldable pub collect_plugin_migration_plans : List Source → Result (List Plan)
  unfolding collect_plans sort_plans
  collect_plugin_migration_plans sources =
      and_then (collect_plans sources ([], [])) λ plans. ok (sort_plans plans)

  module _ (sql : Sql) (letters : Letters) (now : ℕ) where
    unfoldable pub ensure_postgres_schema : String → Tx (Unit {0})
    unfolding validate_schema_name
    ensure_postgres_schema schema db = elim (validate_schema_name schema) [
      | err e ↦ (err e, db)
      | ok name ↦ if sql.schema_exists name db then (ok tt, db) else sql.create_schema name db
    ]

    unfoldable pub execute_all : List String → Tx (Unit {0})
    execute_all [] = pure tt
    execute_all (statement ∷ statements) = sql.execute statement >> execute_all statements

    abbrev pub put_migration : String → String → String → Tx (Unit {0})
    put_migration plugin_name order sha db = (
      ok tt,
      record db { migrations = record_plugin_migration now plugin_name order sha db.migrations },
    )

    abbrev pub run_migration : String → String → String → String → List String → Bool → Tx Bool
    run_migration plugin_name schema order sha statements true = pure false
    run_migration plugin_name schema order sha statements false =
        ensure_postgres_schema schema
        >> execute_all statements
        >> put_migration plugin_name order sha
        >> pure true

    -- the transaction of one plan; `true` where the plugin's statements were run
    unfoldable pub apply_statements : String → String → String → String → List String → Tx Bool
    unfolding persist_plugin_schema get_plugin_migration check_plugin_migration_replay
        record_plugin_migration ensure_postgres_schema execute_all
    apply_statements plugin_name schema order sha statements = begin (
        persist_plugin_schema plugin_name schema
        >> gets (λ db. get_plugin_migration plugin_name db.migrations)
        >>= λ existing.
            lift (check_plugin_migration_replay order sha existing)
            >>= run_migration plugin_name schema order sha statements)

    -- the splitter returns on every text, so that it does not answer `none`
    abbrev split_result : Option (Result (List String)) → Result (List String)
    split_result (some r) = r
    split_result none = err runtime_error

    -- one iteration of the loop of apply_plugin_migrations_async; the path leads to a text or to nothing
    unfoldable pub apply_plan : String → (String → Option String) → Plan → Tx Bool
    unfolding plugin_schema_name render_plugin_sql split_sql_statements apply_statements
    apply_plan core_schema read (order, plugin_name, path) db = elim (read path) [
      | none ↦ (err runtime_error, db)
      | some text ↦ elim (plugin_schema_name host.lower plugin_name) [
        | err e ↦ (err e, db)
        | ok schema ↦
            elim (and_then (render_plugin_sql text core_schema schema)
              λ rendered. split_result (split_sql_statements letters rendered)) [
                | err e ↦ (err e, db)
                | ok statements ↦
                    apply_statements plugin_name schema order (host.sha256 text) statements db
              ]
      ]
    ]

    unfoldable pub apply_plans : String → (String → Option String) → List Plan → Tx (List String)
    unfolding apply_plan
    apply_plans core_schema read [] = pure []
    apply_plans core_schema read ((order, plugin_name, path) ∷ plans) =
        apply_plan core_schema read (order, plugin_name, path) >>= λ applied.
        apply_plans core_schema read plans >>= λ names.
        pure (if applied then plugin_name ∷ names else names)

    -- apply_plugin_migrations_async
    unfoldable pub apply_plugin_migrations :
        String → (String → Option String) → List Source → Tx (List String)
    unfolding apply_plans collect_plugin_migration_plans validate_schema_name
    apply_plugin_migrations db_schema read sources =
        lift (validate_schema_name db_schema) >>= λ core_schema.
        lift (collect_plugin_migration_plans sources) >>= λ plans.
        apply_plans core_schema read plans
