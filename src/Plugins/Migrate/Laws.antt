-- ===== src/Plugins/Migrate/Laws.antt =====
-- The ledger of plugin migrations: what is applied is recorded, and is not applied again.
use scenario_pipeliner.Base.{
  ℕ, ◌≡◌, refl, ap, sym, ◌∙◌, ◌⊎◌, inl, inr, Bool, true, false, some, List, [], ◌∷◌, if◌then◌else◌,
  arith, Bool-cases, Option-cases,
}
use scenario_pipeliner.Text.{String, str_eq, str_lt, eq_iff, eq_refl}
use scenario_pipeliner.Text.Laws.{str_lt_self}
use scenario_pipeliner.Db.Tables.{SettingRow, PluginMigrationRow, Database}
use scenario_pipeliner.Db.Settings.{get_setting, upsert_setting, get-upsert}
use scenario_pipeliner.Db.Tx.{
  Exc, schema_mapping_mismatch, Result, ok, err, Tx, pure, gets, after, finish, Result-cases,
}
use scenario_pipeliner.Plugins.Names.{validate_schema_name}
use scenario_pipeliner.Plugins.Manifest.{Host}
use scenario_pipeliner.Plugins.Sql.{Letters}
use scenario_pipeliner.Plugins.Migrate.{
  plugin_schema_settings_key, persist_mapping, persist_plugin_schema, get_plugin_migration,
  check_plugin_migration_replay, record_plugin_migration, Sql, ensure_postgres_schema, execute_all,
  put_migration, run_migration, apply_statements,
}

pub get-record :
    (now : ℕ) (name other order sha : String) (migrations : List PluginMigrationRow)
    → get_plugin_migration other (record_plugin_migration now name order sha migrations)
      ≡ (if str_eq name other then some (order, sha) else get_plugin_migration other migrations)
unfolding get_plugin_migration record_plugin_migration
get-record now name other order sha [] = refl
get-record now name other order sha (row ∷ migrations) = ground (
  arith,
  eq_iff row.plugin_name name,
  eq_iff row.plugin_name other,
  eq_iff name other,
  get-record now name other order sha migrations,
)

-- The mapping is stored, or it differs from the stored one and nothing is written.
persist-cases :
    (key schema : String) (db : Database)
    → ((e : Exc) × (persist_mapping key schema db ≡ (err e, db)))
      ⊎ ((settings : List SettingRow) × (persist_mapping key schema db
            ≡ (ok tt, record db { settings = settings }))
          × (get_setting key settings ≡ some schema))
persist-cases key schema db = elim (Option-cases (get_setting key db.settings)) [
  | inl n ↦ inr (
    upsert_setting key schema db.settings,
    rw (n, persist_mapping) refl,
    get-upsert key schema db.settings n,
  )
  | inr (existing, s) ↦ elim (Bool-cases (str_eq existing schema)) [
    | inl e ↦
        inr
          (db.settings, rw (s, e, persist_mapping) refl, s ∙ ap some ((eq_iff existing schema).0 e))
    | inr e ↦ inl (schema_mapping_mismatch, rw (s, e, persist_mapping) refl)
  ]
]

same_file :
    (order sha : String) → check_plugin_migration_replay order sha (some (order, sha)) ≡ ok true
unfolding check_plugin_migration_replay
same_file order sha = rw (str_lt_self order, eq_refl sha) refl

-- code that leaves the ledger and the settings as they are
abbrev pub Keeps : Tx (Unit {0}) → Type 0
Keeps m =
    (db : Database) → ((m db).1.migrations ≡ db.migrations) × ((m db).1.settings ≡ db.settings)

after-Keeps :
    (x : Result (Unit {0}) × Database) (m : Tx (Unit {0}))
    → Keeps m
    → ((after x (λ _. m)).1.migrations ≡ x.1.migrations)
      × ((after x (λ _. m)).1.settings ≡ x.1.settings)
after-Keeps (ok u, db) m k = k db
after-Keeps (err e, db) m k = (refl, refl)

module _ (host : Host) (sql : Sql) (letters : Letters) (now : ℕ) where
  -- neither a statement of a plugin nor the making of its schema touches the ledger or the settings
  abbrev pub KeepsLedger : Type 0
  KeepsLedger =
      ((s : String) → Keeps (sql.execute s)) × ((s : String) → Keeps (sql.create_schema s))

  ensure-Keeps :
      (schema : String) → KeepsLedger → Keeps (ensure_postgres_schema host sql letters now schema)
  unfolding ensure_postgres_schema
  ensure-Keeps schema (_, creates) db = elim (Result-cases (validate_schema_name schema)) [
    | inl (e, v) ↦ rw (v, ensure_postgres_schema) (refl, refl)
    | inr (name, v) ↦ elim (Bool-cases (sql.schema_exists name db)) [
      | inl b ↦ rw (v, b, ensure_postgres_schema) (refl, refl)
      | inr b ↦ rw (v, b, ensure_postgres_schema) (creates name db)
    ]
  ]

  execute_all-Keeps :
      (statements : List String) → KeepsLedger → Keeps (execute_all host sql letters now statements)
  unfolding execute_all
  execute_all-Keeps [] k db = (refl, refl)
  execute_all-Keeps (s ∷ statements) k db =
      let (a, b) = k.0 s db in
      let (c, d) =
        after-Keeps (sql.execute s db) (execute_all host sql letters now statements)
          (execute_all-Keeps statements k) in
      (c ∙ a, d ∙ b)

  -- How the transaction of a plan ends: it raises, and the tables are as before; the file was applied
  -- before; or its statements were run, and the ledger has it.
  abbrev pub Outcome :
      String → String → String → String → Database → Result Bool × Database → Type 0
  Outcome name schema order sha before r =
      ((e : Exc) × (r.0 ≡ err e)
        × (r.1.migrations ≡ before.migrations)
        × (r.1.settings ≡ before.settings))
      ⊎ ((get_setting (plugin_schema_settings_key name) r.1.settings ≡ some schema)
          × (((r.0 ≡ ok false)
                × (check_plugin_migration_replay order sha
                      (get_plugin_migration name before.migrations)
                    ≡ ok true)
                × (r.1.migrations ≡ before.migrations))
              ⊎ ((r.0 ≡ ok true)
                  × (check_plugin_migration_replay order sha
                        (get_plugin_migration name before.migrations)
                      ≡ ok false)
                  × (r.1.migrations
                      ≡ record_plugin_migration now name order sha before.migrations))))

  recorded :
      (name schema order sha : String) (before : Database) (x : Result (Unit {0}) × Database)
      → x.1.migrations ≡ before.migrations
      → get_setting (plugin_schema_settings_key name) x.1.settings ≡ some schema
      → check_plugin_migration_replay order sha (get_plugin_migration name before.migrations)
        ≡ ok false
      → Outcome name schema order sha before (
          finish before (
            after
              (after x (λ _. put_migration host sql letters now name order sha))
              (λ _. pure true)))
  recorded name schema order sha before (err e, d) m s c = inl (e, refl, refl, refl)
  recorded name schema order sha before (ok u, d) m s c =
      inr (s, inr (refl, c, ap (record_plugin_migration now name order sha) m))

  checked :
      (name schema order sha : String) (statements : List String) (before d : Database)
      (c : Result Bool)
      → KeepsLedger
      → d.migrations ≡ before.migrations
      → get_setting (plugin_schema_settings_key name) d.settings ≡ some schema
      → check_plugin_migration_replay order sha (get_plugin_migration name before.migrations) ≡ c
      → Outcome name schema order sha before (
          finish before
            (after (c, d) (run_migration host sql letters now name schema order sha statements)))
  checked name schema order sha statements before d (err e) k m s c = inl (e, refl, refl, refl)
  checked name schema order sha statements before d (ok true) k m s c = inr (s, inl (refl, c, m))
  checked name schema order sha statements before d (ok false) k m s c =
      let x =
        after (ensure_postgres_schema host sql letters now schema d)
          (λ _. execute_all host sql letters now statements) in
      let (a, b) = ensure-Keeps schema k d in
      let (e, f) =
        after-Keeps (ensure_postgres_schema host sql letters now schema d)
          (execute_all host sql letters now statements) (execute_all-Keeps statements k) in
      recorded name schema order sha before x (e ∙ a ∙ m)
        (ap (get_setting (plugin_schema_settings_key name)) (f ∙ b) ∙ s) c

  -- the transaction once the mapping of the schema is persisted, or is not
  flow :
      String
      → String
      → String
      → String
      → List String
      → Database
      → Result (Unit {0}) × Database
      → Result Bool × Database
  flow name schema order sha statements before persisted = finish before (
      after (after persisted (λ _. gets (λ db. get_plugin_migration name db.migrations)))
        (λ existing db.
          after (check_plugin_migration_replay order sha existing, db)
            (run_migration host sql letters now name schema order sha statements)))

  flow-Outcome :
      (name schema order sha : String) (statements : List String) (before : Database)
      (persisted : Result (Unit {0}) × Database)
      → KeepsLedger
      → ((e : Exc) × (persisted.0 ≡ err e))
        ⊎ ((persisted.1.migrations ≡ before.migrations)
            × (get_setting (plugin_schema_settings_key name) persisted.1.settings ≡ some schema))
      → Outcome name schema order sha before
          (flow name schema order sha statements before persisted)
  unfolding flow
  flow-Outcome name schema order sha statements before (err e, d) k h = inl (e, refl, refl, refl)
  flow-Outcome name schema order sha statements before (ok u, d) k (inl (e, bad)) =
      absurd (ground arith)
  flow-Outcome name schema order sha statements before (ok u, d) k (inr (m, s)) =
      checked name schema order sha statements before d
        (check_plugin_migration_replay order sha (get_plugin_migration name d.migrations)) k m s
        (ap (λ x. check_plugin_migration_replay order sha (get_plugin_migration name x)) (sym m))

  apply-Outcome :
      (name schema order sha : String) (statements : List String) (db : Database)
      → KeepsLedger
      → Outcome name schema order sha db
          (apply_statements host sql letters now name schema order sha statements db)
  unfolding apply_statements persist_plugin_schema flow
  apply-Outcome name schema order sha statements db k =
      flow-Outcome name schema order sha statements db
        (persist_mapping (plugin_schema_settings_key name) schema db) k
        (elim (persist-cases (plugin_schema_settings_key name) schema db) [
          | inl (e, p) ↦ inl (e, ap (λ (x : Result (Unit {0}) × Database). x.0) p)
          | inr (settings, p, s) ↦ inr (
            ap (λ (x : Result (Unit {0}) × Database). x.1.migrations) p,
            ap
                  (λ (x : Result (Unit {0}) × Database).
                    get_setting (plugin_schema_settings_key name) x.1.settings)
                  p
                ∙ s,
          )
        ])

  not_older :
      (order sha o s : String) (b : Bool)
      → check_plugin_migration_replay order sha (some (o, s)) ≡ ok b
      → str_lt order o ≡ false
  unfolding check_plugin_migration_replay
  not_older order sha o s b h = ground arith

  -- Where the statements of plugins leave the ledger and the settings alone, a transaction of a plan, however
  -- it ends, keeps the entry of every plugin in the ledger, and its order does not become older.
  pub ledger_never_older :
      (name schema order sha : String) (statements : List String) (db : Database)
      (other o s : String)
      → KeepsLedger
      → get_plugin_migration other db.migrations ≡ some (o, s)
      → (p : String) × (t : String) × (get_plugin_migration other
            (apply_statements host sql letters now name schema order sha statements db).1.migrations
          ≡ some (p, t))
        × (str_lt p o ≡ false)
  ledger_never_older name schema order sha statements db other o s k h =
      elim (apply-Outcome name schema order sha statements db k) [
        | inl (_, _, m, _) ↦ (o, s, ap (get_plugin_migration other) m ∙ h, str_lt_self o)
        | inr (_, inl (_, _, m)) ↦ (o, s, ap (get_plugin_migration other) m ∙ h, str_lt_self o)
        | inr (_, inr (_, c, m)) ↦
            let now_is =
              ap (get_plugin_migration other) m
              ∙ get-record now name other order sha db.migrations in
            elim (Bool-cases (str_eq name other)) [
              | inl e ↦
                  let found : get_plugin_migration name db.migrations ≡ some (o, s) =
                    ap (λ x. get_plugin_migration x db.migrations) ((eq_iff name other).0 e) ∙ h in
                  (
                    order,
                    sha,
                    now_is ∙ rw e refl,
                    not_older order sha o s false
                        (sym (ap (check_plugin_migration_replay order sha) found) ∙ c),
                  )
              | inr e ↦ (o, s, now_is ∙ rw e h, str_lt_self o)
            ]
      ]

  replayed :
      (name schema order sha : String) (statements : List String) (db : Database)
      → get_setting (plugin_schema_settings_key name) db.settings ≡ some schema
      → check_plugin_migration_replay order sha (get_plugin_migration name db.migrations) ≡ ok true
      → apply_statements host sql letters now name schema order sha statements db ≡ (ok false, db)
  unfolding apply_statements persist_plugin_schema flow
  replayed name schema order sha statements db s c =
      let p : persist_mapping (plugin_schema_settings_key name) schema db ≡ (ok tt, db) =
        rw (s, eq_refl schema, persist_mapping) refl in
      ap (flow name schema order sha statements db) p
      ∙ ap
          (λ r.
            finish db
              (after (r, db) (run_migration host sql letters now name schema order sha statements)))
          c

  -- Where the statements of plugins leave the ledger and the settings alone, a plan whose transaction
  -- returned is skipped when it is applied again, and its second transaction changes nothing.
  pub applied_once :
      (name schema order sha : String) (statements : List String) (db : Database) (b : Bool)
      → KeepsLedger
      → let once = apply_statements host sql letters now name schema order sha statements db in
        once.0 ≡ ok b
        → apply_statements host sql letters now name schema order sha statements once.1
          ≡ (ok false, once.1)
  applied_once name schema order sha statements db b k h =
      let once = apply_statements host sql letters now name schema order sha statements db in
      elim (apply-Outcome name schema order sha statements db k) [
        | inl (e, bad, _, _) ↦ absurd (ground arith)
        | inr (s, inl (_, c, m)) ↦
            replayed name schema order sha statements once.1 s (
              ap (λ x. check_plugin_migration_replay order sha (get_plugin_migration name x)) m ∙ c)
        | inr (s, inr (_, _, m)) ↦ replayed name schema order sha statements once.1 s (
            ap (λ x. check_plugin_migration_replay order sha (get_plugin_migration name x)) m
            ∙ ap (check_plugin_migration_replay order sha)
                (get-record now name name order sha db.migrations)
            ∙ ap (check_plugin_migration_replay order sha) (rw (eq_refl name) refl)
            ∙ same_file order sha)
      ]
