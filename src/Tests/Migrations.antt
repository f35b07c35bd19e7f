-- ===== src/Tests/Migrations.antt =====
-- Tests and examples for the plugins' SQL and their migrations.
use scenario_pipeliner.Base.{ℕ, ◌≡◌, refl, Bool, true, false, ◌||◌, ◌&&◌, leb, some, [], ◌∷◌}
use scenario_pipeliner.Text.{String, str_lt, strip}
use scenario_pipeliner.Db.Tables.{Database, empty_database}
use scenario_pipeliner.Db.Tx.{ok, err, pure, sql_split, migration_conflict}
use scenario_pipeliner.Plugins.Names.{is_lower, is_digit, check_schema, is_reserved}
use scenario_pipeliner.Plugins.Sql.{
  Letters, render_plugin_sql, split_sql_statements, next_piece, reject_transaction_control,
}
use scenario_pipeliner.Plugins.Migrate.{Sql, get_plugin_migration, apply_statements}
use scenario_pipeliner.Plugins.Migrate.Laws.{KeepsLedger, ledger_never_older, applied_once}
use scenario_pipeliner.Tests.Plugins.{host}

abbrev is_upper : ℕ → Bool
is_upper c = leb 65 c && leb c 90

-- ASCII letters; the texts below have capitals only where a keyword has them
abbrev letters : Letters
letters = record {
  is_alnum = λ c. is_upper c || is_lower c || is_digit c;
  is_alpha = λ c. is_upper c || is_lower c;
  upper = λ c. String.◌∷◌ c String.[];
}

split_test :
    split_sql_statements letters "a ';'''; -- b;\n/* ; */ c $t$;$t$ ;;\n d"
    ≡ some (ok ("a ';'''" ∷ "-- b;\n/* ; */ c $t$;$t$" ∷ "d" ∷ []))
unfolding split_sql_statements next_piece strip reject_transaction_control
split_test = refl

control_test : split_sql_statements letters "a; /* x */ BEGIN; b" ≡ some (err sql_split)
unfolding split_sql_statements next_piece strip reject_transaction_control
control_test = refl

unterminated_test : split_sql_statements letters "a 'b" ≡ some (err sql_split)
unfolding split_sql_statements next_piece
unterminated_test = refl

render_test : render_plugin_sql "x {{core_schema}}.{{plugin_schema}}" "sp" "a" ≡ ok "x sp.a"
unfolding render_plugin_sql
render_test = refl

abbrev sql : Sql
sql = record { schema_exists = λ s db. false; create_schema = λ s. pure tt; execute = λ s. pure tt }

keeps : KeepsLedger host sql letters 7
keeps = (λ s db. (refl, refl), λ s db. (refl, refl))

abbrev migrated : Database
migrated =
    (apply_statements host sql letters 7 "a" "a" "20260101000000" "d1" ("x" ∷ []) empty_database).1

in_ledger : get_plugin_migration "a" migrated.migrations ≡ some ("20260101000000", "d1")
unfolding apply_statements get_plugin_migration check_schema strip is_reserved
in_ledger = refl

runs :
    (apply_statements host sql letters 7 "a" "a" "20260101000000" "d1" ("x" ∷ []) empty_database).0
    ≡ ok true
unfolding apply_statements check_schema strip is_reserved
runs = refl

changed_sql_test :
    (apply_statements host sql letters 7 "a" "a" "20260101000000" "d2" ("x" ∷ []) migrated).0
    ≡ err migration_conflict
unfolding apply_statements check_schema strip is_reserved
changed_sql_test = refl

ledger_never_older_example :
    (p : String) × (t : String) × (get_plugin_migration "a"
        (apply_statements host sql letters 7 "a" "a" "20260201000000" "d2"
          ("y" ∷ [])
          migrated).1.migrations
      ≡ some (p, t))
    × (str_lt p "20260101000000" ≡ false)
ledger_never_older_example =
    ledger_never_older host sql letters 7 "a" "a" "20260201000000" "d2" ("y" ∷ []) migrated "a"
      "20260101000000" "d1" keeps in_ledger

applied_once_example :
    apply_statements host sql letters 7 "a" "a" "20260101000000" "d1" ("x" ∷ []) migrated
    ≡ (ok false, migrated)
applied_once_example =
    applied_once host sql letters 7 "a" "a" "20260101000000" "d1" ("x" ∷ []) empty_database true
      keeps runs
