-- ===== src/Db/Identity.antt =====
-- db/schema_utils.py: identity sequences, their repair, and the retry of an insert that met a stale one.
use text.Mathlib.Text.{find?}
use scenario_pipeliner.Base.{
  ℕ, suc, max, Bool, true, false, ◌&&◌, Option, none, some, List, [], ◌∷◌, map, is_some,
  if◌then◌else◌,
}
use scenario_pipeliner.Text.{String, concat, ends_with}
use scenario_pipeliner.Db.Tables.{TaskRow, ResultRow, IngressRow, OutboxRow, Database}
use scenario_pipeliner.Db.Tx.{ErrorLink, Exc, integrity_error, Result, err, Tx}

-- `sub in text`
abbrev in_text : String → String → Bool
in_text sub text = is_some (find? text sub)

name_is_pkey : Option String → Bool
unfolding ends_with
name_is_pkey none = false
name_is_pkey (some name) = ends_with name "_pkey"

-- `constraint_name`, and `diag.constraint_name` where that is None
link_constraint : ErrorLink → Option String
link_constraint e = elim e.constraint_name [ none ↦ e.diag_constraint_name | some c ↦ some c ]

-- The chain is the exceptions that `current.__cause__ or current.orig` reaches, each once: that is
-- what `seen` ensures.
unfoldable pub is_identity_pkey_violation : List ErrorLink → Bool
unfolding name_is_pkey link_constraint
is_identity_pkey_violation [] = false
is_identity_pkey_violation (e ∷ rest) =
    let later = is_identity_pkey_violation rest in
    if name_is_pkey (link_constraint e)
    then true
    else if in_text "duplicate key value violates unique constraint" e.text
        && in_text "_pkey" e.text
    then true
    else later

-- what PostgreSQL raises where a row with that value of a unique constraint exists
unfoldable pub unique_violation : String → Exc
unique_violation name = integrity_error (
    record {
      constraint_name = some name;
      diag_constraint_name = none;
      text = concat "duplicate key value violates unique constraint " name;
    }
    ∷ [])

-- the next id above every id of the table, from 1 on
unfoldable pub next_id : List ℕ → ℕ
next_id [] = 1
next_id (i ∷ ids) = max (suc i) (next_id ids)

abbrev pub task_ids : Database → List ℕ
task_ids db = map (λ (t : TaskRow). t.id) db.tasks

abbrev pub result_ids : Database → List ℕ
result_ids db = map (λ (r : ResultRow). r.id) db.results

abbrev pub ingress_ids : Database → List ℕ
ingress_ids db = map (λ (i : IngressRow). i.id) db.ingress

abbrev pub outbox_ids : Database → List ℕ
outbox_ids db = map (λ (o : OutboxRow). o.id) db.outbox

-- `setval` past `MAX(id)` for each table of `CoreSchema.identity_tables`
unfoldable pub sync_core_identity_sequences : Database → Database
unfolding next_id
sync_core_identity_sequences db = record db {
  tasks_seq = next_id (task_ids db);
  results_seq = next_id (result_ids db);
  ingress_seq = next_id (ingress_ids db);
  outbox_seq = next_id (outbox_ids db);
}

module _ {ℓ} {A : Type ℓ} where
  -- the `except IntegrityError` of the retry
  unfoldable pub retried : Tx A → Result A × Database → Result A × Database
  unfolding is_identity_pkey_violation sync_core_identity_sequences
  retried operation (err (integrity_error chain), db) =
      if is_identity_pkey_violation chain
      then operation (sync_core_identity_sequences db)
      else (err (integrity_error chain), db)
  retried operation (r, db) = (r, db)

  unfoldable pub run_with_identity_sequence_retry : Tx A → Tx A
  unfolding retried
  run_with_identity_sequence_retry operation db = retried operation (operation db)
