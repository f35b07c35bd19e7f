-- ===== src/Task/Storage/Persist/Outcome.antt =====
-- What one call of insert_result_and_update_task leaves behind, the retry included.
use scenario_pipeliner.Base.{
  ℕ, ◌+◌, Bool, true, false, ◌≡◌, ◌∙◌, List, [], ◌∷◌, ◌++◌, inl, inr, any, contains, if◌then◌else◌,
  Bool-cases,
}
use scenario_pipeliner.Table.{update_where, update_where-none}
use scenario_pipeliner.Db.Tables.{TaskRow, ResultRow, Database}
use scenario_pipeliner.Db.Identity.{result_ids, unique_violation, sync_core_identity_sequences}
use scenario_pipeliner.Db.Fresh.{contains-next_id, retry-ok, retry-stale}
use scenario_pipeliner.Db.Tx.{ok, err}
use scenario_pipeliner.Task.Storage.Persist.{
  Persist, set_persisted, write_status, cancels_children, is_updatable, cancel_children,
  insert_result, cancel_open_subtasks, persist_once, insert_result_and_update_task,
}

-- the task rows after a persist that hits
unfoldable pub persisted_tasks : ℕ → Persist → Database → List TaskRow
unfolding update_where cancel_children
persisted_tasks now p db =
    let rows =
      update_where (is_updatable p.task_id) (set_persisted now (write_status p db) p) db.tasks in
    if cancels_children p db then cancel_children now p.task_id rows else rows

abbrev pub result_row : ℕ → ℕ → Persist → ResultRow
result_row now id p = record { id = id; task_id = p.task_id; result = p.result; created_at = now }

abbrev pub committed : ℕ → Persist → Database → Database
committed now p db = record db {
  tasks = persisted_tasks now p db;
  results = db.results ++ result_row now db.results_seq p ∷ [];
  results_seq = db.results_seq + 1;
}

abbrev pub hits : Persist → Database → Bool
hits p db = any (is_updatable p.task_id) db.tasks

-- no row to update: nothing is written
persist_once-miss :
    (now : ℕ) (p : Persist) (db : Database)
    → hits p db ≡ false
    → persist_once now p db ≡ (ok false, db)
unfolding persist_once
persist_once-miss now p db h = rw (
  h,
  update_where-none (is_updatable p.task_id) (set_persisted now (write_status p db) p) db.tasks h,
)

persist_once-fresh :
    (now : ℕ) (p : Persist) (db : Database)
    → hits p db ≡ true
    → contains db.results_seq (result_ids db) ≡ false
    → persist_once now p db ≡ (ok true, committed now p db)
unfolding persist_once persisted_tasks insert_result cancel_open_subtasks
persist_once-fresh now p db h fresh = elim (Bool-cases (cancels_children p db)) [
  | inl c ↦ rw (h, c, fresh)
  | inr c ↦ rw (h, c, fresh)
]

persist_once-stale :
    (now : ℕ) (p : Persist) (db : Database)
    → hits p db ≡ true
    → contains db.results_seq (result_ids db) ≡ true
    → persist_once now p db
      ≡ (err (unique_violation "results_pkey"), record db { results_seq = db.results_seq + 1 })
unfolding persist_once insert_result
persist_once-stale now p db h stale = elim (Bool-cases (cancels_children p db)) [
  | inl c ↦ rw (h, c, stale)
  | inr c ↦ rw (h, c, stale)
]

-- the database in which the INSERT succeeds: sequences are repaired where the next id is taken
unfoldable pub repaired : Database → Database
unfolding sync_core_identity_sequences
repaired db =
    if contains db.results_seq (result_ids db) then sync_core_identity_sequences db else db

-- A persist always returns: `false` and an unchanged database where no row of that id is live, and else
-- `true` with the row, the result and, where the roll-up failed, the cancelled children all written.
-- A sequence that collides with a stored id is repaired and the retry goes through.
pub insert_result_total :
    (now : ℕ) (p : Persist) (db : Database)
    → insert_result_and_update_task now p db
      ≡ (if hits p db then (ok true, committed now p (repaired db)) else (ok false, db))
unfolding insert_result_and_update_task repaired
insert_result_total now p db = elim (Bool-cases (hits p db)) [
  | inr miss ↦ rw miss (retry-ok (persist_once now p) db db false (persist_once-miss now p db miss))
  | inl hit ↦ elim (Bool-cases (contains db.results_seq (result_ids db))) [
    | inr fresh ↦
        rw (hit, fresh)
          (retry-ok (persist_once now p) db (committed now p db) true
            (persist_once-fresh now p db hit fresh))
    | inl stale ↦
        rw (hit, stale)
          (retry-stale (persist_once now p) db (record db { results_seq = db.results_seq + 1 })
              (persist_once-stale now p db hit stale)
            ∙ persist_once-fresh now p (sync_core_identity_sequences db) hit
                (contains-next_id (result_ids db)))
  ]
]
