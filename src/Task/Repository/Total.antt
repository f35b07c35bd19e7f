-- ===== src/Task/Repository/Total.antt =====
-- When the methods that store an outcome return.
use scenario_pipeliner.Base.{
  ℕ, ◌≡◌, refl, Bool, true, false, Option, none, some, arith, Bool-cases, inl, inr,
}
use scenario_pipeliner.Db.Enums.{TaskStatus, finished}
use scenario_pipeliner.Db.Tables.{Database}
use scenario_pipeliner.Db.Tx.{Exc, Result, ok, err}
use scenario_pipeliner.Json.{Json}
use scenario_pipeliner.Task.State.{TaskState}
use scenario_pipeliner.Task.Storage.{fail_waiting_parent}
use scenario_pipeliner.Task.Storage.Persist.{
  ParentSubtaskCounts, close_waiting_parent, load_parent_subtask_counts,
}
use scenario_pipeliner.Task.Storage.Persist.Outcome.{hits, committed, repaired, insert_result_total}
use scenario_pipeliner.Task.Rows.{Models}
use scenario_pipeliner.Task.Repository.{
  failure_counts, finished_counts, handle_subtask_failure, handle_subtask_finished, handle_parent,
  persist_arguments, persist_dumped, outcome_json, persist_task_with_status, persist_task_error,
  error_status, with_error,
}

module _ (now id : ℕ) (c : ParentSubtaskCounts) (db : Database) where
  failure_counts_ok : (failure_counts now id c db).0 ≡ ok tt
  unfolding failure_counts fail_waiting_parent close_waiting_parent
  failure_counts_ok = ground arith

  finished_counts_ok : (finished_counts now id c db).0 ≡ ok tt
  unfolding finished_counts fail_waiting_parent close_waiting_parent
  finished_counts_ok = ground arith

failure_ok :
    (now : ℕ) (parent : Option ℕ) (is_block : Bool) (db : Database)
    → (handle_subtask_failure now parent is_block db).0 ≡ ok tt
unfolding handle_subtask_failure
failure_ok now none is_block db = refl
failure_ok now (some id) true db = refl
failure_ok now (some id) false db = failure_counts_ok now id (load_parent_subtask_counts id db) db

finished_ok :
    (now : ℕ) (parent : Option ℕ) (db : Database)
    → (handle_subtask_finished now parent db).0 ≡ ok tt
unfolding handle_subtask_finished
finished_ok now none db = refl
finished_ok now (some id) db = finished_counts_ok now id (load_parent_subtask_counts id db) db

pub handle_parent_ok :
    (now : ℕ) (status : TaskStatus) (task : TaskState) (db : Database)
    → (handle_parent now status task db).0 ≡ ok tt
unfolding handle_parent
handle_parent_ok now TaskStatus.failed task db = failure_ok now task.parent_id task.is_block db
handle_parent_ok now finished task db = finished_ok now task.parent_id db
handle_parent_ok now _ task db = refl

module _ (models : Models) (utc now : ℕ) (task : TaskState) (candidate : TaskStatus)
    (db : Database) where
  dumped_ok :
      (result : Result Json) (json : Json)
      → result ≡ ok json
      → (persist_dumped models utc now task candidate result db).0 ≡ ok tt
  unfolding persist_dumped
  dumped_ok (err e) json h = cc
  dumped_ok (ok result) json h =
      let p = persist_arguments models utc task candidate result in
      elim (Bool-cases (hits p db)) [
        | inl hit ↦
            rw (insert_result_total now p db, hit)
              (handle_parent_ok now p.status task (committed now p (repaired db)))
        | inr miss ↦ rw (insert_result_total now p db, miss)
      ]

-- Storing an error raises nothing, where the outcome can be serialised and the driver raises nothing.
pub persist_task_error_ok :
    (models : Models) (utc now : ℕ) (task : TaskState) (e : Exc) (db : Database) (json : Json)
    → outcome_json models (with_error models e task) db ≡ ok json
    → (persist_task_error models utc now task e db).0 ≡ ok tt
unfolding persist_task_error persist_task_with_status
persist_task_error_ok models utc now task e db json h =
    let failed = with_error models e task in
    dumped_ok models utc now failed (error_status task) db (outcome_json models failed db) json h
