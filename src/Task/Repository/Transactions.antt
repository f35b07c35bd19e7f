-- ===== src/Task/Repository/Transactions.antt =====
-- Every method of PostgresTaskRepository is a run of the transactions of the status machine.
use scenario_pipeliner.Base.{
  ℕ, ◌≡◌, refl, Bool, true, false, Option, none, some, List, [], ◌∷◌, Bool-cases, inl, inr, arith,
  ltb, map,
}
use scenario_pipeliner.Db.Enums.{TaskStatus, finished, finished_with_error}
use scenario_pipeliner.Db.Tables.{Database}
use scenario_pipeliner.Db.Tx.{Exc, Result, ok, err, pure, after}
use scenario_pipeliner.Task.State.{TaskState}
use scenario_pipeliner.Task.Storage.{
  fail_waiting_parent, set_task_running, requeue_incomplete_tasks,
}
use scenario_pipeliner.Task.Storage.Persist.{
  ParentSubtaskCounts, insert_result_and_update_task, close_waiting_parent,
  load_parent_subtask_counts,
}
use scenario_pipeliner.Task.Storage.Persist.Outcome.{hits, committed, repaired, insert_result_total}
use scenario_pipeliner.Task.Rows.{Models}
use scenario_pipeliner.Json.{Json}
use scenario_pipeliner.Task.Machine.Storage.{is_written}
use scenario_pipeliner.Task.Machine.Runs.{
  Step, fail_parent, close_parent, cancel_children, drain, start, persist, Runs, here, next, one,
  Runs-trans,
}
use scenario_pipeliner.Task.Repository.{
  failure_counts, finished_counts, handle_subtask_failure, handle_subtask_finished, handle_parent,
  persist_arguments, persist_dumped, outcome_json, persist_task_with_status, persist_task_result,
  persist_task_error, persist_timeout, mark_task_running, with_error, started_or_raise, root_steps,
  result_status, error_status,
}

-- The parent's update after a failed child: nothing, or one transaction.
failure_counts-Runs :
    (now id : ℕ) (c : ParentSubtaskCounts) (db : Database) → Runs db (failure_counts now id c db).1
unfolding failure_counts fail_waiting_parent close_waiting_parent
failure_counts-Runs now id c db = elim (Bool-cases (ltb 0 c.pending_open)) [
  | inl e ↦ rw e here
  | inr e ↦ elim (Bool-cases (ltb 0 c.failed_blocking)) [
    | inl f ↦ rw (e, f) (one (fail_parent now id))
    | inr f ↦ elim (Bool-cases (ltb 0 c.failed_non_blocking)) [
      | inl g ↦ rw (e, f, g) (one (close_parent now id finished_with_error))
      | inr g ↦ rw (e, f, g) here
    ]
  ]
]

finished_counts-Runs :
    (now id : ℕ) (c : ParentSubtaskCounts) (db : Database) → Runs db (finished_counts now id c db).1
unfolding finished_counts fail_waiting_parent close_waiting_parent
finished_counts-Runs now id c db = elim (Bool-cases (ltb 0 c.pending_open)) [
  | inl e ↦ rw e here
  | inr e ↦ elim (Bool-cases (ltb 0 c.failed_blocking)) [
    | inl f ↦ rw (e, f) (one (fail_parent now id))
    | inr f ↦ elim (Bool-cases (ltb 0 c.failed_non_blocking)) [
      | inl g ↦ rw (e, f, g) (one (close_parent now id finished_with_error))
      | inr g ↦ rw (e, f, g) (one (close_parent now id finished))
    ]
  ]
]

failure-Runs :
    (now : ℕ) (parent : Option ℕ) (is_block : Bool) (db : Database)
    → Runs db (handle_subtask_failure now parent is_block db).1
unfolding handle_subtask_failure
failure-Runs now none is_block db = here
failure-Runs now (some id) true db = next (one (fail_parent now id)) (cancel_children now id)
failure-Runs now (some id) false db =
    failure_counts-Runs now id (load_parent_subtask_counts id db) db

finished-Runs :
    (now : ℕ) (parent : Option ℕ) (db : Database)
    → Runs db (handle_subtask_finished now parent db).1
unfolding handle_subtask_finished
finished-Runs now none db = here
finished-Runs now (some id) db = finished_counts-Runs now id (load_parent_subtask_counts id db) db

pub handle_parent-Runs :
    (now : ℕ) (status : TaskStatus) (task : TaskState) (db : Database)
    → Runs db (handle_parent now status task db).1
unfolding handle_parent
handle_parent-Runs now TaskStatus.failed task db = failure-Runs now task.parent_id task.is_block db
handle_parent-Runs now finished task db = finished-Runs now task.parent_id db
handle_parent-Runs now _ task db = here

persist_arguments-is_written :
    (models : Models) (utc : ℕ) (task : TaskState) (candidate : TaskStatus) (result : Json)
    → is_written candidate ≡ true
    → is_written (persist_arguments models utc task candidate result).status ≡ true
unfolding persist_arguments
persist_arguments-is_written models utc task candidate result h = ground arith

module _ (models : Models) (utc now : ℕ) (task : TaskState) (candidate : TaskStatus) where
  persist_dumped-Runs :
      (result : Result Json) (db : Database)
      → is_written candidate ≡ true
      → Runs db (persist_dumped models utc now task candidate result db).1
  unfolding persist_dumped
  persist_dumped-Runs (err e) db h = here
  persist_dumped-Runs (ok result) db h =
      let p = persist_arguments models utc task candidate result in
      let e = insert_result_total now p db in
      let s : Step db (insert_result_and_update_task now p db).1 =
        persist now p (persist_arguments-is_written models utc task candidate result h) in
      elim (Bool-cases (hits p db)) [
        | inl hit ↦
            rw (e, hit)
              (Runs-trans (rw (e, hit) at (one s))
                (handle_parent-Runs now p.status task (committed now p (repaired db))))
        | inr miss ↦ rw (e, miss) here
      ]

  pub persist_task-Runs :
      (db : Database)
      → is_written candidate ≡ true
      → Runs db (persist_task_with_status models utc now task candidate db).1
  unfolding persist_task_with_status
  persist_task-Runs db h = persist_dumped-Runs (outcome_json models task db) db h

-- A result, an error, a start and a shutdown drain of a task are runs of the status machine.
pub persist_task_result-Runs :
    (models : Models) (utc now : ℕ) (task : TaskState) (db : Database)
    → Runs db (persist_task_result models utc now task db).1
unfolding persist_task_result
persist_task_result-Runs models utc now task db =
    persist_task-Runs models utc now task (result_status task) db (ground arith)

pub persist_task_error-Runs :
    (models : Models) (utc now : ℕ) (task : TaskState) (e : Exc) (db : Database)
    → Runs db (persist_task_error models utc now task e db).1
unfolding persist_task_error
persist_task_error-Runs models utc now task e db =
    persist_task-Runs models utc now (with_error models e task) (error_status task) db
      (ground arith)

started_or_raise-state : (b : Bool) (db : Database) → (started_or_raise b db).1 ≡ db
unfolding started_or_raise
started_or_raise-state true db = refl
started_or_raise-state false db = refl

pub mark_task_running-Runs :
    (now : ℕ) (task : TaskState) (db : Database) → Runs db (mark_task_running now task db).1
unfolding mark_task_running set_task_running
mark_task_running-Runs now task db =
    rw started_or_raise-state
      (one (start now task.task_id task.alias (root_steps task.parent_id task.steps_names)))

drained-Runs :
    (now : ℕ) (ids : List ℕ) (db : Database)
    → Runs db (after (requeue_incomplete_tasks now ids db) (λ (_ : ℕ). pure tt)).1
unfolding requeue_incomplete_tasks
drained-Runs now [] db = here
drained-Runs now (i ∷ ids) db = one (drain now (i ∷ ids))

pub persist_timeout-Runs :
    (now : ℕ) (tasks : List TaskState) (db : Database) → Runs db (persist_timeout now tasks db).1
unfolding persist_timeout
persist_timeout-Runs now tasks db = drained-Runs now (map (λ (t : TaskState). t.task_id) tasks) db
