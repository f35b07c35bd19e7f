-- ===== src/Task/Repository.antt =====
-- worker/task_repositories/postgres.py, class PostgresTaskRepository. `utc` is the worker's clock
-- (utc_now) and `now` the database's. Log lines are left out.
pub mod Transactions
pub mod Total
pub mod Stored
use scenario_pipeliner.Base.{
  ℕ, Bool, true, false, ◌&&◌, Option, none, some, List, [], ◌∷◌, ltb, if◌then◌else◌, is_some, map,
}
use scenario_pipeliner.Text.{String, str_eq, concat}
use scenario_pipeliner.Json.{Json}
use scenario_pipeliner.Db.Enums.{
  TaskStatus, finished, finished_with_error, cancelled, is_new, is_finished, is_cyclical,
}
use scenario_pipeliner.Db.Tables.{Database}
use scenario_pipeliner.Db.Tx.{Exc, pipeline_cancelled, Result, ok, err, Tx, pure, raise, ◌>>=◌}
use scenario_pipeliner.Task.State.{TaskState}
use scenario_pipeliner.Task.Cyclical.{get_params_for_cyclical_task}
use scenario_pipeliner.Task.Storage.{
  lock_runnable_tasks, set_task_running, setting_is_on, fail_waiting_parent,
  requeue_incomplete_tasks,
}
use scenario_pipeliner.Task.Storage.Persist.{
  ParentSubtaskCounts, count_parent_subtasks_state, close_waiting_parent, cancel_open_subtasks,
  Persist, insert_result_and_update_task,
}
use scenario_pipeliner.Task.Rows.{Models, rows_to_task_states}

unfoldable pub fetch_execution_batch : Models → (ℕ → Bool) → ℕ → ℕ → ℕ → Tx (List TaskState)
unfolding lock_runnable_tasks rows_to_task_states
fetch_execution_batch models locked now tasks_limit zombie_timeout_minutes =
    lock_runnable_tasks locked now tasks_limit zombie_timeout_minutes >>= λ rows db.
    (rows_to_task_states models rows, db)

-- `task.parent_id is None and task.steps_names and task.steps_names != [""]`
abbrev root_steps : Option ℕ → List String → Option (List String)
root_steps (some _) names = none
root_steps none [] = none
root_steps none (s ∷ []) = if str_eq s "" then none else some (s ∷ [])
root_steps none (s ∷ t ∷ names) = some (s ∷ t ∷ names)

started_or_raise : Bool → Tx (Unit {0})
started_or_raise true = pure tt
started_or_raise false = raise pipeline_cancelled

unfoldable pub mark_task_running : ℕ → TaskState → Tx (Unit {0})
unfolding started_or_raise
mark_task_running now task =
    set_task_running now task.task_id task.alias (root_steps task.parent_id task.steps_names)
    >>= started_or_raise

ignore : Tx Bool → Tx (Unit {0})
ignore m = m >>= λ _. pure tt

unfoldable pub failure_counts : ℕ → ℕ → ParentSubtaskCounts → Tx (Unit {0})
unfolding ignore
failure_counts now parent_id c =
    if ltb 0 c.pending_open
    then pure tt
    else if ltb 0 c.failed_blocking
    then ignore (fail_waiting_parent now parent_id)
    else if ltb 0 c.failed_non_blocking
    then ignore (close_waiting_parent now parent_id finished_with_error)
    else pure tt

unfoldable pub handle_subtask_failure : ℕ → Option ℕ → Bool → Tx (Unit {0})
unfolding failure_counts fail_waiting_parent cancel_open_subtasks count_parent_subtasks_state
handle_subtask_failure now none is_block = pure tt
handle_subtask_failure now (some parent_id) true =
    fail_waiting_parent now parent_id >>= λ _. cancel_open_subtasks now parent_id
handle_subtask_failure now (some parent_id) false =
    count_parent_subtasks_state parent_id >>= failure_counts now parent_id

unfoldable pub finished_counts : ℕ → ℕ → ParentSubtaskCounts → Tx (Unit {0})
unfolding ignore
finished_counts now parent_id c =
    if ltb 0 c.pending_open
    then pure tt
    else if ltb 0 c.failed_blocking
    then ignore (fail_waiting_parent now parent_id)
    else ignore (
        close_waiting_parent now parent_id
          (if ltb 0 c.failed_non_blocking then finished_with_error else finished))

unfoldable pub handle_subtask_finished : ℕ → Option ℕ → Tx (Unit {0})
unfolding finished_counts count_parent_subtasks_state
handle_subtask_finished now none = pure tt
handle_subtask_finished now (some parent_id) =
    count_parent_subtasks_state parent_id >>= finished_counts now parent_id

-- the two `if`s on the stored status, for a task with a parent
unfoldable pub handle_parent : ℕ → TaskStatus → TaskState → Tx (Unit {0})
unfolding handle_subtask_failure handle_subtask_finished
handle_parent now TaskStatus.failed task = handle_subtask_failure now task.parent_id task.is_block
handle_parent now finished task = handle_subtask_finished now task.parent_id
handle_parent now _ task = pure tt

abbrev pub result_status : TaskState → TaskStatus
result_status task = if task.result.ok then finished else TaskStatus.failed

abbrev pub error_status : TaskState → TaskStatus
error_status task = if task.is_cancelled then cancelled else TaskStatus.failed

module _ (models : Models) where
  open models use {dump_payload, dump_result, driver_error, type_name, message}

  unfoldable pub payload_for_retry : TaskState → TaskStatus → Option Json
  payload_for_retry task status =
      if is_cyclical task.type_task && is_new status
      then (elim task.payload [ none ↦ none | some p ↦ some (dump_payload p) ])
      else none

  -- the arguments of insert_result_and_update_task
  unfoldable pub persist_arguments : ℕ → TaskState → TaskStatus → Json → Persist
  unfolding get_params_for_cyclical_task payload_for_retry
  persist_arguments utc task candidate result =
      let (status, current_executions, next_run_at) =
        get_params_for_cyclical_task utc candidate task in
      record {
        task_id = task.task_id;
        result = result;
        status = status;
        current_executions = current_executions;
        next_run_at = next_run_at;
        payload = payload_for_retry task status;
        rollup_parent = (if is_some task.parent_id then false else is_finished status);
      }

  unfoldable pub after_persist : ℕ → TaskState → TaskStatus → Bool → Tx (Unit {0})
  after_persist now task status false = pure tt
  after_persist now task status true = handle_parent now status task

  unfoldable pub persist_dumped : ℕ → ℕ → TaskState → TaskStatus → Result Json → Tx (Unit {0})
  unfolding after_persist
  persist_dumped utc now task candidate (err e) = raise e
  persist_dumped utc now task candidate (ok result) =
      let p = persist_arguments utc task candidate result in
      insert_result_and_update_task now p >>= after_persist now task p.status

  -- model_dump_json comes before the transaction
  abbrev pub outcome_json : TaskState → Database → Result Json
  outcome_json task db = elim (dump_result task.result) [
    | err e ↦ err e
    | ok result ↦ elim (driver_error db) [ some e ↦ err e | none ↦ ok result ]
  ]

  unfoldable pub persist_task_with_status : ℕ → ℕ → TaskState → TaskStatus → Tx (Unit {0})
  unfolding persist_dumped
  persist_task_with_status utc now task candidate db =
      persist_dumped utc now task candidate (outcome_json task db) db

  unfoldable pub persist_task_result : ℕ → ℕ → TaskState → Tx (Unit {0})
  persist_task_result utc now task = persist_task_with_status utc now task (result_status task)

  -- `task.result.ok = False; task.result.error = …`
  unfoldable pub with_error : Exc → TaskState → TaskState
  with_error e task = record task {
    result = record task.result {
      ok = false;
      error = some (record { error_type = type_name e; message = message e });
    };
  }

  unfoldable pub persist_task_error : ℕ → ℕ → TaskState → Exc → Tx (Unit {0})
  persist_task_error utc now task e =
      persist_task_with_status utc now (with_error e task) (error_status task)

unfoldable pub persist_timeout : ℕ → List TaskState → Tx (Unit {0})
unfolding requeue_incomplete_tasks
persist_timeout now tasks =
    requeue_incomplete_tasks now (map (λ (t : TaskState). t.task_id) tasks) >>= λ _. pure tt

unfoldable pub is_worker_enabled : Bool → Tx Bool
unfolding setting_is_on
is_worker_enabled reachable = setting_is_on reachable "worker_enabled"

unfoldable pub is_scenario_active : Bool → String → Tx Bool
unfolding setting_is_on
is_scenario_active reachable scenario = setting_is_on reachable (concat "pipeline_active_" scenario)
