-- ===== src/Tests/Tasks.antt =====
-- A small task table: a new task, a parent that waits for two children, and a worker's transactions on it.
use scenario_pipeliner.Base.{
  ◌≤◌, length, ℕ, ◌≡◌, refl, inl, Bool, true, false, ◌&&◌, ◌||◌, Option, none, some, List, [], ◌∷◌,
  arith, any, contains, if◌then◌else◌,
}
use scenario_pipeliner.Json.{null}
use scenario_pipeliner.Table.{select_where, find_key}
use scenario_pipeliner.Db.Enums.{
  TaskStatus, new, running, waiting, finished, cancelled, inner, linear, is_open,
}
use scenario_pipeliner.Db.Tables.{TaskRow, SettingRow, Database, empty_database}
use scenario_pipeliner.Db.Tx.{ok}
use scenario_pipeliner.Task.Storage.{
  touch_heartbeats, set_task_running, set_queued, lock_runnable_tasks, lock_candidates, is_runnable,
  new_runnable, zombie, active_exists, worker_enabled, requeue_incomplete_tasks,
}
use scenario_pipeliner.Task.Storage.Persist.{
  Persist, is_child, parent_status_for_successful_root, load_parent_subtask_counts,
  insert_result_and_update_task,
}
use scenario_pipeliner.Task.Storage.Persist.Outcome.{insert_result_total, hits, committed, repaired}
use scenario_pipeliner.Task.Storage.Lock.{
  ids, UniqueIds, returned, locked_once, lock_leaves, lock_within_limit,
}
use scenario_pipeliner.Task.Repository.{handle_subtask_finished, handle_subtask_failure}
use scenario_pipeliner.Task.Machine.{find_task}
use scenario_pipeliner.Task.Machine.Runs.{one, drain, Keeps, Runs-Keeps}
use scenario_pipeliner.Task.Rollup.{
  open_child, blocking_failure, plain_failure, rollup, parent_status-eq-rollup,
}
use scenario_pipeliner.Task.Rollup.Parents.{
  child_finished, plain_child_failed, blocking_child_failed, siblings_of_blocking_failure,
}

abbrev pub row : ℕ → TaskStatus → Option ℕ → Bool → TaskRow
row id status parent_id is_block = record {
  id = id;
  scenario = "demo";
  status = status;
  source = inner;
  type_task = linear;
  interval_seconds = 1;
  max_executions = none;
  current_executions = 0;
  next_run_at = none;
  last_heartbeat_at = none;
  is_block = is_block;
  parent_id = parent_id;
  payload = none;
  alias = none;
  steps_names = [];
  created_at = 1;
  updated_at = 1;
  deleted_at = none;
}

abbrev pub new_task : TaskRow
new_task = row 1 new none false

abbrev parent : TaskRow
parent = row 2 waiting none false

abbrev open_subtask : TaskRow
open_subtask = row 3 running (some 2) false

abbrev failed_subtask : TaskRow
failed_subtask = row 4 TaskStatus.failed (some 2) false

abbrev pub enabled : List SettingRow
enabled =
    record { key = "worker_enabled"; value = "1" }
    ∷ record { key = "pipeline_active_demo"; value = " 1 " }
    ∷ []

abbrev pub demo : Database
demo = record empty_database {
  tasks = new_task ∷ parent ∷ open_subtask ∷ failed_subtask ∷ [];
  tasks_seq = 5;
  settings = enabled;
}

find_failed : find_task 4 demo.tasks ≡ some failed_subtask
unfolding find_key
find_failed = refl

find_parent : find_task 2 demo.tasks ≡ some parent
unfolding find_key
find_parent = refl

find_open : find_task 3 demo.tasks ≡ some open_subtask
unfolding find_key
find_open = refl

Runs-Keeps_example :
    (r : TaskRow) × (find_task 4 (requeue_incomplete_tasks 5 (1 ∷ 4 ∷ []) demo).1.tasks ≡ some r)
    × Keeps failed_subtask r
Runs-Keeps_example = Runs-Keeps (one (drain 5 (1 ∷ 4 ∷ []))) 4 failed_subtask find_failed

abbrev outcome : Persist
outcome = record {
  task_id = 3;
  result = null;
  status = finished;
  current_executions = 0;
  next_run_at = none;
  payload = none;
  rollup_parent = false;
}

insert_result_total_example : insert_result_and_update_task 5 outcome demo ≡ (
    if hits outcome demo then (ok true, committed 5 outcome (repaired demo)) else (ok false, demo))
insert_result_total_example = insert_result_total 5 outcome demo

unique_ids : UniqueIds demo.tasks
unique_ids = (refl, (refl, (refl, (refl, tt))))

abbrev free : ℕ → Bool
free k = false

takes_one : contains 1 (ids (returned (lock_runnable_tasks free 5 10 30 demo))) ≡ true
unfolding lock_runnable_tasks lock_candidates is_runnable new_runnable zombie active_exists
    worker_enabled
takes_one = refl

abbrev locked : Database
locked = (lock_runnable_tasks free 5 10 30 demo).1

-- the worker starts the task and sends a heartbeat
abbrev beating : Database
beating = (touch_heartbeats true 40 (1 ∷ []) (set_task_running 20 1 none none locked).1).1

beating_ids : UniqueIds beating.tasks
unfolding lock_runnable_tasks lock_candidates is_runnable new_runnable zombie active_exists
    worker_enabled set_task_running touch_heartbeats
beating_ids = (refl, (refl, (refl, (refl, tt))))

find_locked : find_task 1 locked.tasks ≡ some (set_queued 5 new_task)
unfolding lock_runnable_tasks lock_candidates is_runnable new_runnable zombie active_exists
    worker_enabled find_key
find_locked = refl

abbrev beating_task : TaskRow
beating_task = record new_task { status = running; updated_at = 40; last_heartbeat_at = some 40 }

find_beating : find_task 1 beating.tasks ≡ some beating_task
unfolding lock_runnable_tasks lock_candidates is_runnable new_runnable zombie active_exists
    worker_enabled set_task_running touch_heartbeats find_key
find_beating = refl

locked_once_example :
    contains 1 (ids (returned (lock_runnable_tasks free 60 10 30 beating))) ≡ false
locked_once_example =
    locked_once free free 5 60 10 10 30 30 demo beating unique_ids beating_ids (omega arith) 1
      takes_one (set_queued 5 new_task) beating_task find_locked find_beating refl (omega arith)

lock_within_limit_example : length (returned (lock_runnable_tasks free 5 1 30 demo)) ≤ 1
lock_within_limit_example = lock_within_limit free 5 1 30 demo unique_ids

parent_idle : is_runnable demo 5 30 parent ≡ false
unfolding is_runnable new_runnable zombie
parent_idle = refl

lock_leaves_example :
    find_key (λ (t : TaskRow). t.id) 2 (lock_runnable_tasks free 5 10 30 demo).1.tasks ≡ some parent
lock_leaves_example = lock_leaves free 5 10 30 demo 2 parent find_parent (inl parent_idle)

parent_status-eq-rollup_example :
    parent_status_for_successful_root (load_parent_subtask_counts 2 demo)
    ≡ rollup (select_where (is_child 2) demo.tasks)
parent_status-eq-rollup_example = parent_status-eq-rollup 2 demo

child_finished_example :
    find_task 2 (handle_subtask_finished 5 (some 2) demo).1.tasks
    ≡ some (
        if any open_child (select_where (is_child 2) demo.tasks) then parent else record parent {
          status = rollup (select_where (is_child 2) demo.tasks);
          updated_at = 5;
        })
child_finished_example = child_finished 5 2 demo parent find_parent refl

plain_child_failed_example :
    let children = select_where (is_child 2) demo.tasks in
    find_task 2 (handle_subtask_failure 5 (some 2) false demo).1.tasks
    ≡ some (
        if any open_child children
        then parent
        else if any blocking_failure children || any plain_failure children
        then record parent { status = rollup children; updated_at = 5 }
        else parent)
plain_child_failed_example = plain_child_failed 5 2 demo parent find_parent refl

blocking_child_failed_example :
    find_task 2 (handle_subtask_failure 5 (some 2) true demo).1.tasks
    ≡ some (record parent { status = TaskStatus.failed; updated_at = 5 })
blocking_child_failed_example = blocking_child_failed 5 2 demo parent find_parent refl

siblings_of_blocking_failure_example :
    find_task 3 (handle_subtask_failure 5 (some 2) true demo).1.tasks
    ≡ some (
        if is_child 2 open_subtask && is_open open_subtask.status
        then record open_subtask { status = cancelled; updated_at = 5 }
        else open_subtask)
siblings_of_blocking_failure_example =
    siblings_of_blocking_failure 5 2 demo 3 open_subtask find_open refl

-- candidates come in the order of their ids
lowest_first :
    lock_candidates free 5 1 30 (record demo { tasks = new_task ∷ row 7 new none false ∷ [] })
    ≡ 1 ∷ []
unfolding lock_candidates is_runnable new_runnable zombie active_exists worker_enabled
lowest_first = refl
