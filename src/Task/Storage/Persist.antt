-- ===== src/Task/Storage/Persist.antt =====
-- worker/task_repositories/postgres.py, class PostgresTaskStorage: the result of a task, the roll-up
-- of the children's statuses into the parent's, and the updates of a waiting parent.
pub mod Outcome
use scenario_pipeliner.Base.{
  ℕ, ◌+◌, Bool, true, false, not, ◌&&◌, Option, none, some, List, [], ◌∷◌, ◌++◌, ltb, ◌==◌,
  if◌then◌else◌, is_some, contains,
}
use scenario_pipeliner.Json.{Json}
use scenario_pipeliner.Table.{update_where, select_where}
use scenario_pipeliner.Db.Enums.{
  TaskStatus, waiting, finished, finished_with_error, cancelled, is_waiting, is_finished,
  is_terminal, is_failed_subtask, is_open,
}
use scenario_pipeliner.Db.Tables.{TaskRow, Database}
use scenario_pipeliner.Db.Identity.{result_ids, unique_violation, run_with_identity_sequence_retry}
use scenario_pipeliner.Db.Tx.{
  value_error, Result, ok, err, Tx, pure, raise, gets, ◌>>=◌, ◌>>◌, begin,
}
use scenario_pipeliner.Task.Storage.{update_tasks}

-- worker/core/native_db_protocol.py
pub record ParentSubtaskCounts : Type 0 where
  pub pending_open : ℕ
  pub failed_non_blocking : ℕ
  pub failed_blocking : ℕ

-- one turn of the loop of _classify_parent_children
abbrev pub count_child : TaskStatus → Bool → ParentSubtaskCounts → ParentSubtaskCounts
count_child status is_block c =
    if not (is_terminal status)
    then record c { pending_open = c.pending_open + 1 }
    else if is_failed_subtask status && is_block
    then record c { failed_blocking = c.failed_blocking + 1 }
    else if is_failed_subtask status
    then record c { failed_non_blocking = c.failed_non_blocking + 1 }
    else c

unfoldable pub classify_from : ParentSubtaskCounts → List TaskRow → ParentSubtaskCounts
classify_from c [] = c
classify_from c (t ∷ rows) = classify_from (count_child t.status t.is_block c) rows

abbrev pub no_children : ParentSubtaskCounts
no_children = record { pending_open = 0; failed_non_blocking = 0; failed_blocking = 0 }

unfoldable pub classify_parent_children : List TaskRow → ParentSubtaskCounts
unfolding classify_from
classify_parent_children rows = classify_from no_children rows

unfoldable pub parent_status_for_successful_root : ParentSubtaskCounts → TaskStatus
parent_status_for_successful_root counts =
    if ltb 0 counts.failed_blocking
    then TaskStatus.failed
    else if ltb 0 counts.pending_open
    then waiting
    else if ltb 0 counts.failed_non_blocking
    then finished_with_error
    else finished

-- parent_id = id, which a null parent_id does not satisfy
abbrev pub is_parent : ℕ → Option ℕ → Bool
is_parent id none = false
is_parent id (some p) = p == id

abbrev pub is_child : ℕ → TaskRow → Bool
is_child parent_id t = is_parent parent_id t.parent_id && not (is_some t.deleted_at)

unfoldable pub load_parent_subtask_counts : ℕ → Database → ParentSubtaskCounts
unfolding classify_parent_children select_where
load_parent_subtask_counts parent_id db =
    classify_parent_children (select_where (is_child parent_id) db.tasks)

unfoldable pub count_parent_subtasks_state : ℕ → Tx ParentSubtaskCounts
unfolding load_parent_subtask_counts
count_parent_subtasks_state parent_id = begin (gets (load_parent_subtask_counts parent_id))

-- the UPDATE of _cancel_open_subtasks
unfoldable pub cancel_children : ℕ → ℕ → List TaskRow → List TaskRow
unfolding update_where
cancel_children now parent_id =
    update_where (λ t. is_child parent_id t && is_open t.status)
      (λ t. record t { status = cancelled; updated_at = now })

unfoldable pub cancel_open_subtasks : ℕ → ℕ → Tx (Unit {0})
unfolding cancel_children
cancel_open_subtasks now parent_id db =
    (ok tt, record db { tasks = cancel_children now parent_id db.tasks })

-- core/enums.py as_waiting_parent_close_status
unfoldable pub as_waiting_parent_close_status : TaskStatus → Result TaskStatus
as_waiting_parent_close_status finished = ok finished
as_waiting_parent_close_status finished_with_error = ok finished_with_error
as_waiting_parent_close_status _ = err value_error

close_as : ℕ → ℕ → Result TaskStatus → Tx Bool
unfolding update_where
close_as now parent_id (ok status) = begin (
    update_tasks (λ t. t.id == parent_id && is_waiting t.status)
      (λ t. record t { status = status; updated_at = now }))
close_as now parent_id (err e) = raise e

unfoldable pub close_waiting_parent : ℕ → ℕ → TaskStatus → Tx Bool
unfolding close_as as_waiting_parent_close_status
close_waiting_parent now parent_id status =
    close_as now parent_id (as_waiting_parent_close_status status)

-- the arguments of insert_result_and_update_task, after `json.loads` of the two texts
pub record Persist : Type 0 where
  pub task_id : ℕ
  pub result : Json
  pub status : TaskStatus
  pub current_executions : ℕ
  pub next_run_at : Option ℕ
  pub payload : Option Json
  pub rollup_parent : Bool

abbrev new_payload : Option Json → Option Json → Option Json
new_payload none old = old
new_payload (some p) old = some p

abbrev pub set_persisted : ℕ → TaskStatus → Persist → TaskRow → TaskRow
set_persisted now status p t = record t {
  status = status;
  updated_at = now;
  current_executions = p.current_executions;
  next_run_at = p.next_run_at;
  payload = new_payload p.payload t.payload;
}

-- INSERT INTO results: `nextval` first, then the primary key
unfoldable pub insert_result : ℕ → ℕ → Json → Tx (Unit {0})
unfolding unique_violation
insert_result now task_id result db =
    let id = db.results_seq in
    let db' = record db { results_seq = id + 1 } in
    if contains id (result_ids db) then (err (unique_violation "results_pkey"), db') else (
      ok tt,
      record db' {
        results =
            db.results
            ++ record { id = id; task_id = task_id; result = result; created_at = now } ∷ [];
      },
    )

-- the status to write, from the children that are locked in the same transaction
unfoldable pub write_status : Persist → Database → TaskStatus
unfolding parent_status_for_successful_root load_parent_subtask_counts
write_status p db =
    if p.rollup_parent && is_finished p.status
    then parent_status_for_successful_root (load_parent_subtask_counts p.task_id db)
    else p.status

abbrev is_failed : TaskStatus → Bool
is_failed TaskStatus.failed = true
is_failed _ = false

abbrev pub cancels_children : Persist → Database → Bool
cancels_children p db = p.rollup_parent && is_finished p.status && is_failed (write_status p db)

abbrev pub is_updatable : ℕ → TaskRow → Bool
is_updatable task_id t = t.id == task_id && not (is_terminal t.status)

-- what follows the UPDATE: `updated` says whether it hit a row
after_update : ℕ → Persist → Bool → Bool → Tx Bool
after_update now p cancel_kids false = pure false
after_update now p false true = insert_result now p.task_id p.result >> pure true
after_update now p true true =
    insert_result now p.task_id p.result >> (cancel_open_subtasks now p.task_id >> pure true)

unfoldable pub persist_once : ℕ → Persist → Tx Bool
unfolding after_update
persist_once now p = begin (
    gets (λ db. (write_status p db, cancels_children p db)) >>= λ (status, cancel_kids).
    update_tasks (is_updatable p.task_id) (set_persisted now status p)
    >>= after_update now p cancel_kids)

unfoldable pub insert_result_and_update_task : ℕ → Persist → Tx Bool
insert_result_and_update_task now p = run_with_identity_sequence_retry (persist_once now p)
