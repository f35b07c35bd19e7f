-- ===== src/Task/Rollup.antt =====
-- How the children of a task decide its parent's status: the table of docs/TASK_STATUS.md against
-- PostgresTaskStorage and PostgresTaskRepository.
pub mod Parents
use scenario_pipeliner.Base.{
  ℕ, ◌+◌, ◌≡◌, refl, sym, ◌∙◌, ap, Bool, true, false, not, ◌&&◌, ◌||◌, List, [], ◌∷◌, arith, ltb,
  any, if◌then◌else◌, Bool-cases, inl, inr, ◌⊎◌,
}
use scenario_pipeliner.Table.{select_where}
use scenario_pipeliner.Db.Enums.{
  TaskStatus, waiting, finished, finished_with_error, is_terminal, is_failed_subtask,
}
use scenario_pipeliner.Db.Tables.{TaskRow, Database}
use scenario_pipeliner.Task.Storage.Persist.{
  ParentSubtaskCounts, count_child, classify_from, no_children, classify_parent_children,
  parent_status_for_successful_root, is_child, load_parent_subtask_counts,
}

abbrev pub open_child : TaskRow → Bool
open_child t = not (is_terminal t.status)

abbrev pub blocking_failure : TaskRow → Bool
blocking_failure t = is_failed_subtask t.status && t.is_block

abbrev pub plain_failure : TaskRow → Bool
plain_failure t = is_failed_subtask t.status && not t.is_block

-- the table, first match wins
abbrev pub rollup : List TaskRow → TaskStatus
rollup children =
    if any blocking_failure children
    then TaskStatus.failed
    else if any open_child children
    then waiting
    else if any plain_failure children
    then finished_with_error
    else finished

some_open :
    (c : ParentSubtaskCounts) (rows : List TaskRow)
    → ltb 0 (classify_from c rows).pending_open ≡ (ltb 0 c.pending_open || any open_child rows)
unfolding classify_from
some_open c [] = ground arith
some_open c (t ∷ rows) = some_open (count_child t.status t.is_block c) rows ∙ ground arith

some_blocking :
    (c : ParentSubtaskCounts) (rows : List TaskRow)
    → ltb 0 (classify_from c rows).failed_blocking
      ≡ (ltb 0 c.failed_blocking || any blocking_failure rows)
unfolding classify_from
some_blocking c [] = ground arith
some_blocking c (t ∷ rows) = some_blocking (count_child t.status t.is_block c) rows ∙ ground arith

some_plain :
    (c : ParentSubtaskCounts) (rows : List TaskRow)
    → ltb 0 (classify_from c rows).failed_non_blocking
      ≡ (ltb 0 c.failed_non_blocking || any plain_failure rows)
unfolding classify_from
some_plain c [] = ground arith
some_plain c (t ∷ rows) = some_plain (count_child t.status t.is_block c) rows ∙ ground arith

-- the three tests of the code, as questions on the children
pub counts_open :
    (id : ℕ) (db : Database)
    → ltb 0 (load_parent_subtask_counts id db).pending_open
      ≡ any open_child (select_where (is_child id) db.tasks)
unfolding load_parent_subtask_counts
counts_open id db = some_open no_children (select_where (is_child id) db.tasks)

pub counts_failed :
    (id : ℕ) (db : Database)
    → let c = load_parent_subtask_counts id db in
      let kids = select_where (is_child id) db.tasks in
      (ltb 0 c.failed_blocking || ltb 0 c.failed_non_blocking)
      ≡ (any blocking_failure kids || any plain_failure kids)
unfolding load_parent_subtask_counts
counts_failed id db =
    let kids = select_where (is_child id) db.tasks in
    rw (some_blocking no_children kids, some_plain no_children kids)

-- The status of a root whose own pipeline succeeded is the table's, for every set of children.
pub parent_status-eq-rollup :
    (id : ℕ) (db : Database)
    → parent_status_for_successful_root (load_parent_subtask_counts id db)
      ≡ rollup (select_where (is_child id) db.tasks)
unfolding parent_status_for_successful_root load_parent_subtask_counts
parent_status-eq-rollup id db =
    let rows = select_where (is_child id) db.tasks in
    rw (some_blocking no_children rows, some_open no_children rows, some_plain no_children rows)
