-- ===== src/Task/Rollup/Parents.antt =====
-- What a child that ends does to its parent: _handle_subtask_finished and _handle_subtask_failure.
use mathlib.Core.Option
use scenario_pipeliner.Base.{
  ℕ, ◌≡◌, refl, ap, ◌∙◌, true, false, ◌&&◌, ◌||◌, some, List, arith, ltb, any, ◌==◌, if◌then◌else◌,
  Bool-cases, inl, inr,
}
use scenario_pipeliner.Table.{
  select_where, update_where, applied, find_key-update_where, key-find_key,
}
use scenario_pipeliner.Db.Enums.{TaskStatus, cancelled, is_waiting, is_open}
use scenario_pipeliner.Db.Tables.{TaskRow, Database}
use scenario_pipeliner.Task.Storage.{fail_waiting_parent}
use scenario_pipeliner.Task.Storage.Persist.{
  ParentSubtaskCounts, parent_status_for_successful_root, is_child, load_parent_subtask_counts,
  close_waiting_parent, cancel_open_subtasks,
}
use scenario_pipeliner.Task.Repository.{
  failure_counts, finished_counts, handle_subtask_failure, handle_subtask_finished,
}
use scenario_pipeliner.Task.Machine.{task_key, find_task}
use scenario_pipeliner.Task.Rollup.{
  open_child, rollup, counts_open, counts_failed, parent_status-eq-rollup, blocking_failure,
  plain_failure,
}

module _ (now id : ℕ) (db : Database) (r : TaskRow) (found : find_task id db.tasks ≡ some r)
    (parked : is_waiting r.status ≡ true) where
  -- An update of the waiting row with that id reaches the row.
  waiting_hit :
      (f : TaskRow → TaskRow)
      → ((t : TaskRow) → (f t).id ≡ t.id)
      → find_task id (update_where (λ t. t.id == id && is_waiting t.status) f db.tasks) ≡ some (f r)
  waiting_hit f keeps =
      let p = λ (t : TaskRow). t.id == id && is_waiting t.status in
      let hit : p r ≡ true = ground (arith, key-find_key task_key id db.tasks r found) in
      find_key-update_where task_key p f keeps id db.tasks
      ∙ ap (Option.map (applied p f)) found
      ∙ ap (λ b. some (if b then f r else r)) hit

  abbrev with_status : TaskStatus → TaskRow
  with_status s = record r { status = s; updated_at = now }

  finished_counts_lem :
      (c : ParentSubtaskCounts)
      → find_task id (finished_counts now id c db).1.tasks
        ≡ some
            (if ltb 0 c.pending_open then r else with_status (parent_status_for_successful_root c))
  unfolding finished_counts fail_waiting_parent close_waiting_parent
      parent_status_for_successful_root
  finished_counts_lem c = elim (Bool-cases (ltb 0 c.pending_open)) [
    | inl e ↦ rw e found
    | inr e ↦ elim (Bool-cases (ltb 0 c.failed_blocking)) [
      | inl f ↦ rw (e, f) (waiting_hit _ (λ _. refl))
      | inr f ↦ elim (Bool-cases (ltb 0 c.failed_non_blocking)) [
        | inl g ↦ rw (e, f, g) (waiting_hit _ (λ _. refl))
        | inr g ↦ rw (e, f, g) (waiting_hit _ (λ _. refl))
      ]
    ]
  ]

  abbrev kids : List TaskRow
  kids = select_where (is_child id) db.tasks

  -- A child that finished leaves a waiting parent, the first row with its id, as it is while a child is open, and else closes it
  -- with the status that the roll-up table gives for all the children.
  pub child_finished :
      find_task id (handle_subtask_finished now (some id) db).1.tasks
      ≡ some (if any open_child kids then r else with_status (rollup kids))
  unfolding handle_subtask_finished
  child_finished =
      finished_counts_lem (load_parent_subtask_counts id db)
      ∙ ap
          (λ s.
            some
              (if ltb 0 (load_parent_subtask_counts id db).pending_open then r else with_status s))
          (parent_status-eq-rollup id db)
      ∙ ap (λ b. some (if b then r else with_status (rollup kids))) (counts_open id db)

  failure_counts_lem :
      (c : ParentSubtaskCounts)
      → find_task id (failure_counts now id c db).1.tasks
        ≡ some (
            if ltb 0 c.pending_open
            then r
            else if ltb 0 c.failed_blocking || ltb 0 c.failed_non_blocking
            then with_status (parent_status_for_successful_root c)
            else r)
  unfolding failure_counts fail_waiting_parent close_waiting_parent
      parent_status_for_successful_root
  failure_counts_lem c = elim (Bool-cases (ltb 0 c.pending_open)) [
    | inl e ↦ rw e found
    | inr e ↦ elim (Bool-cases (ltb 0 c.failed_blocking)) [
      | inl f ↦ rw (e, f) (waiting_hit _ (λ _. refl))
      | inr f ↦ elim (Bool-cases (ltb 0 c.failed_non_blocking)) [
        | inl g ↦ rw (e, f, g) (waiting_hit _ (λ _. refl))
        | inr g ↦ rw (e, f, g) found
      ]
    ]
  ]

  -- A non-blocking child that failed leaves a waiting parent as it is while a child is open or no
  -- failure is stored, and else closes it with the status of the roll-up table.
  pub plain_child_failed :
      find_task id (handle_subtask_failure now (some id) false db).1.tasks
      ≡ some (
          if any open_child kids
          then r
          else if any blocking_failure kids || any plain_failure kids
          then with_status (rollup kids)
          else r)
  unfolding handle_subtask_failure
  plain_child_failed =
      let c = load_parent_subtask_counts id db in
      failure_counts_lem c
      ∙ ap
          (λ s. some (
            if ltb 0 c.pending_open
            then r
            else if ltb 0 c.failed_blocking || ltb 0 c.failed_non_blocking
            then with_status s
            else r))
          (parent_status-eq-rollup id db)
      ∙ ap
          (λ b. some (
            if b
            then r
            else if ltb 0 c.failed_blocking || ltb 0 c.failed_non_blocking
            then with_status (rollup kids)
            else r))
          (counts_open id db)
      ∙ ap
          (λ b.
            some (if any open_child kids then r else if b then with_status (rollup kids) else r))
          (counts_failed id db)

  -- A blocking child that failed makes a waiting parent FAILED, whatever the other children are.
  pub blocking_child_failed :
      find_task id (handle_subtask_failure now (some id) true db).1.tasks
      ≡ some (with_status TaskStatus.failed)
  unfolding handle_subtask_failure fail_waiting_parent cancel_open_subtasks
  blocking_child_failed =
      let p = λ (t : TaskRow). is_child id t && is_open t.status in
      let f = λ (t : TaskRow). record t { status = cancelled; updated_at = now } in
      let rows =
        update_where (λ t. t.id == id && is_waiting t.status)
          (λ t. record t { status = TaskStatus.failed; updated_at = now }) db.tasks in
      find_key-update_where task_key p f (λ _. refl) id rows
      ∙ ap (Option.map (applied p f)) (waiting_hit _ (λ _. refl))
      ∙ ground arith

-- When a blocking child has failed, the open children of its parent are cancelled, whatever the parent's
-- status is, and every other row but the waiting parent stays as it is.
pub siblings_of_blocking_failure :
    (now id : ℕ) (db : Database) (k : ℕ) (s : TaskRow)
    → find_task k db.tasks ≡ some s
    → (s.id == id && is_waiting s.status) ≡ false
    → find_task k (handle_subtask_failure now (some id) true db).1.tasks
      ≡ some (
          if is_child id s && is_open s.status
          then record s { status = cancelled; updated_at = now }
          else s)
unfolding handle_subtask_failure fail_waiting_parent cancel_open_subtasks
siblings_of_blocking_failure now id db k s found other =
    let p = λ (t : TaskRow). is_child id t && is_open t.status in
    let f = λ (t : TaskRow). record t { status = cancelled; updated_at = now } in
    let q = λ (t : TaskRow). t.id == id && is_waiting t.status in
    let g = λ (t : TaskRow). record t { status = TaskStatus.failed; updated_at = now } in
    find_key-update_where task_key p f (λ _. refl) k (update_where q g db.tasks)
    ∙ ap (Option.map (applied p f)) (
        find_key-update_where task_key q g (λ _. refl) k db.tasks
        ∙ ap (Option.map (applied q g)) found)
    ∙ ap (λ b. some (applied p f (if b then g s else s))) other
