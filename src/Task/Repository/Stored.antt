-- ===== src/Task/Repository/Stored.antt =====
-- What storing FAILED or CANCELLED leaves of a root task's row.
use mathlib.Core.Option
use scenario_pipeliner.Base.{
  ℕ, ◌≡◌, refl, ap, sym, subst, ◌∙◌, Bool, true, false, none, some, arith, if◌then◌else◌,
}
use scenario_pipeliner.Json.{Json}
use scenario_pipeliner.Db.Enums.{TaskStatus, finished, is_finished, is_terminal}
use scenario_pipeliner.Db.Tables.{TaskRow, Database}
use scenario_pipeliner.Db.Tx.{Result, ok, err, Tx, after}
use scenario_pipeliner.Table.{applied, any-find_key, key-find_key, find_key-update_where}
use scenario_pipeliner.Task.State.{TaskState}
use scenario_pipeliner.Task.Cyclical.{get_params_for_cyclical_task}
use scenario_pipeliner.Task.Rows.{Models}
use scenario_pipeliner.Task.Storage.Persist.{
  Persist, insert_result_and_update_task, is_updatable, set_persisted, write_status,
  cancels_children,
}
use scenario_pipeliner.Task.Storage.Persist.Outcome.{hits, persisted_tasks, insert_result_total}
use scenario_pipeliner.Task.Machine.{task_key, find_task}
use scenario_pipeliner.Task.Machine.Storage.{tasks-insert_result}
use scenario_pipeliner.Task.Repository.{
  after_persist, persist_arguments, persist_dumped, outcome_json, persist_task_with_status,
  handle_parent, handle_subtask_failure, handle_subtask_finished,
}

-- An outcome reaches every live row of the task.
stored_live :
    (now : ℕ) (p : Persist) (db : Database) (r : TaskRow)
    → find_task p.task_id db.tasks ≡ some r
    → is_terminal r.status ≡ false
    → (insert_result_and_update_task now p db).0 ≡ ok true
stored_live now p db r e live =
    let own : is_updatable p.task_id r ≡ true =
      ground (arith, key-find_key task_key p.task_id db.tasks r e) in
    let hit : hits p db ≡ true =
      any-find_key task_key (is_updatable p.task_id) p.task_id db.tasks r e own in
    rw (insert_result_total now p db, hit)

stored_row :
    (now : ℕ) (p : Persist) (db : Database) (r : TaskRow)
    → is_finished p.status ≡ false
    → find_task p.task_id db.tasks ≡ some r
    → is_terminal r.status ≡ false
    → find_task p.task_id (insert_result_and_update_task now p db).1.tasks
      ≡ some (set_persisted now p.status p r)
unfolding persisted_tasks
stored_row now p db r f e live =
    let own : is_updatable p.task_id r ≡ true =
      ground (arith, key-find_key task_key p.task_id db.tasks r e) in
    let hit : hits p db ≡ true =
      any-find_key task_key (is_updatable p.task_id) p.task_id db.tasks r e own in
    let w : write_status p db ≡ p.status = (unfold write_status in ground arith) in
    let c : cancels_children p db ≡ false = (ground arith) in
    rw (tasks-insert_result now p db, hit, c)
      (find_key-update_where task_key (is_updatable p.task_id)
          (set_persisted now (write_status p db) p) (λ _. refl) p.task_id db.tasks
        ∙ ap
            (Option.map
              (applied (is_updatable p.task_id) (set_persisted now (write_status p db) p)))
            e
        ∙ ap (λ b. some (if b then set_persisted now (write_status p db) p r else r)) own
        ∙ ap (λ s. some (set_persisted now s p r)) w)

state_after :
    (x : Result Bool × Database) (k : Bool → Tx (Unit {0}))
    → x.0 ≡ ok true
    → (after x k).1 ≡ (k true x.1).1
state_after (ok b, db) k h = ground arith
state_after (err e, db) k h = cc

-- the row of the task has the status
abbrev pub Stored : TaskStatus → ℕ → Database → Type 0
Stored status id db = (r : TaskRow) × (find_task id db.tasks ≡ some r) × (r.status ≡ status)

module _ (models : Models) (utc now : ℕ) where
  stored_arguments :
      (t : TaskState) (candidate : TaskStatus) (json : Json)
      → is_finished candidate ≡ false
      → ((persist_arguments models utc t candidate json).status ≡ candidate)
        × ((persist_arguments models utc t candidate json).task_id ≡ t.task_id)
  unfolding persist_arguments get_params_for_cyclical_task
  stored_arguments t candidate json h = ground arith

  no_parent :
      (t : TaskState) (s : TaskStatus) (db : Database)
      → t.parent_id ≡ none
      → (handle_parent now s t db).1 ≡ db
  unfolding handle_parent handle_subtask_failure handle_subtask_finished
  no_parent t TaskStatus.failed db h = rw h
  no_parent t finished db h = rw h
  no_parent t _ db h = refl

  dumped_Stored :
      (t : TaskState) (candidate : TaskStatus) (result : Result Json) (json : Json) (db : Database)
      (r : TaskRow)
      → is_finished candidate ≡ false
      → result ≡ ok json
      → t.parent_id ≡ none
      → find_task t.task_id db.tasks ≡ some r
      → is_terminal r.status ≡ false
      → Stored candidate t.task_id (persist_dumped models utc now t candidate result db).1
  unfolding persist_dumped
  dumped_Stored t candidate (err e) json db r n h root found live = cc
  dumped_Stored t candidate (ok result) json db r n h root found live =
      let p = persist_arguments models utc t candidate result in
      let (f, i) = stored_arguments t candidate result n in
      let open_ : is_finished p.status ≡ false = ap is_finished f ∙ n in
      let found' : find_task p.task_id db.tasks ≡ some r =
        subst (λ k. find_task k db.tasks ≡ some r) (sym i) found in
      let x = insert_result_and_update_task now p db in
      let same =
        state_after x (after_persist models now t p.status) (stored_live now p db r found' live)
        ∙ no_parent t p.status x.1 root in
      (
        set_persisted now p.status p r,
        ap (λ (d : Database). find_task t.task_id d.tasks) same
            ∙ subst (λ k. find_task k x.1.tasks ≡ some (set_persisted now p.status p r)) i
                (stored_row now p db r open_ found' live),
        f,
      )

  -- A live row of a root task has the status that is stored, where the outcome can be serialised and the
  -- driver raises nothing.
  pub persist_task_with_status-Stored :
      (t : TaskState) (candidate : TaskStatus) (json : Json) (db : Database) (r : TaskRow)
      → is_finished candidate ≡ false
      → outcome_json models t db ≡ ok json
      → t.parent_id ≡ none
      → find_task t.task_id db.tasks ≡ some r
      → is_terminal r.status ≡ false
      → Stored candidate t.task_id (persist_task_with_status models utc now t candidate db).1
  unfolding persist_task_with_status
  persist_task_with_status-Stored t candidate json db r n h root found live =
      dumped_Stored t candidate (outcome_json models t db) json db r n h root found live
