-- ===== src/Task/Machine/Storage.antt =====
-- Every transaction of PostgresTaskStorage moves task rows along the status machine.
use scenario_pipeliner.Base.{
  ℕ, ◌≡◌, refl, inl, inr, Bool, true, false, ◌&&◌, Option, List, [], ◌∷◌, arith, if◌then◌else◌,
  Bool-cases, contains,
}
use scenario_pipeliner.Text.{String}
use scenario_pipeliner.Db.Enums.{TaskStatus, draft, queued, running, cancelled, is_open}
use scenario_pipeliner.Db.Tables.{TaskRow, Database}
use scenario_pipeliner.Db.Identity.{result_ids}
use scenario_pipeliner.Task.Storage.{
  new_runnable, zombie, is_runnable, lock_runnable_tasks, set_queued, is_won, set_task_running,
  touch_heartbeats, fail_waiting_parent, requeue_incomplete_tasks,
}
use scenario_pipeliner.Task.Storage.Persist.{
  Persist, write_status, set_persisted, is_updatable, is_child, cancels_children, cancel_children,
  cancel_open_subtasks, close_waiting_parent, load_parent_subtask_counts,
  parent_status_for_successful_root, insert_result_and_update_task,
}
use scenario_pipeliner.Task.Storage.Persist.Outcome.{
  persisted_tasks, repaired, insert_result_total, hits,
}
use scenario_pipeliner.Task.Machine.{
  Moves, Evolves, Evolves-refl, Evolves-update, Evolves-update_twice,
}

module _ (locked : ℕ → Bool) (now limit zombie_timeout : ℕ) (db : Database) where
  won-Moves :
      (r : TaskRow)
      → is_won locked now limit zombie_timeout db r ≡ true
      → Moves r (set_queued now r)
  unfolding is_runnable new_runnable zombie
  won-Moves r h = ground arith

  pub lock-Evolves :
      Evolves db.tasks (lock_runnable_tasks locked now limit zombie_timeout db).1.tasks
  unfolding lock_runnable_tasks
  lock-Evolves =
      Evolves-update (is_won locked now limit zombie_timeout db) (set_queued now) (λ _. refl)
        won-Moves db.tasks

pub start-Evolves :
    (now id : ℕ) (alias : Option String) (steps : Option (List String)) (db : Database)
    → Evolves db.tasks (set_task_running now id alias steps db).1.tasks
unfolding set_task_running
start-Evolves now id alias steps db = Evolves-update _ _ (λ _. refl) (λ r h. ground arith) db.tasks

pub heartbeat-Evolves :
    (reachable : Bool) (now : ℕ) (ids : List ℕ) (db : Database)
    → Evolves db.tasks (touch_heartbeats reachable now ids db).1.tasks
unfolding touch_heartbeats
heartbeat-Evolves reachable now [] db = Evolves-refl db.tasks
heartbeat-Evolves false now (i ∷ ids) db = Evolves-refl db.tasks
heartbeat-Evolves true now (i ∷ ids) db =
    Evolves-update _ _ (λ _. refl) (λ r h. ground arith) db.tasks

pub fail-Evolves :
    (now id : ℕ) (db : Database) → Evolves db.tasks (fail_waiting_parent now id db).1.tasks
unfolding fail_waiting_parent
fail-Evolves now id db = Evolves-update _ _ (λ _. refl) (λ r h. ground arith) db.tasks

pub requeue-Evolves :
    (now : ℕ) (ids : List ℕ) (db : Database)
    → Evolves db.tasks (requeue_incomplete_tasks now ids db).1.tasks
unfolding requeue_incomplete_tasks
requeue-Evolves now [] db = Evolves-refl db.tasks
requeue-Evolves now (i ∷ ids) db = Evolves-update _ _ (λ _. refl) (λ r h. ground arith) db.tasks

pub cancel-Evolves :
    (now id : ℕ) (db : Database) → Evolves db.tasks (cancel_open_subtasks now id db).1.tasks
unfolding cancel_open_subtasks
cancel-Evolves now id db = Evolves-update _ _ (λ _. refl) (λ r h. ground arith) db.tasks

pub close-Evolves :
    (now id : ℕ) (status : TaskStatus) (db : Database)
    → Evolves db.tasks (close_waiting_parent now id status db).1.tasks
unfolding close_waiting_parent
close-Evolves now id TaskStatus.finished db =
    Evolves-update _ _ (λ _. refl) (λ r h. ground arith) db.tasks
close-Evolves now id TaskStatus.finished_with_error db =
    Evolves-update _ _ (λ _. refl) (λ r h. ground arith) db.tasks
close-Evolves now id _ db = Evolves-refl db.tasks

-- the statuses that the repository persists
abbrev pub is_written : TaskStatus → Bool
is_written draft = false
is_written queued = false
is_written running = false
is_written _ = true

write_status-is_written :
    (p : Persist) (db : Database)
    → is_written p.status ≡ true
    → is_written (write_status p db) ≡ true
unfolding write_status parent_status_for_successful_root
write_status-is_written p db h = ground arith

module _ (now : ℕ) (p : Persist) (db : Database) (written : is_written p.status ≡ true) where
  persisted-Moves :
      (r : TaskRow)
      → is_updatable p.task_id r ≡ true
      → Moves r (set_persisted now (write_status p db) p r)
  persisted-Moves r h = let w = write_status-is_written p db written in ground arith

  -- the parent's row, and after it the children's
  cascade-Moves :
      cancels_children p db ≡ true
      → (r : TaskRow)
      → let s =
          (if is_updatable p.task_id r then set_persisted now (write_status p db) p r else r) in
        Moves r (
          if is_child p.task_id s && is_open s.status
          then record s { status = cancelled; updated_at = now }
          else s)
  cascade-Moves c r = let w = write_status-is_written p db written in ground arith

  persisted_tasks-Evolves : Evolves db.tasks (persisted_tasks now p db)
  unfolding persisted_tasks cancel_children
  persisted_tasks-Evolves = elim (Bool-cases (cancels_children p db)) [
    | inl c ↦ rw c (
        Evolves-update_twice (is_updatable p.task_id)
          (λ t. is_child p.task_id t && is_open t.status) (set_persisted now (write_status p db) p)
          (λ t. record t { status = cancelled; updated_at = now }) (λ _. refl) (λ _. refl)
          (cascade-Moves c) db.tasks)
    | inr c ↦ rw c (
        Evolves-update (is_updatable p.task_id) (set_persisted now (write_status p db) p)
          (λ _. refl) persisted-Moves db.tasks)
  ]

-- sequences are no input of the roll-up
persisted_tasks-repaired :
    (now : ℕ) (p : Persist) (db : Database)
    → persisted_tasks now p (repaired db) ≡ persisted_tasks now p db
unfolding repaired persisted_tasks write_status load_parent_subtask_counts
persisted_tasks-repaired now p db = elim (Bool-cases (contains db.results_seq (result_ids db))) [
  | inl stale ↦ rw stale
  | inr fresh ↦ rw fresh
]

-- The whole persist, its retry included.
pub tasks-insert_result :
    (now : ℕ) (p : Persist) (db : Database)
    → (insert_result_and_update_task now p db).1.tasks
      ≡ (if hits p db then persisted_tasks now p db else db.tasks)
tasks-insert_result now p db = elim (Bool-cases (hits p db)) [
  | inl hit ↦ rw (insert_result_total now p db, hit) (persisted_tasks-repaired now p db)
  | inr miss ↦ rw (insert_result_total now p db, miss)
]

pub persist-Evolves :
    (now : ℕ) (p : Persist) (db : Database)
    → is_written p.status ≡ true
    → Evolves db.tasks (insert_result_and_update_task now p db).1.tasks
persist-Evolves now p db written =
    rw (tasks-insert_result now p db) (elim (Bool-cases (hits p db)) [
      | inl hit ↦ rw hit (persisted_tasks-Evolves now p db written)
      | inr miss ↦ rw miss (Evolves-refl db.tasks)
    ])
