-- ===== src/Task/Create.antt =====
-- worker/runtime/runner_helpers.py: the settings and the row of a new task, and what is read of a task.
pub mod Laws
use scenario_pipeliner.Base.{
  ℕ, ◌+◌, Bool, false, Option, none, some, List, [], ◌∷◌, ◌++◌, if◌then◌else◌, ◌==◌, length,
  contains,
}
use scenario_pipeliner.Text.{String, concat, is_empty}
use scenario_pipeliner.Json.{Json, Fields, end}
use scenario_pipeliner.Table.{select_where, find_key}
use scenario_pipeliner.Db.Enums.{
  TaskStatus, TaskSource, TaskType, new, inner, linear, cyclical, BrokerOutboxStatus,
}
use scenario_pipeliner.Db.Tables.{TaskRow, ResultRow, Database}
use scenario_pipeliner.Db.Tx.{Result, ok, err, Tx, gets, begin, ◌>>◌}
use scenario_pipeliner.Db.Settings.{upsert_setting}
use scenario_pipeliner.Db.Identity.{task_ids, unique_violation, run_with_identity_sequence_retry}
use scenario_pipeliner.Task.State.{TaskPayload}
use scenario_pipeliner.Task.Rows.{Models}

pub record TaskSeed : Type 0 where
  pub scenario : String
  pub type_task : TaskType
  pub interval_seconds : ℕ
  pub max_executions : Option ℕ
  pub alias : Option String
  pub steps_names : List String
  pub payload : Option Fields
  pub source : TaskSource

pub record CyclicalTaskSeed : Type 0 where
  pub scenario : String
  pub interval_seconds : ℕ
  pub max_executions : Option ℕ
  pub alias : Option String
  pub steps_names : List String
  pub payload : Option Fields

pub record TaskRuntimeSnapshot : Type 0 where
  pub task_id : ℕ
  pub status : TaskStatus
  pub current_executions : ℕ
  pub max_executions : Option ℕ
  pub next_run_at : Option ℕ
  pub results_count : ℕ

abbrev put_flag : String → Tx (Unit {0})
put_flag key db = (ok tt, record db { settings = upsert_setting key "1" db.settings })

unfoldable pub ensure_worker_settings : String → Tx (Unit {0})
unfolding upsert_setting
ensure_worker_settings scenario =
    begin (put_flag (concat "pipeline_active_" scenario) >> put_flag "worker_enabled")

-- seed.alias or f"task-{seed.scenario}"
abbrev seed_alias : TaskSeed → String
seed_alias seed = elim seed.alias [
  | none ↦ concat "task-" seed.scenario
  | some a ↦ if is_empty a then concat "task-" seed.scenario else a
]

-- the row of the INSERT, with the defaults of the table
abbrev pub seed_row : TaskSeed → Json → ℕ → ℕ → TaskRow
seed_row seed payload now id = record {
  id = id;
  scenario = seed.scenario;
  status = new;
  source = seed.source;
  type_task = seed.type_task;
  interval_seconds = seed.interval_seconds;
  max_executions = seed.max_executions;
  current_executions = 0;
  next_run_at = none;
  last_heartbeat_at = none;
  is_block = false;
  parent_id = none;
  payload = some payload;
  alias = some (seed_alias seed);
  steps_names = seed.steps_names;
  created_at = now;
  updated_at = now;
  deleted_at = none;
}

abbrev pub insert_row : TaskSeed → Json → ℕ → Tx ℕ
insert_row seed payload now db =
    let id = db.tasks_seq in
    let db' = record db { tasks_seq = id + 1 } in
    if contains id (task_ids db)
    then (err (unique_violation "tasks_pkey"), db')
    else (ok id, record db' { tasks = db.tasks ++ seed_row seed payload now id ∷ [] })

-- _insert of create_task
unfoldable pub insert_seed : TaskSeed → Json → ℕ → Tx ℕ
unfolding unique_violation
insert_seed seed payload now = begin (insert_row seed payload now)

-- `seed.payload or {}`
abbrev pub seed_payload : TaskSeed → Fields
seed_payload seed = elim seed.payload [ none ↦ end | some fields ↦ fields ]

module _ (models : Models) (now : ℕ) where
  abbrev pub create_with : TaskSeed → Result TaskPayload → Tx ℕ
  create_with seed (err e) db = (err e, db)
  create_with seed (ok payload) db =
      (ensure_worker_settings seed.scenario
          >> run_with_identity_sequence_retry (insert_seed seed (models.dump_payload payload) now))
        db

  unfoldable pub create_task : TaskSeed → Tx ℕ
  unfolding ensure_worker_settings insert_seed run_with_identity_sequence_retry
  create_task seed = create_with seed (models.validate_payload (seed_payload seed))

  unfoldable pub create_cyclical_task : CyclicalTaskSeed → Tx ℕ
  unfolding create_task
  create_cyclical_task seed = create_task (record {
    scenario = seed.scenario;
    type_task = cyclical;
    interval_seconds = seed.interval_seconds;
    max_executions = seed.max_executions;
    alias = seed.alias;
    steps_names = seed.steps_names;
    payload = seed.payload;
    source = inner;
  })

-- fetch_task_snapshot; a status column holds a member of the enumeration
unfoldable pub fetch_task_snapshot : ℕ → Tx (Option TaskRuntimeSnapshot)
unfolding find_key select_where
fetch_task_snapshot task_id = gets (λ db. elim (find_key (λ (t : TaskRow). t.id) task_id db.tasks) [
  | none ↦ none
  | some t ↦ some (record {
    task_id = t.id;
    status = t.status;
    current_executions = t.current_executions;
    max_executions = t.max_executions;
    next_run_at = t.next_run_at;
    results_count = length (select_where (λ (r : ResultRow). r.task_id == task_id) db.results);
  })
])
