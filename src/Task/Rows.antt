-- ===== src/Task/Rows.antt =====
-- worker/task_repositories/postgres.py: from a locked row to the state that a worker runs.
use scenario_pipeliner.Base.{ℕ, false, ◌||◌, Option, none, some, List, [], ◌∷◌, ◌==◌, if◌then◌else◌}
use scenario_pipeliner.Text.{String, str_eq, strip, is_empty}
use scenario_pipeliner.Json.{Json, null, str, obj, Fields}
use scenario_pipeliner.Db.Enums.{
  TaskStatus, new, TaskSource, inner, TaskType, linear, status_value, source_value, type_value,
  status_of_value, source_of_value, type_of_value,
}
use scenario_pipeliner.Db.Tables.{TaskRow, Database}
use scenario_pipeliner.Db.Tx.{Exc, Result, ok, err}
use scenario_pipeliner.Task.State.{TaskState, TaskResult, TaskPayload}

-- what pydantic and json do with the models that the tables store, and `type(e).__name__`, `str(e)`
pub record Models : Type 0 where
  pub dump_payload : TaskPayload → Json
  pub dump_result : TaskResult → Result Json
  -- what the driver raises in the transaction that stores an outcome, which is rolled back then
  pub driver_error : Database → Option Exc
  pub validate_payload : Fields → Result TaskPayload
  pub loads : String → Result Json
  pub type_name : Exc → String
  pub message : Exc → String

-- a column that may hold a member of the enumeration, a text, or nothing
pub data Raw {ℓ} (E : Type ℓ) : Type ℓ where
  member : E → Raw E
  text : String → Raw E
  absent : Raw E

module _ {ℓ} {E : Type ℓ} (of_value : String → Option E) (default : E) where
  -- isinstance of the enumeration, then of str, then the default
  unfoldable pub parse_enum : Raw E → E
  parse_enum (member e) = e
  parse_enum (text s) = elim (of_value s) [ none ↦ default | some e ↦ e ]
  parse_enum absent = default

unfoldable pub parse_status : Raw TaskStatus → TaskStatus
unfolding parse_enum status_of_value
parse_status = parse_enum status_of_value new

unfoldable pub parse_source : Raw TaskSource → TaskSource
unfolding parse_enum source_of_value
parse_source = parse_enum source_of_value inner

unfoldable pub parse_type_task : Raw TaskType → TaskType
unfolding parse_enum type_of_value
parse_type_task = parse_enum type_of_value linear

abbrev pub ok_some {ℓ} : {A : Type ℓ} → Result A → Result (Option A)
ok_some (ok a) = ok (some a)
ok_some (err e) = err e

module _ (models : Models) where
  open models use {validate_payload, loads}

  abbrev parsed_payload : Result Json → Result (Option TaskPayload)
  parsed_payload (ok (obj fields)) = ok_some (validate_payload fields)
  parsed_payload (ok _) = ok none
  parsed_payload (err e) = err e

  abbrev payload_text : String → Result (Option TaskPayload)
  payload_text stripped =
      if is_empty stripped || str_eq stripped "null"
      then ok none
      else parsed_payload (loads stripped)

  unfoldable pub parse_payload : Option Json → Result (Option TaskPayload)
  unfolding strip
  parse_payload none = ok none
  parse_payload (some null) = ok none
  parse_payload (some (obj fields)) = ok_some (validate_payload fields)
  parse_payload (some (str s)) = payload_text (strip s)
  parse_payload (some _) = ok none

-- `value or 60`
abbrev pub interval_or_default : ℕ → ℕ
interval_or_default n = if n == 0 then 60 else n

abbrev pub fresh_result : TaskResult
fresh_result = record { ok = false; message = []; error = none }

unfoldable pub to_task_state : TaskRow → Option TaskPayload → TaskState
unfolding parse_status parse_source parse_type_task status_value source_value type_value
to_task_state t payload = record {
  task_id = t.id;
  scenario = t.scenario;
  alias = t.alias;
  status = parse_status (text (status_value t.status));
  source = parse_source (text (source_value t.source));
  type_task = parse_type_task (text (type_value t.type_task));
  interval_seconds = some (interval_or_default t.interval_seconds);
  max_executions = t.max_executions;
  current_executions = t.current_executions;
  next_run_at = t.next_run_at;
  is_block = t.is_block;
  parent_id = t.parent_id;
  payload = payload;
  result = fresh_result;
  steps_names = t.steps_names;
  is_cancelled = false;
}

abbrev map_ok {ℓ κ} : {A : Type ℓ} {B : Type κ} → (A → B) → Result A → Result B
map_ok f (ok a) = ok (f a)
map_ok f (err e) = err e

unfoldable pub row_to_task_state : Models → TaskRow → Result TaskState
unfolding parse_payload to_task_state
row_to_task_state models t = map_ok (to_task_state t) (parse_payload models t.payload)

abbrev push_ok {ℓ} : {A : Type ℓ} → Result A → Result (List A) → Result (List A)
push_ok (err e) rest = err e
push_ok (ok a) (ok rest) = ok (a ∷ rest)
push_ok (ok a) (err e) = err e

-- the list comprehension of fetch_execution_batch: the first exception ends it
unfoldable pub rows_to_task_states : Models → List TaskRow → Result (List TaskState)
unfolding row_to_task_state
rows_to_task_states models [] = ok []
rows_to_task_states models (t ∷ rows) =
    push_ok (row_to_task_state models t) (rows_to_task_states models rows)
