-- ===== src/Tests/Runtime.antt =====
-- A worker that runs a pipeline of one step.
use scenario_pipeliner.Task.Storage.{set_task_running}
use scenario_pipeliner.Task.Repository.{mark_task_running}
use scenario_pipeliner.Base.{
  ◌≤◌, ◌≡◌, refl, ◌⊎◌, true, false, none, some, [], ◌∷◌, All, arith, is_some,
}
use scenario_pipeliner.Json.{null}
use scenario_pipeliner.Table.{find_key}
use scenario_pipeliner.Db.Enums.{queued, TaskStatus, new, running, inner, linear}
use scenario_pipeliner.Db.Tables.{TaskRow, Database}
use scenario_pipeliner.Db.Tx.{type_error, Exc, value_error, ok, err}
use scenario_pipeliner.Task.State.{TaskState}
use scenario_pipeliner.Task.Rows.{Models, fresh_result}
use scenario_pipeliner.Task.Machine.{find_task}
use scenario_pipeliner.Exec.Step.{Hook, plain, Step, run_step}
use scenario_pipeliner.Exec.Pipeline.{execute}
use scenario_pipeliner.Exec.Pipeline.Laws.{bodies, all_initialized, execute_ok}
use scenario_pipeliner.Dict.{lookup}
use scenario_pipeliner.Exec.Router.{
  StateClass, Typed, Router, required_extra_fields, validate_state_classes, promote_task_state,
}
use scenario_pipeliner.Exec.Router.Laws.{Fits, promote_keeps}
use scenario_pipeliner.Exec.Process.{
  run_pipeline, Pipeline, Factory, attempt_pipeline, attempt, settle, process_task,
}
use scenario_pipeliner.Exec.Process.Laws.{raised_is_Stored}
use scenario_pipeliner.Task.Repository.Stored.{Stored}
use scenario_pipeliner.Exec.Process.Unstored.{unserialisable_is_lost}
use scenario_pipeliner.Exec.Process.Lease.{lost_start_fails}
use scenario_pipeliner.Exec.Runner.{
  RunnerSettings, error_backoff_seconds, returned, failed_with, Cycle, Loop, Round, poll,
}
use scenario_pipeliner.Exec.Runner as Runner
use scenario_pipeliner.Exec.Runner.Laws.{IsValid, BoundedWait, error_backoff_bounds, waits_bounded}
use scenario_pipeliner.Tests.Tasks.{row, demo}

abbrev pub models : Models
models = record {
  dump_payload = λ p. null;
  dump_result = λ r. ok null;
  driver_error = λ db. none;
  validate_payload = λ f. err value_error;
  loads = λ s. err value_error;
  type_name = λ e. "ValueError";
  message = λ e. "";
}

abbrev state : TaskState
state = record {
  task_id = 1;
  scenario = "demo";
  alias = none;
  status = new;
  source = inner;
  type_task = linear;
  interval_seconds = some 60;
  max_executions = none;
  current_executions = 0;
  next_run_at = none;
  is_block = false;
  parent_id = none;
  payload = none;
  result = fresh_result;
  steps_names = [];
  is_cancelled = false;
}

abbrev succeed : Hook
succeed s = (ok tt, record s { result = record fresh_result { ok = true } })

abbrev step : Step
step = record {
  initialized = true;
  body = plain succeed;
  on_initialize = ok tt;
  on_finalize = ok tt;
}

abbrev pipeline : Pipeline
pipeline = record { steps = step ∷ []; names = "step" ∷ []; exit = ok tt }

abbrev cls : StateClass
cls = record { name = "DemoState"; fields = []; ancestors = "DemoState" ∷ "TaskState" ∷ [] }

abbrev router : Router Factory
router = record {
  pipeline_factories = ("demo", ok (some pipeline)) ∷ [];
  state_classes = ("demo", cls) ∷ [];
  default_pipeline_key = "default";
}

abbrev typed : Typed
typed = record {
  cls = record { name = "TaskState"; fields = []; ancestors = "TaskState" ∷ [] };
  state = state;
}

-- a pipeline whose step raises
abbrev raising : Step
raising = record step { body = plain (λ s. (err value_error, s)) }

abbrev raises : Router Factory
raises = record router {
  pipeline_factories = ("demo", ok (some (record pipeline { steps = raising ∷ [] }))) ∷ [];
}

abbrev waiting_row : Database
waiting_row = record demo { tasks = row 1 queued none false ∷ [] }

abbrev started_row : TaskRow
started_row = record (row 1 queued none false) {
  status = running;
  updated_at = 5;
  last_heartbeat_at = some 5;
  steps_names = "step" ∷ [];
}

abbrev started : Database
started = record waiting_row { tasks = started_row ∷ [] }

abbrev left_state : TaskState
left_state = record state { steps_names = "step" ∷ [] }

raised : attempt models 0 5 raises typed waiting_row ≡ (err value_error, left_state, started)
unfolding attempt mark_task_running set_task_running run_step
raised = refl

find_started : find_task 1 started.tasks ≡ some started_row
unfolding find_key
find_started = refl

raised_is_Stored_example :
    let processed = process_task models 0 5 raises typed waiting_row in
    (processed.0 ≡ ok tt) × Stored TaskStatus.failed 1 processed.1
raised_is_Stored_example =
    raised_is_Stored models 0 5 raises typed waiting_row started value_error left_state null
      started_row raised refl refl find_started refl

-- pydantic refuses every result
abbrev refusing : Models
refusing = record models { dump_result = λ r. err type_error }

starts : mark_task_running 5 left_state waiting_row ≡ (ok tt, started)
unfolding mark_task_running set_task_running
starts = refl

abbrev ended_state : TaskState
ended_state = record left_state { result = record fresh_result { ok = true } }

ends : run_pipeline pipeline left_state ≡ (ok tt, ended_state)
unfolding run_pipeline run_step
ends = refl

unserialisable_is_lost_example :
    (e : Exc) × (settle refusing 0 5 (attempt_pipeline refusing 0 5 (ok pipeline) state waiting_row)
      ≡ (err e, started))
unserialisable_is_lost_example =
    unserialisable_is_lost refusing 0 5 pipeline state ended_state waiting_row started refl starts
      ends (λ r same. (type_error, refl))

runs_through : (execute (step ∷ []) state).0 ≡ ok tt
unfolding execute run_step
runs_through = refl

execute_ok_example :
    ((execute (step ∷ []) state).1 ≡ bodies (step ∷ []) state)
    × (all_initialized (step ∷ []) ≡ true)
    × ((step ∷ [] ≡ []) ⊎ ((execute (step ∷ []) state).1.is_cancelled ≡ false))
execute_ok_example = execute_ok (step ∷ []) state runs_through

promoted : promote_task_state router typed ≡ ok (record { cls = cls; state = state })
unfolding promote_task_state
promoted = refl

promote_keeps_example :
    let u : Typed = record { cls = cls; state = state } in
    (u.state ≡ typed.state)
    × (((c : StateClass) × (lookup "demo" router.state_classes ≡ some c) × Fits c u)
        ⊎ ((u ≡ typed)
            × (lookup "demo" router.state_classes ≡ none)
            × (is_some (lookup "demo" router.pipeline_factories) ≡ false)))
promote_keeps_example = promote_keeps router typed (record { cls = cls; state = state }) promoted

validated : validate_state_classes router.state_classes ≡ ok tt
unfolding validate_state_classes required_extra_fields
validated = refl

-- another worker runs the task
abbrev taken : Database
taken = record demo { tasks = row 1 running none false ∷ [] }

find_taken : find_task 1 taken.tasks ≡ some (row 1 running none false)
unfolding find_key
find_taken = refl

lost_start_fails_example :
    (r : TaskRow) × (find_task 1
        (settle models 0 5 (attempt_pipeline models 0 5 (ok pipeline) state taken)).1.tasks
      ≡ some r)
    × (r.status ≡ TaskStatus.failed)
lost_start_fails_example =
    lost_start_fails models 0 5 pipeline state taken (row 1 running none false) null refl refl refl
      find_taken refl refl

abbrev settings : RunnerSettings
settings = record {
  poll_interval_seconds = 5;
  error_backoff_initial_seconds = 1;
  error_backoff_max_seconds = 60;
}

valid : IsValid settings
valid = record { polls = omega arith; initial = omega arith; ordered = omega arith }

error_backoff_bounds_example :
    (1 ≤ error_backoff_seconds settings 4)
    × (error_backoff_seconds settings 4 ≤ 60)
    × (error_backoff_seconds settings 4 ≤ error_backoff_seconds settings 5)
error_backoff_bounds_example = error_backoff_bounds settings 3 valid

abbrev cycle : Cycle
cycle = record {
  outcome = failed_with value_error;
  stop_after_cycle = false;
  stop_after_wait = false;
}

abbrev start : Loop
start = record { consecutive_errors = 0; waits = [] }

waits_bounded_example :
    All (BoundedWait settings) (Runner.execute settings false start (cycle ∷ cycle ∷ [])).1.waits
waits_bounded_example = waits_bounded settings false start (cycle ∷ cycle ∷ []) valid tt

abbrev calm_round : Round
calm_round = record {
  should_continue = true;
  check_main = some true;
  check_scenarios = true;
  check_tasks = true;
}

abbrev last_round : Round
last_round = record calm_round { check_main = some false }

last_round_ends :
    poll (calm_round ∷ last_round ∷ calm_round ∷ []) ≡ poll (calm_round ∷ last_round ∷ [])
unfolding poll
last_round_ends = refl
