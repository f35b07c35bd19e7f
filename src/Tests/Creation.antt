-- ===== src/Tests/Creation.antt =====
-- A task that is created in a new database.
use scenario_pipeliner.Base.{◌≡◌, refl, true, false, none, [], ◌∷◌, ◌++◌, contains}
use scenario_pipeliner.Text.{concat, str_eq, btrim}
use scenario_pipeliner.Db.Enums.{linear, inner}
use scenario_pipeliner.Db.Tables.{TaskRow, empty_database}
use scenario_pipeliner.Db.Tx.{ok}
use scenario_pipeliner.Db.Settings.{get_setting, allows}
use scenario_pipeliner.Db.Identity.{task_ids}
use scenario_pipeliner.Task.State.{json}
use scenario_pipeliner.Task.Rows.{Models}
use scenario_pipeliner.Task.Storage.{is_runnable}
use scenario_pipeliner.Task.Create.{TaskSeed, create_task}
use scenario_pipeliner.Task.Create.Laws.{created_is_runnable}
use scenario_pipeliner.Tests.Runtime.{models}

-- pydantic accepts every payload
abbrev lenient : Models
lenient = record models {
  validate_payload = λ f. ok (record { type_doc = json; items = []; params = none });
}

abbrev seed : TaskSeed
seed = record {
  scenario = "demo";
  type_task = linear;
  interval_seconds = 60;
  max_executions = none;
  alias = none;
  steps_names = [];
  payload = none;
  source = inner;
}

creates : (create_task lenient 5 seed empty_database).0 ≡ ok 1
unfolding create_task
creates = refl

has_name : str_eq (btrim "demo") "" ≡ false
unfolding btrim
has_name = refl

never_set : allows (concat "pipeline_active_" "demo") empty_database.settings ≡ true
unfolding get_setting
never_set = refl

worker_never_set : allows "worker_enabled" empty_database.settings ≡ true
unfolding get_setting
worker_never_set = refl

created_is_runnable_example :
    let after = (create_task lenient 5 seed empty_database).1 in
    (t : TaskRow) × (after.tasks ≡ empty_database.tasks ++ t ∷ [])
    × (t.id ≡ 1)
    × (contains 1 (task_ids empty_database) ≡ false)
    × (is_runnable after 9 30 t ≡ true)
created_is_runnable_example =
    created_is_runnable lenient 5 seed empty_database 1 9 30 has_name never_set worker_never_set
      creates
