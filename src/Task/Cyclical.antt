-- ===== src/Task/Cyclical.antt =====
-- worker/core/utils.py: the rewrite of the status of a cyclical task.
use scenario_pipeliner.Base.{ℕ, ◌+◌, ◌*◌, Bool, true, ◌&&◌, Option, none, some, ltb, if◌then◌else◌}
use scenario_pipeliner.Db.Enums.{TaskStatus, new, is_finished, is_cyclical}
use scenario_pipeliner.Db.Tables.{second}
use scenario_pipeliner.Task.State.{TaskState}

abbrev pub under_cap : Option ℕ → ℕ → Bool
under_cap none n = true
under_cap (some cap) n = ltb n cap

abbrev pub interval_or_zero : Option ℕ → ℕ
interval_or_zero none = 0
interval_or_zero (some n) = n

-- `now` is `utc_now()`
unfoldable pub get_params_for_cyclical_task : ℕ → TaskStatus → TaskState → TaskStatus × ℕ × Option ℕ
get_params_for_cyclical_task now status state =
    let n = state.current_executions + 1 in
    if is_cyclical state.type_task
    then (if is_finished status && under_cap state.max_executions n
        then (new, n, some (now + second * interval_or_zero state.interval_seconds))
        else (status, n, none))
    else (status, state.current_executions, none)
