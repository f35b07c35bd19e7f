-- ===== src/Exec/Step.antt =====
-- worker/core/step.py. The abstract methods of a step are plugin code: they take the task's state to a
-- new state, and return or raise. A cancel event that another task sets while a hook runs is in the
-- state that the hook gives back.
use scenario_pipeliner.Base.{Bool, true, false, if◌then◌else◌}
use scenario_pipeliner.Db.Enums.{is_cyclical}
use scenario_pipeliner.Db.Tx.{pipeline_cancelled, Result, ok, err}
use scenario_pipeliner.Task.State.{TaskState}

-- an awaited call on the state
abbrev pub Hook : Type 0
Hook = TaskState → Result (Unit {0}) × TaskState

-- the hooks of BaseSubtaskStep, and the one of a plain AsyncStep
pub data Body : Type 0 where
  plain : Hook → Body
  subtask : Hook → Hook → Body

pub record Step : Type 0 where
  pub initialized : Bool
  pub body : Body
  -- AsyncStep.initialize and finalize, without the hooks' own effects
  pub on_initialize : Result (Unit {0})
  pub on_finalize : Result (Unit {0})

abbrev pub and_then : Result (Unit {0}) × TaskState → Hook → Result (Unit {0}) × TaskState
and_then (ok _, s) h = h s
and_then (err e, s) h = (err e, s)

-- raise PipelineCancelledError if the event is set
abbrev pub check_cancel : Hook
check_cancel s = (if s.is_cancelled then err pipeline_cancelled else ok tt, s)

-- AsyncStep.should_run, and its override in BaseSubtaskStep
unfoldable pub should_run : Body → TaskState → Result Bool
should_run (plain _) s = if s.is_cancelled then err pipeline_cancelled else ok true
should_run (subtask _ _) s =
    if s.is_cancelled
    then err pipeline_cancelled
    else if is_cyclical s.type_task
    then ok true
    else ok s.result.ok

-- AsyncStep._run and BaseSubtaskStep._run
unfoldable pub run_body : Body → Hook
run_body (plain run) s = run s
run_body (subtask create run) s = if is_cyclical s.type_task then run s else create s

abbrev gated : Result Bool → Body → Hook
gated (err e) b s = (err e, s)
gated (ok false) b s = (ok tt, s)
gated (ok true) b s = and_then (and_then (check_cancel s) (run_body b)) check_cancel

-- AsyncStep.run
unfoldable pub run_step : Body → Hook
unfolding should_run run_body
run_step b s = gated (should_run b s) b s
