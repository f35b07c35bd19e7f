-- ===== src/Exec/Pipeline/Laws.antt =====
-- What a pipeline that returns has done, and what a cancelled one has not.
use scenario_pipeliner.Base.{
  ◌≡◌, refl, ap, sym, ◌∙◌, Bool, true, false, ◌&&◌, ◌||◌, List, [], ◌∷◌, arith, if◌then◌else◌, inl,
  inr, ◌⊎◌,
}
use scenario_pipeliner.Db.Enums.{is_cyclical}
use scenario_pipeliner.Db.Tx.{pipeline_cancelled, Result, ok, err}
use scenario_pipeliner.Task.State.{TaskState}
use scenario_pipeliner.Exec.Step.{Body, plain, subtask, Step, run_body, run_step}
use scenario_pipeliner.Exec.Pipeline.{execute}

-- A cancelled task runs no step.
pub execute_cancelled :
    (step : Step) (steps : List Step) (s : TaskState)
    → s.is_cancelled ≡ true
    → execute (step ∷ steps) s ≡ (err pipeline_cancelled, s)
unfolding execute
execute_cancelled step steps s h = ground arith

-- whether a step's body is run at all
abbrev pub wants : Body → TaskState → Bool
wants (plain _) s = true
wants (subtask _ _) s = is_cyclical s.type_task || s.result.ok

-- the bodies one after the other, with no check
abbrev pub bodies : List Step → TaskState → TaskState
bodies [] s = s
bodies (step ∷ steps) s = bodies steps (if wants step.body s then (run_body step.body s).1 else s)

run_step_ok :
    (b : Body) (s : TaskState)
    → (run_step b s).0 ≡ ok tt
    → ((run_step b s).1 ≡ (if wants b s then (run_body b s).1 else s))
      × ((run_step b s).1.is_cancelled ≡ false)
unfolding run_step
run_step_ok (plain run) s h = ground arith
run_step_ok (subtask create run) s h = ground arith

abbrev pub all_initialized : List Step → Bool
all_initialized [] = true
all_initialized (step ∷ steps) = step.initialized && all_initialized steps

-- the head of a pipeline that returns: its step was initialized and ran, and the rest returned too
execute-cons :
    (step : Step) (steps : List Step) (s : TaskState)
    → (execute (step ∷ steps) s).0 ≡ ok tt
    → (step.initialized ≡ true)
      × ((run_step step.body s).0 ≡ ok tt)
      × (execute (step ∷ steps) s ≡ execute steps (run_step step.body s).1)
unfolding execute
execute-cons step steps s h = ground arith

-- a pipeline with no step keeps the flag, and any other clears it
calm_after :
    (steps : List Step) (s : TaskState)
    → s.is_cancelled ≡ false
    → (steps ≡ []) ⊎ ((execute steps s).1.is_cancelled ≡ false)
    → (execute steps s).1.is_cancelled ≡ false
unfolding execute
calm_after [] s h e = h
calm_after (step ∷ steps) s h e = ground arith

-- A pipeline that returns ran exactly the bodies that want the state, in order, each step was initialized,
-- and, unless there are no steps, the task was not cancelled at the end.
pub execute_ok :
    (steps : List Step) (s : TaskState)
    → (execute steps s).0 ≡ ok tt
    → ((execute steps s).1 ≡ bodies steps s)
      × (all_initialized steps ≡ true)
      × ((steps ≡ []) ⊎ ((execute steps s).1.is_cancelled ≡ false))
execute_ok [] s h = unfold execute in (refl, refl, inl refl)
execute_ok (step ∷ steps) s h =
    let (ready, ran, next) = execute-cons step steps s h in
    let (same, calm) = run_step_ok step.body s ran in
    let s' = (run_step step.body s).1 in
    let (rest, all, end) =
      execute_ok steps s' (ap (λ (x : Result (Unit {0}) × TaskState). x.0) (sym next) ∙ h) in
    (
      ap (λ (x : Result (Unit {0}) × TaskState). x.1) next ∙ rest ∙ ap (bodies steps) same,
      rw (ready, all),
      inr (rw next (calm_after steps s' calm end)),
    )
