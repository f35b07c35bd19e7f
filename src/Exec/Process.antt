-- ===== src/Exec/Process.antt =====
-- worker/execution/db_orchestrator.py, process_task, with the callbacks that
-- worker/runtime/factories.py gives it: start, result and error go to the repository. Plugin code is a
-- factory that returns a pipeline or raises; a factory whose value is no AsyncPipeline is `none`.
pub mod Laws
pub mod Lease
pub mod Unstored
use scenario_pipeliner.Base.{
  ℕ, Bool, true, false, Option, none, some, List, [], ◌∷◌, if◌then◌else◌, map,
}
use scenario_pipeliner.Text.{String}
use scenario_pipeliner.Db.Tables.{Database}
use scenario_pipeliner.Db.Tx.{
  Exc, pipeline_cancelled, lookup_error, type_error, Result, ok, err, Tx,
}
use scenario_pipeliner.Task.State.{TaskState}
use scenario_pipeliner.Task.Rows.{Models}
use scenario_pipeliner.Task.Repository.{mark_task_running, persist_task_result, persist_task_error}
use scenario_pipeliner.Exec.Step.{Step}
use scenario_pipeliner.Exec.Pipeline.{execute, enter}
use scenario_pipeliner.Exec.Router.{Router, Typed, resolve_pipeline_factory, promote_task_state}

-- an AsyncPipeline: its steps with their names, and what leaving it (`__aexit__`) raises
pub record Pipeline : Type 0 where
  pub steps : List Step
  pub names : List String
  pub exit : Result (Unit {0})

abbrev pub Factory : Type 0
Factory = Result (Option Pipeline)

abbrev created : Option Factory → Result Pipeline
created none = err lookup_error
created (some (err e)) = err e
created (some (ok none)) = err type_error
created (some (ok (some p))) = ok p

-- `promoted.steps_names = …` for a root task
abbrev pub with_steps : List String → TaskState → TaskState
with_steps names s = elim s.parent_id [ none ↦ record s { steps_names = names } | some _ ↦ s ]

-- leaving the `async with`: what `__aexit__` raises replaces the body's outcome
abbrev leave : Result (Unit {0}) → Result (Unit {0}) → Result (Unit {0})
leave (err e) body = err e
leave (ok _) body = body

entered : Result (List Step) → Pipeline → TaskState → Result (Unit {0}) × TaskState
unfolding execute
entered (err e) p s = (err e, s)
entered (ok steps) p s = let (r, s') = execute steps s in (leave p.exit r, s')

-- `async with pipeline: await pipeline.execute(state=promoted)`
unfoldable pub run_pipeline : Pipeline → TaskState → Result (Unit {0}) × TaskState
unfolding entered enter
run_pipeline p s = entered (enter p.steps) p s

-- the outcome of the `try`, the state that the handlers see, and the database
abbrev pub Attempt : Type 0
Attempt = Result (Unit {0}) × TaskState × Database

module _ (models : Models) (utc now : ℕ) where
  finish_attempt : Result (Unit {0}) × TaskState → Database → Attempt
  finish_attempt (err e, s) db = (err e, s, db)
  finish_attempt (ok _, s) db =
      let (r, db') = persist_task_result models utc now s db in (r, s, db')

  start_attempt : Result (Unit {0}) × Database → Pipeline → TaskState → Attempt
  unfolding finish_attempt run_pipeline
  start_attempt (err e, db) p s = (err e, s, db)
  start_attempt (ok _, db) p s = finish_attempt (run_pipeline p s) db

  -- from the pipeline object on
  unfoldable pub attempt_pipeline : Result Pipeline → TaskState → Database → Attempt
  unfolding start_attempt
  attempt_pipeline (err e) s db = (err e, s, db)
  attempt_pipeline (ok p) s db =
      if s.is_cancelled
      then (err pipeline_cancelled, s, db)
      else let s' = with_steps p.names s in start_attempt (mark_task_running now s' db) p s'

  attempt_promoted : Router Factory → Result Typed → TaskState → Database → Attempt
  unfolding attempt_pipeline resolve_pipeline_factory
  attempt_promoted router (err e) s db = (err e, s, db)
  attempt_promoted router (ok t) s db =
      attempt_pipeline (created (resolve_pipeline_factory router t.state.scenario).0) t.state db

  -- the `try` of process_task
  unfoldable pub attempt : Router Factory → Typed → Database → Attempt
  unfolding attempt_promoted promote_task_state
  attempt router t db = attempt_promoted router (promote_task_state router t) t.state db

  -- the two `except` clauses, which both call on_task_error
  unfoldable pub settle : Attempt → Result (Unit {0}) × Database
  settle (ok _, s, db) = (ok tt, db)
  settle (err e, s, db) = persist_task_error models utc now s e db

  unfoldable pub process_task : Router Factory → Typed → Tx (Unit {0})
  unfolding settle attempt
  process_task router t db = settle (attempt router t db)
