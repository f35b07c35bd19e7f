-- ===== src/Exec/Process/Laws.antt =====
-- Processing one task: what becomes of an exception, that rows move along the status machine only, and
-- the start that finds its row no longer QUEUED.
use scenario_pipeliner.Base.{
  ℕ, ◌≡◌, sym, subst, Bool, true, false, none, some, arith, if◌then◌else◌, any, ◌&&◌, ◌==◌,
}
use scenario_pipeliner.Json.{Json}
use scenario_pipeliner.Db.Tables.{TaskRow, Database}
use scenario_pipeliner.Db.Enums.{TaskStatus, cancelled, is_queued, is_terminal}
use scenario_pipeliner.Table.{update_where-none}
use scenario_pipeliner.Task.Storage.{set_task_running}
use scenario_pipeliner.Db.Tx.{Exc, pipeline_cancelled, Result, ok, err}
use scenario_pipeliner.Task.State.{TaskState}
use scenario_pipeliner.Task.Rows.{Models}
use scenario_pipeliner.Task.Repository.{
  mark_task_running, outcome_json, with_error, error_status, persist_task_error,
}
use scenario_pipeliner.Task.Repository.Stored.{Stored, persist_task_with_status-Stored}
use scenario_pipeliner.Task.Machine.{find_task}
use scenario_pipeliner.Task.Repository.Total.{persist_task_error_ok}
use scenario_pipeliner.Task.Repository.Transactions.{
  persist_task_result-Runs, persist_task_error-Runs, mark_task_running-Runs,
}
use scenario_pipeliner.Task.Machine.Runs.{Runs, here, Runs-trans}
use scenario_pipeliner.Exec.Router.{Router, Typed, promote_task_state, resolve_pipeline_factory}
use scenario_pipeliner.Exec.Process.{
  Pipeline, Factory, Attempt, run_pipeline, with_steps, finish_attempt, start_attempt,
  attempt_pipeline, attempt_promoted, attempt, settle, process_task, created,
}

module _ (models : Models) (utc now : ℕ) where
  pub settled_err :
      (e : Exc) (s : TaskState) (db : Database) (json : Json) (r : TaskRow)
      → outcome_json models (with_error models e s) db ≡ ok json
      → s.parent_id ≡ none
      → find_task s.task_id db.tasks ≡ some r
      → is_terminal r.status ≡ false
      → let settled = settle models utc now (err e, s, db) in
        (settled.0 ≡ ok tt)
        × Stored (if s.is_cancelled then cancelled else TaskStatus.failed) s.task_id settled.1
  unfolding settle persist_task_error with_error
  settled_err e s db json r h root found live = (
    persist_task_error_ok models utc now s e db json h,
    persist_task_with_status-Stored models utc now (with_error models e s) (error_status s) json db
        r (ground arith) h root found live,
  )

  -- Whatever the router, the pipeline's code or the storing of its result raises while a task without
  -- a parent is processed, where the row of the state that it leaves is still there and not terminal, the
  -- outcome with the error can be serialised and the driver raises nothing: process_task returns, and
  -- the row is CANCELLED where that state is cancelled, and FAILED otherwise.
  pub raised_is_Stored :
      (router : Router Factory) (t : Typed) (db mid : Database) (e : Exc) (s : TaskState)
      (json : Json) (r : TaskRow)
      → attempt models utc now router t db ≡ (err e, s, mid)
      → outcome_json models (with_error models e s) mid ≡ ok json
      → s.parent_id ≡ none
      → find_task s.task_id mid.tasks ≡ some r
      → is_terminal r.status ≡ false
      → let processed = process_task models utc now router t db in
        (processed.0 ≡ ok tt)
        × Stored (if s.is_cancelled then cancelled else TaskStatus.failed) s.task_id processed.1
  unfolding process_task
  raised_is_Stored router t db mid e s json r raised h root found live =
      subst
        (λ (a : Attempt).
          let settled = settle models utc now a in
          (settled.0 ≡ ok tt)
          × Stored (if s.is_cancelled then cancelled else TaskStatus.failed) s.task_id settled.1)
        (sym raised) (settled_err e s mid json r h root found live)

  settle-Runs : (a : Attempt) → Runs a.2 (settle models utc now a).1
  unfolding settle
  settle-Runs (ok _, s, db) = here
  settle-Runs (err e, s, db) = persist_task_error-Runs models utc now s e db

  finish-Runs :
      (r : Result (Unit {0}) × TaskState) (db : Database)
      → Runs db (finish_attempt models utc now r db).2
  unfolding finish_attempt
  finish-Runs (err e, s) db = here
  finish-Runs (ok _, s) db = persist_task_result-Runs models utc now s db

  start-Runs :
      (r : Result (Unit {0}) × Database) (p : Pipeline) (s : TaskState)
      → Runs r.1 (start_attempt models utc now r p s).2
  unfolding start_attempt
  start-Runs (err e, db) p s = here
  start-Runs (ok _, db) p s = finish-Runs (run_pipeline p s) db

  guarded-Runs :
      (b : Bool) (s : TaskState) (a : Attempt) (db : Database)
      → Runs db a.2
      → Runs db (if b then (err pipeline_cancelled, s, db) else a).2
  guarded-Runs true s a db h = here
  guarded-Runs false s a db h = h

  pipeline-Runs :
      (r : Result Pipeline) (s : TaskState) (db : Database)
      → Runs db (attempt_pipeline models utc now r s db).2
  unfolding attempt_pipeline
  pipeline-Runs (err e) s db = here
  pipeline-Runs (ok p) s db =
      let s' = with_steps p.names s in
      guarded-Runs s.is_cancelled s
        (start_attempt models utc now (mark_task_running now s' db) p s') db
        (Runs-trans (mark_task_running-Runs now s' db)
          (start-Runs (mark_task_running now s' db) p s'))

  promoted-Runs :
      (router : Router Factory) (r : Result Typed) (s : TaskState) (db : Database)
      → Runs db (attempt_promoted models utc now router r s db).2
  unfolding attempt_promoted
  promoted-Runs router (err e) s db = here
  promoted-Runs router (ok t) s db =
      pipeline-Runs (created (resolve_pipeline_factory router t.state.scenario).0) t.state db

  -- Processing a task is a run of the transactions of the status machine, for every router, pipeline
  -- and task.
  process_task-Runs :
      (router : Router Factory) (t : Typed) (db : Database)
      → Runs db (process_task models utc now router t db).1
  unfolding process_task attempt
  process_task-Runs router t db =
      Runs-trans (promoted-Runs router (promote_task_state router t) t.state db)
        (settle-Runs (attempt models utc now router t db))

-- no QUEUED row has the id
abbrev pub NotQueued : ℕ → Database → Type 0
NotQueued id db = any (λ (t : TaskRow). t.id == id && is_queued t.status) db.tasks ≡ false

pub start_lost :
    (now : ℕ) (task : TaskState) (db : Database)
    → NotQueued task.task_id db
    → mark_task_running now task db ≡ (err pipeline_cancelled, db)
unfolding mark_task_running set_task_running
start_lost now task db h = rw (
  h,
  update_where-none (λ (t : TaskRow). t.id == task.task_id && is_queued t.status) _ db.tasks h,
)
