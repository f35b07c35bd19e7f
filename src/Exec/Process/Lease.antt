-- ===== src/Exec/Process/Lease.antt =====
-- A worker whose row is no longer QUEUED when it starts: mark_task_running updates nothing and raises,
-- and the handler of process_task then stores an error over whatever the row is now.
use scenario_pipeliner.Base.{ℕ, ◌≡◌, ap, subst, ◌∙◌, false, none, some, arith, if◌then◌else◌}
use scenario_pipeliner.Db.Enums.{TaskStatus, cancelled, is_terminal}
use scenario_pipeliner.Db.Tables.{TaskRow, Database}
use scenario_pipeliner.Db.Tx.{pipeline_cancelled, Result, ok, err}
use scenario_pipeliner.Task.State.{TaskState}
use scenario_pipeliner.Task.Rows.{Models}
use scenario_pipeliner.Task.Machine.{find_task}
use scenario_pipeliner.Task.Repository.{outcome_json, with_error, mark_task_running}
use scenario_pipeliner.Exec.Process.{Pipeline, with_steps, attempt_pipeline, start_attempt, settle}
use scenario_pipeliner.Exec.Process.Laws.{NotQueued, start_lost, settled_err}
use scenario_pipeliner.Task.Repository.Stored.{Stored}
use scenario_pipeliner.Json.{Json}

module _ (models : Models) (utc now : ℕ) where
  lost_attempt :
      (pipeline : Pipeline) (task : TaskState) (db : Database)
      → task.is_cancelled ≡ false
      → task.parent_id ≡ none
      → NotQueued task.task_id db
      → attempt_pipeline models utc now (ok pipeline) task db
        ≡ (err pipeline_cancelled, record task { steps_names = pipeline.names }, db)
  unfolding attempt_pipeline start_attempt
  lost_attempt pipeline task db calm root lost =
      let s = record task { steps_names = pipeline.names } in
      let s' = with_steps pipeline.names task in
      let e : s' ≡ s = ground arith in
      ap
        (λ b.
          if b
          then (err pipeline_cancelled, task, db)
          else start_attempt models utc now (mark_task_running now s' db) pipeline s')
        calm
      ∙ ap (λ (t : TaskState). start_attempt models utc now (mark_task_running now t db) pipeline t)
          e
      ∙ ap (λ (m : Result (Unit {0}) × Database). start_attempt models utc now m pipeline s)
          (start_lost now s db lost)

  -- A root task that nobody cancelled, whose row is neither QUEUED nor terminal when its worker starts
  -- it, where the error can be serialised and the driver raises nothing: the pipeline does not run, and
  -- the row is FAILED afterwards, although another worker may be running it.
  pub lost_start_fails :
      (pipeline : Pipeline) (task : TaskState) (db : Database) (r : TaskRow) (json : Json)
      → task.is_cancelled ≡ false
      → task.parent_id ≡ none
      → NotQueued task.task_id db
      → find_task task.task_id db.tasks ≡ some r
      → is_terminal r.status ≡ false
      → outcome_json models
          (with_error models pipeline_cancelled (record task { steps_names = pipeline.names }))
          db
        ≡ ok json
      → (r' : TaskRow) × (find_task task.task_id
            (settle models utc now (attempt_pipeline models utc now (ok pipeline) task db)).1.tasks
          ≡ some r')
        × (r'.status ≡ TaskStatus.failed)
  lost_start_fails pipeline task db r json calm root lost found live dumped =
      let s = record task { steps_names = pipeline.names } in
      rw (lost_attempt pipeline task db calm root lost) (
        subst
          (λ b.
            Stored (if b then cancelled else TaskStatus.failed) task.task_id
              (settle models utc now (err pipeline_cancelled, s, db)).1)
          calm (settled_err models utc now pipeline_cancelled s db json r dumped root found live).1)
