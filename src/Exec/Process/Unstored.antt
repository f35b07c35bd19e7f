-- ===== src/Exec/Process/Unstored.antt =====
-- A result that pydantic cannot serialise: neither the result nor the error that this raises is stored.
use scenario_pipeliner.Base.{ℕ, ◌≡◌, refl, ap, ◌∙◌, false, none, some, if◌then◌else◌}
use scenario_pipeliner.Json.{Json}
use scenario_pipeliner.Db.Enums.{TaskStatus}
use scenario_pipeliner.Db.Tables.{Database}
use scenario_pipeliner.Db.Tx.{Exc, pipeline_cancelled, Result, ok, err}
use scenario_pipeliner.Task.State.{TaskState, TaskResult}
use scenario_pipeliner.Task.Rows.{Models}
use scenario_pipeliner.Task.Repository.{
  persist_dumped, persist_task_with_status, persist_task_result, persist_task_error, result_status,
  error_status, with_error, mark_task_running,
}
use scenario_pipeliner.Exec.Process.{
  Pipeline, with_steps, run_pipeline, finish_attempt, start_attempt, attempt_pipeline, settle,
}

module _ (models : Models) (utc now : ℕ) where
  not_dumped :
      (t : TaskState) (candidate : TaskStatus) (db : Database) (e : Exc)
      → models.dump_result t.result ≡ err e
      → persist_task_with_status models utc now t candidate db ≡ (err e, db)
  unfolding persist_task_with_status persist_dumped
  not_dumped t candidate db e h =
      ap
        (λ (r : Result Json).
          persist_dumped models utc now t candidate
            (elim r as (λ _. Result Json) [
              | err x ↦ err x
              | ok result ↦ elim (models.driver_error db) as (λ _. Result Json) [
                | some x ↦ err x
                | none ↦ ok result
              ]
            ])
            db)
        h

  finish_not_dumped :
      (s : TaskState) (db : Database) (e : Exc)
      → models.dump_result s.result ≡ err e
      → finish_attempt models utc now (ok tt, s) db ≡ (err e, s, db)
  unfolding finish_attempt persist_task_result
  finish_not_dumped s db e h =
      ap (λ (x : Result (Unit {0}) × Database). (x.0, s, x.1))
        (not_dumped s (result_status s) db e h)

  settle_not_dumped :
      (s : TaskState) (db : Database) (e e' : Exc)
      → models.dump_result (with_error models e s).result ≡ err e'
      → settle models utc now (err e, s, db) ≡ (err e', db)
  unfolding settle persist_task_error
  settle_not_dumped s db e e' h = not_dumped (with_error models e s) (error_status s) db e' h

  -- A task that nobody cancelled is started and its pipeline returns, with a message in the result that
  -- pydantic refuses to serialise, whatever flag and error stand beside it: process_task raises from the
  -- pipeline object on, and the database stays as the start left it, with nothing of the outcome.
  pub unserialisable_is_lost :
      (pipeline : Pipeline) (task s : TaskState) (db started : Database)
      → task.is_cancelled ≡ false
      → mark_task_running now (with_steps pipeline.names task) db ≡ (ok tt, started)
      → run_pipeline pipeline (with_steps pipeline.names task) ≡ (ok tt, s)
      → ((r : TaskResult)
          → r.message ≡ s.result.message
          → (e : Exc) × (models.dump_result r ≡ err e))
      → (e : Exc) × (settle models utc now (attempt_pipeline models utc now (ok pipeline) task db)
          ≡ (err e, started))
  unfolding attempt_pipeline start_attempt with_error
  unserialisable_is_lost pipeline task s db started calm start run refused =
      let s' = with_steps pipeline.names task in
      let (e, h) = refused s.result refl in
      let (e', h') = refused (with_error models e s).result refl in
      let attempted : attempt_pipeline models utc now (ok pipeline) task db ≡ (err e, s, started) =
        ap
          (λ b.
            if b
            then (err pipeline_cancelled, task, db)
            else start_attempt models utc now (mark_task_running now s' db) pipeline s')
          calm
        ∙ ap (λ (m : Result (Unit {0}) × Database). start_attempt models utc now m pipeline s')
            start
        ∙ ap (λ (r : Result (Unit {0}) × TaskState). finish_attempt models utc now r started) run
        ∙ finish_not_dumped s started e h in
      (e', ap (settle models utc now) attempted ∙ settle_not_dumped s started e e' h')
