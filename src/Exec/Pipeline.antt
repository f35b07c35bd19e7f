-- ===== src/Exec/Pipeline.antt =====
-- worker/core/pipeline.py
pub mod Laws
use scenario_pipeliner.Base.{ℕ, Bool, true, false, List, [], ◌∷◌, if◌then◌else◌, contains, ◌==◌}
use scenario_pipeliner.Db.Tx.{Exc, pipeline_cancelled, runtime_error, Result, ok, err}
use scenario_pipeliner.Task.State.{TaskState}
use scenario_pipeliner.Exec.Step.{Hook, Step, and_then, check_cancel, run_step}

abbrev require_initialized : Step → Hook
require_initialized step s = (if step.initialized then ok tt else err runtime_error, s)

-- AsyncPipeline.execute: the `for` over the steps
unfoldable pub execute : List Step → Hook
execute [] s = (ok tt, s)
execute (step ∷ steps) s =
    and_then (and_then (and_then (check_cancel s) (require_initialized step)) (run_step step.body))
      (execute steps)

-- a client of a step: its identity, and whether it is connected
pub record Client : Type 0 where
  pub id : ℕ
  pub initialized : Bool

-- connect_clients: each client once, and only where it is not connected. The clients are those of the
-- steps in order; a shared object stands there more than once with one id.
unfoldable pub connect_from : List ℕ → List Client → List ℕ
connect_from seen [] = []
connect_from seen (c ∷ cs) =
    let skipped = connect_from seen cs in
    let rest = connect_from (c.id ∷ seen) cs in
    if contains c.id seen then skipped else if c.initialized then rest else c.id ∷ rest

-- disconnect_clients
unfoldable pub disconnect_from : List ℕ → List Client → List ℕ
disconnect_from seen [] = []
disconnect_from seen (c ∷ cs) =
    let skipped = disconnect_from seen cs in
    let rest = disconnect_from (c.id ∷ seen) cs in
    if contains c.id seen then skipped else if c.initialized then c.id ∷ rest else rest

abbrev initialize_one : Step → Result Step
initialize_one step =
    if step.initialized
    then ok step
    else elim step.on_initialize [ ok _ ↦ ok (record step { initialized = true }) | err e ↦ err e ]

abbrev cons_ok : Result Step → Result (List Step) → Result (List Step)
cons_ok (ok s) (ok rest) = ok (s ∷ rest)
cons_ok (ok s) (err e) = err e
cons_ok (err e) rest = err e

-- __aenter__: the steps after it, or the first exception
unfoldable pub enter : List Step → Result (List Step)
enter [] = ok []
enter (step ∷ steps) = cons_ok (initialize_one step) (enter steps)
