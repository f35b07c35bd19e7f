-- ===== src/Exec/Runner.antt =====
-- worker/execution/runner_db.py and active_flag_poller.py: the poll loop of a worker, its backoff, and
-- the loop that watches the active flags.
pub mod Laws
use scenario_pipeliner.Base.{
  ℕ, zero, suc, ◌+◌, ◌-◌, ◌*◌, ◌^◌, min, Bool, true, false, not, ◌&&◌, Option, none, some, List, [],
  ◌∷◌, if◌then◌else◌,
}
use scenario_pipeliner.Db.Tx.{Exc, pipeline_cancelled, Result, ok, err}

-- worker/core/settings.py RunnerDBSettings, the fields that the loop reads
pub record RunnerSettings : Type 0 where
  pub poll_interval_seconds : ℕ
  pub error_backoff_initial_seconds : ℕ
  pub error_backoff_max_seconds : ℕ

-- min(initial * 2 ** (errors - 1), max), called with errors ≥ 1 only
unfoldable pub error_backoff_seconds : RunnerSettings → ℕ → ℕ
error_backoff_seconds s errors =
    min (s.error_backoff_initial_seconds * 2 ^ (errors - 1)) s.error_backoff_max_seconds

-- what one call of _run_single_cycle did, and whether the stop event was set when it came back and
-- when the wait after it ended
pub data CycleOutcome : Type 0 where
  returned : CycleOutcome
  pipeline_was_cancelled : CycleOutcome
  -- asyncio.CancelledError
  task_was_cancelled : CycleOutcome
  failed_with : Exc → CycleOutcome

pub record Cycle : Type 0 where
  pub outcome : CycleOutcome
  pub stop_after_cycle : Bool
  pub stop_after_wait : Bool

pub record Loop : Type 0 where
  pub consecutive_errors : ℕ
  -- seconds waited before each further poll, the latest first
  pub waits : List ℕ

pub data Ended : Type 0 where
  -- the stop event ended the loop
  stopped : Ended
  -- asyncio.CancelledError left the loop
  cancelled : Ended
  -- the loop still runs after the given cycles
  running : Ended

-- the counter and the wait of one turn; `none` leaves the loop by an exception
abbrev pub turn : RunnerSettings → CycleOutcome → ℕ → Option (ℕ × ℕ)
turn s returned n = some (0, s.poll_interval_seconds)
turn s pipeline_was_cancelled n = some (n, s.poll_interval_seconds)
turn s task_was_cancelled n = none
turn s (failed_with e) n = some (n + 1, error_backoff_seconds s (n + 1))

-- RunnerDB.execute from the test of the `while` on. `stop` says that the stop event is set.
unfoldable pub execute : RunnerSettings → Bool → Loop → List Cycle → Ended × Loop
execute s true l cycles = (stopped, l)
execute s false l [] = (running, l)
execute s false l (c ∷ cycles) = elim (turn s c.outcome l.consecutive_errors) [
  | none ↦ (cancelled, l)
  | some (errors, wait) ↦ elim c.stop_after_cycle [
    | true ↦ (stopped, record l { consecutive_errors = errors })
    | false ↦
        execute s c.stop_after_wait (record { consecutive_errors = errors; waits = wait ∷ l.waits })
          cycles
  ]
]

-- one round of the poller: what check_main, check_scenarios and check_tasks did, each `none` where it
-- raised
pub record Round : Type 0 where
  pub should_continue : Bool
  pub check_main : Option Bool
  pub check_scenarios : Bool
  pub check_tasks : Bool

pub data PollerEvent : Type 0 where
  checked_main checked_scenarios checked_tasks db_failure slept : PollerEvent

-- ActiveFlagPoller.run over the rounds that its callbacks answer
unfoldable pub poll : List Round → List PollerEvent
poll [] = []
poll (r ∷ rounds) = elim r.should_continue [
  | false ↦ []
  | true ↦ elim r.check_main [
    | none ↦ db_failure ∷ []
    | some false ↦ checked_main ∷ []
    | some true ↦ elim r.check_scenarios [
      | false ↦ checked_main ∷ db_failure ∷ []
      | true ↦ elim r.check_tasks [
        | false ↦ checked_main ∷ checked_scenarios ∷ db_failure ∷ []
        | true ↦ checked_main ∷ checked_scenarios ∷ checked_tasks ∷ slept ∷ poll rounds
      ]
    ]
  ]
]
