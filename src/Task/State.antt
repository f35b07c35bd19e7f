-- ===== src/Task/State.antt =====
-- worker/core/states.py: a task as a worker holds it. `is_cancelled` is its cancel event.
use scenario_pipeliner.Base.{ℕ, Bool, true, Option, List, [], ◌∷◌}
use scenario_pipeliner.Text.{String}
use scenario_pipeliner.Json.{Json}
use scenario_pipeliner.Db.Enums.{TaskStatus, TaskSource, TaskType}

pub data EnumDoc : Type 0 where
  xml json : EnumDoc

pub record TaskResultError : Type 0 where
  pub error_type : String
  pub message : String

-- a value of a plugin's own: JSON, or any other Python object, named by a number
pub data Value : Type 0 where
  plain : Json → Value
  object : ℕ → Value

pub record TaskResult : Type 0 where
  pub ok : Bool
  pub message : List (String × Value)
  pub error : Option TaskResultError

pub record TaskPayload : Type 0 where
  pub type_doc : EnumDoc
  pub items : List String
  pub params : Option Json

-- TaskPayload.primary
unfoldable pub primary : TaskPayload → String
primary p = elim p.items [ [] ↦ "" | x ∷ _ ↦ x ]

pub record TaskState : Type 0 where
  pub task_id : ℕ
  pub scenario : String
  pub alias : Option String
  pub status : TaskStatus
  pub source : TaskSource
  pub type_task : TaskType
  pub interval_seconds : Option ℕ
  pub max_executions : Option ℕ
  pub current_executions : ℕ
  pub next_run_at : Option ℕ
  pub is_block : Bool
  pub parent_id : Option ℕ
  pub payload : Option TaskPayload
  pub result : TaskResult
  pub steps_names : List String
  pub is_cancelled : Bool

-- BaseState.cancel
abbrev pub cancel : TaskState → TaskState
cancel s = record s { is_cancelled = true }
