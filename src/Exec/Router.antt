-- ===== src/Exec/Router.antt =====
-- worker/execution/task_dispatch.py: which pipeline runs a scenario, and the state class of it.
pub mod Laws
use scenario_pipeliner.Base.{
  ℕ, Bool, true, false, not, ◌&&◌, ◌||◌, Option, none, some, List, [], ◌∷◌, if◌then◌else◌, is_some,
}
use scenario_pipeliner.Text.{String, str_eq}
use scenario_pipeliner.Db.Tx.{Exc, lookup_error, type_error, value_error, Result, ok, err}
use scenario_pipeliner.Dict.{lookup, in_names}
use scenario_pipeliner.Task.State.{TaskState}

-- a field of a dataclass: its name, `init`, and whether it has a default or a default factory
pub record Field : Type 0 where
  pub name : String
  pub init : Bool
  pub has_default : Bool

-- a subclass of TaskState; `ancestors` are the classes that an instance of it is an instance of
pub record StateClass : Type 0 where
  pub name : String
  pub fields : List Field
  pub ancestors : List String

-- a state with its class
pub record Typed : Type 0 where
  pub cls : StateClass
  pub state : TaskState

-- `{field.name for field in fields(TaskState) if field.init}`
abbrev pub task_state_field_names : List String
task_state_field_names =
    "task_id" ∷ "scenario" ∷ "alias" ∷ "status" ∷ "source" ∷ "type_task" ∷ "interval_seconds"
    ∷ "max_executions" ∷ "current_executions" ∷ "next_run_at" ∷ "is_block" ∷ "parent_id" ∷ "payload"
    ∷ "result" ∷ "steps_names" ∷ []

unfoldable pub required_extra_fields : List Field → List String
required_extra_fields [] = []
required_extra_fields (f ∷ fields) =
    let rest = required_extra_fields fields in
    if not f.init
    then rest
    else if in_names f.name task_state_field_names
    then rest
    else if f.has_default
    then rest
    else f.name ∷ rest

-- _validate_state_class_compatibility: the constructor's check
unfoldable pub validate_state_classes : List (String × StateClass) → Result (Unit {0})
validate_state_classes [] = ok tt
validate_state_classes ((scenario, c) ∷ classes) =
    let rest = validate_state_classes classes in
    elim (required_extra_fields c.fields) [ [] ↦ rest | _ ∷ _ ↦ err value_error ]

pub record Router {ℓ} (F : Type ℓ) : Type ℓ where
  pub pipeline_factories : List (String × F)
  pub state_classes : List (String × StateClass)
  pub default_pipeline_key : String

-- `data` and the constructor call `state_cls(**data)`, which makes a cancel event of its own, not set
unfoldable pub constructed : TaskState → TaskState
constructed state = record {
  task_id = state.task_id;
  scenario = state.scenario;
  alias = state.alias;
  status = state.status;
  source = state.source;
  type_task = state.type_task;
  interval_seconds = state.interval_seconds;
  max_executions = state.max_executions;
  current_executions = state.current_executions;
  next_run_at = state.next_run_at;
  is_block = state.is_block;
  parent_id = state.parent_id;
  payload = state.payload;
  result = state.result;
  steps_names = state.steps_names;
  is_cancelled = false;
}

-- `promoted.cancel_event = state.cancel_event`
unfoldable pub with_cancel_event : TaskState → TaskState → TaskState
with_cancel_event state promoted = record promoted { is_cancelled = state.is_cancelled }

-- from `isinstance` on
unfoldable pub promote_to : StateClass → Typed → Result Typed
unfolding constructed with_cancel_event
promote_to c t =
    if in_names c.name t.cls.ancestors
    then ok t
    else if not (str_eq t.cls.name "TaskState")
    then err type_error
    else ok (record { cls = c; state = with_cancel_event t.state (constructed t.state) })

module _ {ℓ} {F : Type ℓ} (router : Router F) where
  -- the factory, and whether it is the default one
  unfoldable pub resolve_pipeline_factory : String → Option F × Bool
  unfolding lookup
  resolve_pipeline_factory scenario = elim (lookup scenario router.pipeline_factories) [
    | some factory ↦ (some factory, false)
    | none ↦ elim (lookup router.default_pipeline_key router.pipeline_factories) [
      | some factory ↦ (some factory, true)
      | none ↦ (none, false)
    ]
  ]

  unfoldable pub promote_task_state : Typed → Result Typed
  unfolding lookup promote_to
  promote_task_state t = elim (lookup t.state.scenario router.state_classes) [
    | none ↦
        if is_some (lookup t.state.scenario router.pipeline_factories)
        then err lookup_error
        else ok t
    | some c ↦ promote_to c t
  ]
