-- ===== src/Broker/Settings.antt =====
-- worker/broker/settings.py, exceptions.py: the knobs of one plugin's broker and the values that its hooks
-- exchange with the worker. Pydantic has checked them: lists of queues are lists.
use scenario_pipeliner.Base.{ℕ, min, Bool, Option, none, some, List, [], ◌∷◌, if◌then◌else◌}
use scenario_pipeliner.Text.{String, strip, is_empty}
use scenario_pipeliner.Json.{Json, Fields}
use scenario_pipeliner.Db.Tx.{Result, ok, err, value_error}
use scenario_pipeliner.Task.State.{TaskPayload}
use scenario_pipeliner.Dict.{lookup}

abbrev pub default_stale_processing_minutes : ℕ
default_stale_processing_minutes = 15

pub record PluginBrokerSettings : Type 0 where
  pub enabled : Bool
  pub input_queues : List String
  pub output_queues : List String
  pub queue_bindings : List (String × String)
  pub stale_processing_minutes : ℕ
  pub max_ingress_retries : ℕ

-- `s` where `s and s.strip()` holds, stripped
unfoldable pub stripped : Option String → Option String
unfolding strip
stripped none = none
stripped (some s) = if is_empty (strip s) then none else some (strip s)

abbrev min_lease : ℕ → List (String × PluginBrokerSettings) → ℕ
min_lease least [] = least
min_lease least ((_, s) ∷ rest) = min_lease (min least s.stale_processing_minutes) rest

-- PluginBrokerSettings.outbox_stale_processing_minutes
unfoldable pub outbox_stale_processing_minutes : List (String × PluginBrokerSettings) → ℕ
outbox_stale_processing_minutes [] = default_stale_processing_minutes
outbox_stale_processing_minutes ((_, s) ∷ rest) = min_lease s.stale_processing_minutes rest

-- PluginBrokerSettings.resolve_scenario
unfoldable pub resolve_scenario : PluginBrokerSettings → String → Option String → Result String
unfolding stripped lookup
resolve_scenario settings queue fallback_scenario =
    elim (stripped (lookup queue settings.queue_bindings)) [
      | some bound ↦ ok bound
      | none ↦ elim (stripped fallback_scenario) [
        | some fallback ↦ ok fallback
        | none ↦ err value_error
      ]
    ]

pub record BrokerMessageMeta : Type 0 where
  pub queue : String
  pub delivery_tag : Option ℕ
  pub message_id : Option String
  pub reply_to : Option String
  pub content_type : Option String
  pub headers : Fields
  pub redelivered : Bool

pub record TaskDraft : Type 0 where
  pub scenario : String
  pub payload : TaskPayload
  pub alias : Option String
  pub max_executions : Option ℕ

pub record ReplyDraft : Type 0 where
  pub body : List ℕ
  pub routing_queues : Option (List String)
  pub content_type : Option String
  pub headers : Option Fields

pub record TaskRowView : Type 0 where
  pub task_id : ℕ
  pub scenario : String
  pub status : String
  pub payload : Option TaskPayload
  pub alias : Option String

pub record ResultRowView : Type 0 where
  pub result_id : ℕ
  pub task_id : ℕ
  pub result : Json

pub record BrokerIngressView : Type 0 where
  pub ingress_id : ℕ
  pub task_id : ℕ
  pub plugin_name : String
  pub scenario : String
  pub ingress_queue : String
  pub message_id : String
  pub reply_to : Option String
  pub content_type : Option String
  pub headers : Option Fields
