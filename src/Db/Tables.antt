-- ===== src/Db/Tables.antt =====
-- db/tables.py: the core tables as the columns of their rows, and the whole database.
-- Times are microseconds. A sequence is the value that its next `nextval` returns.
use scenario_pipeliner.Base.{ℕ, Bool, Option, List, []}
use scenario_pipeliner.Text.{String}
use scenario_pipeliner.Json.{Json}
use scenario_pipeliner.Db.Enums.{TaskStatus, TaskSource, TaskType, BrokerOutboxStatus}

abbrev pub second : ℕ
second = 1000000

abbrev pub minute : ℕ
minute = 60000000

abbrev pub default_interval_seconds : ℕ
default_interval_seconds = 1

pub record TaskRow : Type 0 where
  pub id : ℕ
  pub scenario : String
  pub status : TaskStatus
  pub source : TaskSource
  pub type_task : TaskType
  pub interval_seconds : ℕ
  pub max_executions : Option ℕ
  pub current_executions : ℕ
  pub next_run_at : Option ℕ
  pub last_heartbeat_at : Option ℕ
  pub is_block : Bool
  pub parent_id : Option ℕ
  pub payload : Option Json
  pub alias : Option String
  pub steps_names : List String
  pub created_at : ℕ
  pub updated_at : ℕ
  pub deleted_at : Option ℕ

pub record SettingRow : Type 0 where
  pub key : String
  pub value : String

pub record ResultRow : Type 0 where
  pub id : ℕ
  pub task_id : ℕ
  pub result : Json
  pub created_at : ℕ

pub record IngressRow : Type 0 where
  pub id : ℕ
  pub task_id : ℕ
  pub plugin_name : String
  pub scenario : String
  pub ingress_queue : String
  pub message_id : String
  pub reply_to : Option String
  pub content_type : Option String
  pub headers : Option Json
  pub created_at : ℕ

pub record OutboxRow : Type 0 where
  pub id : ℕ
  pub task_id : ℕ
  pub ingress_id : Option ℕ
  pub status : BrokerOutboxStatus
  pub body : Option (List ℕ)
  pub content_type : Option String
  pub routing_queues : List String
  pub headers : Option Json
  pub attempt_count : ℕ
  pub claim_token : ℕ
  pub last_error : Option String
  pub created_at : ℕ
  pub updated_at : ℕ
  pub sent_at : Option ℕ

pub record PluginMigrationRow : Type 0 where
  pub plugin_name : String
  pub migration_order : String
  pub sql_sha256 : String
  pub applied_at : ℕ

pub record Database : Type 0 where
  pub tasks : List TaskRow
  pub tasks_seq : ℕ
  pub settings : List SettingRow
  pub results : List ResultRow
  pub results_seq : ℕ
  pub ingress : List IngressRow
  pub ingress_seq : ℕ
  pub outbox : List OutboxRow
  pub outbox_seq : ℕ
  pub migrations : List PluginMigrationRow

abbrev pub empty_database : Database
empty_database = record {
  tasks = [];
  tasks_seq = 1;
  settings = [];
  results = [];
  results_seq = 1;
  ingress = [];
  ingress_seq = 1;
  outbox = [];
  outbox_seq = 1;
  migrations = [];
}
