-- ===== src/Db/Enums.antt =====
-- db/enums.py: the enumerations stored in the core tables, with the status sets that
-- worker/task_repositories/postgres.py and worker/broker/storage.py declare on them.
use scenario_pipeliner.Base.{Bool, true, false, Option, none, some, if◌then◌else◌}
use scenario_pipeliner.Text.{String, str_eq}

pub data TaskStatus : Type 0 where
  draft new queued running waiting finished finished_with_error cancelled failed : TaskStatus

pub data TaskSource : Type 0 where
  rabbitmq inner : TaskSource

pub data TaskType : Type 0 where
  linear cyclical : TaskType

pub data BrokerOutboxStatus : Type 0 where
  pending processing sent failed skipped : BrokerOutboxStatus

-- `.value` of a member
unfoldable pub status_value : TaskStatus → String
status_value draft = "DRAFT"
status_value new = "NEW"
status_value queued = "QUEUED"
status_value running = "RUNNING"
status_value waiting = "WAITING"
status_value finished = "FINISHED"
status_value finished_with_error = "FINISHED_WITH_ERROR"
status_value cancelled = "CANCELLED"
status_value TaskStatus.failed = "FAILED"

unfoldable pub source_value : TaskSource → String
source_value rabbitmq = "RABBITMQ"
source_value inner = "INNER"

unfoldable pub type_value : TaskType → String
type_value linear = "LINEAR"
type_value cyclical = "CYCLICAL"

-- `TaskStatus(value)`; `none` is the `ValueError`
unfoldable pub status_of_value : String → Option TaskStatus
status_of_value s =
    if str_eq s "DRAFT"
    then some draft
    else if str_eq s "NEW"
    then some new
    else if str_eq s "QUEUED"
    then some queued
    else if str_eq s "RUNNING"
    then some running
    else if str_eq s "WAITING"
    then some waiting
    else if str_eq s "FINISHED"
    then some finished
    else if str_eq s "FINISHED_WITH_ERROR"
    then some finished_with_error
    else if str_eq s "CANCELLED"
    then some cancelled
    else if str_eq s "FAILED"
    then some TaskStatus.failed
    else none

unfoldable pub source_of_value : String → Option TaskSource
source_of_value s =
    if str_eq s "RABBITMQ" then some rabbitmq else if str_eq s "INNER" then some inner else none

unfoldable pub type_of_value : String → Option TaskType
type_of_value s =
    if str_eq s "LINEAR" then some linear else if str_eq s "CYCLICAL" then some cyclical else none

-- membership in the status sets
abbrev pub is_new : TaskStatus → Bool
is_new new = true
is_new _ = false

abbrev pub is_queued : TaskStatus → Bool
is_queued queued = true
is_queued _ = false

abbrev pub is_waiting : TaskStatus → Bool
is_waiting waiting = true
is_waiting _ = false

abbrev pub is_finished : TaskStatus → Bool
is_finished finished = true
is_finished _ = false

-- _HEARTBEAT_STATUSES
abbrev pub has_heartbeat : TaskStatus → Bool
has_heartbeat queued = true
has_heartbeat running = true
has_heartbeat _ = false

-- _TERMINAL_SUBTASK_STATUSES, and _TERMINAL_STATUSES of the broker
abbrev pub is_terminal : TaskStatus → Bool
is_terminal finished = true
is_terminal TaskStatus.failed = true
is_terminal cancelled = true
is_terminal finished_with_error = true
is_terminal _ = false

-- _FAILED_SUBTASK_STATUSES
abbrev pub is_failed_subtask : TaskStatus → Bool
is_failed_subtask TaskStatus.failed = true
is_failed_subtask finished_with_error = true
is_failed_subtask _ = false

-- _OPEN_SUBTASK_STATUSES
abbrev pub is_open : TaskStatus → Bool
is_open new = true
is_open queued = true
is_open running = true
is_open _ = false

abbrev pub is_cyclical : TaskType → Bool
is_cyclical cyclical = true
is_cyclical linear = false

abbrev pub is_pending : BrokerOutboxStatus → Bool
is_pending pending = true
is_pending _ = false

abbrev pub is_processing : BrokerOutboxStatus → Bool
is_processing processing = true
is_processing _ = false
