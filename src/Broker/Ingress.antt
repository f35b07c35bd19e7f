-- ===== src/Broker/Ingress.antt =====
-- process_ingress_message of worker/broker/ingress.py, utils.py and the ingress part of storage.py. What
-- other transactions commit between the two statements of an insert is `meanwhile`; the ack and nack
-- callbacks are the signal that a delivery ends with.
pub mod Once
pub mod Cap
use scenario_pipeliner.Base.{
  ℕ, zero, suc, ◌+◌, ◌*◌, ◌-◌, Bool, true, false, not, ◌&&◌, ◌||◌, Option, none, some, List, [],
  ◌∷◌, ◌++◌, leb, ◌==◌, if◌then◌else◌, is_some, any, contains,
}
use Prim.Native.Char.{code}
use scenario_pipeliner.Text.{String, concat, str_eq, strip, is_empty}
use scenario_pipeliner.Json.{
  Json, null, bool, num, str, arr, obj, Items, nil, cons, Fields, end, field,
}
use scenario_pipeliner.Db.Enums.{new, rabbitmq, linear}
use scenario_pipeliner.Db.Tables.{default_interval_seconds, TaskRow, IngressRow, Database}
use scenario_pipeliner.Db.Identity.{
  task_ids, ingress_ids, unique_violation, run_with_identity_sequence_retry,
}
use scenario_pipeliner.Db.Tx.{
  Exc, integrity_error, duplicate_broker_message, ingress_reject, ingress_retry, Result, ok, err,
  Tx, pure, raise, after, begin, ◌>>=◌,
}
use scenario_pipeliner.Task.State.{TaskPayload}
use scenario_pipeliner.Broker.Delivery.{get, requeue_within_cap}
use scenario_pipeliner.Broker.Settings.{BrokerMessageMeta, TaskDraft, stripped}

abbrev pub same_message : String → String → IngressRow → Bool
same_message ingress_queue message_id i =
    str_eq i.ingress_queue ingress_queue && str_eq i.message_id message_id

-- SELECT task_id … scalar_one_or_none: the index on both columns is unique
unfoldable pub task_of_message : String → String → List IngressRow → Option ℕ
task_of_message ingress_queue message_id [] = none
task_of_message ingress_queue message_id (i ∷ rows) =
    if same_message ingress_queue message_id i
    then some i.task_id
    else task_of_message ingress_queue message_id rows

unfoldable pub find_existing_ingress_task_id : String → String → Tx (Option ℕ)
unfolding task_of_message
find_existing_ingress_task_id ingress_queue message_id db =
    (ok (task_of_message ingress_queue message_id db.ingress), db)

-- the keyword arguments of insert_linear_task_with_ingress
pub record Message : Type 0 where
  pub plugin_name : String
  pub draft : TaskDraft
  pub ingress_queue : String
  pub message_id : String
  pub reply_to : Option String
  pub content_type : Option String
  pub headers : Option Json

-- draft.alias or f"broker-{draft.scenario}"
abbrev draft_alias : TaskDraft → String
draft_alias draft = elim draft.alias [
  | none ↦ concat "broker-" draft.scenario
  | some a ↦ if is_empty a then concat "broker-" draft.scenario else a
]

module _ (dump_payload : TaskPayload → Json) (now : ℕ) (message : Message) where
  open message use {plugin_name, draft, ingress_queue, message_id, reply_to, content_type, headers}

  abbrev pub task_row : ℕ → TaskRow
  task_row id = record {
    id = id;
    scenario = draft.scenario;
    status = new;
    source = rabbitmq;
    type_task = linear;
    interval_seconds = default_interval_seconds;
    max_executions = draft.max_executions;
    current_executions = 0;
    next_run_at = none;
    last_heartbeat_at = none;
    is_block = false;
    parent_id = none;
    payload = some (dump_payload draft.payload);
    alias = some (draft_alias draft);
    steps_names = [];
    created_at = now;
    updated_at = now;
    deleted_at = none;
  }

  -- INSERT INTO tasks … RETURNING id
  unfoldable pub insert_task : Tx ℕ
  unfolding unique_violation
  insert_task db =
      let id = db.tasks_seq in
      let db' = record db { tasks_seq = id + 1 } in
      if contains id (task_ids db)
      then (err (unique_violation "tasks_pkey"), db')
      else (ok id, record db' { tasks = db.tasks ++ task_row id ∷ [] })

  abbrev pub ingress_row : ℕ → ℕ → IngressRow
  ingress_row id task_id = record {
    id = id;
    task_id = task_id;
    plugin_name = plugin_name;
    scenario = draft.scenario;
    ingress_queue = ingress_queue;
    message_id = message_id;
    reply_to = reply_to;
    content_type = content_type;
    headers = headers;
    created_at = now;
  }

  -- INSERT INTO broker_ingress, inside its savepoint
  unfoldable pub insert_ingress : ℕ → Tx ℕ
  unfolding unique_violation
  insert_ingress task_id db =
      let id = db.ingress_seq in
      let db' = record db { ingress_seq = id + 1 } in
      if contains id (ingress_ids db)
      then (err (unique_violation "broker_ingress_pkey"), db')
      else if any (λ (i : IngressRow). i.task_id == task_id) db.ingress
      then (err (unique_violation "broker_ingress_task_id_key"), db')
      else if any (same_message ingress_queue message_id) db.ingress
      then (err (unique_violation "uq_broker_ingress_queue_message"), db')
      else (ok task_id, record db' { ingress = db.ingress ++ ingress_row id task_id ∷ [] })

  -- the `except IntegrityError` of the savepoint
  abbrev pub raced : Result ℕ × Database → Result ℕ × Database
  raced (ok id, db) = (ok id, db)
  raced (err e, db) = elim (task_of_message ingress_queue message_id db.ingress) [
    | some task_id ↦ (err (duplicate_broker_message task_id), db)
    | none ↦ (err e, db)
  ]

  abbrev pub insert_both : Tx ℕ
  insert_both = insert_task >>= λ task_id. λ db. raced (insert_ingress task_id db)

  module _ (meanwhile : Database → Database) where
    -- _insert: the SELECT, what others commit after it, and the two INSERTs
    unfoldable pub insert_once : Tx ℕ
    unfolding insert_task insert_ingress task_of_message
    insert_once db = elim (task_of_message ingress_queue message_id db.ingress) [
      | some task_id ↦ (err (duplicate_broker_message task_id), db)
      | none ↦ begin insert_both (meanwhile db)
    ]

    unfoldable pub insert_linear_task_with_ingress : Tx ℕ
    unfolding run_with_identity_sequence_retry
    insert_linear_task_with_ingress = run_with_identity_sequence_retry insert_once

-- how a delivery is answered
pub data Signal : Type 0 where
  ack : Signal
  -- the flag is `requeue`
  nack : Bool → Signal

-- what hashlib and `str` do
pub record Digests : Type 0 where
  pub sha256_hex : String → List ℕ → String
  pub str_of : Json → String

-- value or ""
abbrev truthy_text : (Json → String) → Json → String
truthy_text str_of null = ""
truthy_text str_of (bool false) = ""
truthy_text str_of (num zero) = ""
truthy_text str_of (str s) = s
truthy_text str_of (arr nil) = ""
truthy_text str_of (obj end) = ""
truthy_text str_of v = str_of v

abbrev trace_id : (Json → String) → Option Json → Option String
trace_id str_of none = none
trace_id str_of (some v) = some (truthy_text str_of v)

unfoldable pub resolve_message_id : Digests → String → List ℕ → Option String → Fields → String
unfolding stripped get
resolve_message_id digests queue body amqp_message_id headers = elim (stripped amqp_message_id) [
  | some id ↦ id
  | none ↦ elim (stripped (trace_id digests.str_of (get "trace_id" headers))) [
    | some id ↦ id
    | none ↦ digests.sha256_hex queue body
  ]
]

-- dict(meta.headers) if meta.headers else None
abbrev stored_headers : Fields → Option Json
stored_headers end = none
stored_headers (field k v rest) = some (obj (field k v rest))

module _ (digests : Digests) (dump_payload : TaskPayload → Json)
    (on_ingress : List ℕ → BrokerMessageMeta → Tx (Option TaskDraft)) (plugin_name : String)
    (max_ingress_retries : ℕ) where
  abbrev pub enriched : List ℕ → BrokerMessageMeta → BrokerMessageMeta
  enriched raw meta = record meta {
    message_id = some (resolve_message_id digests meta.queue raw meta.message_id meta.headers);
  }

  abbrev pub message_of : List ℕ → BrokerMessageMeta → TaskDraft → Message
  message_of raw meta draft = record {
    plugin_name = plugin_name;
    draft = draft;
    ingress_queue = meta.queue;
    message_id = resolve_message_id digests meta.queue raw meta.message_id meta.headers;
    reply_to = meta.reply_to;
    content_type = meta.content_type;
    headers = stored_headers meta.headers;
  }

  -- the last `try`
  abbrev pub answer_insert :
      BrokerMessageMeta → Result ℕ × Database → (Option ℕ × Signal) × Database
  answer_insert meta (ok task_id, db) = ((some task_id, ack), db)
  answer_insert meta (err (duplicate_broker_message task_id), db) = ((some task_id, ack), db)
  answer_insert meta (err _, db) = ((none, nack (requeue_within_cap meta max_ingress_retries)), db)

  -- the answer of the hook
  abbrev pub answer_hook :
      ℕ
      → (Database → Database)
      → List ℕ
      → BrokerMessageMeta
      → Result (Option TaskDraft) × Database
      → (Option ℕ × Signal) × Database
  answer_hook now meanwhile raw meta (err ingress_reject, db) = ((none, nack false), db)
  answer_hook now meanwhile raw meta (err _, db) =
      ((none, nack (requeue_within_cap meta max_ingress_retries)), db)
  answer_hook now meanwhile raw meta (ok none, db) = ((none, nack false), db)
  answer_hook now meanwhile raw meta (ok (some draft), db) =
      answer_insert meta
        (insert_linear_task_with_ingress dump_payload now (message_of raw meta draft) meanwhile db)

  unfoldable pub process_ingress_message :
      ℕ
      → (Database → Database)
      → List ℕ
      → BrokerMessageMeta
      → Database
      → (Option ℕ × Signal) × Database
  unfolding requeue_within_cap insert_linear_task_with_ingress resolve_message_id
  process_ingress_message now meanwhile raw meta db =
      answer_hook now meanwhile raw meta (on_ingress raw (enriched raw meta) db)
