-- ===== src/Broker/Egress.antt =====
-- worker/broker/outbox.py, and load_task_result_ingress of storage.py: one pass of the publisher. The
-- plugin's hook and the publish callback are transactions: what they do to the database stands for what
-- other processes commit while they are awaited. `now` is the time of the pass.
pub mod Pass
pub mod Sent
use scenario_pipeliner.Base.{
  ℕ, ◌+◌, Bool, false, Option, none, some, List, [], ◌∷◌, ltb, ◌==◌, if◌then◌else◌,
}
use scenario_pipeliner.Text.{String, strip, is_empty}
use scenario_pipeliner.Json.{Json, num, str, obj, Fields, end, field}
use scenario_pipeliner.Table.{select_where, order_by, find_key}
use scenario_pipeliner.Db.Enums.{status_value}
use scenario_pipeliner.Db.Tables.{TaskRow, ResultRow, IngressRow, OutboxRow, Database}
use scenario_pipeliner.Db.Tx.{
  lookup_error, type_error, Result, ok, err, Tx, pure, raise, gets, ◌>>=◌, ◌>>◌,
}
use scenario_pipeliner.Task.State.{TaskPayload}
use scenario_pipeliner.Task.Rows.{Models, ok_some}
use scenario_pipeliner.Dict.{lookup}
use scenario_pipeliner.Broker.Settings.{
  PluginBrokerSettings, outbox_stale_processing_minutes, ReplyDraft, TaskRowView, ResultRowView,
  BrokerIngressView, stripped,
}
use scenario_pipeliner.Broker.Outbox.{
  insert_outbox_for_terminal_tasks, claim_pending_outbox, mark_outbox_skipped, store_outbox_reply,
  mark_outbox_sent, mark_outbox_publish_failure,
}
use scenario_pipeliner.Broker.Delivery.{get}

-- the queues whose name is not blank
unfoldable pub not_blank : List String → List String
unfolding strip
not_blank [] = []
not_blank (q ∷ qs) = let rest = not_blank qs in if is_empty (strip q) then rest else q ∷ rest

-- [ingress_reply_to.strip()], or the plugin's output queues
abbrev reply_queues : Option String → List String → List String
reply_queues none output_queues = not_blank output_queues
reply_queues (some q) output_queues = q ∷ []

-- _resolve_routing_queues
unfoldable pub resolve_routing_queues :
    Option (List String) → Option String → List String → List String
unfolding not_blank stripped
resolve_routing_queues (some (q ∷ qs)) ingress_reply_to output_queues = not_blank (q ∷ qs)
resolve_routing_queues (some []) ingress_reply_to output_queues =
    reply_queues (stripped ingress_reply_to) output_queues
resolve_routing_queues none ingress_reply_to output_queues =
    reply_queues (stripped ingress_reply_to) output_queues

abbrev fields_of : Result Json → Fields
fields_of (ok (obj fields)) = fields
fields_of _ = end

-- _normalize_headers; `loads` is json.loads
unfoldable pub normalize_headers : (String → Result Json) → Option Json → Fields
normalize_headers loads (some (obj fields)) = fields
normalize_headers loads (some (str s)) = fields_of (loads s)
normalize_headers loads _ = end

abbrev pub put_last : String → Json → Fields → Fields
put_last k v end = field k v end
put_last k v (field j w rest) = field j w (put_last k v rest)

-- dict.setdefault
unfoldable pub set_default : String → Json → Fields → Fields
unfolding get
set_default k v fields = elim (get k fields) [ some _ ↦ fields | none ↦ put_last k v fields ]

-- _publish_all_queues
unfoldable pub publish_all_queues :
    (String → List ℕ → Fields → Tx (Unit {0})) → List String → List ℕ → Fields → Tx (Unit {0})
publish_all_queues publish [] body headers = pure tt
publish_all_queues publish (q ∷ qs) body headers =
    publish q body headers >> publish_all_queues publish qs body headers

unfoldable pub reconcile_terminal_broker_tasks : (ℕ → Bool) → ℕ → ℕ → Tx ℕ
unfolding insert_outbox_for_terminal_tasks
reconcile_terminal_broker_tasks = insert_outbox_for_terminal_tasks

abbrev lift {ℓ} : {A : Type ℓ} → Result A → Tx A
lift r db = (r, db)

abbrev or_lookup_error {ℓ} : {A : Type ℓ} → Option A → Tx A
or_lookup_error none = raise lookup_error
or_lookup_error (some a) = pure a

abbrev newest : ResultRow → ResultRow → Bool
newest a b = ltb b.id a.id

-- ORDER BY id DESC LIMIT 1
unfoldable pub latest_result : ℕ → Database → Option ResultRow
unfolding order_by select_where
latest_result task_id db =
    elim (order_by newest (select_where (λ (r : ResultRow). r.task_id == task_id) db.results)) [
      | [] ↦ none
      | r ∷ _ ↦ some r
    ]

module _ (models : Models) where
  open models use {validate_payload, loads}

  -- a column that may hold its JSON as text
  abbrev loaded : Json → Result Json
  loaded (str s) = loads s
  loaded v = ok v

  abbrev payload_model : Result Json → Result (Option TaskPayload)
  payload_model (ok (obj fields)) = ok_some (validate_payload fields)
  payload_model (ok _) = ok none
  payload_model (err e) = err e

  abbrev payload_view : Option Json → Result (Option TaskPayload)
  payload_view none = ok none
  payload_view (some v) = payload_model (loaded v)

  abbrev with_result : ResultRow → Result Json → Result (Option ResultRowView)
  with_result r (ok v) = ok (some (record { result_id = r.id; task_id = r.task_id; result = v }))
  with_result r (err e) = err e

  abbrev result_view : Option ResultRow → Result (Option ResultRowView)
  result_view none = ok none
  result_view (some r) = with_result r (loaded r.result)

  abbrev header_fields : Result Json → Result (Option Fields)
  header_fields (ok (obj fields)) = ok (some fields)
  header_fields (ok _) = ok none
  header_fields (err e) = err e

  abbrev headers_view : Option Json → Result (Option Fields)
  headers_view none = ok none
  headers_view (some v) = header_fields (loaded v)

  abbrev task_view : TaskRow → Option TaskPayload → TaskRowView
  task_view t payload = record {
    task_id = t.id;
    scenario = t.scenario;
    status = status_value t.status;
    payload = payload;
    alias = t.alias;
  }

  abbrev ingress_view : IngressRow → Option Fields → BrokerIngressView
  ingress_view i headers = record {
    ingress_id = i.id;
    task_id = i.task_id;
    plugin_name = i.plugin_name;
    scenario = i.scenario;
    ingress_queue = i.ingress_queue;
    message_id = i.message_id;
    reply_to = i.reply_to;
    content_type = i.content_type;
    headers = headers;
  }

  abbrev pub Loaded : Type 0
  Loaded = TaskRowView × Option ResultRowView × BrokerIngressView

  unfoldable pub load_task_result_ingress : ℕ → ℕ → Tx Loaded
  unfolding find_key latest_result status_value
  load_task_result_ingress task_id ingress_id =
      gets (λ db. find_key (λ (t : TaskRow). t.id) task_id db.tasks) >>= or_lookup_error >>= λ task.
      gets (latest_result task_id) >>= λ result.
      gets (λ db. find_key (λ (i : IngressRow). i.id) ingress_id db.ingress)
      >>= or_lookup_error
      >>= λ ingress. lift (payload_view task.payload) >>= λ payload.
          lift (result_view result) >>= λ view. lift (headers_view ingress.headers) >>= λ headers.
          pure (task_view task payload, view, ingress_view ingress headers)

  module _ (str_of : Json → String)
      (on_egress : List (
        String × (TaskRowView → Option ResultRowView → BrokerIngressView → Tx (Option ReplyDraft))))
      (settings_by_plugin : List (String × PluginBrokerSettings))
      (publish : String → List ℕ → Fields → Tx (Unit {0})) (max_attempts now : ℕ) where
    abbrev with_content_type : Option String → Fields → Fields
    with_content_type none headers = headers
    with_content_type (some c) headers =
        if is_empty (strip c) then headers else set_default "content_type" (str (strip c)) headers

    -- from `assert body is not None` to the end of the `try`
    unfoldable pub publish_reply :
        OutboxRow → List String → List ℕ → Option String → Fields → Tx Bool
    unfolding publish_all_queues mark_outbox_sent set_default strip
    publish_reply row routing_queues body content_type headers =
        publish_all_queues publish routing_queues body (
          with_content_type content_type
            (set_default "task_id" (str (str_of (num row.task_id))) headers))
        >> mark_outbox_sent now row.id row.claim_token

    -- mark_outbox_skipped and `continue`: whether the lease was lost only shows in the log
    unfoldable pub skip_row : OutboxRow → Tx Bool
    unfolding mark_outbox_skipped
    skip_row row = mark_outbox_skipped now row.id row.claim_token >> pure false

    abbrev draft_headers : ReplyDraft → Fields
    draft_headers draft = elim draft.headers [ none ↦ end | some h ↦ h ]

    -- `if content_type: headers.setdefault(…)`
    abbrev reply_headers : Option String → Fields → Fields
    reply_headers none headers = headers
    reply_headers (some c) headers =
        if is_empty c then headers else set_default "content_type" (str c) headers

    unfoldable pub store_and_publish : OutboxRow → ReplyDraft → List String → Tx Bool
    unfolding skip_row store_outbox_reply publish_reply set_default
    store_and_publish row draft [] = skip_row row
    store_and_publish row draft (q ∷ qs) =
        store_outbox_reply now row.id row.claim_token draft (q ∷ qs) >>= λ stored.
        if stored
        then publish_reply row (q ∷ qs) draft.body draft.content_type
            (reply_headers draft.content_type (draft_headers draft))
        else pure false

    unfoldable pub reply_with :
        OutboxRow → BrokerIngressView → PluginBrokerSettings → Option ReplyDraft → Tx Bool
    unfolding skip_row store_and_publish resolve_routing_queues
    reply_with row ingress settings none = skip_row row
    reply_with row ingress settings (some draft) =
        store_and_publish row draft
          (resolve_routing_queues draft.routing_queues ingress.reply_to settings.output_queues)

    -- the body of the `try`; the answer says whether a row became SENT
    unfoldable pub publish_row : OutboxRow → Loaded → Tx Bool
    unfolding lookup skip_row publish_reply reply_with normalize_headers
    publish_row row (task, result, ingress) = elim (lookup ingress.plugin_name on_egress) [
      | none ↦ skip_row row
      | some hook ↦ elim (lookup ingress.plugin_name settings_by_plugin) [
        | none ↦ skip_row row
        | some settings ↦ elim row.body [
          | some body ↦
              publish_reply row row.routing_queues body row.content_type
                (normalize_headers loads row.headers)
          | none ↦ hook task result ingress >>= reply_with row ingress settings
        ]
      ]
    ]

    -- the `except Exception`
    abbrev pub failed_row : OutboxRow → Result Bool × Database → Result Bool × Database
    failed_row row (ok sent, db) = (ok sent, db)
    failed_row row (err e, db) =
        (mark_outbox_publish_failure now row.id row.claim_token (models.message e) max_attempts
            >> pure false)
          db

    -- one turn of the loop; `int(None)` is raised before the `try`
    unfoldable pub handle_row : OutboxRow → Tx Bool
    unfolding load_task_result_ingress publish_row mark_outbox_publish_failure
    handle_row row db = elim row.ingress_id [
      | none ↦ (err type_error, db)
      | some ingress_id ↦
          failed_row row ((load_task_result_ingress row.task_id ingress_id >>= publish_row row) db)
    ]

    unfoldable pub handle_rows : List OutboxRow → ℕ → Tx ℕ
    unfolding handle_row
    handle_rows [] sent = pure sent
    handle_rows (row ∷ rows) sent =
        handle_row row >>= λ b. handle_rows rows (if b then sent + 1 else sent)

    unfoldable pub publish_pending_outbox : (ℕ → Bool) → ℕ → Tx ℕ
    unfolding claim_pending_outbox handle_rows outbox_stale_processing_minutes
    publish_pending_outbox locked limit =
        claim_pending_outbox locked now limit (outbox_stale_processing_minutes settings_by_plugin)
        >>= λ rows. handle_rows rows 0
