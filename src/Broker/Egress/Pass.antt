-- ===== src/Broker/Egress/Pass.antt =====
-- A pass of the publisher as a run of outbox transactions.
use scenario_pipeliner.Base.{
  ℕ, ◌+◌, ◌≡◌, sym, subst, Bool, true, false, Option, none, some, List, [], ◌∷◌, arith,
  if◌then◌else◌, Option-cases, inl, inr,
}
use scenario_pipeliner.Text.{String}
use scenario_pipeliner.Json.{Json, num, str, Fields}
use scenario_pipeliner.Db.Tables.{OutboxRow, Database}
use scenario_pipeliner.Db.Tx.{Result, ok, err, Tx, pure, after}
use scenario_pipeliner.Task.Rows.{Models}
use scenario_pipeliner.Dict.{lookup}
use scenario_pipeliner.Broker.Settings.{
  PluginBrokerSettings, outbox_stale_processing_minutes, ReplyDraft, TaskRowView, ResultRowView,
  BrokerIngressView,
}
use scenario_pipeliner.Broker.Outbox.{
  claim_pending_outbox, mark_outbox_skipped, store_outbox_reply, mark_outbox_sent,
  mark_outbox_publish_failure,
}
use scenario_pipeliner.Broker.Outbox.Lifecycle.Runs.{
  claim, skip, store, send, fail, Runs, here, next,
}
use scenario_pipeliner.Broker.Egress.{
  publish_all_queues, set_default, Loaded, load_task_result_ingress, with_content_type,
  publish_reply, skip_row, draft_headers, reply_headers, store_and_publish, reply_with, publish_row,
  failed_row, handle_row, handle_rows, publish_pending_outbox, resolve_routing_queues,
  normalize_headers,
}

Runs-trans : (limit : ℕ) {a b c : Database} → Runs limit a b → Runs limit b c → Runs limit a c
Runs-trans limit r here = r
Runs-trans limit r (next s t) = next (Runs-trans limit r s) t

-- code whose effect is a run of outbox transactions
abbrev pub Running : {A : Type 0} → ℕ → Tx A → Type 0
Running limit m = (db : Database) → Runs limit db (m db).1

after-Runs :
    {A B : Type 0} (limit : ℕ) (db : Database) (r : Result A × Database) (f : A → Tx B)
    → Runs limit db r.1
    → ((a : A) → Running limit (f a))
    → Runs limit db (after r f).1
after-Runs limit db (ok a, d) f h k = Runs-trans limit h (k a d)
after-Runs limit db (err e, d) f h k = h

load_reads :
    (models : Models) (task_id ingress_id : ℕ) (db : Database)
    → (load_task_result_ingress models task_id ingress_id db).1 ≡ db
unfolding load_task_result_ingress
load_reads models task_id ingress_id db = ground arith

if_stored-Runs :
    {limit : ℕ} (stored : Bool) (reply : Tx Bool)
    → Running limit reply
    → Running limit (if stored then reply else pure false)
if_stored-Runs true reply h db = h db
if_stored-Runs false reply h db = here

-- what a plugin's hook is
abbrev pub Hook : Type 0
Hook = TaskRowView → Option ResultRowView → BrokerIngressView → Tx (Option ReplyDraft)

module _ (models : Models) (str_of : Json → String) (on_egress : List (String × Hook))
    (settings_by_plugin : List (String × PluginBrokerSettings))
    (publish : String → List ℕ → Fields → Tx (Unit {0})) (limit now : ℕ) where
  -- while a plugin's hook and the publish callback are awaited, only outbox transactions are committed
  abbrev pub OthersRun : Type 0
  OthersRun =
      ((name : String) (hook : Hook)
        → lookup name on_egress ≡ some hook
        → (t : TaskRowView) (r : Option ResultRowView) (i : BrokerIngressView)
        → Running limit (hook t r i))
      × ((queue : String) (body : List ℕ) (headers : Fields)
          → Running limit (publish queue body headers))

  all_queues-Runs :
      OthersRun
      → (queues : List String) (body : List ℕ) (headers : Fields)
      → Running limit (publish_all_queues publish queues body headers)
  unfolding publish_all_queues
  all_queues-Runs o [] body headers db = here
  all_queues-Runs o (q ∷ queues) body headers db =
      after-Runs limit db (publish q body headers db)
        (λ _. publish_all_queues publish queues body headers) (o.1 q body headers db)
        (λ _. all_queues-Runs o queues body headers)

  reply-Runs :
      OthersRun
      → (row : OutboxRow) (queues : List String) (body : List ℕ) (content_type : Option String)
        (headers : Fields)
      → Running limit (
          publish_reply models str_of on_egress settings_by_plugin publish limit now row queues body
            content_type headers)
  unfolding publish_reply
  reply-Runs o row queues body content_type headers db =
      let all =
        with_content_type models str_of on_egress settings_by_plugin publish limit now content_type
          (set_default "task_id" (str (str_of (num row.task_id))) headers) in
      after-Runs limit db (publish_all_queues publish queues body all db)
        (λ _. mark_outbox_sent now row.id row.claim_token) (all_queues-Runs o queues body all db)
        (λ _ d. next here (send now row.id row.claim_token))

  skip-Runs :
      (row : OutboxRow)
      → Running limit (skip_row models str_of on_egress settings_by_plugin publish limit now row)
  unfolding skip_row
  skip-Runs row db =
      after-Runs limit db (mark_outbox_skipped now row.id row.claim_token db) (λ _. pure false)
        (next here (skip now row.id row.claim_token)) (λ _ d. here)

  stored-Runs :
      OthersRun
      → (row : OutboxRow) (draft : ReplyDraft) (queues : List String)
      → Running limit (
          store_and_publish models str_of on_egress settings_by_plugin publish limit now row draft
            queues)
  unfolding store_and_publish
  stored-Runs o row draft [] db = skip-Runs row db
  stored-Runs o row draft (q ∷ qs) db =
      let headers =
        reply_headers models str_of on_egress settings_by_plugin publish limit now
          draft.content_type
          (draft_headers models str_of on_egress settings_by_plugin publish limit now draft) in
      let reply =
        publish_reply models str_of on_egress settings_by_plugin publish limit now row (q ∷ qs)
          draft.body draft.content_type headers in
      after-Runs limit db (store_outbox_reply now row.id row.claim_token draft (q ∷ qs) db)
        (λ stored. if stored then reply else pure false)
        (next here (store now row.id row.claim_token draft (q ∷ qs)))
        (λ stored.
          if_stored-Runs stored reply
            (reply-Runs o row (q ∷ qs) draft.body draft.content_type headers))

  reply_with-Runs :
      OthersRun
      → (row : OutboxRow) (ingress : BrokerIngressView) (settings : PluginBrokerSettings)
        (draft : Option ReplyDraft)
      → Running limit (
          reply_with models str_of on_egress settings_by_plugin publish limit now row ingress
            settings draft)
  unfolding reply_with
  reply_with-Runs o row ingress settings none = skip-Runs row
  reply_with-Runs o row ingress settings (some draft) =
      stored-Runs o row draft
        (resolve_routing_queues draft.routing_queues ingress.reply_to settings.output_queues)

  publish_row-Runs :
      OthersRun
      → (row : OutboxRow) (loaded : Loaded models)
      → Running limit
          (publish_row models str_of on_egress settings_by_plugin publish limit now row loaded)
  unfolding publish_row
  publish_row-Runs o row (task, result, ingress) db =
      elim (Option-cases (lookup ingress.plugin_name on_egress)) [
        | inl n ↦ rw (n, publish_row) (skip-Runs row db)
        | inr (hook, h) ↦ elim (Option-cases (lookup ingress.plugin_name settings_by_plugin)) [
          | inl n ↦ rw (h, n, publish_row) (skip-Runs row db)
          | inr (settings, s) ↦ elim (Option-cases row.body) [
            | inr (body, b) ↦
                rw (h, s, b, publish_row)
                  (reply-Runs o row row.routing_queues body row.content_type
                    (normalize_headers models.loads row.headers) db)
            | inl b ↦
                rw (h, s, b, publish_row)
                  (after-Runs limit db (hook task result ingress db)
                    (reply_with models str_of on_egress settings_by_plugin publish limit now row
                      ingress settings)
                    (o.0 ingress.plugin_name hook h task result ingress db)
                    (reply_with-Runs o row ingress settings))
          ]
        ]
      ]

  failed-Runs :
      (row : OutboxRow) (db : Database) (r : Result Bool × Database)
      → Runs limit db r.1
      → Runs limit db
          (failed_row models str_of on_egress settings_by_plugin publish limit now row r).1
  failed-Runs row db (ok sent, d) h = h
  failed-Runs row db (err e, d) h =
      after-Runs limit db
        (mark_outbox_publish_failure now row.id row.claim_token (models.message e) limit d)
        (λ _. pure false) (next h (fail now row.id row.claim_token (models.message e)))
        (λ _ d. here)

  handle_row-Runs :
      OthersRun
      → (row : OutboxRow)
      → Running limit (handle_row models str_of on_egress settings_by_plugin publish limit now row)
  unfolding handle_row
  handle_row-Runs o row db = elim (Option-cases row.ingress_id) [
    | inl n ↦ rw (n, handle_row) here
    | inr (ingress_id, i) ↦
        rw (i, handle_row)
          (failed-Runs row db
            (after (load_task_result_ingress models row.task_id ingress_id db)
              (publish_row models str_of on_egress settings_by_plugin publish limit now row))
            (after-Runs limit db (load_task_result_ingress models row.task_id ingress_id db)
              (publish_row models str_of on_egress settings_by_plugin publish limit now row)
              (subst (λ d. Runs limit db d) (sym (load_reads models row.task_id ingress_id db))
                here)
              (publish_row-Runs o row)))
  ]

  handle_rows-Runs :
      OthersRun
      → (rows : List OutboxRow) (sent : ℕ)
      → Running limit
          (handle_rows models str_of on_egress settings_by_plugin publish limit now rows sent)
  unfolding handle_rows
  handle_rows-Runs o [] sent db = here
  handle_rows-Runs o (row ∷ rows) sent db =
      after-Runs limit db
        (handle_row models str_of on_egress settings_by_plugin publish limit now row db)
        (λ b.
          handle_rows models str_of on_egress settings_by_plugin publish limit now rows
            (if b then sent + 1 else sent))
        (handle_row-Runs o row db) (λ b. handle_rows-Runs o rows (if b then sent + 1 else sent))

  -- Where only outbox transactions are committed while the plugins' hooks and the publish callback are
  -- awaited, a pass of the publisher, however it ends, is a run of outbox transactions.
  pass-Runs :
      OthersRun
      → (locked : ℕ → Bool) (max_rows : ℕ) (db : Database)
      → Runs limit db
          (publish_pending_outbox models str_of on_egress settings_by_plugin publish limit now
            locked max_rows db).1
  unfolding publish_pending_outbox
  pass-Runs o locked max_rows db =
      after-Runs limit db
        (claim_pending_outbox locked now max_rows
          (outbox_stale_processing_minutes settings_by_plugin) db)
        (λ rows. handle_rows models str_of on_egress settings_by_plugin publish limit now rows 0)
        (next here (claim locked now max_rows (outbox_stale_processing_minutes settings_by_plugin)))
        (λ rows. handle_rows-Runs o rows 0)
