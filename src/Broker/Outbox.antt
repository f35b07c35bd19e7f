-- ===== src/Broker/Outbox.antt =====
-- worker/broker/storage.py: the outbox rows. Each function is one transaction; `now` is its `now()`,
-- and `locked` holds for the ids of rows that other open transactions have locked.
pub mod Lifecycle
use scenario_pipeliner.Base.{
  ℕ, zero, suc, ◌+◌, ◌*◌, Bool, true, false, not, ◌&&◌, ◌||◌, Option, none, some, List, [], ◌∷◌,
  ◌++◌, map, ltb, leb, ◌==◌, if◌then◌else◌, is_some, take, any, contains,
}
use scenario_pipeliner.Text.{String}
use scenario_pipeliner.Json.{Json, Fields, obj}
use scenario_pipeliner.Table.{update_where, select_where, order_by}
use scenario_pipeliner.Db.Enums.{
  BrokerOutboxStatus, pending, processing, sent, failed, skipped, is_pending, is_processing,
  is_terminal,
}
use scenario_pipeliner.Db.Tables.{minute, TaskRow, IngressRow, OutboxRow, Database}
use scenario_pipeliner.Db.Identity.{outbox_ids, unique_violation}
use scenario_pipeliner.Db.Tx.{Result, ok, err, Tx, pure, ◌>>=◌, begin}
use scenario_pipeliner.Broker.Settings.{ReplyDraft}

-- INSERT … ON CONFLICT (task_id) DO NOTHING; the answer is `rowcount == 1`. `nextval` comes first.
unfoldable pub insert_pending : ℕ → ℕ → ℕ → Tx Bool
unfolding unique_violation
insert_pending now task_id ingress_id db =
    let id = db.outbox_seq in
    let db' = record db { outbox_seq = id + 1 } in
    if any (λ (o : OutboxRow). o.task_id == task_id) db.outbox
    then (ok false, db')
    else if contains id (outbox_ids db)
    then (err (unique_violation "broker_outbox_pkey"), db')
    else (
      ok true,
      record db' {
        outbox =
            db.outbox
            ++ record {
              id = id;
              task_id = task_id;
              ingress_id = some ingress_id;
              status = pending;
              body = none;
              content_type = none;
              routing_queues = [];
              headers = none;
              attempt_count = 0;
              claim_token = 0;
              last_error = none;
              created_at = now;
              updated_at = now;
              sent_at = none;
            }
              ∷ [];
      },
    )

-- a task with its ingress row: the JOIN on task_id, of which the column is unique
abbrev joined : Database → TaskRow → List (TaskRow × IngressRow)
joined db t = map (λ i. (t, i)) (select_where (λ (i : IngressRow). i.task_id == t.id) db.ingress)

join_ingress : Database → List TaskRow → List (TaskRow × IngressRow)
join_ingress db [] = []
join_ingress db (t ∷ rows) = joined db t ++ join_ingress db rows

-- the WHERE of the candidates
abbrev missing_outbox : (ℕ → Bool) → Database → TaskRow → Bool
missing_outbox locked db t =
    is_terminal t.status
    && not (is_some t.deleted_at)
    && not (any (λ (o : OutboxRow). o.task_id == t.id) db.outbox)
    && not (locked t.id)

-- updated_at, which is never null, then id
abbrev oldest : TaskRow × IngressRow → TaskRow × IngressRow → Bool
oldest a b =
    ltb a.0.updated_at b.0.updated_at || a.0.updated_at == b.0.updated_at && ltb a.0.id b.0.id

unfoldable pub terminal_candidates : (ℕ → Bool) → ℕ → Database → List (TaskRow × IngressRow)
unfolding order_by select_where join_ingress
terminal_candidates locked limit db =
    take limit
      (order_by oldest (join_ingress db (select_where (missing_outbox locked db) db.tasks)))

-- list_terminal_tasks_missing_outbox, which locks nothing and skips nothing
unfoldable pub list_terminal_tasks_missing_outbox : ℕ → Tx (List (ℕ × ℕ))
unfolding terminal_candidates
list_terminal_tasks_missing_outbox limit db = (
  ok (
      map (λ ((t, i) : TaskRow × IngressRow). (t.id, i.id))
        (terminal_candidates (λ _. false) limit db)),
  db,
)

abbrev pub count_created : ℕ → Bool → ℕ
count_created created b = if b then created + 1 else created

unfoldable pub insert_each : ℕ → List (TaskRow × IngressRow) → ℕ → Tx ℕ
insert_each now [] created = pure created
insert_each now ((t, i) ∷ rows) created =
    insert_pending now t.id i.id >>= λ b. insert_each now rows (count_created created b)

unfoldable pub insert_outbox_for_terminal_tasks : (ℕ → Bool) → ℕ → ℕ → Tx ℕ
unfolding insert_each terminal_candidates
insert_outbox_for_terminal_tasks locked now limit =
    begin (λ db. insert_each now (terminal_candidates locked limit db) 0 db)

unfoldable pub ensure_outbox_pending : ℕ → ℕ → ℕ → Tx Bool
unfolding insert_pending
ensure_outbox_pending now task_id ingress_id = begin (insert_pending now task_id ingress_id)

-- PENDING, or PROCESSING for longer than the lease
abbrev pub is_claimable : ℕ → ℕ → OutboxRow → Bool
is_claimable now stale_processing_minutes o =
    is_pending o.status
    || is_processing o.status && ltb (o.updated_at + minute * stale_processing_minutes) now

abbrev first_created : OutboxRow → OutboxRow → Bool
first_created a b = ltb a.created_at b.created_at || a.created_at == b.created_at && ltb a.id b.id

-- the subquery, FOR UPDATE SKIP LOCKED
unfoldable pub claim_candidates : (ℕ → Bool) → ℕ → ℕ → ℕ → List OutboxRow → List OutboxRow
unfolding order_by select_where
claim_candidates locked now limit stale_processing_minutes rows = take limit (
    order_by first_created
      (select_where (λ o. is_claimable now stale_processing_minutes o && not (locked o.id)) rows))

abbrev pub set_claimed : ℕ → OutboxRow → OutboxRow
set_claimed now o = record o {
  status = processing;
  claim_token = o.claim_token + 1;
  updated_at = now;
}

abbrev pub is_claimed : (ℕ → Bool) → ℕ → ℕ → ℕ → List OutboxRow → OutboxRow → Bool
is_claimed locked now limit stale_processing_minutes rows o = contains o.id (
    map (λ (c : OutboxRow). c.id) (claim_candidates locked now limit stale_processing_minutes rows))

unfoldable pub claim_pending_outbox : (ℕ → Bool) → ℕ → ℕ → ℕ → Tx (List OutboxRow)
unfolding update_where select_where
claim_pending_outbox locked now limit stale_processing_minutes db =
    let won = is_claimed locked now limit stale_processing_minutes db.outbox in
    (
      ok (map (set_claimed now) (select_where won db.outbox)),
      record db { outbox = update_where won (set_claimed now) db.outbox },
    )

-- _owned_processing
abbrev pub owned_processing : ℕ → ℕ → OutboxRow → Bool
owned_processing outbox_id claim_token o =
    o.id == outbox_id && is_processing o.status && o.claim_token == claim_token

-- UPDATE broker_outbox … WHERE _owned_processing; the answer is `rowcount == 1`
unfoldable pub update_owned : ℕ → ℕ → (OutboxRow → OutboxRow) → Tx Bool
unfolding update_where
update_owned outbox_id claim_token f db =
    let owned = owned_processing outbox_id claim_token in
    (ok (any owned db.outbox), record db { outbox = update_where owned f db.outbox })

unfoldable pub mark_outbox_skipped : ℕ → ℕ → ℕ → Tx Bool
unfolding update_owned
mark_outbox_skipped now outbox_id claim_token =
    begin
      (update_owned outbox_id claim_token (λ o. record o { status = skipped; updated_at = now }))

-- draft.content_type or "application/json"
abbrev pub content_type_or_json : Option String → String
content_type_or_json none = "application/json"
content_type_or_json (some String.[]) = "application/json"
content_type_or_json (some (String.◌∷◌ c s)) = String.◌∷◌ c s

abbrev pub headers_json : Option Fields → Option Json
headers_json none = none
headers_json (some h) = some (obj h)

unfoldable pub store_outbox_reply : ℕ → ℕ → ℕ → ReplyDraft → List String → Tx Bool
unfolding update_owned
store_outbox_reply now outbox_id claim_token draft routing_queues = begin (
    update_owned outbox_id claim_token (λ o. record o {
      body = some draft.body;
      content_type = some (content_type_or_json draft.content_type);
      routing_queues = routing_queues;
      headers = headers_json draft.headers;
      updated_at = now;
    }))

unfoldable pub mark_outbox_sent : ℕ → ℕ → ℕ → Tx Bool
unfolding update_owned
mark_outbox_sent now outbox_id claim_token = begin (
    update_owned outbox_id claim_token
      (λ o. record o { status = sent; sent_at = some now; updated_at = now }))

-- error[:2000]
unfoldable pub cut_text : ℕ → String → String
cut_text zero s = String.[]
cut_text (suc n) String.[] = String.[]
cut_text (suc n) (String.◌∷◌ c s) = String.◌∷◌ c (cut_text n s)

unfoldable pub mark_outbox_publish_failure : ℕ → ℕ → ℕ → String → ℕ → Tx Bool
unfolding update_owned cut_text
mark_outbox_publish_failure now outbox_id claim_token error max_attempts = begin (
    update_owned outbox_id claim_token (λ o. record o {
      attempt_count = o.attempt_count + 1;
      last_error = some (cut_text 2000 error);
      status = if leb max_attempts (o.attempt_count + 1) then failed else pending;
      updated_at = now;
    }))
