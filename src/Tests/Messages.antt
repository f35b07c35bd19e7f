-- ===== src/Tests/Messages.antt =====
-- One message, its task and its reply.
use scenario_pipeliner.Base.{
  ◌++◌, inl, ℕ, suc, ◌+◌, ◌-◌, ◌≡◌, refl, ap, Bool, true, false, Option, none, some, List, [], ◌∷◌,
  map, arith, contains, leb, if◌then◌else◌,
}
use scenario_pipeliner.Json.{Json, num, null, Fields, end, field}
use scenario_pipeliner.Table.{find_key}
use scenario_pipeliner.Table.Keys.{Distinct}
use scenario_pipeliner.Db.Enums.{pending, processing}
use scenario_pipeliner.Db.Tables.{IngressRow, OutboxRow, Database, empty_database}
use scenario_pipeliner.Db.Identity.{outbox_ids, run_with_identity_sequence_retry, retried}
use scenario_pipeliner.Db.Tx.{value_error, raise, ok, Tx, pure}
use scenario_pipeliner.Task.State.{TaskPayload, xml}
use scenario_pipeliner.Broker.Settings.{BrokerMessageMeta, TaskDraft, ReplyDraft}
use scenario_pipeliner.Broker.Outbox.{
  set_claimed, claim_pending_outbox, claim_candidates, mark_outbox_sent, mark_outbox_skipped,
  store_outbox_reply, mark_outbox_publish_failure,
}
use scenario_pipeliner.Broker.Outbox.Lifecycle.{outbox_key, find_outbox, Later}
use scenario_pipeliner.Broker.Outbox.Lifecycle.Runs.{here, next, claim, Runs-Later}
use scenario_pipeliner.Broker.Outbox.Lifecycle.Lease.{
  claimed_rows, late_writes_are_lost, claimed_once,
}
use scenario_pipeliner.Broker.Delivery.{counted_delivery_attempt}
use scenario_pipeliner.Broker.Ingress.{
  task_of_message, insert_task, insert_ingress, insert_once, insert_linear_task_with_ingress, ack,
  Digests, process_ingress_message,
}
use scenario_pipeliner.Broker.Ingress.Once.{redelivery_is_idempotent}
use scenario_pipeliner.Broker.Ingress.Cap.{deliveries, counted_deliveries, classic_deliveries}

abbrev pub reply_row : OutboxRow
reply_row = record {
  id = 1;
  task_id = 4;
  ingress_id = some 1;
  status = processing;
  body = none;
  content_type = none;
  routing_queues = [];
  headers = none;
  attempt_count = 0;
  claim_token = 2;
  last_error = none;
  created_at = 1;
  updated_at = 1;
  sent_at = none;
}

abbrev pub pending_row : OutboxRow
pending_row = record reply_row { id = 2; task_id = 5; status = pending; claim_token = 0 }

abbrev queue : Database
queue = record empty_database { outbox = reply_row ∷ pending_row ∷ []; outbox_seq = 3 }

queue_keys : Distinct (outbox_ids queue)
queue_keys = (refl, (refl, tt))

find_reply : find_outbox 1 queue.outbox ≡ some reply_row
unfolding find_key
find_reply = refl

abbrev pub free : ℕ → Bool
free k = false

Runs-Later_example :
    (s : OutboxRow) × (find_outbox 1 (claim_pending_outbox free 5 20 15 queue).1.outbox ≡ some s)
    × Later 10 reply_row s
Runs-Later_example =
    Runs-Later 10 queue_keys (next here (claim free 5 20 15)) 1 reply_row find_reply

abbrev reply : ReplyDraft
reply = record { body = 79 ∷ 75 ∷ []; routing_queues = none; content_type = none; headers = none }

late_writes_are_lost_example :
    let after = (claim_pending_outbox free 5 20 15 queue).1 in
    (mark_outbox_sent 9 1 1 after ≡ (ok false, after))
    × (mark_outbox_skipped 9 1 1 after ≡ (ok false, after))
    × (store_outbox_reply 9 1 1 reply [] after ≡ (ok false, after))
    × (mark_outbox_publish_failure 9 1 1 "late" 10 after ≡ (ok false, after))
late_writes_are_lost_example =
    late_writes_are_lost 10 queue (claim_pending_outbox free 5 20 15 queue).1 queue_keys
      (next here (claim free 5 20 15)) 1 reply_row find_reply 1 (omega arith) 9 reply [] "late"

takes_pending :
    contains 2 (map outbox_key (claimed_rows (claim_pending_outbox free 5 20 15 queue))) ≡ true
unfolding claim_pending_outbox claim_candidates
takes_pending = refl

abbrev claimed : Database
claimed = (claim_pending_outbox free 5 20 15 queue).1

-- the broker stores its reply
abbrev replied : Database
replied = (store_outbox_reply 9 2 1 reply ("out" ∷ []) claimed).1

replied_keys : Distinct (outbox_ids replied)
unfolding claim_pending_outbox claim_candidates store_outbox_reply
replied_keys = (refl, (refl, tt))

abbrev claimed_pending : OutboxRow
claimed_pending = set_claimed 5 pending_row

find_claimed : find_outbox 2 claimed.outbox ≡ some claimed_pending
unfolding claim_pending_outbox claim_candidates find_key
find_claimed = refl

abbrev replied_row : OutboxRow
replied_row = record claimed_pending {
  body = some (79 ∷ 75 ∷ []);
  content_type = some "application/json";
  routing_queues = "out" ∷ [];
  updated_at = 9;
}

find_replied : find_outbox 2 replied.outbox ≡ some replied_row
unfolding claim_pending_outbox claim_candidates store_outbox_reply find_key
find_replied = refl

claimed_once_example :
    contains 2 (map outbox_key (claimed_rows (claim_pending_outbox free 60 20 15 replied))) ≡ false
claimed_once_example =
    claimed_once free free 5 60 20 20 15 15 queue replied queue_keys replied_keys (omega arith) 2
      takes_pending claimed_pending replied_row find_claimed find_replied refl (omega arith)

abbrev digests : Digests
digests = record { sha256_hex = λ q b. "digest"; str_of = λ v. "" }

abbrev dump : TaskPayload → Json
dump p = null

abbrev draft : TaskDraft
draft = record {
  scenario = "demo";
  payload = record { type_doc = xml; items = []; params = none };
  alias = none;
  max_executions = none;
}

abbrev hook : List ℕ → BrokerMessageMeta → Tx (Option TaskDraft)
hook raw meta = pure (some draft)

abbrev delivery : BrokerMessageMeta
delivery = record {
  queue = "in";
  delivery_tag = some 1;
  message_id = some "m-1";
  reply_to = none;
  content_type = none;
  headers = end;
  redelivered = false;
}

abbrev unchanged : Database → Database
unchanged db = db

first_delivery :
    (process_ingress_message digests dump hook "plugin" 3 5 unchanged [] delivery empty_database).0
    ≡ (some 1, ack)
unfolding process_ingress_message insert_linear_task_with_ingress insert_once insert_task
    insert_ingress task_of_message run_with_identity_sequence_retry retried
first_delivery = refl

abbrev delivered : Database
delivered =
    (process_ingress_message digests dump hook "plugin" 3 5 unchanged [] delivery empty_database).1

-- a message that another worker takes in between
abbrev other_message : List IngressRow
other_message =
    record {
      id = 7;
      task_id = 9;
      plugin_name = "plugin";
      scenario = "demo";
      ingress_queue = "in";
      message_id = "m-2";
      reply_to = none;
      content_type = none;
      headers = none;
      created_at = 6;
    }
    ∷ []

abbrev between : Database
between = record delivered { ingress = delivered.ingress ++ other_message }

redelivery_is_idempotent_example :
    process_ingress_message digests dump hook "plugin" 3 9 unchanged []
      (record delivery { redelivered = true })
      between
    ≡ ((some 1, ack), between)
redelivery_is_idempotent_example =
    redelivery_is_idempotent digests dump hook "plugin" 3 5 9 unchanged unchanged [] [] delivery
      (record delivery { redelivered = true }) empty_database between between other_message 1 draft
      first_delivery refl refl refl refl

-- a hook that raises, and what a worker's deliveries find
abbrev broken : List ℕ → BrokerMessageMeta → Tx (Option TaskDraft)
broken raw meta = raise value_error

abbrev times : ℕ → ℕ
times n = n

abbrev worlds : ℕ → Database
worlds n = empty_database

abbrev idle : ℕ → Database → Database
idle n db = db

abbrev next_headers : Option ℕ → Fields
next_headers none = field "x-delivery-count" (num 0) end
next_headers (some n) = field "x-delivery-count" (num n) end

abbrev count_up : BrokerMessageMeta → BrokerMessageMeta
count_up m = record m { headers = next_headers (counted_delivery_attempt m); redelivered = true }

counts_up :
    (m : BrokerMessageMeta) (n : ℕ)
    → counted_delivery_attempt m ≡ some n
    → counted_delivery_attempt (count_up m) ≡ some (n + 1)
unfolding counted_delivery_attempt
counts_up m n e =
    ap
      (λ (o : Option ℕ).
        counted_delivery_attempt (record m { headers = next_headers o; redelivered = true }))
      e

abbrev first_counted : BrokerMessageMeta
first_counted = record delivery { headers = next_headers (some 0) }

counted_once : counted_delivery_attempt first_counted ≡ some 1
unfolding counted_delivery_attempt
counted_once = refl

uncounted : counted_delivery_attempt delivery ≡ none
unfolding counted_delivery_attempt
uncounted = refl

counted_deliveries_example :
    deliveries digests dump broken "plugin" 3 times worlds idle [] count_up 9 1 first_counted
    ≡ suc (3 - 1)
counted_deliveries_example =
    counted_deliveries digests dump broken "plugin" 3 times worlds idle [] count_up
      (λ n m. inl (value_error, empty_database, refl, refl)) counts_up 9 1 1 first_counted
      counted_once (omega arith)

abbrev redelivered : BrokerMessageMeta → BrokerMessageMeta
redelivered m = record m { redelivered = true }

flagged :
    (m : BrokerMessageMeta)
    → counted_delivery_attempt m ≡ none
    → (counted_delivery_attempt (redelivered m) ≡ none) × ((redelivered m).redelivered ≡ true)
unfolding counted_delivery_attempt
flagged m e = (e, refl)

classic_deliveries_example :
    deliveries digests dump broken "plugin" 3 times worlds idle [] redelivered 5 1 delivery
    ≡ (if leb 3 1 then 1 else 2)
classic_deliveries_example =
    classic_deliveries digests dump broken "plugin" 3 times worlds idle [] redelivered
      (λ n m. inl (value_error, empty_database, refl, refl)) flagged 3 1 delivery uncounted refl
