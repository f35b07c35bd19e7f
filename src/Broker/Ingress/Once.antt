-- ===== src/Broker/Ingress/Once.antt =====
-- A message becomes one task, however often and however concurrently it is delivered.
use scenario_pipeliner.Base.{
  ℕ, ◌+◌, ◌≡◌, refl, ap, ◌∙◌, sym, subst, inl, inr, true, false, Option, none, some, List, [], ◌∷◌,
  ◌++◌, arith, ◌==◌, Bool-cases, any, contains,
}
use scenario_pipeliner.Text.{String, eq_refl}
use scenario_pipeliner.Json.{Json}
use scenario_pipeliner.Db.Tables.{IngressRow, Database}
use scenario_pipeliner.Db.Identity.{
  ingress_ids, task_ids, run_with_identity_sequence_retry, retried,
}
use scenario_pipeliner.Db.Tx.{
  ErrorLink, ingress_reject, integrity_error, duplicate_broker_message, Result, ok, err, Tx, after,
  finish, begin,
}
use scenario_pipeliner.Db.Fresh.{retry-holds}
use scenario_pipeliner.Task.State.{TaskPayload}
use scenario_pipeliner.Broker.Settings.{BrokerMessageMeta, TaskDraft}
use scenario_pipeliner.Broker.Ingress.{
  same_message, task_of_message, Message, insert_task, ingress_row, insert_ingress, raced,
  insert_both, insert_once, insert_linear_task_with_ingress, ack, Digests, enriched, message_of,
  answer_insert, answer_hook, process_ingress_message, resolve_message_id,
}

-- the answer names the task that the ingress table has for the message
abbrev Settled : String → String → Result ℕ × Database → Type 0
Settled q m (ok task_id, db) = task_of_message q m db.ingress ≡ some task_id
Settled q m (err (duplicate_broker_message task_id), db) =
    task_of_message q m db.ingress ≡ some task_id
Settled q m (err _, db) = Unit {0}

-- A row at the end is found where no row before it has the message.
task_of_message-append :
    (q m : String) (rows : List IngressRow) (i : IngressRow)
    → any (same_message q m) rows ≡ false
    → same_message q m i ≡ true
    → task_of_message q m (rows ++ i ∷ []) ≡ some i.task_id
unfolding task_of_message
task_of_message-append q m [] i h s = rw s refl
task_of_message-append q m (r ∷ rows) i h s = elim (Bool-cases (same_message q m r)) [
  | inl e ↦ ground arith
  | inr e ↦ rw e (task_of_message-append q m rows i (ground arith) s)
]

-- A message that is found is found when rows are added.
task_of_message-added :
    (q m : String) (rows more : List IngressRow) (task_id : ℕ)
    → task_of_message q m rows ≡ some task_id
    → task_of_message q m (rows ++ more) ≡ some task_id
unfolding task_of_message
task_of_message-added q m [] more task_id e = cc
task_of_message-added q m (r ∷ rows) more task_id e = elim (Bool-cases (same_message q m r)) [
  | inl s ↦ ground arith
  | inr s ↦ rw s (task_of_message-added q m rows more task_id (ground arith))
]

-- the answer of a lookup that comes before something else
lookup-Settled :
    (q m : String) (other : Result ℕ × Database) (db : Database) (found : Option ℕ)
    → task_of_message q m db.ingress ≡ found
    → Settled q m other
    → Settled q m (elim found [ some t ↦ (err (duplicate_broker_message t), db) | none ↦ other ])
lookup-Settled q m other db (some t) e h = e
lookup-Settled q m other db none e h = h

-- an error leaves the ingress table as it was
ErrKeeps : List IngressRow → Result ℕ × Database → Type 0
ErrKeeps rows (ok id, db) = Unit {0}
ErrKeeps rows (err e, db) = db.ingress ≡ rows

lookup-ErrKeeps :
    (rows : List IngressRow) (other : Result ℕ × Database) (db : Database) (found : Option ℕ)
    → db.ingress ≡ rows
    → ErrKeeps rows other
    → ErrKeeps rows (elim found [ some t ↦ (err (duplicate_broker_message t), db) | none ↦ other ])
unfolding ErrKeeps
lookup-ErrKeeps rows other db (some t) e h = e
lookup-ErrKeeps rows other db none e h = h

finish-Settled :
    (q m : String) (db : Database) (r : Result ℕ × Database)
    → ErrKeeps db.ingress r
    → Settled q m r
    → Settled q m (finish db r)
unfolding ErrKeeps
finish-Settled q m db (ok id, after) k s = s
finish-Settled q m db (err (duplicate_broker_message t), after) k s =
    subst (λ rows. task_of_message q m rows ≡ some t) k s
finish-Settled q m db (err _, after) k s = tt

module _ (dump_payload : TaskPayload → Json) (now : ℕ) (message : Message) where
  open message use {ingress_queue, message_id}

  abbrev Sound : List IngressRow → Result ℕ × Database → Type 0
  Sound rows r = ErrKeeps rows r × Settled ingress_queue message_id r

  raced-Sound :
      (chain : List ErrorLink) (db : Database)
      → Sound db.ingress (raced dump_payload now message (err (integrity_error chain), db))
  unfolding ErrKeeps
  raced-Sound chain db =
      let found = task_of_message ingress_queue message_id db.ingress in
      (
        lookup-ErrKeeps db.ingress (err (integrity_error chain), db) db found refl refl,
        lookup-Settled ingress_queue message_id (err (integrity_error chain), db) db found refl tt,
      )

  ingress-Sound :
      (task_id : ℕ) (db : Database)
      → Sound db.ingress
          (raced dump_payload now message (insert_ingress dump_payload now message task_id db))
  unfolding insert_ingress ErrKeeps
  ingress-Sound task_id db = elim (Bool-cases (contains db.ingress_seq (ingress_ids db))) [
    | inl e ↦ rw e (raced-Sound _ (record db { ingress_seq = db.ingress_seq + 1 }))
    | inr e ↦ elim (Bool-cases (any (λ (i : IngressRow). i.task_id == task_id) db.ingress)) [
      | inl f ↦ rw (e, f) (raced-Sound _ (record db { ingress_seq = db.ingress_seq + 1 }))
      | inr f ↦ elim (Bool-cases (any (same_message ingress_queue message_id) db.ingress)) [
        | inl g ↦ rw (e, f, g) (raced-Sound _ (record db { ingress_seq = db.ingress_seq + 1 }))
        | inr g ↦
            rw (e, f, g)
              (
                tt,
                task_of_message-append ingress_queue message_id db.ingress
                    (ingress_row dump_payload now message db.ingress_seq task_id) g
                    (rw (eq_refl ingress_queue, eq_refl message_id) refl),
              )
      ]
    ]
  ]

  both-Sound : (db : Database) → Sound db.ingress (insert_both dump_payload now message db)
  unfolding insert_task ErrKeeps
  both-Sound db = elim (Bool-cases (contains db.tasks_seq (task_ids db))) [
    | inl e ↦ rw e (refl, tt)
    | inr e ↦ rw e (ingress-Sound db.tasks_seq _)
  ]

  module _ (meanwhile : Database → Database) where
    once-Settled :
        (db : Database)
        → Settled ingress_queue message_id (insert_once dump_payload now message meanwhile db)
    unfolding insert_once
    once-Settled db =
        let sound = both-Sound (meanwhile db) in
        lookup-Settled ingress_queue message_id
          (begin (insert_both dump_payload now message) (meanwhile db)) db
          (task_of_message ingress_queue message_id db.ingress) refl
          (finish-Settled ingress_queue message_id (meanwhile db) _ sound.0 sound.1)

    insert-Settled :
        (db : Database)
        → Settled ingress_queue message_id
            (insert_linear_task_with_ingress dump_payload now message meanwhile db)
    unfolding insert_linear_task_with_ingress
    insert-Settled db =
        retry-holds (Settled ingress_queue message_id)
          (insert_once dump_payload now message meanwhile) once-Settled db

once_duplicate :
    (dump_payload : TaskPayload → Json) (now : ℕ) (message : Message)
    (meanwhile : Database → Database) (db : Database) (task_id : ℕ)
    → task_of_message message.ingress_queue message.message_id db.ingress ≡ some task_id
    → insert_once dump_payload now message meanwhile db
      ≡ (err (duplicate_broker_message task_id), db)
unfolding insert_once
once_duplicate dump_payload now message meanwhile db task_id e =
    ap
      (λ (o : Option ℕ). elim o as (λ _. Result ℕ × Database) [
        | some t ↦ (err (duplicate_broker_message t), db)
        | none ↦ begin (insert_both dump_payload now message) (meanwhile db)
      ])
      e

-- A message that has a task is a duplicate, and its insert writes nothing.
insert_duplicate :
    (dump_payload : TaskPayload → Json) (now : ℕ) (message : Message)
    (meanwhile : Database → Database) (db : Database) (task_id : ℕ)
    → task_of_message message.ingress_queue message.message_id db.ingress ≡ some task_id
    → insert_linear_task_with_ingress dump_payload now message meanwhile db
      ≡ (err (duplicate_broker_message task_id), db)
unfolding insert_linear_task_with_ingress run_with_identity_sequence_retry retried
insert_duplicate dump_payload now message meanwhile db task_id e =
    ap (retried (insert_once dump_payload now message meanwhile))
      (once_duplicate dump_payload now message meanwhile db task_id e)

module _ (digests : Digests) (dump_payload : TaskPayload → Json)
    (on_ingress : List ℕ → BrokerMessageMeta → Tx (Option TaskDraft)) (plugin_name : String)
    (max_ingress_retries : ℕ) where
  abbrev pub id_of : List ℕ → BrokerMessageMeta → String
  id_of raw meta = resolve_message_id digests meta.queue raw meta.message_id meta.headers

  answered :
      (meta : BrokerMessageMeta) (q m : String) (r : Result ℕ × Database) (task_id : ℕ)
      → Settled q m r
      → let answer =
          answer_insert digests dump_payload on_ingress plugin_name max_ingress_retries meta r in
        answer.0 ≡ (some task_id, ack) → task_of_message q m answer.1.ingress ≡ some task_id
  answered meta q m (ok t, db) task_id s e =
      let found : task_of_message q m db.ingress ≡ some t = s in cc
  answered meta q m (err (duplicate_broker_message t), db) task_id s e =
      let found : task_of_message q m db.ingress ≡ some t = s in cc
  answered meta q m (err _, db) task_id s e = cc

  process-finds :
      (now : ℕ) (meanwhile : Database → Database) (raw : List ℕ) (meta : BrokerMessageMeta)
      (hooked : Result (Option TaskDraft) × Database) (task_id : ℕ)
      → let answer =
          answer_hook digests dump_payload on_ingress plugin_name max_ingress_retries now meanwhile
            raw meta hooked in
        answer.0 ≡ (some task_id, ack)
        → task_of_message meta.queue (id_of raw meta) answer.1.ingress ≡ some task_id
  process-finds now meanwhile raw meta (ok (some draft), db) task_id e =
      answered meta meta.queue (id_of raw meta) _ task_id
        (insert-Settled dump_payload now
          (message_of digests dump_payload on_ingress plugin_name max_ingress_retries raw meta
            draft)
          meanwhile db)
        e
  process-finds now meanwhile raw meta (ok none, db) task_id e = cc
  process-finds now meanwhile raw meta (err ingress_reject, db) task_id e = cc
  process-finds now meanwhile raw meta (err _, db) task_id e = cc

  -- Once a delivery is acknowledged with a task, every later delivery of a message with the same queue and
  -- id, for which the hook returns a draft, is acknowledged with the same task and writes nothing past
  -- the hook: whatever was committed since, by the hook as well, as long as ingress rows were only
  -- added, and whatever other transactions commit while either is inserted.
  pub redelivery_is_idempotent :
      (now later : ℕ) (meanwhile meanwhile' : Database → Database) (raw raw' : List ℕ)
      (meta meta' : BrokerMessageMeta) (db between hooked : Database) (more : List IngressRow)
      (task_id : ℕ) (draft : TaskDraft)
      → let process =
          process_ingress_message digests dump_payload on_ingress plugin_name max_ingress_retries in
        (process now meanwhile raw meta db).0 ≡ (some task_id, ack)
        → meta'.queue ≡ meta.queue
        → id_of raw' meta' ≡ id_of raw meta
        → on_ingress raw'
            (enriched digests dump_payload on_ingress plugin_name max_ingress_retries raw' meta')
            between
          ≡ (ok (some draft), hooked)
        → hooked.ingress ≡ (process now meanwhile raw meta db).1.ingress ++ more
        → process later meanwhile' raw' meta' between ≡ ((some task_id, ack), hooked)
  unfolding process_ingress_message
  redelivery_is_idempotent now later meanwhile meanwhile' raw raw' meta meta' db between hooked more
        task_id draft e q m h added =
      let db' =
        (process_ingress_message digests dump_payload on_ingress plugin_name max_ingress_retries now
          meanwhile raw meta db).1 in
      let found =
        process-finds now meanwhile raw meta
          (on_ingress raw
            (enriched digests dump_payload on_ingress plugin_name max_ingress_retries raw meta) db)
          task_id e in
      let found' =
        subst (λ k. task_of_message k (id_of raw' meta') db'.ingress ≡ some task_id) (sym q)
          (subst (λ k. task_of_message meta.queue k db'.ingress ≡ some task_id) (sym m) found) in
      let still =
        ap (task_of_message meta'.queue (id_of raw' meta')) added
        ∙ task_of_message-added meta'.queue (id_of raw' meta') db'.ingress more task_id found' in
      ap
        (answer_hook digests dump_payload on_ingress plugin_name max_ingress_retries later
          meanwhile' raw' meta')
        h
      ∙ ap (answer_insert digests dump_payload on_ingress plugin_name max_ingress_retries meta') (
          insert_duplicate dump_payload later
            (message_of digests dump_payload on_ingress plugin_name max_ingress_retries raw' meta'
              draft)
            meanwhile' hooked task_id still)
