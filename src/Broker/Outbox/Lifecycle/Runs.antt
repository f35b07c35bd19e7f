-- ===== src/Broker/Outbox/Lifecycle/Runs.antt =====
-- Any interleaving of the transactions of several brokers, as a relation between databases.
use scenario_pipeliner.Base.{
  ℕ, ◌+◌, ◌≡◌, refl, inl, inr, Bool, some, List, [], ◌∷◌, arith, leb, ◌==◌, if◌then◌else◌,
  Bool-cases, any, contains,
}
use scenario_pipeliner.Text.{String}
use scenario_pipeliner.Table.Keys.{Distinct}
use scenario_pipeliner.Db.Enums.{pending, sent, failed, skipped}
use scenario_pipeliner.Db.Tables.{TaskRow, IngressRow, OutboxRow, Database}
use scenario_pipeliner.Db.Tx.{Result, ok, err, finish, after, Tx}
use scenario_pipeliner.Db.Identity.{outbox_ids}
use scenario_pipeliner.Broker.Settings.{ReplyDraft}
use scenario_pipeliner.Broker.Outbox.{
  insert_pending, insert_each, insert_outbox_for_terminal_tasks, ensure_outbox_pending,
  claim_pending_outbox, mark_outbox_skipped, store_outbox_reply, mark_outbox_sent,
  mark_outbox_publish_failure, update_owned, terminal_candidates, count_created,
  content_type_or_json, headers_json, cut_text,
}
use scenario_pipeliner.Broker.Outbox.Lifecycle.{
  Later, find_outbox, Carries, Carries-refl, Carries-trans, Carries-append, Carries-owned,
  Carries-claim,
}

-- one committed transaction of a broker that stops after `limit` attempts, or one elsewhere
pub data Step (limit : ℕ) (db : Database) : Database → Type 0 where
  reconcile :
      (locked : ℕ → Bool) (now max_rows : ℕ)
      → Step limit db (insert_outbox_for_terminal_tasks locked now max_rows db).1
  ensure :
      (now task_id ingress_id : ℕ)
      → Step limit db (ensure_outbox_pending now task_id ingress_id db).1
  claim :
      (locked : ℕ → Bool) (now max_rows minutes : ℕ)
      → Step limit db (claim_pending_outbox locked now max_rows minutes db).1
  skip : (now id token : ℕ) → Step limit db (mark_outbox_skipped now id token db).1
  store :
      (now id token : ℕ) (draft : ReplyDraft) (queues : List String)
      → Step limit db (store_outbox_reply now id token draft queues db).1
  send : (now id token : ℕ) → Step limit db (mark_outbox_sent now id token db).1
  fail :
      (now id token : ℕ) (error : String)
      → Step limit db (mark_outbox_publish_failure now id token error limit db).1
  aside : {after : Database} → after.outbox ≡ db.outbox → Step limit db after

pub data Runs (limit : ℕ) (db : Database) : Database → Type 0 where
  here : Runs limit db db
  next : {mid after : Database} → Runs limit db mid → Step limit mid after → Runs limit db after

module _ (limit : ℕ) where
  pending-Carries :
      (now task_id ingress_id : ℕ) (db : Database)
      → Carries limit db.outbox (insert_pending now task_id ingress_id db).1.outbox
  unfolding insert_pending
  pending-Carries now task_id ingress_id db =
      elim (Bool-cases (any (λ (o : OutboxRow). o.task_id == task_id) db.outbox)) [
        | inl e ↦ rw e (Carries-refl limit db.outbox)
        | inr e ↦ elim (Bool-cases (contains db.outbox_seq (outbox_ids db))) [
          | inl c ↦ rw (e, c) (Carries-refl limit db.outbox)
          | inr c ↦ rw (e, c) (Carries-append limit db.outbox _ c)
        ]
      ]

  finish-Carries :
      {A : Type 0} (db : Database) (r : Result A × Database)
      → Carries limit db.outbox r.1.outbox
      → Carries limit db.outbox (finish db r).1.outbox
  finish-Carries db (ok a, after) c = c
  finish-Carries db (err e, after) c = Carries-refl limit db.outbox

  after-Carries :
      (f : Bool → Tx ℕ)
      → ((b : Bool) (db : Database) → Carries limit db.outbox (f b db).1.outbox)
      → (rows : List OutboxRow) (r : Result Bool × Database) → Carries limit rows r.1.outbox
      → Carries limit rows (after r f).1.outbox
  after-Carries f h rows (ok b, db) c = Carries-trans limit c (h b db)
  after-Carries f h rows (err e, db) c = c

  each-Carries :
      (now : ℕ) (rows : List (TaskRow × IngressRow)) (created : ℕ) (db : Database)
      → Carries limit db.outbox (insert_each now rows created db).1.outbox
  unfolding insert_each
  each-Carries now [] created db = Carries-refl limit db.outbox
  each-Carries now ((t, i) ∷ rows) created db =
      after-Carries (λ b. insert_each now rows (count_created created b))
        (λ b db'. each-Carries now rows (count_created created b) db') db.outbox
        (insert_pending now t.id i.id db) (pending-Carries now t.id i.id db)

  -- One transaction carries every outbox row to a later moment.
  pub Step-Carries :
      {db after : Database} → Step limit db after → Carries limit db.outbox after.outbox
  unfolding insert_outbox_for_terminal_tasks ensure_outbox_pending claim_pending_outbox
      mark_outbox_skipped store_outbox_reply mark_outbox_sent mark_outbox_publish_failure
      update_owned
  Step-Carries {db} (reconcile locked now max_rows) =
      finish-Carries db _ (each-Carries now (terminal_candidates locked max_rows db) 0 db)
  Step-Carries {db} (ensure now task_id ingress_id) =
      finish-Carries db _ (pending-Carries now task_id ingress_id db)
  Step-Carries {db} (claim locked now max_rows minutes) =
      Carries-claim limit locked now max_rows minutes db.outbox
  Step-Carries {db} (skip now id token) =
      Carries-owned limit id token (λ o. record o { status = skipped; updated_at = now })
        (λ _. refl)
        (λ r h. record {
          same_id = refl;
          same_task = refl;
          token_grows = omega arith;
          settled_stays = λ s. ground arith;
          stays_within = λ w. ground arith;
        })
        db.outbox
  Step-Carries {db} (store now id token draft queues) =
      Carries-owned limit id token
        (λ o. record o {
          body = some draft.body;
          content_type = some (content_type_or_json draft.content_type);
          routing_queues = queues;
          headers = headers_json draft.headers;
          updated_at = now;
        })
        (λ _. refl)
        (λ r h. record {
          same_id = refl;
          same_task = refl;
          token_grows = omega arith;
          settled_stays = λ s. ground arith;
          stays_within = λ w. ground arith;
        })
        db.outbox
  Step-Carries {db} (send now id token) =
      Carries-owned limit id token
        (λ o. record o { status = sent; sent_at = some now; updated_at = now }) (λ _. refl)
        (λ r h. record {
          same_id = refl;
          same_task = refl;
          token_grows = omega arith;
          settled_stays = λ s. ground arith;
          stays_within = λ w. ground arith;
        })
        db.outbox
  Step-Carries {db} (fail now id token error) =
      Carries-owned limit id token
        (λ o. record o {
          attempt_count = o.attempt_count + 1;
          last_error = some (cut_text 2000 error);
          status = if leb limit (o.attempt_count + 1) then failed else pending;
          updated_at = now;
        })
        (λ _. refl)
        (λ r h. record {
          same_id = refl;
          same_task = refl;
          token_grows = omega arith;
          settled_stays = λ s. ground arith;
          stays_within = λ w. ground arith;
        })
        db.outbox
  Step-Carries {db} (aside e) = rw e (Carries-refl limit db.outbox)

  pub Runs-Carries :
      {db after : Database} → Runs limit db after → Carries limit db.outbox after.outbox
  Runs-Carries {db} here = Carries-refl limit db.outbox
  Runs-Carries (next runs s) = Carries-trans limit (Runs-Carries runs) (Step-Carries s)

  -- From a table of distinct ids, whatever transactions the brokers and the workers run, in whatever order: an outbox row never
  -- disappears, its id and its task stay, its claim token never falls, a SENT, FAILED or SKIPPED row
  -- stays as it is in every column, and attempts within the limit (below it while
  -- the row is not settled) stay within it.
  pub Runs-Later :
      {db after : Database}
      → Distinct (outbox_ids db)
      → Runs limit db after
      → (k : ℕ) (r : OutboxRow) → find_outbox k db.outbox ≡ some r
      → (s : OutboxRow) × (find_outbox k after.outbox ≡ some s) × Later limit r s
  Runs-Later d runs = (Runs-Carries runs).at d
