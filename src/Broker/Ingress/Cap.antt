-- ===== src/Broker/Ingress/Cap.antt =====
-- How often a message comes back that process_ingress_message never accepts. A handler that takes too long
-- is not part of it: runner.py requeues its message without the cap.
use scenario_pipeliner.Base.{
  ℕ, zero, suc, ◌+◌, ◌-◌, ◌<◌, ◌≡◌, refl, ap, ◌∙◌, ◌⊎◌, inl, inr, Bool, true, false, Option, none,
  some, List, arith, leb, if◌then◌else◌, not,
}
use scenario_pipeliner.Text.{String}
use scenario_pipeliner.Json.{Json}
use scenario_pipeliner.Db.Tables.{Database}
use scenario_pipeliner.Db.Tx.{Exc, ingress_reject, duplicate_broker_message, Result, ok, err, Tx}
use scenario_pipeliner.Task.State.{TaskPayload}
use scenario_pipeliner.Broker.Settings.{BrokerMessageMeta, TaskDraft}
use scenario_pipeliner.Broker.Delivery.{
  counted_delivery_attempt, ingress_delivery_attempt, requeue_within_cap,
}
use scenario_pipeliner.Broker.Ingress.{
  Signal, ack, nack, Digests, enriched, message_of, answer_insert, answer_hook,
  insert_linear_task_with_ingress, process_ingress_message,
}

abbrev is_reject : Exc → Bool
is_reject ingress_reject = true
is_reject _ = false

abbrev is_duplicate : Exc → Bool
is_duplicate (duplicate_broker_message _) = true
is_duplicate _ = false

requeue_uncounted :
    (meta : BrokerMessageMeta) (retries : ℕ) (b : Bool)
    → counted_delivery_attempt meta ≡ none
    → meta.redelivered ≡ b
    → requeue_within_cap meta retries ≡ (if leb retries (if b then 2 else 1) then false else not b)
unfolding requeue_within_cap ingress_delivery_attempt
requeue_uncounted meta retries b e r = rw e (ground (arith, r))

-- what the queue does: the next delivery of a message after a signal, if there is one
abbrev again : Signal → ℕ → ℕ
again ack more = 1
again (nack true) more = suc more
again (nack false) more = 1

-- A message `raw`: its n-th delivery is handled at `clock n`, finds the database `world n`, and
-- `meanwhile n` commits while it is inserted. `redeliver` is the delivery after a requeue.
module _ (digests : Digests) (dump_payload : TaskPayload → Json)
    (on_ingress : List ℕ → BrokerMessageMeta → Tx (Option TaskDraft)) (plugin_name : String)
    (retries : ℕ) (clock : ℕ → ℕ) (world : ℕ → Database) (meanwhile : ℕ → Database → Database)
    (raw : List ℕ) (redeliver : BrokerMessageMeta → BrokerMessageMeta) where
  abbrev hooked : ℕ → BrokerMessageMeta → Result (Option TaskDraft) × Database
  hooked n meta =
      on_ingress raw (enriched digests dump_payload on_ingress plugin_name retries raw meta)
        (world n)

  abbrev insert : ℕ → BrokerMessageMeta → TaskDraft → Database → Result ℕ × Database
  insert n meta draft =
      insert_linear_task_with_ingress dump_payload (clock n)
        (message_of digests dump_payload on_ingress plugin_name retries raw meta draft)
        (meanwhile n)

  -- the n-th delivery fails: the hook raises something else than IngressReject, or the insert raises
  -- something else than DuplicateBrokerMessage
  abbrev pub Fails : ℕ → BrokerMessageMeta → Type 0
  Fails n meta =
      ((e : Exc) × (db : Database) × (hooked n meta ≡ (err e, db)) × (is_reject e ≡ false))
      ⊎ ((draft : TaskDraft) × (db after : Database) × (e : Exc) × (hooked n meta
            ≡ (ok (some draft), db))
          × (insert n meta draft db ≡ (err e, after))
          × (is_duplicate e ≡ false))

  -- how often the message is delivered, from its n-th delivery on
  unfoldable pub deliveries : ℕ → ℕ → BrokerMessageMeta → ℕ
  unfolding process_ingress_message
  deliveries zero n meta = 0
  deliveries (suc fuel) n meta =
      let more = deliveries fuel (n + 1) (redeliver meta) in
      again
        (process_ingress_message digests dump_payload on_ingress plugin_name retries (clock n)
          (meanwhile n) raw meta (world n)).0.1
        more

  hook_raised :
      (n : ℕ) (meta : BrokerMessageMeta) (e : Exc) (db : Database)
      → is_reject e ≡ false
      → (answer_hook digests dump_payload on_ingress plugin_name retries
          (clock n)
          (meanwhile n)
          raw
          meta
          (err e, db)).0.1
        ≡ nack (requeue_within_cap meta retries)
  hook_raised n meta ingress_reject db h = cc
  hook_raised n meta _ db h = refl

  insert_raised :
      (meta : BrokerMessageMeta) (e : Exc) (db : Database)
      → is_duplicate e ≡ false
      → (answer_insert digests dump_payload on_ingress plugin_name retries meta (err e, db)).0.1
        ≡ nack (requeue_within_cap meta retries)
  insert_raised meta (duplicate_broker_message _) db h = cc
  insert_raised meta _ db h = refl

  -- A delivery that fails is answered with a nack, within the cap.
  failed_signal :
      (n : ℕ) (meta : BrokerMessageMeta)
      → Fails n meta
      → (process_ingress_message digests dump_payload on_ingress plugin_name retries
          (clock n)
          (meanwhile n)
          raw
          meta
          (world n)).0.1
        ≡ nack (requeue_within_cap meta retries)
  unfolding process_ingress_message
  failed_signal n meta (inl (e, db, raised, h)) = rw raised (hook_raised n meta e db h)
  failed_signal n meta (inr (draft, db, after, e, drafted, raised, h)) =
      rw (drafted, raised) (insert_raised meta e after h)

  -- one delivery that fails
  next_delivery :
      (fuel n : ℕ) (meta : BrokerMessageMeta) (requeue : Bool)
      → Fails n meta
      → requeue_within_cap meta retries ≡ requeue
      → deliveries (suc fuel) n meta
        ≡ (if requeue then suc (deliveries fuel (n + 1) (redeliver meta)) else 1)
  unfolding deliveries
  next_delivery fuel n meta true f r =
      ap (λ s. again s (deliveries fuel (n + 1) (redeliver meta)))
        (failed_signal n meta f ∙ ap nack r)
  next_delivery fuel n meta false f r =
      ap (λ s. again s (deliveries fuel (n + 1) (redeliver meta)))
        (failed_signal n meta f ∙ ap nack r)

  -- A queue that counts deliveries, the next count one higher each time: a message whose hook raises, but
  -- not IngressReject, or whose insert raises, but not DuplicateBrokerMessage, at every delivery is
  -- delivered until its attempt reaches the limit, then dropped. Fuel for the attempts that are left
  -- is enough.
  pub counted_deliveries :
      ((n : ℕ) (m : BrokerMessageMeta) → Fails n m)
      → ((m : BrokerMessageMeta) (attempt : ℕ)
          → counted_delivery_attempt m ≡ some attempt
          → counted_delivery_attempt (redeliver m) ≡ some (attempt + 1))
      → (fuel n attempt : ℕ) (meta : BrokerMessageMeta)
      → counted_delivery_attempt meta ≡ some attempt
      → retries - attempt < fuel
      → deliveries fuel n meta ≡ suc (retries - attempt)
  unfolding requeue_within_cap ingress_delivery_attempt
  counted_deliveries fails counts zero n attempt meta e h = omega (arith, h)
  counted_deliveries fails counts (suc fuel) n attempt meta e h =
      let ih =
        counted_deliveries fails counts fuel (n + 1) (attempt + 1) (redeliver meta)
          (counts meta attempt e) in
      let step = next_delivery fuel n meta (requeue_within_cap meta retries) (fails n meta) refl in
      let cap : requeue_within_cap meta retries ≡ (if leb retries attempt then false else true) =
        rw e (ground arith) in
      step ∙ rw cap (ground (arith, ih))

  -- A queue without counts, which sets `redelivered`: such a message is delivered once more where the
  -- limit is above one attempt, then dropped.
  pub classic_deliveries :
      ((n : ℕ) (m : BrokerMessageMeta) → Fails n m)
      → ((m : BrokerMessageMeta)
          → counted_delivery_attempt m ≡ none
          → (counted_delivery_attempt (redeliver m) ≡ none) × ((redeliver m).redelivered ≡ true))
      → (fuel n : ℕ) (meta : BrokerMessageMeta) → counted_delivery_attempt meta ≡ none
      → meta.redelivered ≡ false
      → deliveries (suc (suc fuel)) n meta ≡ (if leb retries 1 then 1 else 2)
  classic_deliveries fails flags fuel n meta e r =
      let (e', r') = flags meta e in
      let first =
        next_delivery (suc fuel) n meta _ (fails n meta)
          (requeue_uncounted meta retries false e r) in
      let second =
        next_delivery fuel (n + 1) (redeliver meta) _ (fails (n + 1) (redeliver meta))
          (requeue_uncounted (redeliver meta) retries true e' r') in
      first ∙ rw second (ground arith)
