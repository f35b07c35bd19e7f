-- ===== src/Broker/Outbox/Lifecycle/Lease.antt =====
-- The lease on an outbox row: a row is claimed once while its lease lasts, and what comes too late from
-- an earlier claim finds nothing to write.
use scenario_pipeliner.Base.{
  ℕ, ◌+◌, ◌*◌, ◌≤◌, ◌<◌, ◌≡◌, refl, ap, ◌∙◌, subst, inl, inr, Bool, true, false, some, List, [],
  ◌∷◌, map, arith, if◌then◌else◌, Bool-cases, any, contains,
}
use mathlib.Core.Option
use scenario_pipeliner.Table.{
  applied, update_where, update_where-none, select_where, find_key-update_where,
}
use scenario_pipeliner.Table.Keys.{Distinct, named_row, any_at_key}
use scenario_pipeliner.Text.{String}
use scenario_pipeliner.Db.Enums.{is_pending}
use scenario_pipeliner.Db.Tables.{minute, OutboxRow, Database}
use scenario_pipeliner.Db.Identity.{outbox_ids}
use scenario_pipeliner.Db.Tx.{Result, ok, err}
use scenario_pipeliner.Broker.Settings.{ReplyDraft}
use scenario_pipeliner.Broker.Outbox.{
  is_claimed, set_claimed, is_claimable, claim_pending_outbox, owned_processing, update_owned,
  mark_outbox_skipped, store_outbox_reply, mark_outbox_sent, mark_outbox_publish_failure,
}
use scenario_pipeliner.Broker.Outbox.Lifecycle.{outbox_key, find_outbox, claimed_claimable}
use scenario_pipeliner.Broker.Outbox.Lifecycle.Runs.{Runs, Runs-Carries}

-- An update of a row that has another token hits nothing.
not_owned :
    (k token : ℕ) (f : OutboxRow → OutboxRow) (db : Database)
    → Distinct (outbox_ids db)
    → (r : OutboxRow) → find_outbox k db.outbox ≡ some r
    → token < r.claim_token
    → update_owned k token f db ≡ (ok false, db)
unfolding update_owned
not_owned k token f db d r e h =
    let n : any (owned_processing k token) db.outbox ≡ false =
      any_at_key outbox_key (owned_processing k token) k (λ s o. ground arith) db.outbox d r e
        (ground arith) in
    rw (n, update_where-none (owned_processing k token) f db.outbox n) refl

module _ (limit : ℕ) (db after : Database) where
  -- Where outbox ids are distinct, a broker whose row was claimed again since, at a higher token, can write
  -- nothing to it: whatever broker and worker transactions run after that claim, each of its four updates answers `false` and leaves the database as it is.
  pub late_writes_are_lost :
      Distinct (outbox_ids db)
      → Runs limit db after
      → (k : ℕ) (r : OutboxRow) → find_outbox k db.outbox ≡ some r
      → (token : ℕ) → token < r.claim_token
      → (now : ℕ) (draft : ReplyDraft) (queues : List String) (error : String)
      → (mark_outbox_sent now k token after ≡ (ok false, after))
        × (mark_outbox_skipped now k token after ≡ (ok false, after))
        × (store_outbox_reply now k token draft queues after ≡ (ok false, after))
        × (mark_outbox_publish_failure now k token error limit after ≡ (ok false, after))
  unfolding mark_outbox_sent mark_outbox_skipped store_outbox_reply mark_outbox_publish_failure
  late_writes_are_lost d runs k r e token h now draft queues error =
      let carries = Runs-Carries limit runs in
      let (s, e', later) = carries.at d k r e in
      let h' : token < s.claim_token = omega (arith, later.token_grows, h) in
      let lost =
        λ (f : OutboxRow → OutboxRow). not_owned k token f after (carries.distinct d) s e' h' in
      (rw (lost _) refl, rw (lost _) refl, rw (lost _) refl, rw (lost _) refl)

abbrev pub claimed_rows : Result (List OutboxRow) × Database → List OutboxRow
claimed_rows (ok rows, db) = rows
claimed_rows (err e, db) = []

keys-map :
    (now : ℕ) (rows : List OutboxRow)
    → map outbox_key (map (set_claimed now) rows) ≡ map outbox_key rows
keys-map now [] = refl
keys-map now (r ∷ rows) = ap (λ l. r.id ∷ l) (keys-map now rows)

not_claimable_again :
    (now later minutes : ℕ) (s : OutboxRow)
    → later ≤ now + minute * minutes
    → is_pending s.status ≡ false
    → now ≤ s.updated_at
    → is_claimable later minutes s ≡ false
not_claimable_again now later minutes s h n b = ground arith

-- A claimed id names a row that the claim took.
claimed_row :
    (locked : ℕ → Bool) (now max_rows minutes : ℕ) (db : Database)
    → Distinct (outbox_ids db)
    → (k : ℕ)
    → contains k
        (map outbox_key (claimed_rows (claim_pending_outbox locked now max_rows minutes db)))
      ≡ true
    → (r : OutboxRow) × (find_outbox k db.outbox ≡ some r)
      × (is_claimed locked now max_rows minutes db.outbox r ≡ true)
unfolding claim_pending_outbox
claimed_row locked now max_rows minutes db d k e =
    let won = is_claimed locked now max_rows minutes db.outbox in
    named_row outbox_key won db.outbox d k
      (subst (λ l. contains k l ≡ true) (keys-map now (select_where won db.outbox)) e)

-- The row of an id that a claim returns has the time of the claim.
claimed_at :
    (locked : ℕ → Bool) (now max_rows minutes : ℕ) (db : Database)
    → Distinct (outbox_ids db)
    → (k : ℕ)
    → contains k
        (map outbox_key (claimed_rows (claim_pending_outbox locked now max_rows minutes db)))
      ≡ true
    → (r : OutboxRow)
    → find_outbox k (claim_pending_outbox locked now max_rows minutes db).1.outbox ≡ some r
    → now ≡ r.updated_at
unfolding claim_pending_outbox
claimed_at locked now max_rows minutes db d k e r f =
    let won = is_claimed locked now max_rows minutes db.outbox in
    let (r0, found, w) = claimed_row locked now max_rows minutes db d k e in
    let there : find_outbox k (update_where won (set_claimed now) db.outbox)
        ≡ some (set_claimed now r0) =
      find_key-update_where outbox_key won (set_claimed now) (λ _. refl) k db.outbox
      ∙ ap (Option.map (applied won (set_claimed now))) found
      ∙ ap (λ b. some (if b then set_claimed now r0 else r0)) w in
    let same : set_claimed now r0 ≡ r = cc in ap (λ (x : OutboxRow). x.updated_at) same

module _ (locked locked' : ℕ → Bool) (now later max_rows max_rows' minutes minutes' : ℕ)
    (db after : Database) where
  -- What one claim returns, no later claim returns while the lease of the later claim lasts, whatever
  -- was committed in between, its limit and the rows that are locked then: as long as outbox ids are
  -- distinct, the row is not PENDING then and its time of update was not set back.
  pub claimed_once :
      Distinct (outbox_ids db)
      → Distinct (outbox_ids after)
      → later ≤ now + minute * minutes'
      → (k : ℕ)
      → contains k
          (map outbox_key (claimed_rows (claim_pending_outbox locked now max_rows minutes db)))
        ≡ true
      → (r s : OutboxRow)
      → find_outbox k (claim_pending_outbox locked now max_rows minutes db).1.outbox ≡ some r
      → find_outbox k after.outbox ≡ some s
      → is_pending s.status ≡ false
      → r.updated_at ≤ s.updated_at
      → contains k (
          map outbox_key
            (claimed_rows (claim_pending_outbox locked' later max_rows' minutes' after)))
        ≡ false
  claimed_once d d' h k e r s f f' n b =
      elim (Bool-cases (
        contains k (
          map outbox_key
            (claimed_rows (claim_pending_outbox locked' later max_rows' minutes' after))))) [
              | inr gone ↦ gone
              | inl back ↦
                  let (s', found, won) =
                    claimed_row locked' later max_rows' minutes' after d' k back in
                  let same : s' ≡ s = cc in
                  let at = claimed_at locked now max_rows minutes db d k e r f in
                  let fresh : now ≤ s.updated_at = omega (arith, at, b) in
                  let idle = not_claimable_again now later minutes' s h n fresh in
                  let stale =
                    claimed_claimable locked' later max_rows' minutes' after.outbox d' k s' found
                      won in
                  let busy : is_claimable later minutes' s ≡ true =
                    subst (λ x. is_claimable later minutes' x ≡ true) same stale in
                  cc
            ]
