-- ===== src/Broker/Outbox/Lifecycle.antt =====
-- worker/broker/storage.py: what every transaction on the outbox does to the rows that are there. A claim
-- token only grows, a SENT, FAILED or SKIPPED row stays as it is, and attempts stay below the limit.
pub mod Runs
pub mod Lease
use scenario_pipeliner.Base.{
  ℕ, suc, ◌+◌, ◌≤◌, ◌<◌, ◌≡◌, refl, ap, sym, inl, inr, Bool, true, false, not, ◌&&◌, ◌||◌, Option,
  none, some, List, [], ◌∷◌, ◌++◌, map, arith, leb, ltb, ◌∙◌, ◌==◌, if◌then◌else◌, Bool-cases,
  contains, any, subst, &&-true,
}
use mathlib.Core.Option
use scenario_pipeliner.Table.{
  applied, update_where, select_where, order_by, find_key, find_key-update_where, find_key-append,
  key-find_key, All-order_by, All-take,
}
use scenario_pipeliner.Table.Keys.{
  Distinct, Distinct-append, map-append, keys-update_where, Chosen, passes_where, All-Chosen,
}
use scenario_pipeliner.Text.{String}
use scenario_pipeliner.Db.Enums.{
  BrokerOutboxStatus, pending, processing, sent, failed, skipped, is_pending, is_processing,
}
use scenario_pipeliner.Db.Tables.{OutboxRow, Database}
use scenario_pipeliner.Db.Identity.{outbox_ids}
use scenario_pipeliner.Broker.Outbox.{
  first_created, is_claimable, is_claimed, set_claimed, claim_candidates, owned_processing,
}

-- SENT, FAILED or SKIPPED
abbrev pub is_settled : BrokerOutboxStatus → Bool
is_settled s = not (is_pending s) && not (is_processing s)

-- at most `limit` attempts, and fewer while the row is not settled
abbrev pub within : ℕ → OutboxRow → Bool
within limit r =
    if is_settled r.status then leb r.attempt_count limit else leb (r.attempt_count + 1) limit

-- what a later moment may make of a row
pub record Later (limit : ℕ) (r s : OutboxRow) : Type 0 where
  pub same_id : s.id ≡ r.id
  pub same_task : s.task_id ≡ r.task_id
  pub token_grows : r.claim_token ≤ s.claim_token
  pub settled_stays : is_settled r.status ≡ true → s ≡ r
  pub stays_within : within limit r ≡ true → within limit s ≡ true

abbrev pub outbox_key : OutboxRow → ℕ
outbox_key o = o.id

abbrev pub find_outbox : ℕ → List OutboxRow → Option OutboxRow
find_outbox = find_key outbox_key

-- every row is still there, at a later moment, and ids stay distinct
pub record Carries (limit : ℕ) (rows rows' : List OutboxRow) : Type 0 where
  pub at :
      Distinct (map outbox_key rows)
      → (k : ℕ) (r : OutboxRow) → find_outbox k rows ≡ some r
      → (s : OutboxRow) × (find_outbox k rows' ≡ some s) × Later limit r s
  pub distinct : Distinct (map outbox_key rows) → Distinct (map outbox_key rows')

module _ (limit : ℕ) where
  pub Later-refl : (r : OutboxRow) → Later limit r r
  Later-refl r = record {
    same_id = refl;
    same_task = refl;
    token_grows = omega arith;
    settled_stays = λ _. refl;
    stays_within = λ h. h;
  }

  pub Later-trans : {r s t : OutboxRow} → Later limit r s → Later limit s t → Later limit r t
  Later-trans {r} {s} {t} a b = record {
    same_id = b.same_id ∙ a.same_id;
    same_task = b.same_task ∙ a.same_task;
    token_grows = omega (arith, a.token_grows, b.token_grows);
    settled_stays = λ h.
        b.settled_stays (ap (λ (x : OutboxRow). is_settled x.status) (a.settled_stays h) ∙ h)
        ∙ a.settled_stays h;
    stays_within = λ h. b.stays_within (a.stays_within h);
  }

  pub Carries-refl : (rows : List OutboxRow) → Carries limit rows rows
  Carries-refl rows = record { at = λ d k r e. (r, e, Later-refl r); distinct = λ d. d }

  pub Carries-trans :
      {a b c : List OutboxRow} → Carries limit a b → Carries limit b c → Carries limit a c
  Carries-trans f g = record {
    at = λ d k r e.
        (let (s, e', l) = f.at d k r e in
          let (t, e'', m) = g.at (f.distinct d) k s e' in (t, e'', Later-trans l m));
    distinct = λ d. g.distinct (f.distinct d);
  }

  Later-applied :
      (p : OutboxRow → Bool) (f : OutboxRow → OutboxRow) (r : OutboxRow)
      → (p r ≡ true → Later limit r (f r))
      → (b : Bool) → p r ≡ b
      → Later limit r (if b then f r else r)
  Later-applied p f r h true e = h e
  Later-applied p f r h false e = Later-refl r

  -- An update carries the rows if it makes a later moment of each row that it hits.
  pub Carries-update :
      (p : OutboxRow → Bool) (f : OutboxRow → OutboxRow) (rows : List OutboxRow)
      → ((r : OutboxRow) → (f r).id ≡ r.id)
      → (Distinct (map outbox_key rows)
          → (k : ℕ) (r : OutboxRow) → find_outbox k rows ≡ some r
          → p r ≡ true
          → Later limit r (f r))
      → Carries limit rows (update_where p f rows)
  Carries-update p f rows keeps h = record {
    at = λ d k r e. (
      applied p f r,
      find_key-update_where outbox_key p f keeps k rows ∙ ap (Option.map (applied p f)) e,
      Later-applied p f r (h d k r e) (p r) refl,
    );
    distinct = λ d. subst Distinct (sym (keys-update_where outbox_key p f keeps rows)) d;
  }

  pub Carries-append :
      (rows : List OutboxRow) (row : OutboxRow)
      → contains row.id (map outbox_key rows) ≡ false
      → Carries limit rows (rows ++ row ∷ [])
  Carries-append rows row fresh = record {
    at = λ d k r e. (r, find_key-append outbox_key k rows (row ∷ []) r e, Later-refl r);
    distinct = λ d.
        subst Distinct (sym (map-append outbox_key rows row))
          (Distinct-append (map outbox_key rows) row.id d fresh);
  }

-- An owner's update moves a row that is PROCESSING.
pub Carries-owned :
    (limit id token : ℕ) (f : OutboxRow → OutboxRow)
    → ((r : OutboxRow) → (f r).id ≡ r.id)
    → ((r : OutboxRow) → is_processing r.status ≡ true → Later limit r (f r))
    → (rows : List OutboxRow) → Carries limit rows (update_where (owned_processing id token) f rows)
Carries-owned limit id token f keeps h rows =
    Carries-update limit (owned_processing id token) f rows keeps (λ d k r e o. h r (ground arith))

-- A claim hits claimable rows only.
pub claimed_claimable :
    (locked : ℕ → Bool) (now limit minutes : ℕ) (rows : List OutboxRow)
    → Distinct (map outbox_key rows)
    → (k : ℕ) (r : OutboxRow) → find_outbox k rows ≡ some r
    → is_claimed locked now limit minutes rows r ≡ true
    → is_claimable now minutes r ≡ true
unfolding claim_candidates
claimed_claimable locked now limit minutes rows d k r e h =
    let p : OutboxRow → Bool = λ o. is_claimable now minutes o && not (locked o.id) in
    let chosen : p r ≡ true =
      passes_where outbox_key p rows (claim_candidates locked now limit minutes rows)
        (All-take (Chosen outbox_key p rows) limit _ (
          All-order_by (Chosen outbox_key p rows) first_created _ (All-Chosen outbox_key p rows d)))
        k r e
        (subst
          (λ j. contains j (map outbox_key (claim_candidates locked now limit minutes rows)) ≡ true)
          (key-find_key outbox_key k rows r e) h) in
    (&&-true (is_claimable now minutes r) (not (locked r.id)) chosen).0

pub Carries-claim :
    (attempts : ℕ) (locked : ℕ → Bool) (now limit minutes : ℕ) (rows : List OutboxRow)
    → Carries attempts rows
        (update_where (is_claimed locked now limit minutes rows) (set_claimed now) rows)
Carries-claim attempts locked now limit minutes rows =
    Carries-update attempts (is_claimed locked now limit minutes rows) (set_claimed now) rows
      (λ _. refl)
      (λ d k r e h.
        let c = claimed_claimable locked now limit minutes rows d k r e h in
        record {
          same_id = refl;
          same_task = refl;
          token_grows = omega arith;
          settled_stays = λ s. ground arith;
          stays_within = λ w. ground arith;
        })
