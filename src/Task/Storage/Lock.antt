-- ===== src/Task/Storage/Lock.antt =====
-- What lock_runnable_tasks hands to a worker, and what it never hands to two.
use scenario_pipeliner.Base.{
  ℕ, ◌+◌, ◌*◌, ◌≤◌, ◌≡◌, refl, ap, sym, ◌∙◌, ◌⊎◌, inl, inr, Bool, true, false, not, ◌&&◌, some,
  List, [], ◌∷◌, map, arith, ◌==◌, if◌then◌else◌, Bool-cases, contains, length, take, All,
  length-take-le, length-map, &&-true, eq_of_==, subst,
}
use mathlib.Core.Option
use scenario_pipeliner.Table.{
  applied, update_where, select_where, order_by, All-order_by, All-take, All-select_where, find_key,
  find_key-update_where, key-find_key,
}
use scenario_pipeliner.Db.Tables.{minute, TaskRow, Database}
use scenario_pipeliner.Table.Keys.{Distinct, named_row}
use scenario_pipeliner.Db.Enums.{is_new}
use scenario_pipeliner.Db.Tx.{Result, ok, err}
use scenario_pipeliner.Task.Machine.{task_key, find_task}
use scenario_pipeliner.Task.Storage.{
  last_seen, new_runnable, zombie, is_runnable, lock_candidates, set_queued, is_won,
  lock_runnable_tasks, by_id,
}

abbrev pub ids : List TaskRow → List ℕ
ids rows = map (λ (t : TaskRow). t.id) rows

-- `id` is the primary key
abbrev pub UniqueIds : List TaskRow → Type 0
UniqueIds [] = Unit {0}
UniqueIds (t ∷ rows) = (contains t.id (ids rows) ≡ false) × UniqueIds rows

unique_keys : (rows : List TaskRow) → UniqueIds rows → Distinct (map task_key rows)
unique_keys [] u = tt
unique_keys (r ∷ rows) u = (u.0, unique_keys rows u.1)

-- the rows that a call returns
abbrev pub locked_rows : (ℕ → Bool) → ℕ → ℕ → ℕ → Database → List TaskRow
locked_rows locked now limit zt db =
    map (set_queued now) (select_where (is_won locked now limit zt db) db.tasks)

-- A row that is not NEW, with a heartbeat at `now` or later, is not runnable until the zombie timeout has
-- passed.
not_runnable_again :
    (db : Database) (now later zt : ℕ) (s : TaskRow)
    → later ≤ now + minute * zt
    → is_new s.status ≡ false
    → now ≤ last_seen s
    → is_runnable db later zt s ≡ false
unfolding is_runnable new_runnable zombie
not_runnable_again db now later zt s h n b = ground arith

abbrev pub returned : Result (List TaskRow) × Database → List TaskRow
returned (ok rows, db) = rows
returned (err e, db) = []

ids-map : (now : ℕ) (rows : List TaskRow) → ids (map (set_queued now) rows) ≡ ids rows
ids-map now [] = refl
ids-map now (r ∷ rows) = ap (λ l. r.id ∷ l) (ids-map now rows)

-- A returned id names a row that was runnable.
returned_row :
    (locked : ℕ → Bool) (now limit zt : ℕ) (db : Database)
    → UniqueIds db.tasks
    → (k : ℕ) → contains k (ids (returned (lock_runnable_tasks locked now limit zt db))) ≡ true
    → (r : TaskRow) × (find_task k db.tasks ≡ some r) × (is_won locked now limit zt db r ≡ true)
unfolding lock_runnable_tasks
returned_row locked now limit zt db u k e =
    let won = is_won locked now limit zt db in
    named_row task_key won db.tasks (unique_keys db.tasks u) k
      (subst (λ l. contains k l ≡ true) (ids-map now (select_where won db.tasks)) e)

-- The row of an id that is returned has the heartbeat of the call.
locked_row :
    (locked : ℕ → Bool) (now limit zt : ℕ) (db : Database)
    → UniqueIds db.tasks
    → (k : ℕ) → contains k (ids (returned (lock_runnable_tasks locked now limit zt db))) ≡ true
    → (r : TaskRow) → find_task k (lock_runnable_tasks locked now limit zt db).1.tasks ≡ some r
    → now ≡ last_seen r
unfolding lock_runnable_tasks
locked_row locked now limit zt db u k e r f =
    let won = is_won locked now limit zt db in
    let (r0, found, w) = returned_row locked now limit zt db u k e in
    let there : find_task k (update_where won (set_queued now) db.tasks)
        ≡ some (set_queued now r0) =
      find_key-update_where task_key won (set_queued now) (λ _. refl) k db.tasks
      ∙ ap (Option.map (applied won (set_queued now))) found
      ∙ ap (λ b. some (if b then set_queued now r0 else r0)) w in
    let same : set_queued now r0 ≡ r = cc in ap last_seen same

module _ (locked locked' : ℕ → Bool) (now later limit limit' zt zt' : ℕ) (db after : Database) where
  -- What one call locks, no later call returns before the zombie timeout of the later call has passed,
  -- whatever was committed in between, its limit and the rows that are locked then: as long as task
  -- ids are unique, the row is not NEW then and its heartbeat was not set back.
  pub locked_once :
      UniqueIds db.tasks
      → UniqueIds after.tasks
      → later ≤ now + minute * zt'
      → (k : ℕ) → contains k (ids (returned (lock_runnable_tasks locked now limit zt db))) ≡ true
      → (r s : TaskRow) → find_task k (lock_runnable_tasks locked now limit zt db).1.tasks ≡ some r
      → find_task k after.tasks ≡ some s
      → is_new s.status ≡ false
      → last_seen r ≤ last_seen s
      → contains k (ids (returned (lock_runnable_tasks locked' later limit' zt' after))) ≡ false
  locked_once u u' h k e r s f f' n b =
      elim (Bool-cases
        (contains k (ids (returned (lock_runnable_tasks locked' later limit' zt' after))))) [
          | inr gone ↦ gone
          | inl back ↦
              let (s', found, won) = returned_row locked' later limit' zt' after u' k back in
              let same : s' ≡ s = cc in
              let at = locked_row locked now limit zt db u k e r f in
              let seen : now ≤ last_seen s = omega (arith, at, b) in
              let runnable = (&&-true _ (is_runnable after later zt' s') won).1 in
              let idle = not_runnable_again after now later zt' s h n seen in
              let busy : is_runnable after later zt' s ≡ true =
                subst (λ x. is_runnable after later zt' x ≡ true) same runnable in
              cc
        ]

-- every row of the list passes the test
abbrev pub AllRows : (TaskRow → Bool) → List TaskRow → Type 0
AllRows p = All (λ t. p t ≡ true)

-- takes one occurrence of a key off a list
drop_key : ℕ → List ℕ → List ℕ
drop_key k [] = []
drop_key k (x ∷ xs) = if k == x then xs else x ∷ drop_key k xs

length-drop_key :
    (k : ℕ) (xs : List ℕ) → contains k xs ≡ true → length (drop_key k xs) + 1 ≡ length xs
unfolding drop_key
length-drop_key k [] h = cc
length-drop_key k (x ∷ xs) h = ground (arith, length-drop_key k xs)

contains-drop_key :
    (j k : ℕ) (xs : List ℕ) → (j == k) ≡ false → contains j (drop_key k xs) ≡ contains j xs
unfolding drop_key
contains-drop_key j k [] h = refl
contains-drop_key j k (x ∷ xs) h = ground (arith, contains-drop_key j k xs)

-- The selection does not read a key that no row has.
select-drop_key :
    (p : TaskRow → Bool) (k : ℕ) (keys : List ℕ) (rows : List TaskRow)
    → contains k (ids rows) ≡ false
    → select_where (λ t. contains t.id keys && p t) rows
      ≡ select_where (λ t. contains t.id (drop_key k keys) && p t) rows
unfolding select_where
select-drop_key p k keys [] h = refl
select-drop_key p k keys (r ∷ rows) h =
    ground (arith, contains-drop_key r.id k keys, select-drop_key p k keys rows)

-- Among rows with unique ids, no more are selected than there are keys.
pub length-select-le :
    (p : TaskRow → Bool) (keys : List ℕ) (rows : List TaskRow)
    → UniqueIds rows
    → length (select_where (λ t. contains t.id keys && p t) rows) ≤ length keys
unfolding select_where
length-select-le p keys [] u = omega arith
length-select-le p keys (r ∷ rows) u = ground (
  arith,
  select-drop_key p r.id keys rows,
  length-drop_key r.id keys,
  length-select-le p keys rows,
  length-select-le p (drop_key r.id keys) rows,
)

module _ (locked : ℕ → Bool) (now limit zt : ℕ) (db : Database) where
  abbrev free : TaskRow → Bool
  free t = not (locked t.id)

  abbrev candidates : List TaskRow
  candidates =
      take limit (order_by by_id (select_where (λ t. is_runnable db now zt t && free t) db.tasks))

  unlocked_only :
      (rows : List TaskRow) (k : ℕ)
      → AllRows free rows
      → locked k ≡ true
      → contains k (ids rows) ≡ false
  unlocked_only [] k h e = refl
  unlocked_only (r ∷ rows) k h e = elim (Bool-cases (k == r.id)) [
    | inl q ↦ ground (arith, h.0, subst (λ n. locked n ≡ true) (eq_of_== k r.id q) e)
    | inr q ↦ rw q (unlocked_only rows k h.1 e)
  ]

  -- A row that another transaction holds is no candidate.
  candidates_free :
      (k : ℕ) → locked k ≡ true → contains k (lock_candidates locked now limit zt db) ≡ false
  unfolding lock_candidates
  candidates_free k e =
      unlocked_only candidates k
        (All-take (λ t. free t ≡ true) limit _
          (All-order_by (λ t. free t ≡ true) by_id _
            (All-select_where (λ t. is_runnable db now zt t && free t) free
              (λ t h. (&&-true (is_runnable db now zt t) (free t) h).1) db.tasks)))
        e

  length-candidates : length (lock_candidates locked now limit zt db) ≤ limit
  unfolding lock_candidates
  length-candidates = omega (
    arith,
    length-map (λ (t : TaskRow). t.id) candidates,
    length-take-le limit
        (order_by by_id (select_where (λ t. is_runnable db now zt t && free t) db.tasks)),
  )

  -- Where task ids are unique, at most `limit` rows come back.
  pub lock_within_limit :
      UniqueIds db.tasks → length (returned (lock_runnable_tasks locked now limit zt db)) ≤ limit
  unfolding lock_runnable_tasks
  lock_within_limit u = omega (
    arith,
    length-map (set_queued now) (select_where (is_won locked now limit zt db) db.tasks),
    length-select-le (is_runnable db now zt) (lock_candidates locked now limit zt db) db.tasks u,
    length-candidates,
  )

  not_won :
      (k : ℕ) (r : TaskRow)
      → r.id ≡ k
      → (is_runnable db now zt r ≡ false) ⊎ (locked k ≡ true)
      → is_won locked now limit zt db r ≡ false
  not_won k r i (inl n) = ground arith
  not_won k r i (inr l) =
      ground (arith, candidates_free r.id (subst (λ n. locked n ≡ true) (sym i) l))

  -- A row that is not runnable, or that another transaction holds, stays as it is.
  pub lock_leaves :
      (k : ℕ) (r : TaskRow)
      → find_key (λ (t : TaskRow). t.id) k db.tasks ≡ some r
      → (is_runnable db now zt r ≡ false) ⊎ (locked k ≡ true)
      → find_key (λ (t : TaskRow). t.id) k (lock_runnable_tasks locked now limit zt db).1.tasks
        ≡ some r
  unfolding lock_runnable_tasks
  lock_leaves k r e h =
      let won = is_won locked now limit zt db in
      find_key-update_where (λ (t : TaskRow). t.id) won (set_queued now) (λ _. refl) k db.tasks
      ∙ ap (Option.map (applied won (set_queued now))) e
      ∙ ap (λ b. some (if b then set_queued now r else r))
          (not_won k r (key-find_key (λ (t : TaskRow). t.id) k db.tasks r e) h)
