-- ===== src/Table.antt =====
-- Statements on a table, a list of rows in insertion order: `UPDATE … WHERE`, `SELECT … WHERE`,
-- `ORDER BY`, and a lookup by the key column. The statements are those that SQLAlchemy sends for
-- db/ and worker/; PostgreSQL's meaning of them is written out here.
pub mod Keys
use scenario_pipeliner.Base.{
  All, take, true, Bool-cases, inl, inr, zero, suc, ℕ, ◌≡◌, refl, Bool, false, any, ◌++◌, Option,
  none, some, List, [], ◌∷◌, arith, ◌==◌, if◌then◌else◌,
}
use mathlib.Core.Option

module _ {ℓ} {A : Type ℓ} where
  -- what an update makes of one row
  abbrev pub applied : (A → Bool) → (A → A) → A → A
  applied p f r = if p r then f r else r

  -- UPDATE … SET f WHERE p
  unfoldable pub update_where : (A → Bool) → (A → A) → List A → List A
  update_where p f [] = []
  update_where p f (r ∷ rows) = applied p f r ∷ update_where p f rows

  -- SELECT … WHERE p
  unfoldable pub select_where : (A → Bool) → List A → List A
  select_where p [] = []
  select_where p (r ∷ rows) = let rest = select_where p rows in if p r then r ∷ rest else rest

  -- ORDER BY: a stable insertion by `before`
  unfoldable pub insert_by : (A → A → Bool) → A → List A → List A
  insert_by before x [] = x ∷ []
  insert_by before x (y ∷ ys) =
      let rest = insert_by before x ys in if before y x then y ∷ rest else x ∷ y ∷ ys

  unfoldable pub order_by : (A → A → Bool) → List A → List A
  unfolding insert_by
  order_by before [] = []
  order_by before (x ∷ xs) = insert_by before x (order_by before xs)

  -- the row with primary key `k`
  unfoldable pub find_key : (A → ℕ) → ℕ → List A → Option A
  find_key key k [] = none
  find_key key k (r ∷ rows) = if key r == k then some r else find_key key k rows

module _ {ℓ} {A : Type ℓ} (key : A → ℕ) (p : A → Bool) (f : A → A) where
  -- An update that keeps the key acts on each row by itself.
  pub find_key-update_where :
      ((r : A) → key (f r) ≡ key r)
      → (k : ℕ) (rows : List A)
      → find_key key k (update_where p f rows) ≡ Option.map (applied p f) (find_key key k rows)
  unfolding find_key update_where
  find_key-update_where keeps k [] = refl
  find_key-update_where keeps k (r ∷ rows) =
      ground (arith, keeps r, find_key-update_where keeps k rows)

module _ {ℓ} {A : Type ℓ} (p : A → Bool) where
  -- An update that hits no row changes nothing.
  pub update_where-none :
      (f : A → A) (rows : List A) → any p rows ≡ false → update_where p f rows ≡ rows
  unfolding update_where
  update_where-none f [] h = refl
  update_where-none f (r ∷ rows) h = ground (arith, update_where-none f rows)

module _ {ℓ} {A : Type ℓ} (key : A → ℕ) where
  -- A row at the end of the table hides no other.
  pub find_key-append :
      (k : ℕ) (rows more : List A) (r : A)
      → find_key key k rows ≡ some r
      → find_key key k (rows ++ more) ≡ some r
  unfolding find_key
  find_key-append k [] more r h = cc
  find_key-append k (s ∷ rows) more r h = ground (arith, find_key-append k rows more r)

  -- The row that the key finds has that key.
  pub key-find_key : (k : ℕ) (rows : List A) (r : A) → find_key key k rows ≡ some r → key r ≡ k
  unfolding find_key
  key-find_key k [] r h = cc
  key-find_key k (s ∷ rows) r h = ground (arith, key-find_key k rows r)

module _ {ℓ κ} {A : Type ℓ} (P : A → Type κ) where
  All-insert_by :
      (before : A → A → Bool) (x : A) (xs : List A) → P x → All P xs → All P (insert_by before x xs)
  unfolding insert_by
  All-insert_by before x [] px h = (px, tt)
  All-insert_by before x (y ∷ ys) px h = elim (Bool-cases (before y x)) [
    | inl e ↦ rw e (h.0, All-insert_by before x ys px h.1)
    | inr e ↦ rw e (px, h)
  ]

  -- Sorting and cutting keep what holds of every row.
  pub All-order_by : (before : A → A → Bool) (xs : List A) → All P xs → All P (order_by before xs)
  unfolding order_by
  All-order_by before [] h = h
  All-order_by before (x ∷ xs) h =
      All-insert_by before x (order_by before xs) h.0 (All-order_by before xs h.1)

  pub All-take : (n : ℕ) (xs : List A) → All P xs → All P (take n xs)
  All-take zero xs h = tt
  All-take (suc n) [] h = h
  All-take (suc n) (x ∷ xs) h = (h.0, All-take n xs h.1)

module _ {ℓ} {A : Type ℓ} (p q : A → Bool) where
  -- Every selected row passes what the selection implies.
  pub All-select_where :
      ((t : A) → p t ≡ true → q t ≡ true)
      → (rows : List A) → All (λ t. q t ≡ true) (select_where p rows)
  unfolding select_where
  All-select_where h [] = tt
  All-select_where h (r ∷ rows) = elim (Bool-cases (p r)) [
    | inl e ↦ rw e (h r e, All-select_where h rows)
    | inr e ↦ rw e (All-select_where h rows)
  ]

module _ {ℓ} {A : Type ℓ} (key : A → ℕ) (p : A → Bool) where
  -- A row that the key finds and that passes the test is one that an update hits.
  pub any-find_key :
      (k : ℕ) (rows : List A) (r : A)
      → find_key key k rows ≡ some r
      → p r ≡ true
      → any p rows ≡ true
  unfolding find_key
  any-find_key k [] r e h = cc
  any-find_key k (s ∷ rows) r e h = elim (Bool-cases (key s == k)) [
    | inl q ↦
        let same : s ≡ r = (let f : some s ≡ some r = (rw (q, find_key) at e) in cc) in
        rw same (rw h)
    | inr q ↦
        let f : find_key key k rows ≡ some r = (rw (q, find_key) at e) in
        ground (arith, any-find_key k rows r f h)
  ]
