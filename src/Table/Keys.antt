-- ===== src/Table/Keys.antt =====
-- Tables with a primary key: what an update leaves of the keys, and which row a selected key names.
use scenario_pipeliner.Base.{
  ℕ, ◌≡◌, subst, sym, refl, ap, inl, inr, Bool, true, false, some, List, [], ◌∷◌, ◌++◌, map, arith,
  ◌==◌, Bool-cases, contains, any, All, eq_of_==, ==_self,
}
use scenario_pipeliner.Table.{update_where, select_where, find_key}

abbrev pub Distinct : List ℕ → Type 0
Distinct [] = Unit {0}
Distinct (k ∷ ks) = (contains k ks ≡ false) × Distinct ks

contains-append :
    (k j : ℕ) (ks : List ℕ)
    → contains k ks ≡ false
    → (k == j) ≡ false
    → contains k (ks ++ j ∷ []) ≡ false
contains-append k j [] h e = rw e refl
contains-append k j (x ∷ ks) h e = ground (arith, contains-append k j ks)

pub Distinct-append :
    (ks : List ℕ) (j : ℕ) → Distinct ks → contains j ks ≡ false → Distinct (ks ++ j ∷ [])
Distinct-append [] j d h = (refl, tt)
Distinct-append (k ∷ ks) j d h =
    (contains-append k j ks d.0 (ground arith), Distinct-append ks j d.1 (ground arith))

module _ {ℓ} {A : Type ℓ} (key : A → ℕ) where
  pub map-append : (rows : List A) (r : A) → map key (rows ++ r ∷ []) ≡ map key rows ++ key r ∷ []
  map-append [] r = refl
  map-append (s ∷ rows) r = ap (λ l. key s ∷ l) (map-append rows r)

  pub keys-update_where :
      (p : A → Bool) (f : A → A)
      → ((r : A) → key (f r) ≡ key r)
      → (rows : List A) → map key (update_where p f rows) ≡ map key rows
  unfolding update_where
  keys-update_where p f keeps [] = refl
  keys-update_where p f keeps (r ∷ rows) = ground (arith, keeps r, keys-update_where p f keeps rows)

  -- the row of the table that has the key of `t` is `t`
  abbrev pub Named : List A → A → Type ℓ
  Named rows t = find_key key (key t) rows ≡ some t

  contains-find_key :
      (k : ℕ) (rows : List A) (t : A)
      → find_key key k rows ≡ some t
      → contains k (map key rows) ≡ true
  unfolding find_key
  contains-find_key k [] t e = cc
  contains-find_key k (r ∷ rows) t e = ground (arith, contains-find_key k rows t)

  Named-cons :
      (r t : A) (rows : List A)
      → contains (key r) (map key rows) ≡ false
      → Named rows t
      → Named (r ∷ rows) t
  unfolding find_key
  Named-cons r t rows h n = elim (Bool-cases (key r == key t)) [
    | inr e ↦ rw e n
    | inl e ↦
        let c : contains (key r) (map key rows) ≡ true =
          subst (λ k. contains k (map key rows) ≡ true) (sym (eq_of_== (key r) (key t) e))
            (contains-find_key (key t) rows t n) in
        cc
  ]

  Named-head : (r : A) (rows : List A) → Named (r ∷ rows) r
  unfolding find_key
  Named-head r rows = rw (==_self (key r)) refl

  All-Named-cons :
      (r : A) (rows more : List A)
      → contains (key r) (map key rows) ≡ false
      → All (Named rows) more
      → All (Named (r ∷ rows)) more
  All-Named-cons r rows [] h a = tt
  All-Named-cons r rows (t ∷ more) h a =
      (Named-cons r t rows h a.0, All-Named-cons r rows more h a.1)

  All-Named : (rows : List A) → Distinct (map key rows) → All (Named rows) rows
  All-Named [] d = tt
  All-Named (r ∷ rows) d = (Named-head r rows, All-Named-cons r rows rows d.0 (All-Named rows d.1))

  module _ (p : A → Bool) (all : List A) where
    -- the row that the table holds under the key of `t` is `t`, and `t` passes the test
    abbrev pub Chosen : A → Type ℓ
    Chosen t = Named all t × (p t ≡ true)

    Chosen-where : (rows : List A) → All (Named all) rows → All Chosen (select_where p rows)
    unfolding select_where
    Chosen-where [] a = tt
    Chosen-where (r ∷ rows) a = elim (Bool-cases (p r)) [
      | inl e ↦ rw e ((a.0, e), Chosen-where rows a.1)
      | inr e ↦ rw e (Chosen-where rows a.1)
    ]

    -- A key among the chosen rows names a row of the table that passes the test.
    pub passes_where :
        (chosen : List A)
        → All Chosen chosen
        → (k : ℕ) (r : A) → find_key key k all ≡ some r
        → contains k (map key chosen) ≡ true
        → p r ≡ true
    passes_where [] a k r e h = cc
    passes_where (t ∷ chosen) a k r e h = elim (Bool-cases (k == key t)) [
      | inr q ↦ passes_where chosen a.1 k r e (ground arith)
      | inl q ↦
          let n : find_key key k all ≡ some t =
            subst (λ j. find_key key j all ≡ some t) (sym (eq_of_== k (key t) q)) a.0.0 in
          let passes : p t ≡ true = a.0.1 in
          let same : t ≡ r = cc in subst (λ x. p x ≡ true) same passes
    ]

    pub All-Chosen : Distinct (map key all) → All Chosen (select_where p all)
    All-Chosen d = Chosen-where all (All-Named all d)

    named_row_in :
        (chosen : List A)
        → All Chosen chosen
        → (k : ℕ) → contains k (map key chosen) ≡ true
        → (r : A) × (find_key key k all ≡ some r) × (p r ≡ true)
    named_row_in [] a k h = cc
    named_row_in (t ∷ chosen) a k h = elim (Bool-cases (k == key t)) [
      | inr q ↦ named_row_in chosen a.1 k (ground arith)
      | inl q ↦
          (t, subst (λ j. find_key key j all ≡ some t) (sym (eq_of_== k (key t) q)) a.0.0, a.0.1)
    ]

    -- A key among the selected rows is the key of a row that passes the test.
    pub named_row :
        Distinct (map key all)
        → (k : ℕ) → contains k (map key (select_where p all)) ≡ true
        → (r : A) × (find_key key k all ≡ some r) × (p r ≡ true)
    named_row d = named_row_in (select_where p all) (All-Chosen d)

  any-selected :
      (p : A → Bool) (k : ℕ)
      → ((r : A) → p r ≡ true → key r ≡ k)
      → (rows : List A) → any p rows ≡ true
      → contains k (map key (select_where p rows)) ≡ true
  unfolding select_where
  any-selected p k only [] h = cc
  any-selected p k only (r ∷ rows) h = elim (Bool-cases (p r)) [
    | inl e ↦ rw (e, only r e, ==_self k) refl
    | inr e ↦ rw e (any-selected p k only rows (ground arith))
  ]

  any-exists :
      (p : A → Bool) (k : ℕ)
      → ((r : A) → p r ≡ true → key r ≡ k)
      → (rows : List A) → Distinct (map key rows)
      → any p rows ≡ true
      → (r : A) × (find_key key k rows ≡ some r) × (p r ≡ true)
  any-exists p k only rows d h = named_row p rows d k (any-selected p k only rows h)

  -- A test that only rows with the key `k` pass fails on the table if it fails on that row.
  pub any_at_key :
      (p : A → Bool) (k : ℕ)
      → ((r : A) → p r ≡ true → key r ≡ k)
      → (rows : List A) → Distinct (map key rows)
      → (s : A) → find_key key k rows ≡ some s
      → p s ≡ false
      → any p rows ≡ false
  unfolding find_key
  any_at_key p k only rows d s e h = elim (Bool-cases (any p rows)) [
    | inr n ↦ n
    | inl y ↦ let (r, f, q) = any-exists p k only rows d y in cc
  ]
