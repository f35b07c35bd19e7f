-- ===== src/Plugins/Sql/Laws.antt =====
-- The splitter of a plugin's SQL ends, and what it gives are statements.
use scenario_pipeliner.Base.{
  ℕ, zero, suc, ◌≤◌, ◌<◌, ◌≡◌, refl, ap, ◌∙◌, subst, inl, inr, Bool, true, false, not, ◌&&◌, ◌||◌,
  ◌==◌, Option, none, some, List, [], ◌∷◌, if◌then◌else◌, arith, All, Bool-cases, Option-cases,
}
use Prim.Native.Char.{Char, code}
use scenario_pipeliner.Text.{String, concat, strip, trim_left, is_space, is_empty}
use scenario_pipeliner.Text.Laws.{strip_twice}
use scenario_pipeliner.Dict.{in_names}
use scenario_pipeliner.Db.Tx.{sql_split, Result, ok, err, Result-cases}
use scenario_pipeliner.Plugins.Names.{text_length, starts_with}
use scenario_pipeliner.Plugins.Sql.{
  Letters, drop, cons_first, through, scan_quoted, first_is, Piece, or_unterminated, line_comment,
  dollar_tag, dollar_piece, next_piece, after_comment, is_transaction_control,
  reject_transaction_control, keyword, txn_keywords, prepend, flush, split_from,
  split_sql_statements,
}

drop-le : (n : ℕ) (s : String) → text_length (drop n s) ≤ text_length s
drop-le zero s = omega arith
drop-le (suc n) String.[] = omega arith
drop-le (suc n) (String.◌∷◌ c s) = omega (arith, drop-le n s)

-- the rest that a search leaves has at most n characters
abbrev Leaves : ℕ → Option (String × String) → Type 0
Leaves n none = Unit
Leaves n (some (a, b)) = text_length b ≤ n

cons_first-Leaves :
    (c : Char) (n m : ℕ) (o : Option (String × String))
    → n ≤ m
    → Leaves n o
    → Leaves m (cons_first c o)
cons_first-Leaves c n m none h l = tt
cons_first-Leaves c n m (some (a, b)) h l = omega arith

Leaves-if :
    (n : ℕ) (x y : Option (String × String)) (b : Bool)
    → Leaves n x
    → Leaves n y
    → Leaves n (if b then x else y)
Leaves-if n x y true l m = l
Leaves-if n x y false l m = m

through-Leaves :
    (d c : Char) (p s : String) → Leaves (text_length s) (through (String.◌∷◌ d p) (String.◌∷◌ c s))
unfolding through
through-Leaves d c p String.[] =
    Leaves-if _ _ _ (starts_with (String.◌∷◌ c String.[]) (String.◌∷◌ d p))
      (drop-le (text_length p) String.[]) tt
through-Leaves d c p (String.◌∷◌ e s) =
    Leaves-if _ _ _ (starts_with (String.◌∷◌ c (String.◌∷◌ e s)) (String.◌∷◌ d p))
      (drop-le (text_length p) (String.◌∷◌ e s))
      (cons_first-Leaves c (text_length s) (suc (text_length s))
        (through (String.◌∷◌ d p) (String.◌∷◌ e s)) (omega arith) (through-Leaves d e p s))

longer :
    (c : Char) (s : String) (o : Option (String × String))
    → Leaves (text_length s) o
    → Leaves (suc (text_length s)) (cons_first c o)
longer c s o l = cons_first-Leaves c (text_length s) (suc (text_length s)) o (omega arith) l

scan_quoted-Leaves : (q : ℕ) (b : Bool) (s : String) → Leaves (text_length s) (scan_quoted q b s)
unfolding scan_quoted
scan_quoted-Leaves q b String.[] = tt
scan_quoted-Leaves q b (String.◌∷◌ c s) =
    let escaped = longer c s (scan_quoted q true s) (scan_quoted-Leaves q true s) in
    let inside = longer c s (scan_quoted q false s) (scan_quoted-Leaves q false s) in
    Leaves-if _ _ _ b inside (
      Leaves-if _ _ _ (not (code c == q)) inside
        (Leaves-if _ _ _ (first_is q s) escaped (omega arith)))

-- a piece leaves at most n characters, or the splitter raises its exception
abbrev Shrinks : ℕ → Result Piece → Type 0
Shrinks n (err e) = e ≡ sql_split
Shrinks n (ok p) = text_length p.rest ≤ n

Shrinks-if :
    (n : ℕ) (x y : Result Piece) (b : Bool)
    → Shrinks n x
    → Shrinks n y
    → Shrinks n (if b then x else y)
Shrinks-if n x y true l m = l
Shrinks-if n x y false l m = m

unterminated-Shrinks :
    (n : ℕ) (opening : String) (o : Option (String × String))
    → Leaves n o
    → Shrinks n (or_unterminated opening o)
unterminated-Shrinks n opening none l = refl
unterminated-Shrinks n opening (some (a, b)) l = l

comment-Shrinks :
    (n : ℕ) (all : String) (o : Option (String × String))
    → Leaves n o
    → Shrinks n (line_comment all o)
comment-Shrinks n all none l = omega arith
comment-Shrinks n all (some (a, b)) l = l

weaker : (n m : ℕ) (o : Option (String × String)) → n ≤ m → Leaves n o → Leaves m o
weaker n m none h l = tt
weaker n m (some (a, b)) h l = omega arith

-- a search in what another leaves
through_rest :
    (n : ℕ) (d : Char) (p s : String) → text_length s ≤ n → Leaves n (through (String.◌∷◌ d p) s)
unfolding through
through_rest n d p String.[] h = tt
through_rest n d p (String.◌∷◌ c s) h =
    weaker (text_length s) n (through (String.◌∷◌ d p) (String.◌∷◌ c s)) (omega arith)
      (through-Leaves d c p s)

trim_left-le : (p : ℕ → Bool) (s : String) → text_length (trim_left p s) ≤ text_length s
unfolding trim_left
trim_left-le p String.[] = omega arith
trim_left-le p (String.◌∷◌ c s) = ground (arith, trim_left-le p s)

comment_end-Leaves :
    (b : Bool) (c : Char) (s : String)
    → Leaves (text_length s) (through (if b then "\n" else "*/") (String.◌∷◌ c s))
comment_end-Leaves true c s = through-Leaves "\n" c "" s
comment_end-Leaves false c s = through-Leaves "*" c "/" s

after_comment-le :
    (n : ℕ) (o : Option (String × String)) (rest : String)
    → Leaves n o
    → after_comment o ≡ some rest
    → text_length rest ≤ n
after_comment-le n none rest l h = cc
after_comment-le n (some (a, b)) rest l h =
    let e : trim_left is_space b ≡ rest = ground arith in
    subst (λ x. text_length x ≤ n) e (omega (arith, trim_left-le is_space b))

abbrev pub Returns {ℓ} : {A : Type ℓ} → Option A → Type ℓ
Returns {A = A} o = (a : A) × (o ≡ some a)

module _ (letters : Letters) where
  dollar_tag-Leaves : (s : String) → Leaves (text_length s) (dollar_tag letters s)
  unfolding dollar_tag
  dollar_tag-Leaves String.[] = tt
  dollar_tag-Leaves (String.◌∷◌ c s) =
      Leaves-if _ _ _ (letters.is_alnum (code c) || code c == 95)
        (longer c s (dollar_tag letters s) (dollar_tag-Leaves s))
        (Leaves-if _ _ _ (code c == 36) (omega arith) tt)

  dollar_piece-Shrinks :
      (c : Char) (s : String) (o : Option (String × String))
      → Leaves (text_length s) o
      → Shrinks (text_length s) (dollar_piece letters c s o)
  dollar_piece-Shrinks c s none l = omega arith
  dollar_piece-Shrinks c s (some (name, body)) l =
      unterminated-Shrinks (text_length s) (String.◌∷◌ c name) (through (String.◌∷◌ c name) body)
        (through_rest (text_length s) c name body l)

  next_piece-Shrinks : (c : Char) (s : String) → Shrinks (text_length s) (next_piece letters c s)
  unfolding next_piece
  next_piece-Shrinks c s =
      let n = text_length s in
      Shrinks-if _ _ _ (code c == 45 && first_is 45 s)
        (comment-Shrinks n (String.◌∷◌ c s) (through "\n" (String.◌∷◌ c s))
          (through-Leaves "\n" c "" s))
        (Shrinks-if _ _ _ (code c == 47 && first_is 42 s)
          (unterminated-Shrinks n "/*" (through "*/" (drop 1 s))
            (through_rest n "*" "/" (drop 1 s) (drop-le 1 s)))
          (Shrinks-if _ _ _ (code c == 39 || code c == 34)
            (unterminated-Shrinks n (String.◌∷◌ c String.[]) (scan_quoted (code c) false s)
              (scan_quoted-Leaves (code c) false s))
            (Shrinks-if _ _ _ (code c == 36)
              (dollar_piece-Shrinks c s (dollar_tag letters s) (dollar_tag-Leaves s))
              (omega arith))))

  control-Returns :
      (n : ℕ) (body : String)
      → text_length body < n
      → Returns (is_transaction_control letters n body)
  unfolding is_transaction_control
  control-Returns zero body h = absurd (omega arith)
  control-Returns (suc n) String.[] h = (in_names "" txn_keywords, refl)
  control-Returns (suc n) (String.◌∷◌ c s) h =
      let body : String = String.◌∷◌ c s in
      let line = starts_with body "--" in
      elim (Bool-cases (line || starts_with body "/*")) [
        | inr e ↦
            (in_names (keyword letters body) txn_keywords, rw (e, is_transaction_control) refl)
        | inl e ↦ elim (Option-cases (after_comment (through (if line then "\n" else "*/") body))) [
          | inl f ↦ (false, rw (e, f, is_transaction_control) refl)
          | inr (rest, f) ↦
              let (r, g) = control-Returns n rest (
                omega (
                  arith,
                  after_comment-le (text_length s) (through (if line then "\n" else "*/") body) rest
                      (comment_end-Leaves line c s) f,
                )) in
              (r, rw (e, f, g, is_transaction_control) refl)
        ]
      ]

  reject-Returns : (s : String) → Returns (reject_transaction_control letters s)
  unfolding reject_transaction_control
  reject-Returns s =
      control-Returns (suc (text_length s)) (trim_left is_space s)
        (omega (arith, trim_left-le is_space s))

  -- a statement with text in it, trimmed, that does not control the transaction
  abbrev pub Statement : String → Type 0
  Statement s =
      (strip s ≡ s) × (is_empty s ≡ false) × (reject_transaction_control letters s ≡ some false)

  -- statements, or the exception of the splitter
  abbrev pub Sound : Result (List String) → Type 0
  Sound (ok statements) = All Statement statements
  Sound (err e) = e ≡ sql_split

  abbrev pub Splits : Option (Result (List String)) → Type 0
  Splits o = (r : Result (List String)) × (o ≡ some r) × Sound r

  prepend-Splits :
      (s : String) (rest : Option (Result (List String)))
      → Statement s
      → Splits rest
      → Splits (prepend s rest)
  prepend-Splits s none st (r, h, _) = cc
  prepend-Splits s (some (err e)) st (r, h, sound) =
      let same : r ≡ err e = ground arith in (err e, refl, subst Sound same sound)
  prepend-Splits s (some (ok others)) st (r, h, sound) =
      let same : r ≡ ok others = ground arith in
      (ok (s ∷ others), refl, (st, subst Sound same sound))

  flush-Splits :
      (buffer : String) (rest : Option (Result (List String)))
      → Splits rest
      → Splits (flush letters buffer rest)
  flush-Splits buffer rest r = elim (Bool-cases (is_empty (strip buffer))) [
    | inl e ↦ rw e r
    | inr e ↦
        let (control, c) = reject-Returns (strip buffer) in
        elim (Bool-cases control) [
          | inl f ↦ rw (e, c, f) (err sql_split, refl, refl)
          | inr f ↦
              rw (e, c, f)
                (prepend-Splits (strip buffer) rest (strip_twice buffer, e, c ∙ ap some f) r)
        ]
  ]

  split_from-Splits :
      (n : ℕ) (s buffer : String) → text_length s ≤ n → Splits (split_from letters n s buffer)
  unfolding split_from
  split_from-Splits n String.[] buffer h = flush-Splits buffer (some (ok [])) (ok [], refl, tt)
  split_from-Splits zero (String.◌∷◌ c s) buffer h = absurd (omega arith)
  split_from-Splits (suc n) (String.◌∷◌ c s) buffer h =
      elim (Result-cases (next_piece letters c s)) [
        | inl (e, p) ↦ (
          err e,
          rw (p, split_from) refl,
          subst (Shrinks (text_length s)) p (next_piece-Shrinks c s),
        )
        | inr (p, e) ↦
            let l : text_length p.rest ≤ text_length s =
              subst (Shrinks (text_length s)) e (next_piece-Shrinks c s) in
            let shorter : text_length p.rest ≤ n = omega arith in
            elim (Bool-cases p.ends) [
              | inl q ↦
                  rw (e, q, split_from)
                    (flush-Splits buffer (split_from letters n p.rest "")
                      (split_from-Splits n p.rest "" shorter))
              | inr q ↦
                  rw (e, q, split_from) (split_from-Splits n p.rest (concat buffer p.text) shorter)
            ]
      ]

  -- The splitter returns on every text, since one unit of fuel for each character is enough. It raises its
  -- own exception, or gives trimmed statements with text in them, each of which passes the source's own
  -- check for transaction control.
  split_sql_statements_lem : (sql : String) → Splits (split_sql_statements letters sql)
  unfolding split_sql_statements
  split_sql_statements_lem sql = split_from-Splits (text_length sql) sql "" (omega arith)
