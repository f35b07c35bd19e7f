-- ===== src/Plugins/Sql.antt =====
-- db/sql_templates.py: a plugin's SQL, rendered and split into statements. The scanner takes the text
-- from where it stands; its loops run on fuel, and answer `none` where the fuel is used up.
pub mod Laws
use scenario_pipeliner.Base.{
  ℕ, zero, suc, ◌-◌, Bool, true, false, not, ◌&&◌, ◌||◌, ◌==◌, Option, none, some, List, [], ◌∷◌,
  if◌then◌else◌,
}
use Prim.Native.Char.{Char, code}
use scenario_pipeliner.Text.{String, concat, strip, trim_left, is_space, is_empty}
use scenario_pipeliner.Dict.{in_names}
use scenario_pipeliner.Db.Tx.{Exc, sql_template, sql_split, Result, ok, err}
use scenario_pipeliner.Plugins.Names.{text_length, starts_with}

-- str.isalnum, str.isalpha and str.upper of one character
pub record Letters : Type 0 where
  pub is_alnum : ℕ → Bool
  pub is_alpha : ℕ → Bool
  pub upper : Char → String

abbrev pub drop : ℕ → String → String
drop zero s = s
drop (suc n) String.[] = String.[]
drop (suc n) (String.◌∷◌ c s) = drop n s

-- p in s
abbrev pub contains_text : String → String → Bool
contains_text p String.[] = is_empty p
contains_text p (String.◌∷◌ c s) = starts_with (String.◌∷◌ c s) p || contains_text p s

-- s.replace(p, r) for a text p that is not empty; the number says how many characters of an occurrence
-- are still to be passed over
unfoldable pub replace : String → String → ℕ → String → String
replace p r k String.[] = String.[]
replace p r (suc k) (String.◌∷◌ c s) = replace p r k s
replace p r zero (String.◌∷◌ c s) =
    let replaced = replace p r (text_length p - 1) s in
    let kept = replace p r zero s in
    if starts_with (String.◌∷◌ c s) p then concat r replaced else String.◌∷◌ c kept

abbrev pub core_schema_placeholder : String
core_schema_placeholder = "{{core_schema}}"

abbrev pub plugin_schema_placeholder : String
plugin_schema_placeholder = "{{plugin_schema}}"

abbrev rendered : String → String → String → String
rendered sql core_schema plugin_schema =
    replace plugin_schema_placeholder plugin_schema zero
      (replace core_schema_placeholder core_schema zero sql)

unfoldable pub render_plugin_sql : String → String → String → Result String
unfolding replace
render_plugin_sql sql core_schema plugin_schema =
    if not (contains_text core_schema_placeholder sql)
      || not (contains_text plugin_schema_placeholder sql)
    then err sql_template
    else if contains_text "{{" (rendered sql core_schema plugin_schema)
    then err sql_template
    else ok (rendered sql core_schema plugin_schema)

abbrev pub cons_first : Char → Option (String × String) → Option (String × String)
cons_first c none = none
cons_first c (some (a, b)) = some (String.◌∷◌ c a, b)

-- sql.find(p): what goes up to the end of the first occurrence of p, and the rest
unfoldable pub through : String → String → Option (String × String)
through p String.[] = none
through p (String.◌∷◌ c s) =
    let later = through p s in
    if starts_with (String.◌∷◌ c s) p
    then some (p, drop (text_length p) (String.◌∷◌ c s))
    else cons_first c later

abbrev pub first_is : ℕ → String → Bool
first_is q String.[] = false
first_is q (String.◌∷◌ c s) = code c == q

-- _scan_quoted, from after the opening quote; a doubled quote stays inside, and the flag says that this
-- character is the second of one
unfoldable pub scan_quoted : ℕ → Bool → String → Option (String × String)
scan_quoted q second String.[] = none
scan_quoted q second (String.◌∷◌ c s) =
    let escaped = scan_quoted q true s in
    let inside = scan_quoted q false s in
    if second
    then cons_first c inside
    else if not (code c == q)
    then cons_first c inside
    else if first_is q s
    then cons_first c escaped
    else some (String.◌∷◌ c String.[], s)

pub record Piece : Type 0 where
  pub text : String
  pub rest : String
  -- the piece is the semicolon that ends a statement
  pub ends : Bool

abbrev pub piece : String → String → Piece
piece text rest = record { text = text; rest = rest; ends = false }

abbrev pub or_unterminated : String → Option (String × String) → Result Piece
or_unterminated opening none = err sql_split
or_unterminated opening (some (a, b)) = ok (piece (concat opening a) b)

abbrev pub line_comment : String → Option (String × String) → Result Piece
line_comment all none = ok (piece all "")
line_comment all (some (a, b)) = ok (piece a b)

abbrev lstrip : String → String
lstrip s = trim_left is_space s

-- _TXN_KEYWORDS
abbrev pub txn_keywords : List String
txn_keywords = "BEGIN" ∷ "COMMIT" ∷ "ROLLBACK" ∷ "START" ∷ []

abbrev pub after_comment : Option (String × String) → Option String
after_comment none = none
after_comment (some (a, b)) = some (lstrip b)

abbrev pub prepend : String → Option (Result (List String)) → Option (Result (List String))
prepend s none = none
prepend s (some (err e)) = some (err e)
prepend s (some (ok statements)) = some (ok (s ∷ statements))

abbrev pub guarded_statement :
    String → Option Bool → Option (Result (List String)) → Option (Result (List String))
guarded_statement s none rest = none
guarded_statement s (some true) rest = some (err sql_split)
guarded_statement s (some false) rest = prepend s rest

module _ (letters : Letters) where
  -- _dollar_tag, from after the dollar: the name with the closing dollar, and what follows it
  unfoldable pub dollar_tag : String → Option (String × String)
  dollar_tag String.[] = none
  dollar_tag (String.◌∷◌ c s) =
      let later = dollar_tag s in
      if letters.is_alnum (code c) || code c == 95
      then cons_first c later
      else if code c == 36
      then some ("$", s)
      else none

  abbrev pub dollar_piece : Char → String → Option (String × String) → Result Piece
  dollar_piece c s none = ok (piece (String.◌∷◌ c String.[]) s)
  dollar_piece c s (some (name, body)) =
      or_unterminated (String.◌∷◌ c name) (through (String.◌∷◌ c name) body)

  -- one iteration of the loop, at the character c with s after it
  unfoldable pub next_piece : Char → String → Result Piece
  unfolding through scan_quoted dollar_tag
  next_piece c s =
      if code c == 45 && first_is 45 s
      then line_comment (String.◌∷◌ c s) (through "\n" (String.◌∷◌ c s))
      else if code c == 47 && first_is 42 s
      then or_unterminated "/*" (through "*/" (drop 1 s))
      else if code c == 39 || code c == 34
      then or_unterminated (String.◌∷◌ c String.[]) (scan_quoted (code c) false s)
      else if code c == 36
      then dollar_piece c s (dollar_tag s)
      else ok (record { text = String.◌∷◌ c String.[]; rest = s; ends = code c == 59 })

  unfoldable pub keyword : String → String
  keyword String.[] = ""
  keyword (String.◌∷◌ c s) =
      let rest = keyword s in
      if letters.is_alpha (code c) then concat (letters.upper c) rest else ""

  -- the loop of _reject_transaction_control: whether the statement is rejected
  unfoldable pub is_transaction_control : ℕ → String → Option Bool
  unfolding through trim_left keyword
  is_transaction_control zero body = none
  is_transaction_control (suc n) body =
      let end = if starts_with body "--" then "\n" else "*/" in
      if starts_with body "--" || starts_with body "/*"
      then elim (after_comment (through end body)) [
        | none ↦ some false
        | some rest ↦ is_transaction_control n rest
      ]
      else some (in_names (keyword body) txn_keywords)

  unfoldable pub reject_transaction_control : String → Option Bool
  unfolding is_transaction_control trim_left
  reject_transaction_control statement =
      is_transaction_control (suc (text_length statement)) (lstrip statement)

  -- what is done with the buffer where a statement ends
  abbrev pub flush : String → Option (Result (List String)) → Option (Result (List String))
  flush buffer rest =
      let statement = strip buffer in
      if is_empty statement
      then rest
      else guarded_statement statement (reject_transaction_control statement) rest

  -- the loop of split_sql_statements
  unfoldable pub split_from : ℕ → String → String → Option (Result (List String))
  split_from n String.[] buffer = flush buffer (some (ok []))
  split_from zero (String.◌∷◌ c s) buffer = none
  split_from (suc n) (String.◌∷◌ c s) buffer = elim (next_piece c s) [
    | err e ↦ some (err e)
    | ok p ↦ elim p.ends [
      | true ↦ flush buffer (split_from n p.rest "")
      | false ↦ split_from n p.rest (concat buffer p.text)
    ]
  ]

  unfoldable pub split_sql_statements : String → Option (Result (List String))
  unfolding split_from
  split_sql_statements sql = split_from (text_length sql) sql ""
