-- ===== src/Plugins/Names/Laws.antt =====
-- Which names a plugin's schema can have: the sanitised text always has the form that PostgreSQL takes
-- unquoted, so that only its length, emptiness and the reserved names are left to fail.
use scenario_pipeliner.Base.{
  ℕ, ◌≤◌, ◌≡◌, refl, ap, ◌∙◌, subst, Bool, true, false, not, ◌||◌, ltb, ◌==◌, if◌then◌else◌, arith,
  Bool-cases, inl, inr, &&-true,
}
use Prim.Native.Char.{Char, code}
use scenario_pipeliner.Text.{String, strip, trim_left, trim_right, is_empty, is_space}
use scenario_pipeliner.Text.Laws.{head_is_not, trim_left-head, trim_right-head}
use scenario_pipeliner.Db.Tx.{ok, err, invalid_schema_name}
use scenario_pipeliner.Plugins.Names.{
  text_length, is_lower, is_digit, is_word, all_chars, is_schema_text, max_schema_length,
  is_reserved, check_schema, validate_schema_name, word_char, only_words, squeeze, is_underscore,
  strip_underscores, starts_with_digit, with_prefix, sanitized, named_schema, plugin_schema_name,
}

word_char_lem : (c : Char) → is_word (code (word_char c)) ≡ true
word_char_lem c = elim (Bool-cases (is_word (code c))) [
  | inl e ↦ rw (e, e) refl
  | inr e ↦ rw e (unfold is_word in refl)
]

only_words-all : (s : String) → all_chars is_word (only_words s) ≡ true
unfolding only_words
only_words-all String.[] = refl
only_words-all (String.◌∷◌ c s) = rw (word_char_lem c, only_words-all s) refl

squeeze-all :
    (p : ℕ → Bool) (b : Bool) (s : String) → all_chars p s ≡ true → all_chars p (squeeze b s) ≡ true
unfolding squeeze
squeeze-all p b String.[] h = refl
squeeze-all p b (String.◌∷◌ c s) h = ground (arith, squeeze-all p (code c == 95) s)

trim_left-all :
    (p q : ℕ → Bool) (s : String) → all_chars p s ≡ true → all_chars p (trim_left q s) ≡ true
unfolding trim_left
trim_left-all p q String.[] h = refl
trim_left-all p q (String.◌∷◌ c s) h = ground (arith, trim_left-all p q s)

trim_right-all :
    (p q : ℕ → Bool) (s : String) → all_chars p s ≡ true → all_chars p (trim_right q s) ≡ true
unfolding trim_right
trim_right-all p q String.[] h = refl
trim_right-all p q (String.◌∷◌ c s) h = ground (arith, trim_right-all p q s)

-- Text of which no character is trimmed stays as it is.
trim_right-none :
    (p q : ℕ → Bool) (s : String)
    → ((c : ℕ) → p c ≡ true → q c ≡ false)
    → all_chars p s ≡ true
    → trim_right q s ≡ s
unfolding trim_right
trim_right-none p q String.[] none h = refl
trim_right-none p q (String.◌∷◌ c s) none h =
    ground (arith, none (code c), trim_right-none p q s none)

word_not_space : (c : ℕ) → is_word c ≡ true → is_space c ≡ false
unfolding is_space is_word
word_not_space c h = ground arith

lower_word : (c : ℕ) → is_lower c ≡ true → is_word c ≡ true
unfolding is_word
lower_word c h = ground arith

lower_of_word :
    (c : ℕ)
    → is_word c ≡ true
    → not (is_underscore c) ≡ true
    → is_digit c ≡ false
    → is_lower c ≡ true
unfolding is_word
lower_of_word c w u d = ground arith

strip_schema_text : (s : String) → is_schema_text s ≡ true → strip s ≡ s
unfolding strip trim_left
strip_schema_text String.[] h = cc
strip_schema_text (String.◌∷◌ c s) h =
    let (l, a) = &&-true (is_lower (code c)) (all_chars is_word s) h in
    let w : is_word (code c) ≡ true = lower_word (code c) l in
    let all : all_chars is_word (String.◌∷◌ c s) ≡ true = rw (w, a) refl in
    rw (word_not_space (code c) w)
      (trim_right-none is_word is_space (String.◌∷◌ c s) word_not_space all)

sanitized_chars :
    (lower : String → String) (n : String) → all_chars is_word (sanitized lower n) ≡ true
unfolding sanitized strip_underscores
sanitized_chars lower n =
    let words = only_words (lower (strip n)) in
    trim_right-all is_word is_underscore (trim_left is_underscore (squeeze false words)) (
      trim_left-all is_word is_underscore (squeeze false words)
        (squeeze-all is_word false words (only_words-all (lower (strip n)))))

sanitized_head :
    (lower : String → String) (n : String) → head_is_not is_underscore (sanitized lower n) ≡ true
unfolding sanitized strip_underscores
sanitized_head lower n =
    let words = squeeze false (only_words (lower (strip n))) in
    trim_right-head is_underscore is_underscore (trim_left is_underscore words)
      (trim_left-head is_underscore words)

abbrev pub prefixed : String → String
prefixed s = if starts_with_digit s then with_prefix s else s

digit_text :
    (c : Char) (s : String)
    → is_word (code c) ≡ true
    → all_chars is_word s ≡ true
    → is_schema_text (with_prefix (String.◌∷◌ c s)) ≡ true
digit_text c s w h = let u : is_word 95 ≡ true = (unfold is_word in refl) in rw (u, w, h) refl

schema_text_full : (s : String) → is_schema_text s ≡ true → is_empty s ≡ false
schema_text_full String.[] h = cc
schema_text_full (String.◌∷◌ c s) h = refl

two_guards :
    (b d : Bool) (t : String)
    → (if b then err invalid_schema_name else if d then err invalid_schema_name else ok t)
      ≡ (if b || d then err invalid_schema_name else ok t)
two_guards true d t = refl
two_guards false d t = refl

guarded :
    (a b c d : Bool) (t s : String)
    → (if a
        then err invalid_schema_name
        else if b
        then err invalid_schema_name
        else if not c
        then err invalid_schema_name
        else if d
        then err invalid_schema_name
        else ok t)
      ≡ ok s
    → (t ≡ s) × (b ≡ false) × (c ≡ true) × (d ≡ false)
guarded true b c d t s h = cc
guarded false true c d t s h = cc
guarded false false false d t s h = cc
guarded false false true true t s h = cc
guarded false false true false t s h = (cc, refl, refl, refl)

prefixed_text :
    (s : String)
    → all_chars is_word s ≡ true
    → head_is_not is_underscore s ≡ true
    → is_empty s ≡ false
    → is_schema_text (prefixed s) ≡ true
prefixed_text String.[] a h e = cc
prefixed_text (String.◌∷◌ c s) a h e =
    let (w, rest) = &&-true (is_word (code c)) (all_chars is_word s) a in
    elim (Bool-cases (is_digit (code c))) [
      | inl d ↦ rw d (digit_text c s w rest)
      | inr d ↦ rw d (rw (lower_of_word (code c) w h d, rest) refl)
    ]

checked :
    (t s : String)
    → check_schema t ≡ ok s
    → (t ≡ s)
      × (is_schema_text s ≡ true)
      × (text_length s ≤ max_schema_length)
      × (is_reserved s ≡ false)
unfolding check_schema
checked t s h =
    let (same, short, text, free) =
      guarded (is_empty t) (ltb max_schema_length (text_length t)) (is_schema_text t)
        (is_reserved t) t s h in
    let short' : text_length t ≤ max_schema_length = ground arith in
    (
      same,
      subst (λ x. is_schema_text x ≡ true) same text,
      subst (λ x. text_length x ≤ max_schema_length) same short',
      subst (λ x. is_reserved x ≡ false) same free,
    )

-- What a name that was accepted looks like, and that it is accepted again as it is.
pub accepted_name :
    (n s : String)
    → validate_schema_name n ≡ ok s
    → (is_schema_text s ≡ true)
      × (text_length s ≤ max_schema_length)
      × (is_reserved s ≡ false)
      × (validate_schema_name s ≡ ok s)
unfolding validate_schema_name
accepted_name n s h =
    let (same, text, short, free) = checked (strip n) s h in
    (
      text,
      short,
      free,
      ap check_schema (strip_schema_text s text) ∙ subst (λ t. check_schema t ≡ ok s) same h,
    )

named_schema_lem :
    (s : String)
    → all_chars is_word s ≡ true
    → head_is_not is_underscore s ≡ true
    → named_schema s ≡ (
        if is_empty s
          || ltb max_schema_length (text_length (prefixed s))
          || is_reserved (prefixed s)
        then err invalid_schema_name
        else ok (prefixed s))
unfolding named_schema validate_schema_name check_schema
named_schema_lem s a h = elim (Bool-cases (is_empty s)) [
  | inl e ↦ rw e refl
  | inr e ↦
      let text = prefixed_text s a h e in
      rw (e, strip_schema_text (prefixed s) text, schema_text_full (prefixed s) text, text)
        (two_guards (ltb max_schema_length (text_length (prefixed s))) (is_reserved (prefixed s))
          (prefixed s))
]

-- The schema of a plugin is its sanitised name, with `p_` before a digit; it fails exactly where that is
-- empty, longer than 63 characters or reserved.
pub plugin_schema_name_lem :
    (lower : String → String) (n : String)
    → let s = sanitized lower n in
      plugin_schema_name lower n ≡ (
        if is_empty s
          || ltb max_schema_length (text_length (prefixed s))
          || is_reserved (prefixed s)
        then err invalid_schema_name
        else ok (prefixed s))
unfolding plugin_schema_name
plugin_schema_name_lem lower n =
    named_schema_lem (sanitized lower n) (sanitized_chars lower n) (sanitized_head lower n)
