-- ===== src/Plugins/Names.antt =====
-- db/schemes_names.py: schema names of PostgreSQL, and the one that a plugin's name gives.
pub mod Laws
use scenario_pipeliner.Base.{
  ℕ, zero, suc, Bool, true, false, not, ◌&&◌, ◌||◌, leb, ltb, ◌==◌, if◌then◌else◌,
}
use Prim.Native.Char.{Char, code}
use scenario_pipeliner.Text.{String, str_eq, strip, trim_left, trim_right, is_empty}
use scenario_pipeliner.Db.Tx.{Result, ok, err, invalid_schema_name}

-- len(text), by code points
abbrev pub text_length : String → ℕ
text_length String.[] = 0
text_length (String.◌∷◌ c s) = suc (text_length s)

abbrev pub starts_with : String → String → Bool
starts_with s String.[] = true
starts_with String.[] (String.◌∷◌ d t) = false
starts_with (String.◌∷◌ c s) (String.◌∷◌ d t) = code c == code d && starts_with s t

abbrev pub is_lower : ℕ → Bool
is_lower c = leb 97 c && leb c 122

abbrev pub is_digit : ℕ → Bool
is_digit c = leb 48 c && leb c 57

-- [a-z0-9_]
unfoldable pub is_word : ℕ → Bool
is_word c = is_lower c || is_digit c || c == 95

abbrev pub all_chars : (ℕ → Bool) → String → Bool
all_chars p String.[] = true
all_chars p (String.◌∷◌ c s) = p (code c) && all_chars p s

-- _SCHEMA_PATTERN: [a-z][a-z0-9_]*
abbrev pub is_schema_text : String → Bool
is_schema_text String.[] = false
is_schema_text (String.◌∷◌ c s) = is_lower (code c) && all_chars is_word s

abbrev pub max_schema_length : ℕ
max_schema_length = 63

-- _RESERVED_SCHEMAS, or the prefix of the system schemas
unfoldable pub is_reserved : String → Bool
is_reserved s =
    str_eq s "public"
    || str_eq s "information_schema"
    || str_eq s "pg_catalog"
    || starts_with s "pg_"

-- the checks on the stripped text
unfoldable pub check_schema : String → Result String
check_schema candidate =
    if is_empty candidate
    then err invalid_schema_name
    else if ltb max_schema_length (text_length candidate)
    then err invalid_schema_name
    else if not (is_schema_text candidate)
    then err invalid_schema_name
    else if is_reserved candidate
    then err invalid_schema_name
    else ok candidate

unfoldable pub validate_schema_name : String → Result String
validate_schema_name name = check_schema (strip name)

abbrev pub word_char : Char → Char
word_char c = if is_word (code c) then c else "_"

-- re.sub(r"[^a-z0-9_]", "_", s)
unfoldable pub only_words : String → String
only_words String.[] = String.[]
only_words (String.◌∷◌ c s) = String.◌∷◌ (word_char c) (only_words s)

-- re.sub(r"_+", "_", s); the flag says that the character before was an underscore
unfoldable pub squeeze : Bool → String → String
squeeze after String.[] = String.[]
squeeze after (String.◌∷◌ c s) =
    let rest = squeeze (code c == 95) s in if after && code c == 95 then rest else String.◌∷◌ c rest

abbrev pub is_underscore : ℕ → Bool
is_underscore c = c == 95

-- s.strip("_")
unfoldable pub strip_underscores : String → String
unfolding trim_left trim_right
strip_underscores s = trim_right is_underscore (trim_left is_underscore s)

abbrev pub starts_with_digit : String → Bool
starts_with_digit String.[] = false
starts_with_digit (String.◌∷◌ c s) = is_digit (code c)

-- `lower` is str.lower
unfoldable pub sanitized : (String → String) → String → String
unfolding only_words squeeze strip_underscores
sanitized lower plugin_name =
    strip_underscores (squeeze false (only_words (lower (strip plugin_name))))

-- f"p_{s}"
abbrev pub with_prefix : String → String
with_prefix s = String.◌∷◌ "p" (String.◌∷◌ "_" s)

-- from `if not sanitized` on
unfoldable pub named_schema : String → Result String
named_schema s =
    if is_empty s
    then err invalid_schema_name
    else validate_schema_name (if starts_with_digit s then with_prefix s else s)

unfoldable pub plugin_schema_name : (String → String) → String → Result String
plugin_schema_name lower plugin_name = named_schema (sanitized lower plugin_name)
