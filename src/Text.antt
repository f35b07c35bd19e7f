-- ===== src/Text.antt =====
-- Text as the source uses it: `==`, concatenation, `str.strip`, SQL's `btrim`, `str.endswith` and the
-- code point order of `str`. Only `str.strip()` with no argument and `btrim` with no argument occur.
pub mod Laws
use scenario_pipeliner.Base.{ℕ, ◌≡◌, refl, Bool, true, false, ◌&&◌, ◌||◌, leb, ◌==◌, if◌then◌else◌}
pub use Prim.Native.String.{String, ◌++◌ as concat}
use Prim.Native.String.{compare}
use Prim.Native.Char.{code}
pub use text.Mathlib.Text.{◌==◌ as str_eq}
use text.Mathlib.Text.{is_lt}
pub use text.Mathlib.TextEquality.{eq_iff}
pub use text.Mathlib.TextPositions.{eq_refl}

abbrev pub is_empty : String → Bool
is_empty String.[] = true
is_empty (String.◌∷◌ c s) = false

-- the characters that `str.isspace` accepts
unfoldable pub is_space : ℕ → Bool
is_space c =
    leb 9 c && leb c 13
    || leb 28 c && leb c 32
    || c == 0x85
    || c == 0xa0
    || c == 0x1680
    || leb 0x2000 c && leb c 0x200a
    || c == 0x2028
    || c == 0x2029
    || c == 0x202f
    || c == 0x205f
    || c == 0x3000

abbrev pub is_blank_char : ℕ → Bool
is_blank_char c = c == 32

unfoldable pub trim_left : (ℕ → Bool) → String → String
trim_left p String.[] = String.[]
trim_left p (String.◌∷◌ c s) =
    let rest = trim_left p s in if p (code c) then rest else String.◌∷◌ c s

unfoldable pub trim_right : (ℕ → Bool) → String → String
trim_right p String.[] = String.[]
trim_right p (String.◌∷◌ c s) =
    let rest = trim_right p s in
    if is_empty rest && p (code c) then String.[] else String.◌∷◌ c rest

-- s.strip()
unfoldable pub strip : String → String
unfolding trim_left trim_right is_space
strip s = trim_right is_space (trim_left is_space s)

-- btrim(s), which takes off spaces only
unfoldable pub btrim : String → String
unfolding trim_left trim_right
btrim s = trim_right is_blank_char (trim_left is_blank_char s)

unfoldable pub ends_with : String → String → Bool
ends_with s String.[] = true
ends_with String.[] (String.◌∷◌ d t) = false
ends_with (String.◌∷◌ c s) t =
    let rest = ends_with s t in if str_eq (String.◌∷◌ c s) t then true else rest

-- s < t, by code points
abbrev pub str_lt : String → String → Bool
str_lt s t = is_lt (compare s t)

strip_test : strip " a b\n" ≡ "a b"
unfolding strip
strip_test = refl

ends_with_test : ends_with "tasks_pkey" "_pkey" ≡ true
unfolding ends_with
ends_with_test = refl
