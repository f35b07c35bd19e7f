-- ===== src/Text/Laws.antt =====
-- What trimming leaves.
use scenario_pipeliner.Base.{
  ℕ, ◌≡◌, refl, ap, ◌∙◌, Bool, true, false, not, ◌&&◌, arith, Bool-cases, inl, inr,
}
use Prim.Native.Char.{code}
use text.Mathlib.Text.{is_lt}
use text.Mathlib.TextPositions.{compare_refl}
use scenario_pipeliner.Text.{String, str_lt, trim_left, trim_right, strip, is_empty, is_space}

abbrev pub head_is_not : (ℕ → Bool) → String → Bool
head_is_not q String.[] = true
head_is_not q (String.◌∷◌ c s) = not (q (code c))

pub trim_left-head : (q : ℕ → Bool) (s : String) → head_is_not q (trim_left q s) ≡ true
unfolding trim_left
trim_left-head q String.[] = refl
trim_left-head q (String.◌∷◌ c s) = ground (arith, trim_left-head q s)

pub trim_right-head :
    (p q : ℕ → Bool) (s : String) → head_is_not p s ≡ true → head_is_not p (trim_right q s) ≡ true
unfolding trim_right
trim_right-head p q String.[] h = refl
trim_right-head p q (String.◌∷◌ c s) h =
    elim (Bool-cases (is_empty (trim_right q s) && q (code c))) [
      | inl e ↦ rw e refl
      | inr e ↦ rw e h
    ]

trim_left-none : (q : ℕ → Bool) (s : String) → head_is_not q s ≡ true → trim_left q s ≡ s
unfolding trim_left
trim_left-none q String.[] h = refl
trim_left-none q (String.◌∷◌ c s) h = ground arith

trim_right_twice : (q : ℕ → Bool) (s : String) → trim_right q (trim_right q s) ≡ trim_right q s
unfolding trim_right
trim_right_twice q String.[] = refl
trim_right_twice q (String.◌∷◌ c s) = elim (Bool-cases (is_empty (trim_right q s) && q (code c))) [
  | inl e ↦ rw e refl
  | inr e ↦ rw (e, trim_right_twice q s, e) refl
]

pub strip_twice : (s : String) → strip (strip s) ≡ strip s
unfolding strip
strip_twice s =
    ap (trim_right is_space) (
      trim_left-none is_space (trim_right is_space (trim_left is_space s))
        (trim_right-head is_space is_space (trim_left is_space s) (trim_left-head is_space s)))
    ∙ trim_right_twice is_space (trim_left is_space s)

-- No text comes before itself.
pub str_lt_self : (s : String) → str_lt s s ≡ false
str_lt_self s = ap is_lt (compare_refl s)
