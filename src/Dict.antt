-- ===== src/Dict.antt =====
-- Python dictionaries with text keys, in insertion order, and sets of text.
use scenario_pipeliner.Base.{
  ◌≡◌, refl, Bool, false, ◌||◌, Option, none, some, List, [], ◌∷◌, map, arith, is_some,
  if◌then◌else◌,
}
use scenario_pipeliner.Text.{String, str_eq, eq_iff}

-- x in names
abbrev pub in_names : String → List String → Bool
in_names n [] = false
in_names n (m ∷ names) = str_eq m n || in_names n names

module _ {ℓ} {V : Type ℓ} where
  -- d.get(k)
  unfoldable pub lookup : String → List (String × V) → Option V
  lookup k [] = none
  lookup k ((j, v) ∷ m) = if str_eq j k then some v else lookup k m

  -- d[k] = v
  unfoldable pub put : String → V → List (String × V) → List (String × V)
  put k v [] = (k, v) ∷ []
  put k v ((j, w) ∷ m) = let rest = put k v m in if str_eq j k then (j, v) ∷ m else (j, w) ∷ rest

  abbrev pub keys : List (String × V) → List String
  keys = map (λ (e : String × V). e.0)

  pub lookup-put :
      (j k : String) (v : V) (m : List (String × V))
      → lookup j (put k v m) ≡ (if str_eq k j then some v else lookup j m)
  unfolding lookup put
  lookup-put j k v [] = refl
  lookup-put j k v ((i, w) ∷ m) =
      ground (arith, eq_iff k j, eq_iff i k, eq_iff i j, lookup-put j k v m)

  -- A key is listed just where it is found.
  pub in_names-keys :
      (k : String) (m : List (String × V)) → in_names k (keys m) ≡ is_some (lookup k m)
  unfolding lookup
  in_names-keys k [] = refl
  in_names-keys k ((j, v) ∷ m) = ground (arith, in_names-keys k m)
