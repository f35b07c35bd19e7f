-- ===== src/Db/Settings.antt =====
-- The settings table: a value that is read, and one that is inserted where its key is missing.
use scenario_pipeliner.Base.{
  ◌≡◌, refl, Bool-cases, inl, inr, Bool, true, Option, none, some, List, [], ◌∷◌, any, ◌&&◌, arith,
  if◌then◌else◌,
}
use scenario_pipeliner.Text.{String, str_eq, btrim, eq_iff, eq_refl}
use scenario_pipeliner.Db.Tables.{SettingRow}

-- _get_setting
unfoldable pub get_setting : String → List SettingRow → Option String
get_setting key [] = none
get_setting key (row ∷ settings) =
    if str_eq row.key key then some row.value else get_setting key settings

-- _upsert_setting: on conflict it does nothing
unfoldable pub upsert_setting : String → String → List SettingRow → List SettingRow
upsert_setting key value [] = record { key = key; value = value } ∷ []
upsert_setting key value (row ∷ settings) =
    let rest = upsert_setting key value settings in
    if str_eq row.key key then row ∷ settings else row ∷ rest

pub get-upsert :
    (key value : String) (settings : List SettingRow)
    → get_setting key settings ≡ none
    → get_setting key (upsert_setting key value settings) ≡ some value
unfolding get_setting upsert_setting
get-upsert key value [] h = rw (eq_refl key) refl
get-upsert key value (row ∷ settings) h = ground (arith, get-upsert key value settings)

abbrev pub is_one : String → SettingRow → Bool
is_one key s = str_eq s.key key && str_eq (btrim s.value) "1"

abbrev allowed : Option String → Bool
allowed none = true
allowed (some value) = str_eq (btrim value) "1"

-- the flag is on, or was never set
abbrev pub allows : String → List SettingRow → Bool
allows key settings = allowed (get_setting key settings)

one_is_on : str_eq (btrim "1") "1" ≡ true
unfolding btrim
one_is_on = refl

-- A flag that is not off is on once it was inserted where it was missing.
pub any-upsert :
    (key : String) (settings : List SettingRow)
    → allows key settings ≡ true
    → any (is_one key) (upsert_setting key "1" settings) ≡ true
unfolding get_setting upsert_setting
any-upsert key [] h = rw (eq_refl key, one_is_on) refl
any-upsert key (row ∷ settings) h = ground (arith, any-upsert key settings)

-- Another insert leaves a flag on, and not off.
pub any_stays :
    (key other value : String) (settings : List SettingRow)
    → any (is_one key) settings ≡ true
    → any (is_one key) (upsert_setting other value settings) ≡ true
unfolding upsert_setting
any_stays key other value [] h = cc
any_stays key other value (row ∷ settings) h = ground (arith, any_stays key other value settings)

pub allows-upsert :
    (key other : String) (settings : List SettingRow)
    → allows key settings ≡ true
    → allows key (upsert_setting other "1" settings) ≡ true
unfolding get_setting upsert_setting
allows-upsert key other [] h = elim (Bool-cases (str_eq other key)) [
  | inl e ↦ rw (e, one_is_on) refl
  | inr e ↦ rw e refl
]
allows-upsert key other (row ∷ settings) h =
    ground (arith, allows-upsert key other settings, eq_iff row.key key, eq_iff row.key other)
