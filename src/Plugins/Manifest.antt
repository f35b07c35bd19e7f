-- ===== src/Plugins/Manifest.antt =====
-- api/settings.py, core/exceptions.py and core/migration_paths.py: the manifest of a plugin with its
-- validators, and where its migration lies. What packaging, hashlib, json and str do is the record Host.
use scenario_pipeliner.Base.{
  ℕ, Bool, true, false, not, ◌&&◌, ◌||◌, ◌==◌, leb, ◌-◌, Option, none, some, List, [], ◌∷◌,
  if◌then◌else◌,
}
use Prim.Native.Char.{code}
use scenario_pipeliner.Text.{String, concat, strip, is_empty, ends_with}
use scenario_pipeliner.Json.{Json}
use scenario_pipeliner.Dict.{in_names}
use scenario_pipeliner.Api.{
  ChecksumManifestScope, manifest_invalid, manifest_not_found, migration_path_absolute,
  migration_path_traversal,
}
use scenario_pipeliner.Db.Tx.{Exc, dry_run_error, value_error, Result, ok, err}
use scenario_pipeliner.Plugins.Names.{text_length, is_lower, is_digit, all_chars, starts_with}

pub record ChecksumInfo : Type 0 where
  pub scope : ChecksumManifestScope
  pub value : String

pub record PluginMigrations : Type 0 where
  pub migration_order : String
  pub postgresql : Option String

pub record PluginManifestV1 : Type 0 where
  pub plugin_name : String
  pub plugin_version : String
  pub plugin_api_version : String
  pub core_compat : String
  pub checksum : ChecksumInfo
  pub entrypoint : String
  pub scenarios : List String
  pub migrations : Option PluginMigrations

-- Third-party code and the built-in functions of Python.
pub record Host : Type 0 where
  -- str.lower, repr of a text, re's \d beyond the ASCII digits
  pub lower : String → String
  pub repr : String → String
  pub is_decimal : ℕ → Bool
  -- SpecifierSet(spec) does not raise; Version(core_version) in SpecifierSet(spec)
  pub is_specifier : String → Bool
  pub in_specifier : String → String → Result Bool
  -- datetime.strptime(value, "%Y%m%d%H%M%S") does not raise
  pub is_datetime : String → Bool
  -- hashlib.sha256(...).hexdigest()
  pub sha256 : String → String
  -- json.loads, json.dumps of the canonical form, and of the form that is written to a file
  pub loads : String → Result Json
  pub dumps_canonical : Json → String
  pub dumps_indented : Json → String
  -- PluginManifestV1's fields by pydantic, before its validators
  pub parse_manifest : Json → Option PluginManifestV1
  -- str(e) of an exception that carries no text here
  pub text_of : Exc → String

abbrev is_hex : ℕ → Bool
is_hex c = is_digit c || c == 97 || c == 98 || c == 99 || c == 100 || c == 101 || c == 102

-- [a-z0-9_.-]
abbrev is_name_char : ℕ → Bool
is_name_char c = is_lower c || is_digit c || c == 95 || c == 46 || c == 45

-- a character class, repeated once or more, for the whole text
abbrev pub one_or_more : (ℕ → Bool) → String → Bool
one_or_more p s = not (is_empty s) && all_chars p s

-- `":" in s`
unfoldable pub has_colon : String → Bool
has_colon String.[] = false
has_colon (String.◌∷◌ c s) = code c == 58 || has_colon s

-- len(xs) != len(set(xs))
unfoldable pub has_duplicates : List String → Bool
has_duplicates [] = false
has_duplicates (x ∷ xs) = in_names x xs || has_duplicates xs

abbrev all_start_with : String → List String → Bool
all_start_with prefix [] = true
all_start_with prefix (s ∷ scenarios) = starts_with s prefix && all_start_with prefix scenarios

abbrev ensure {ℓ} : {A : Type ℓ} → Bool → A → Result A
ensure true a = ok a
ensure false a = err value_error

-- [a-zA-Z0-9.-]
abbrev is_tail_char : ℕ → Bool
is_tail_char c = is_lower c || leb 65 c && leb c 90 || is_digit c || c == 46 || c == 45

-- `not relative`: None or the empty text
abbrev pub is_missing : Option String → Bool
is_missing none = true
is_missing (some s) = is_empty s

module _ {ℓ} {A B : Type ℓ} where
  infixl 10 ◌>>=◌
  abbrev ◌>>=◌ : Result A → (A → Result B) → Result B
  ◌>>=◌ (ok a) f = f a
  ◌>>=◌ (err e) f = err e

-- Path.joinpath and resolve are `resolved`; `within` says that the second path is the first or a
-- directory above it
pub record Resolved : Type 0 where
  pub is_absolute : Bool
  pub resolved : String
  pub within : Bool

unfoldable pub resolve_plugin_migration_path : (String → Resolved) → String → Result String
resolve_plugin_migration_path at raw_path =
    if (at raw_path).is_absolute
    then err (
        dry_run_error migration_path_absolute
          (concat "absolute migration path is not allowed: " raw_path))
    else if not (at raw_path).within
    then err (
        dry_run_error migration_path_traversal
          (concat "migration path escapes plugin directory: " raw_path))
    else ok (at raw_path).resolved

module _ (host : Host) where
  unfoldable pub validate_checksum_value : String → Result String
  unfolding strip
  validate_checksum_value value =
      let hex_value = host.lower (strip value) in
      ensure (text_length hex_value == 64 && all_chars is_hex hex_value) hex_value

  unfoldable pub validate_migration_order : String → Result String
  validate_migration_order value =
      ensure (text_length value == 14 && all_chars host.is_decimal value && host.is_datetime value)
        value

  unfoldable pub validate_plugin_name : String → Result String
  unfolding strip
  validate_plugin_name value = ensure (one_or_more is_name_char (strip value)) (strip value)

  -- v\d+
  abbrev is_api_version : String → Bool
  is_api_version String.[] = false
  is_api_version (String.◌∷◌ c s) = code c == 118 && one_or_more host.is_decimal s

  unfoldable pub validate_plugin_api_version : String → Result String
  unfolding strip
  validate_plugin_api_version value = ensure (is_api_version (strip value)) (strip value)

  unfoldable pub validate_core_compat : String → Result String
  unfolding strip
  validate_core_compat value = ensure (host.is_specifier (strip value)) (strip value)

  unfoldable pub validate_entrypoint : String → Result String
  unfolding strip has_colon ends_with
  validate_entrypoint value =
      ensure
        (has_colon (strip value)
          && not (starts_with (strip value) ":")
          && not (ends_with (strip value) ":"))
        (strip value)

  -- validate_scenarios_not_empty and validate_scenario_names
  unfoldable pub validate_scenarios : String → List String → Result (List String)
  unfolding has_duplicates
  validate_scenarios plugin_name [] = err value_error
  validate_scenarios plugin_name (s ∷ scenarios) =
      ensure
        (not (has_duplicates (s ∷ scenarios))
          && all_start_with (concat plugin_name ".") (s ∷ scenarios))
        (s ∷ scenarios)

  -- \d+\.\d+\.\d+(?:[-+][a-zA-Z0-9.-]+)? with `dots` dots still to come; `seen` says that the number
  -- being read has a digit
  unfoldable pub semver : ℕ → Bool → String → Bool
  semver dots seen String.[] = dots == 0 && seen
  semver dots seen (String.◌∷◌ c s) =
      let more = semver dots true s in
      let next = semver (dots - 1) false s in
      if host.is_decimal (code c)
      then more
      else if code c == 46 && seen && not (dots == 0)
      then next
      else (code c == 45 || code c == 43) && seen && dots == 0 && one_or_more is_tail_char s

  unfoldable pub validate_plugin_version : String → Result String
  unfolding strip semver
  validate_plugin_version value = ensure (semver 2 false (strip value)) (strip value)

  abbrev validate_migrations : Option PluginMigrations → Result (Option PluginMigrations)
  validate_migrations none = ok none
  validate_migrations (some m) = validate_migration_order m.migration_order >>= λ order.
      ensure (not (is_missing m.postgresql)) (some (record m { migration_order = order }))

  -- the validators of the fields, then the one of the model
  unfoldable pub validate_manifest : PluginManifestV1 → Result PluginManifestV1
  unfolding validate_plugin_name validate_plugin_version validate_plugin_api_version
      validate_core_compat validate_checksum_value validate_entrypoint validate_migration_order
      validate_scenarios
  validate_manifest m = validate_plugin_name m.plugin_name >>= λ name.
      validate_plugin_version m.plugin_version >>= λ version.
      validate_plugin_api_version m.plugin_api_version >>= λ api.
      validate_core_compat m.core_compat >>= λ compat.
      validate_checksum_value m.checksum.value >>= λ value.
      validate_entrypoint m.entrypoint >>= λ entrypoint.
      validate_migrations m.migrations >>= λ migrations.
      validate_scenarios name m.scenarios >>= λ scenarios. ok (record {
        plugin_name = name;
        plugin_version = version;
        plugin_api_version = api;
        core_compat = compat;
        checksum = record m.checksum { value = value };
        entrypoint = entrypoint;
        scenarios = scenarios;
        migrations = migrations;
      })

  abbrev invalid_manifest {ℓ} : {A : Type ℓ} → String → String → Exc → Result A
  invalid_manifest said path e =
      err
        (dry_run_error manifest_invalid (concat said (concat path (concat ": " (host.text_of e)))))

  abbrev model_validate : String → Json → Result PluginManifestV1
  model_validate path raw = elim (host.parse_manifest raw) [
    | none ↦ invalid_manifest "invalid manifest " path value_error
    | some m ↦ elim (validate_manifest m) [
      | ok manifest ↦ ok manifest
      | err e ↦ invalid_manifest "invalid manifest " path e
    ]
  ]

  -- the text of the file is `none` where it is not found
  unfoldable pub load_manifest : String → Option String → Result PluginManifestV1
  unfolding validate_manifest
  load_manifest path none =
      err (dry_run_error manifest_not_found (concat "manifest not found: " path))
  load_manifest path (some text) = elim (host.loads text) [
    | err e ↦ invalid_manifest "invalid JSON manifest " path e
    | ok raw ↦ model_validate path raw
  ]
