-- ===== src/Tests/Plugins.antt =====
-- Tests and examples for plugins: names, checksums, the registries and the dry run.
use scenario_pipeliner.Base.{
  ◌≡◌, ◌≤◌, ◌||◌, ltb, ◌⊎◌, refl, inl, true, false, none, some, List, [], ◌∷◌, if◌then◌else◌,
}
use scenario_pipeliner.Text.{String, concat, str_eq, strip, is_empty}
use scenario_pipeliner.Json.{Json, str, obj, Fields, end, field}
use scenario_pipeliner.Dict.{lookup}
use scenario_pipeliner.Api.{prod, ChecksumManifestScope, scope_value, ChecksumStatus}
use scenario_pipeliner.Broker.Delivery.{get}
use scenario_pipeliner.Db.Tx.{Result, ok, err, invalid_schema_name}
use scenario_pipeliner.Plugins.Names.{
  is_schema_text, text_length, max_schema_length, is_reserved, validate_schema_name,
  plugin_schema_name, sanitized, is_digit, check_schema, is_word, named_schema,
}
use scenario_pipeliner.Plugins.Names.Laws.{prefixed, accepted_name, plugin_schema_name_lem}
use scenario_pipeliner.Plugins.Manifest.{Host, PluginManifestV1}
use scenario_pipeliner.Plugins.Checksum.{
  Entry, manifest_text, with_checksum, sha256_directory, write_checksum_to_manifest,
  canonical_manifest_digest, directory_bytes, is_ignored,
}
use scenario_pipeliner.Plugins.Checksum.Laws.{Names, written_checksum}
use scenario_pipeliner.Plugins.Registry.{
  PluginPath, PluginRegistryV1, empty_registry, RegistryRegisterResult, register as enter_manifest,
  actual_checksum,
}
use scenario_pipeliner.Plugins.Registry.Cases.{Consistent}
use scenario_pipeliner.Plugins.Registry.Laws.{
  register-Consistent, start, next, one_owner, production_checksum,
}

-- str.lower is taken as it is on these names, which have no capitals
abbrev pub same : String → String
same s = s

plugin_schema_test : plugin_schema_name same "1-my--plug.in_" ≡ ok "p_1_my_plug_in"
unfolding plugin_schema_name sanitized validate_schema_name named_schema strip is_word check_schema
    is_reserved
plugin_schema_test = refl

reserved_test : validate_schema_name "pg_x" ≡ err invalid_schema_name
unfolding validate_schema_name check_schema strip is_word is_reserved
reserved_test = refl

accepted : validate_schema_name " sp_2 " ≡ ok "sp_2"
unfolding validate_schema_name check_schema strip is_word is_reserved
accepted = refl

accepted_name_example :
    (is_schema_text "sp_2" ≡ true)
    × (text_length "sp_2" ≤ max_schema_length)
    × (is_reserved "sp_2" ≡ false)
    × (validate_schema_name "sp_2" ≡ ok "sp_2")
accepted_name_example = accepted_name " sp_2 " "sp_2" accepted

plugin_schema_name_lem_example :
    let s = sanitized same "1-plug" in
    plugin_schema_name same "1-plug" ≡ (
      if is_empty s || ltb max_schema_length (text_length (prefixed s)) || is_reserved (prefixed s)
      then err invalid_schema_name
      else ok (prefixed s))
plugin_schema_name_lem_example = plugin_schema_name_lem same "1-plug"

abbrev hex : String
hex = "0123456789abcdef0123456789abcdef0123456789abcdef0123456789abcdef"

abbrev pub manifest : PluginManifestV1
manifest = record {
  plugin_name = "a";
  plugin_version = "1.0.0";
  plugin_api_version = "v1";
  core_compat = ">=0";
  checksum = record { scope = ChecksumManifestScope.unpacked; value = hex };
  entrypoint = "a.plugin:register";
  scenarios = "a.x" ∷ [];
  migrations = none;
}

abbrev old_checksum : Fields
old_checksum =
    field "algorithm" (str "sha256") (field "scope" (str "unpacked") (field "value" (str "") end))

abbrev old_manifest : Fields
old_manifest = field "plugin_name" (str "a") (field "checksum" (obj old_checksum) end)

-- a digest that is the text itself, and two texts of the manifest: the one with an empty checksum, and
-- the one that is written
abbrev canonical : Json → String
canonical j = "{}"

abbrev digest : String
digest = concat "plugin.manifest.json" (concat "\0" (concat "{}" "\n"))

abbrev pub host : Host
host = record {
  lower = same;
  repr = same;
  is_decimal = is_digit;
  is_specifier = λ s. true;
  in_specifier = λ v s. ok true;
  is_datetime = λ s. true;
  sha256 = same;
  loads = λ s.
      if str_eq s "old"
      then ok (obj old_manifest)
      else ok (with_checksum ChecksumManifestScope.unpacked digest old_manifest);
  dumps_canonical = canonical;
  dumps_indented = λ j. "new";
  parse_manifest = λ j. some manifest;
  text_of = λ e. "";
}

abbrev pub entry : Entry
entry = record {
  parts = "plugin.manifest.json" ∷ [];
  posix = "plugin.manifest.json";
  suffix = ".json";
  is_symlink = false;
  is_file = true;
  content = "old";
}

digested : sha256_directory host (entry ∷ []) ≡ ok digest
unfolding sha256_directory directory_bytes is_ignored canonical_manifest_digest
digested = refl

abbrev written : Result String × List Entry
written = write_checksum_to_manifest host true none ChecksumManifestScope.unpacked (entry ∷ [])

in_manifest : manifest_text (entry ∷ []) ≡ some "old"
unfolding manifest_text
in_manifest = refl

in_object : get "checksum" old_manifest ≡ some (obj old_checksum)
unfolding get
in_object = refl

named : Names ChecksumManifestScope.unpacked old_checksum
unfolding get scope_value
named = (refl, refl)

written_checksum_example : (written.0 ≡ ok digest) × (sha256_directory host written.1 ≡ ok digest)
written_checksum_example =
    written_checksum host ChecksumManifestScope.unpacked (entry ∷ []) digest "old" old_manifest
      old_checksum in_manifest refl in_object named refl digested

abbrev pub plugin_dir : PluginPath
plugin_dir = record {
  posix = "plugins/a";
  is_file = false;
  is_dir = true;
  content = "";
  tree = entry ∷ [];
}

-- the manifest with the digest of the directory
abbrev pub signed : PluginManifestV1
signed = record manifest {
  checksum = record { scope = ChecksumManifestScope.unpacked; value = digest };
}

nothing_yet : Consistent host empty_registry
unfolding lookup
nothing_yet = λ name m h. cc

registers :
    (enter_manifest host signed prod "0.1" (some plugin_dir) empty_registry).0
    ≡ ok (record { warnings = []; checksum_status = ChecksumStatus.ok })
unfolding enter_manifest directory_bytes is_ignored canonical_manifest_digest named_schema sanitized
    strip is_word validate_schema_name check_schema is_reserved
registers = refl

abbrev registered : PluginRegistryV1
registered = (enter_manifest host signed prod "0.1" (some plugin_dir) empty_registry).1

register-Consistent_example :
    Consistent host registered
    × ((registered ≡ empty_registry)
        ⊎ ((result : RegistryRegisterResult) × ((enter_manifest host signed prod "0.1"
                (some plugin_dir)
                empty_registry).0
              ≡ ok result)))
register-Consistent_example =
    register-Consistent host signed prod "0.1" (some plugin_dir) empty_registry nothing_yet

found_a : lookup "a" registered.plugins ≡ some signed
unfolding enter_manifest lookup directory_bytes is_ignored canonical_manifest_digest named_schema
    sanitized strip is_word validate_schema_name check_schema is_reserved
found_a = refl

one_owner_example : ◌≡◌ {A = String} "a" "a"
one_owner_example =
    one_owner host registered "a" "a" signed signed
      (next signed prod "0.1" (some plugin_dir) empty_registry start) found_a found_a
      (inl ("a.x", refl, refl))

production_checksum_example :
    (actual_checksum host signed plugin_dir ≡ some (ok digest))
    × (ChecksumStatus.ok ≡ ChecksumStatus.ok)
production_checksum_example =
    production_checksum host signed "0.1" plugin_dir empty_registry
      (record { warnings = []; checksum_status = ChecksumStatus.ok }) registers
