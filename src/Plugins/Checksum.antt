-- ===== src/Plugins/Checksum.antt =====
-- core/checksum.py and core/plugin_checksum.py: the digest of a plugin's directory, and the command that
-- writes it into the manifest. A directory is the sorted list of what rglob finds below it.
pub mod Laws
use scenario_pipeliner.Base.{
  ℕ, ◌≡◌, refl, ap, sym, ◌∙◌, Bool, true, false, not, ◌&&◌, ◌||◌, Option, none, some, List, [], ◌∷◌,
  if◌then◌else◌, arith, any, Option-cases, Bool-cases, inl, inr,
}
use scenario_pipeliner.Text.{String, concat, str_eq, eq_iff, eq_refl}
use scenario_pipeliner.Json.{Json, null, bool, num, str, arr, obj, Fields, end, field}
use scenario_pipeliner.Dict.{in_names}
use scenario_pipeliner.Api.{ChecksumManifestScope, scope_value}
use scenario_pipeliner.Broker.Delivery.{get}
use scenario_pipeliner.Db.Tx.{Exc, file_not_found_error, value_error, Result, ok, err}
use scenario_pipeliner.Plugins.Manifest.{Host}

pub record Entry : Type 0 where
  -- the parts of the path below the directory, the path with slashes, and its suffix
  pub parts : List String
  pub posix : String
  pub suffix : String
  pub is_symlink : Bool
  pub is_file : Bool
  pub content : String

abbrev pub manifest_file_name : String
manifest_file_name = "plugin.manifest.json"

-- d[k] = v
unfoldable pub set_field : String → Json → Fields → Fields
set_field k v end = field k v end
set_field k v (field j w rest) =
    let more = set_field k v rest in if str_eq j k then field j v rest else field j w more

-- {key: value for key, value in checksum.items() if key != "value"}
unfoldable pub without_value : Fields → Fields
without_value end = end
without_value (field j w rest) =
    let more = without_value rest in if str_eq j "value" then more else field j w more

abbrev strip_checksum : Fields → Option Json → Json
strip_checksum raw (some (obj checksum)) =
    obj (set_field "checksum" (obj (without_value checksum)) raw)
strip_checksum raw (some null) = obj raw
strip_checksum raw (some (bool b)) = obj raw
strip_checksum raw (some (num n)) = obj raw
strip_checksum raw (some (str s)) = obj raw
strip_checksum raw (some (arr xs)) = obj raw
strip_checksum raw none = obj raw

abbrev pub stripped_manifest : Json → Json
stripped_manifest (obj raw) = strip_checksum raw (get "checksum" raw)
stripped_manifest null = null
stripped_manifest (bool b) = bool b
stripped_manifest (num n) = num n
stripped_manifest (str s) = str s
stripped_manifest (arr xs) = arr xs

-- _IGNORED_NAMES
abbrev ignored_names : List String
ignored_names = "__pycache__" ∷ ".DS_Store" ∷ []

unfoldable pub is_ignored : Entry → Bool
is_ignored e =
    e.is_symlink
    || not e.is_file
    || any (λ part. in_names part ignored_names) e.parts
    || str_eq e.suffix ".pyc"

abbrev is_manifest : Entry → Bool
is_manifest e = str_eq e.posix manifest_file_name

-- manifest_path.read_text(), where manifest_path.is_file()
unfoldable pub manifest_text : List Entry → Option String
manifest_text [] = none
manifest_text (e ∷ entries) =
    if is_manifest e && e.is_file then some e.content else manifest_text entries

-- manifest_path.write_text(text)
unfoldable pub write_manifest : String → List Entry → List Entry
write_manifest text [] = []
write_manifest text (e ∷ entries) =
    let rest = write_manifest text entries in
    if is_manifest e && e.is_file then record e { content = text } ∷ entries else e ∷ rest

abbrev pub checksum_payload : ChecksumManifestScope → String → Fields → Fields
checksum_payload scope value existing =
    set_field "value" (str value)
      (set_field "scope" (str (scope_value scope)) (set_field "algorithm" (str "sha256") existing))

-- the merge into what the manifest has as its checksum
unfoldable pub merged_checksum : ChecksumManifestScope → String → Option Json → Json
merged_checksum scope value (some (obj existing)) = obj (checksum_payload scope value existing)
merged_checksum scope value (some null) = obj (checksum_payload scope value end)
merged_checksum scope value (some (bool b)) = obj (checksum_payload scope value end)
merged_checksum scope value (some (num n)) = obj (checksum_payload scope value end)
merged_checksum scope value (some (str s)) = obj (checksum_payload scope value end)
merged_checksum scope value (some (arr xs)) = obj (checksum_payload scope value end)
merged_checksum scope value none = obj (checksum_payload scope value end)

unfoldable pub with_checksum : ChecksumManifestScope → String → Fields → Json
with_checksum scope value raw =
    obj (set_field "checksum" (merged_checksum scope value (get "checksum" raw)) raw)

module _ (host : Host) where
  unfoldable pub canonical_manifest_digest : String → Result String
  canonical_manifest_digest text = elim (host.loads text) [
    | err e ↦ err e
    | ok raw ↦ ok (host.sha256 (host.dumps_canonical (stripped_manifest raw)))
  ]

  abbrev entry_digest : Entry → Result String
  entry_digest e =
      if is_manifest e then canonical_manifest_digest e.content else ok (host.sha256 e.content)

  -- what one file adds to the digest
  abbrev line : Entry → Result String → Result String → Result String
  line e (err x) rest = err x
  line e (ok digest) (err x) = err x
  line e (ok digest) (ok rest) =
      ok (concat e.posix (concat "\0" (concat digest (concat "\n" rest))))

  -- the bytes that the loop of sha256_directory hashes
  unfoldable pub directory_bytes : List Entry → Result String
  directory_bytes [] = ok ""
  directory_bytes (e ∷ entries) =
      let rest = directory_bytes entries in
      if is_ignored e then rest else line e (entry_digest e) rest

  abbrev hashed : Result String → Result String
  hashed (ok bytes) = ok (host.sha256 bytes)
  hashed (err e) = err e

  unfoldable pub sha256_directory : List Entry → Result String
  sha256_directory entries = hashed (directory_bytes entries)

  unfoldable pub compute_plugin_checksum : Bool → List Entry → Result String
  unfolding sha256_directory
  compute_plugin_checksum is_dir entries =
      if not is_dir then err file_not_found_error else sha256_directory entries

  abbrev write_raw : ChecksumManifestScope → String → Json → List Entry → Result String × List Entry
  write_raw scope value (obj raw) entries = (
    ok value,
    write_manifest (concat (host.dumps_indented (with_checksum scope value raw)) "\n") entries,
  )
  write_raw scope value null entries = (err value_error, entries)
  write_raw scope value (bool b) entries = (err value_error, entries)
  write_raw scope value (num n) entries = (err value_error, entries)
  write_raw scope value (str s) entries = (err value_error, entries)
  write_raw scope value (arr xs) entries = (err value_error, entries)

  abbrev write_loaded :
      ChecksumManifestScope → String → Result Json → List Entry → Result String × List Entry
  write_loaded scope value (ok raw) entries = write_raw scope value raw entries
  write_loaded scope value (err e) entries = (err e, entries)

  abbrev write_value :
      ChecksumManifestScope → Result String → String → List Entry → Result String × List Entry
  write_value scope (ok value) text entries = write_loaded scope value (host.loads text) entries
  write_value scope (err e) text entries = (err e, entries)

  -- the checksum that is written, computed where no value is given
  abbrev pub chosen_value : Bool → Option String → List Entry → Result String
  chosen_value is_dir (some value) entries = ok value
  chosen_value is_dir none entries = compute_plugin_checksum is_dir entries

  unfoldable pub write_checksum_to_manifest :
      Bool → Option String → ChecksumManifestScope → List Entry → Result String × List Entry
  write_checksum_to_manifest is_dir value scope entries = elim (manifest_text entries) [
    | none ↦ (err file_not_found_error, entries)
    | some text ↦ write_value scope (chosen_value is_dir value entries) text entries
  ]
