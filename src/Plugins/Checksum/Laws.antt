-- ===== src/Plugins/Checksum/Laws.antt =====
-- Writing a plugin's checksum into its manifest: the digest of the directory does not read the value, so
-- that what was written is what is computed again.
use scenario_pipeliner.Base.{
  ◌≡◌, refl, ap, true, ◌&&◌, none, some, List, [], ◌∷◌, arith, Bool-cases, &&-true, inl, inr,
}
use scenario_pipeliner.Text.{String, concat, str_eq, eq_refl}
use scenario_pipeliner.Json.{Json, str, obj, Fields, end, field}
use scenario_pipeliner.Api.{ChecksumManifestScope, scope_value}
use scenario_pipeliner.Broker.Delivery.{get}
use scenario_pipeliner.Db.Tx.{ok}
use scenario_pipeliner.Plugins.Manifest.{Host}
use scenario_pipeliner.Plugins.Checksum.{
  Entry, manifest_file_name, set_field, without_value, stripped_manifest, is_ignored, manifest_text,
  write_manifest, merged_checksum, with_checksum, canonical_manifest_digest, directory_bytes,
  sha256_directory, compute_plugin_checksum, write_checksum_to_manifest,
}

get-set_field : (k : String) (v : Json) (fs : Fields) → get k (set_field k v fs) ≡ some v
unfolding get set_field
get-set_field k v end = ground (arith, eq_refl k)
get-set_field k v (field j w rest) = elim (Bool-cases (str_eq j k)) [
  | inl e ↦ rw (e, e) refl
  | inr e ↦ rw (e, e) (get-set_field k v rest)
]

set_field_twice :
    (k : String) (v w : Json) (fs : Fields) → set_field k v (set_field k w fs) ≡ set_field k v fs
unfolding set_field
set_field_twice k v w end = ground (arith, eq_refl k)
set_field_twice k v w (field j x rest) = elim (Bool-cases (str_eq j k)) [
  | inl e ↦ rw (e, e) refl
  | inr e ↦ rw (e, e) (ap (field j x) (set_field_twice k v w rest))
]

-- Setting a key to what it has changes nothing.
set_field_same : (k : String) (v : Json) (fs : Fields) → get k fs ≡ some v → set_field k v fs ≡ fs
unfolding get set_field
set_field_same k v end h = cc
set_field_same k v (field j w rest) h = ground (arith, set_field_same k v rest)

without_value-set :
    (v : Json) (fs : Fields) → without_value (set_field "value" v fs) ≡ without_value fs
unfolding set_field without_value
without_value-set v end = refl
without_value-set v (field j w rest) = elim (Bool-cases (str_eq j "value")) [
  | inl e ↦ rw (e, e) refl
  | inr e ↦ rw (e, e) (ap (field j w) (without_value-set v rest))
]

-- the checksum block already names the algorithm and the scope that the command writes
abbrev pub Names : ChecksumManifestScope → Fields → Type 0
Names scope checksum =
    (get "algorithm" checksum ≡ some (str "sha256"))
    × (get "scope" checksum ≡ some (str (scope_value scope)))

stripped_same :
    (scope : ChecksumManifestScope) (value : String) (raw checksum : Fields)
    → get "checksum" raw ≡ some (obj checksum)
    → Names scope checksum
    → stripped_manifest (with_checksum scope value raw) ≡ stripped_manifest (obj raw)
unfolding with_checksum merged_checksum
stripped_same scope value raw checksum h (a, s) =
    rw
      (
        h,
        set_field_same "algorithm" (str "sha256") checksum a,
        set_field_same "scope" (str (scope_value scope)) checksum s,
        get-set_field "checksum" (obj (set_field "value" (str value) checksum)) raw,
        without_value-set (str value) checksum,
        set_field_twice "checksum" (obj (without_value checksum))
            (obj (set_field "value" (str value) checksum)) raw,
      )
      refl

module _ (host : Host) where
  -- A directory's bytes depend on the manifest's text only through its digest.
  directory_bytes-write :
      (old new : String) (entries : List Entry)
      → manifest_text entries ≡ some old
      → canonical_manifest_digest host new ≡ canonical_manifest_digest host old
      → directory_bytes host (write_manifest new entries) ≡ directory_bytes host entries
  unfolding manifest_text write_manifest directory_bytes is_ignored
  directory_bytes-write old new [] h same = refl
  directory_bytes-write old new (e ∷ entries) h same =
      elim (Bool-cases (str_eq e.posix manifest_file_name && e.is_file)) [
        | inl m ↦
            let (p, f) = &&-true (str_eq e.posix manifest_file_name) e.is_file m in
            let c : e.content ≡ old = ground arith in rw (p, f, p, c, same) refl
        | inr m ↦
            let k : manifest_text entries ≡ some old = ground arith in
            rw (m, directory_bytes-write old new entries k same) refl
      ]

  -- Where the manifest is an object whose checksum block already names the algorithm and the scope, and
  -- json.loads reads the manifest back that json.dumps wrote, the command returns the digest that it
  -- computed, and the directory has that digest after the manifest is written.
  pub written_checksum :
      (scope : ChecksumManifestScope) (entries : List Entry) (value text : String)
      (raw checksum : Fields)
      → manifest_text entries ≡ some text
      → host.loads text ≡ ok (obj raw)
      → get "checksum" raw ≡ some (obj checksum)
      → Names scope checksum
      → host.loads (concat (host.dumps_indented (with_checksum scope value raw)) "\n")
        ≡ ok (with_checksum scope value raw)
      → sha256_directory host entries ≡ ok value
      → let (result, after) = write_checksum_to_manifest host true none scope entries in
        (result ≡ ok value) × (sha256_directory host after ≡ ok value)
  unfolding write_checksum_to_manifest compute_plugin_checksum sha256_directory
      canonical_manifest_digest
  written_checksum scope entries value text raw checksum here loaded block names reads digest =
      let new = concat (host.dumps_indented (with_checksum scope value raw)) "\n" in
      let same : canonical_manifest_digest host new ≡ canonical_manifest_digest host text =
        rw
          (
            reads,
            loaded,
            stripped_same scope value raw checksum block names,
            canonical_manifest_digest,
          )
          refl in
      let kept : sha256_directory host (write_manifest new entries) ≡ ok value =
        rw (directory_bytes-write text new entries here same, sha256_directory) digest in
      rw (here, digest, loaded, write_checksum_to_manifest, compute_plugin_checksum) (refl, kept)
