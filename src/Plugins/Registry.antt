-- ===== src/Plugins/Registry.antt =====
-- core/registry.py and core/plugin_identity.py: the registry of manifests, in which every plugin name,
-- plugin schema and scenario has one owner. The path of a plugin is given with what pathlib reads there.
pub mod Laws
pub mod Cases
use scenario_pipeliner.Base.{
  ℕ, Bool, true, false, not, ◌&&◌, ◌||◌, Option, none, some, List, [], ◌∷◌, if◌then◌else◌,
}
use scenario_pipeliner.Text.{String, concat, str_eq}
use scenario_pipeliner.Dict.{lookup, put, in_names, keys}
use scenario_pipeliner.Api.{
  Mode, ChecksumStatus, ok, mismatch, not_checked, ChecksumManifestScope, DryRunErrorCode,
  plugin_name_conflict, plugin_schema_conflict, scenario_conflict, core_compat_mismatch,
  plugin_api_mismatch, checksum_scope_mismatch, checksum_mismatch, is_prod, is_wheel,
}
use scenario_pipeliner.Db.Tx.{Exc, dry_run_error, Result, err}
use scenario_pipeliner.Plugins.Names.{plugin_schema_name}
use scenario_pipeliner.Plugins.Manifest.{PluginManifestV1, Host}
use scenario_pipeliner.Plugins.Checksum.{Entry, sha256_directory}

pub record PluginPath : Type 0 where
  pub posix : String
  pub is_file : Bool
  pub is_dir : Bool
  -- the bytes of a file, the files below a directory
  pub content : String
  pub tree : List Entry

pub record PluginRegistryV1 : Type 0 where
  pub plugins : List (String × PluginManifestV1)
  pub scenario_to_plugin : List (String × String)
  pub schema_to_plugin : List (String × String)
  pub plugin_names : List String

abbrev pub empty_registry : PluginRegistryV1
empty_registry = record {
  plugins = [];
  scenario_to_plugin = [];
  schema_to_plugin = [];
  plugin_names = [];
}

pub record RegistryRegisterResult : Type 0 where
  pub warnings : List String
  pub checksum_status : ChecksumStatus

abbrev pub concat_all : List String → String
concat_all [] = ""
concat_all (s ∷ texts) = concat s (concat_all texts)

abbrev fail {ℓ} : {A : Type ℓ} → DryRunErrorCode → List String → Result A
fail code message = err (dry_run_error code (concat_all message))

-- the seen names and the schema owners
abbrev pub Identities : Type 0
Identities = List String × List (String × String)

-- a mismatch is an exception in production and a warning elsewhere
abbrev on_mismatch : Mode → DryRunErrorCode → List String → Result RegistryRegisterResult
on_mismatch mode code message =
    if is_prod mode
    then fail code message
    else Result.ok (record { warnings = concat_all message ∷ []; checksum_status = mismatch })

-- _validate_scenario_collisions
unfoldable pub validate_scenario_collisions :
    String → List String → List (String × String) → Result (Unit {0})
unfolding lookup
validate_scenario_collisions plugin_name [] owners = Result.ok tt
validate_scenario_collisions plugin_name (scenario ∷ scenarios) owners =
    let rest = validate_scenario_collisions plugin_name scenarios owners in
    elim (lookup scenario owners) [
      | some owner ↦
          fail scenario_conflict
            ("scenario collision for " ∷ scenario ∷ ": " ∷ owner ∷ " vs " ∷ plugin_name ∷ [])
      | none ↦ rest
    ]

-- the loop that records the owner of each scenario
unfoldable pub own_scenarios :
    String → List String → List (String × String) → List (String × String)
unfolding put
own_scenarios plugin_name [] owners = owners
own_scenarios plugin_name (scenario ∷ scenarios) owners =
    own_scenarios plugin_name scenarios (put scenario plugin_name owners)

unfoldable pub validate_plugin_api_version : PluginManifestV1 → Result (Unit {0})
validate_plugin_api_version manifest =
    if not (str_eq manifest.plugin_api_version "v1")
    then fail plugin_api_mismatch (
        "plugin " ∷ manifest.plugin_name ∷ " has unsupported plugin_api_version="
        ∷ manifest.plugin_api_version ∷ [])
    else Result.ok tt

-- the owner of a schema is somebody else
abbrev pub taken_by_other : Option String → String → Bool
taken_by_other none plugin_name = false
taken_by_other (some owner) plugin_name = not (str_eq owner plugin_name)

abbrev pub named : Option String → String
named none = "None"
named (some owner) = owner

module _ (host : Host) where
  abbrev claim_schema : String → Identities → Result String → Result String × Identities
  claim_schema plugin_name (seen, owners) (err e) = (err e, (seen, owners))
  claim_schema plugin_name (seen, owners) (Result.ok schema) =
      if taken_by_other (lookup schema owners) plugin_name
      then (
        fail plugin_schema_conflict (
            "plugin schema collision: "
            ∷ host.repr schema
            ∷ " for "
            ∷ host.repr (named (lookup schema owners))
            ∷ " and "
            ∷ host.repr plugin_name
            ∷ []),
        (seen, owners),
      )
      else (Result.ok schema, (plugin_name ∷ seen, put schema plugin_name owners))

  unfoldable pub claim_plugin_identity : String → Identities → Result String × Identities
  unfolding lookup put plugin_schema_name
  claim_plugin_identity plugin_name (seen, owners) =
      if in_names plugin_name seen
      then (
        fail plugin_name_conflict ("duplicate plugin_name: " ∷ plugin_name ∷ []),
        (seen, owners),
      )
      else claim_schema plugin_name (seen, owners) (plugin_schema_name host.lower plugin_name)

  abbrev compatible : PluginManifestV1 → String → Result Bool → Result (Unit {0})
  compatible manifest core_version (err e) = err e
  compatible manifest core_version (Result.ok true) = Result.ok tt
  compatible manifest core_version (Result.ok false) =
      fail core_compat_mismatch
        ("plugin " ∷ manifest.plugin_name ∷ " incompatible with core_version=" ∷ core_version ∷ [])

  unfoldable pub validate_compatibility : PluginManifestV1 → String → Result (Unit {0})
  validate_compatibility manifest core_version =
      compatible manifest core_version (host.in_specifier core_version manifest.core_compat)

  -- the digest of what lies at the path, and `none` where it is neither a file nor a directory
  abbrev pub actual_checksum : PluginManifestV1 → PluginPath → Option (Result String)
  actual_checksum manifest path =
      if is_wheel manifest.checksum.scope && path.is_file
      then some (Result.ok (host.sha256 path.content))
      else if path.is_dir
      then some (sha256_directory host path.tree)
      else if path.is_file
      then some (Result.ok (host.sha256 path.content))
      else none

  abbrev pub compare_checksum :
      PluginManifestV1 → Mode → String → Option (Result String) → Result RegistryRegisterResult
  compare_checksum manifest mode posix none = Result.ok (record {
    warnings = concat "checksum skipped: unsupported plugin_path=" posix ∷ [];
    checksum_status = not_checked;
  })
  compare_checksum manifest mode posix (some (err e)) = err e
  compare_checksum manifest mode posix (some (Result.ok actual)) =
      if str_eq actual manifest.checksum.value
      then Result.ok (record { warnings = []; checksum_status = ok })
      else on_mismatch mode checksum_mismatch (
          "checksum mismatch for " ∷ manifest.plugin_name ∷ ": expected=" ∷ manifest.checksum.value
          ∷ " actual=" ∷ actual ∷ [])

  unfoldable pub validate_checksum :
      PluginManifestV1 → Mode → Option PluginPath → Result RegistryRegisterResult
  unfolding sha256_directory
  validate_checksum manifest mode none = Result.ok (record { warnings = []; checksum_status = ok })
  validate_checksum manifest mode (some path) =
      if is_wheel manifest.checksum.scope && not path.is_file
      then on_mismatch mode checksum_scope_mismatch (
          "checksum scope mismatch for " ∷ manifest.plugin_name
          ∷ ": scope=wheel requires a wheel file path" ∷ [])
      else if not (is_wheel manifest.checksum.scope) && not path.is_dir
      then on_mismatch mode checksum_scope_mismatch (
          "checksum scope mismatch for " ∷ manifest.plugin_name
          ∷ ": scope=unpacked requires a plugin directory path" ∷ [])
      else compare_checksum manifest mode path.posix (actual_checksum manifest path)

  -- the last part of register, once the identity is claimed
  abbrev accept :
      PluginManifestV1
      → PluginRegistryV1
      → RegistryRegisterResult
      → Result String × Identities
      → Result RegistryRegisterResult × PluginRegistryV1
  accept manifest registry result (err e, (seen, owners)) =
      (err e, record registry { plugin_names = seen; schema_to_plugin = owners })
  accept manifest registry result (Result.ok schema, (seen, owners)) = (
    Result.ok result,
    record {
      plugins = put manifest.plugin_name manifest registry.plugins;
      scenario_to_plugin =
          own_scenarios manifest.plugin_name manifest.scenarios registry.scenario_to_plugin;
      schema_to_plugin = owners;
      plugin_names = seen;
    },
  )

  -- the checks that read the registry and write nothing
  unfoldable pub check_manifest :
      PluginManifestV1
      → Mode
      → String
      → Option PluginPath
      → PluginRegistryV1
      → Result RegistryRegisterResult
  unfolding validate_plugin_api_version validate_compatibility validate_checksum
      validate_scenario_collisions
  check_manifest manifest mode core_version path registry =
      elim (validate_plugin_api_version manifest) [
        | err e ↦ err e
        | Result.ok _ ↦
            if in_names manifest.plugin_name (keys registry.plugins)
            then fail plugin_name_conflict ("duplicate plugin_name: " ∷ manifest.plugin_name ∷ [])
            else elim (validate_compatibility manifest core_version) [
              | err e ↦ err e
              | Result.ok _ ↦ elim (validate_checksum manifest mode path) [
                | err e ↦ err e
                | Result.ok result ↦
                    elim (validate_scenario_collisions manifest.plugin_name manifest.scenarios
                      registry.scenario_to_plugin) [
                        | err e ↦ err e
                        | Result.ok _ ↦ Result.ok result
                      ]
              ]
            ]
      ]

  unfoldable pub register :
      PluginManifestV1
      → Mode
      → String
      → Option PluginPath
      → PluginRegistryV1
      → Result RegistryRegisterResult × PluginRegistryV1
  unfolding check_manifest claim_plugin_identity own_scenarios
  register manifest mode core_version path registry =
      elim (check_manifest manifest mode core_version path registry) [
        | err e ↦ (err e, registry)
        | Result.ok result ↦ accept manifest registry result (
            claim_plugin_identity manifest.plugin_name
              (registry.plugin_names, registry.schema_to_plugin))
      ]
