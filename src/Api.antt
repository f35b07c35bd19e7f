-- ===== src/Api.antt =====
-- api/enums.py: the enumerations that plugins, their registration and the dry run use.
use scenario_pipeliner.Base.{Bool, true, false}
use scenario_pipeliner.Text.{String}

pub data Mode : Type 0 where
  dev prod : Mode

pub data DryRunStatus : Type 0 where
  ok warning error : DryRunStatus

pub data LoadStatus : Type 0 where
  loaded skipped error : LoadStatus

pub data ChecksumStatus : Type 0 where
  ok mismatch not_checked : ChecksumStatus

pub data ChecksumManifestScope : Type 0 where
  wheel unpacked : ChecksumManifestScope

pub data ChecksumReportScope : Type 0 where
  wheel unpacked unknown : ChecksumReportScope

pub data DryRunErrorCode : Type 0 where
  plugin_load_error registry_error manifest_not_found manifest_invalid : DryRunErrorCode
  plugin_name_conflict plugin_schema_conflict scenario_conflict : DryRunErrorCode
  core_compat_mismatch plugin_api_mismatch : DryRunErrorCode
  checksum_scope_mismatch checksum_mismatch : DryRunErrorCode
  migration_path_missing migration_path_not_file : DryRunErrorCode
  migration_path_absolute migration_path_traversal : DryRunErrorCode

abbrev pub is_prod : Mode → Bool
is_prod dev = false
is_prod prod = true

abbrev pub is_wheel : ChecksumManifestScope → Bool
is_wheel ChecksumManifestScope.wheel = true
is_wheel ChecksumManifestScope.unpacked = false

-- `.value` of a member
unfoldable pub scope_value : ChecksumManifestScope → String
scope_value ChecksumManifestScope.wheel = "wheel"
scope_value ChecksumManifestScope.unpacked = "unpacked"

-- ChecksumReportScope(scope)
unfoldable pub report_scope : ChecksumManifestScope → ChecksumReportScope
report_scope ChecksumManifestScope.wheel = ChecksumReportScope.wheel
report_scope ChecksumManifestScope.unpacked = ChecksumReportScope.unpacked

abbrev pub is_loaded : LoadStatus → Bool
is_loaded loaded = true
is_loaded skipped = false
is_loaded LoadStatus.error = false

abbrev pub is_skipped : LoadStatus → Bool
is_skipped loaded = false
is_skipped skipped = true
is_skipped LoadStatus.error = false
