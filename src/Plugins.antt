-- ===== src/Plugins.antt =====
-- core/, db/ and worker/: plugins, from their manifests to the registries and migrations.
pub mod Names
pub mod Manifest
pub mod Checksum
pub mod Registry
pub mod Runtime
pub mod DryRun
pub mod Sql
pub mod Migrate
