-- ===== src/Paths.antt =====
-- The paths of the plugin: which of them are synced, uploaded and written, and the names of
-- conflict copies (`apps/obsidian-plugin/src/sync/core/`).
pub mod Units
pub mod Settings
pub mod Marker
pub mod Reserved
pub mod ConfigRules
pub mod FileRules
pub mod Policy
pub mod Decimal
pub mod ConflictFile
mod Examples
