-- ===== src/Coordinator.antt =====
-- The sync coordinator of the server: apps/api/src/sync/coordinator.
pub mod Tables
pub mod BlobStore
pub mod CursorStore
pub mod MutationStore
pub mod VaultLock
pub mod StoreHistory
pub mod Maintenance
pub mod Listing
pub mod EntryStore
pub mod Health
pub mod BlobSync
pub mod CommitService
pub mod History
pub mod Requests
pub mod Examples
