-- ===== src/Sync.antt =====
-- crates/sync/vfs-sync-core: what the sync layer says to the object store, and what it remembers.
pub mod Types
pub mod FileMetadata
pub mod Exec
pub mod Clock
pub mod Store
pub mod Lease
pub mod Config
pub mod Backend
pub mod Manager
mod Examples
