-- ===== src/Storage.antt =====
-- internal/storage/store.go: objects kept under the hash of their bytes, in memory and in files.
pub mod Atomic
pub mod Calls
pub mod Ends
pub mod Store
pub mod Names
pub mod Content
pub mod Kept
pub mod Refines
pub mod Failures
