-- ===== src/Store/Accounts.antt =====
-- internal/store/accounts.go, account_batch.go and archive.go: the game accounts that users bind.
pub mod Credentials
pub mod Binding
pub mod Editing
pub mod Batch
pub mod Archives
pub mod Targets
pub mod Unique
pub mod Steps
pub mod Apart
pub mod Invariant
pub mod Foreign
pub mod Requests
pub mod Exports
pub mod Batched
mod Tests
