-- ===== src/Store.antt =====
-- internal/store/store.go: the store, its transactions, and the lookups that the operations share.
pub mod Errors
pub mod Environment
pub mod Lookup
pub mod Transaction
pub mod Atomic
pub mod Plans
pub mod Users
pub mod Outbox
pub mod Records
pub mod Probes
pub mod Files
pub mod Calendar
pub mod Tasks
pub mod Accounts
pub mod Samples
mod Tests
