-- ===== src/Store/Records.antt =====
-- internal/store/store.go: the log of the site, and what each user may read of the state.
pub mod Logs
pub mod Views
mod Tests
