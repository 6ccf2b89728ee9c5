-- ===== src/Api.antt =====
-- internal/api: what the HTTP handlers keep in memory.
pub mod Limits
pub mod Archives
pub mod Windows
pub mod Allowance
pub mod Previews
pub mod Confirmed
mod Tests
