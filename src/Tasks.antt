-- ===== src/Tasks.antt =====
-- internal/tasks: which accounts a run takes, and what it may do.
pub mod Options
pub mod Runner
pub mod Narrowed
pub mod Begun
mod Tests
