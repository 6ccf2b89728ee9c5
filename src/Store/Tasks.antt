-- ===== src/Store/Tasks.antt =====
-- internal/store/task_settings.go and internal/model/schedule.go: the work chosen for an account, its
-- schedule, and the daily claim of an automatic run.
pub mod Settings
pub mod Runs
pub mod Daily
mod Quiet
pub mod Edited
mod Tests
