-- ===== src/Store/Outbox.antt =====
-- internal/store/push_outbox.go and calendar_reminders.go: the queue of notifications and the
-- reminders whose notifications pass through it.
pub mod Reminders
pub mod Queue
pub mod Delivery
pub mod Requests
pub mod Progress
pub mod Loops
pub mod Advance
pub mod Bounds
pub mod Dispatch
mod Tests
