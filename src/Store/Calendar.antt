-- ===== src/Store/Calendar.antt =====
-- internal/store/calendar.go and calendar_reminders.go: a user's own events, and reminders of events.
pub mod Events
pub mod Subscribing
pub mod Quotas
pub mod Handled
mod Kept
mod Tests
