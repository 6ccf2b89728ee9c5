-- ===== src/Model/Calendar.antt =====
-- internal/model/calendar_reminder.go and game_record.go: events of a user's own calendar and the
-- reminders that the user subscribed to.
use miyohub.Base.{Bool, Option, String, false, true, ℕ}

pub data ReminderStatus : Type 0 where
  pending queued processed cancelled expired skipped : ReminderStatus
  other : String → ReminderStatus

pub record CalendarReminder : Type 0 where
  pub id : String
  pub user_id : String
  pub account_id : String
  pub game : String
  pub event_id : String
  pub title : String
  pub source : String
  pub target : String
  pub target_at : ℕ
  pub remind_at : ℕ
  pub observed_at : ℕ
  pub status : ReminderStatus
  pub detail : String
  pub accepted_channels : ℕ
  pub failed_channels : ℕ
  pub uncertain_channels : ℕ
  pub created_at : ℕ
  pub updated_at : ℕ

-- `none` is a nil pointer.
pub record CalendarEvent : Type 0 where
  pub id : String
  pub title : String
  pub kind : String
  pub source : String
  pub start_at : Option ℕ
  pub end_at : Option ℕ
  pub finished : Option Bool

pub record CustomCalendarEvent : Type 0 where
  pub event : CalendarEvent
  pub user_id : String
  pub account_id : String
  pub game : String
  pub created_at : ℕ

abbrev pub is_reminder_pending : ReminderStatus → Bool
is_reminder_pending ReminderStatus.pending = true
is_reminder_pending _ = false

abbrev pub is_queued : ReminderStatus → Bool
is_queued ReminderStatus.queued = true
is_queued _ = false

abbrev pub is_processed : ReminderStatus → Bool
is_processed ReminderStatus.processed = true
is_processed _ = false
