-- ===== src/Store/Calendar/Quotas.antt =====
-- internal/store/calendar.go and calendar_reminders.go: the requests on a calendar and the quotas.
use miyohub.Base.{List, String, [], count_if, length, ℕ, ◌∷◌, ◌≤◌}
use miyohub.Base.Int.{ℤ}
use miyohub.Model.{State}
use miyohub.Model.Calendar.{CalendarEvent}
use miyohub.Model.Push.{PushDelivery}
use miyohub.Store.Calendar.Events.{add_calendar_event, delete_calendar_event, event_of}
use miyohub.Store.Calendar.Subscribing.{add_calendar_reminder, is_arranged, of_subscriber}
use miyohub.Store.Environment.{Environment}
use miyohub.Store.Outbox.Reminders.{
  cancel_calendar_reminder, clear_calendar_reminder_history, finish_calendar_reminder,
}
use miyohub.Store.Transaction.{after}

pub data CalendarRequest : Type 0 where
  add_event : Environment → ℕ → String → String → String → String → CalendarEvent → CalendarRequest
  drop_event : ℕ → String → String → CalendarRequest
  unsubscribe : ℕ → String → String → CalendarRequest
  forget_past : ℕ → String → String → String → CalendarRequest
  count_outcome : ℕ → PushDelivery → CalendarRequest
  subscribe :
      Environment
      → ℕ
      → String
      → String
      → String
      → String
      → CalendarEvent
      → String
      → ℤ
      → ℕ
      → CalendarRequest

-- The state after a request that could be saved.
unfoldable pub perform_calendar : CalendarRequest → State → State
perform_calendar (add_event env now fresh user_id account_id game event) d =
    after d (add_calendar_event env now fresh user_id account_id game event d)
perform_calendar (drop_event now user_id id) d = after d (delete_calendar_event now user_id id d)
perform_calendar (unsubscribe now user_id id) d =
    after d (cancel_calendar_reminder now user_id id d)
perform_calendar (forget_past now user_id account_id game) d =
    after d (clear_calendar_reminder_history now user_id account_id game d)
perform_calendar (count_outcome now e) d = finish_calendar_reminder now e d
perform_calendar (subscribe env now fresh user_id account_id game event target lead observed) d =
    after d
      (add_calendar_reminder env now fresh user_id account_id game event target lead observed d)

unfoldable pub perform_calendars : List CalendarRequest → State → State
perform_calendars [] d = d
perform_calendars (r ∷ rs) d = perform_calendars rs (perform_calendar r d)

-- The quotas of the site and of each user, and one live reminder for each moment of an event.
pub record KeepsQuotas (d : State) : Type 0 where
  pub events : length d.calendar_events ≤ 5000
  pub events_of : (u : String) → count_if (event_of u) d.calendar_events ≤ 100
  pub reminders : length d.calendar_reminders ≤ 10000
  pub reminders_of : (u : String) → count_if (of_subscriber u) d.calendar_reminders ≤ 200
  pub once : (u a g e t : String) → count_if (is_arranged u a g e t) d.calendar_reminders ≤ 1
