-- ===== src/Store/Calendar/Subscribing.antt =====
-- internal/store/calendar_reminders.go: how a reminder is added.
use miyohub.Base.{
  Bool, List, Option, String, [], any_of, blank, count_if, eqb, find_first, if◌then◌else◌, leb,
  length, ltb, none, not, some, ℕ, ◌&&◌, ◌*◌, ◌++◌, ◌+◌, ◌-◌, ◌==◌, ◌||◌, ◌∷◌,
}
use miyohub.Base.Int.{eqb_ℤ, pos, pos_part, ℤ}
use miyohub.Base.Result.{Result, ok, require, ◌>>=◌, ◌>>◌}
use miyohub.Model.{State}
use miyohub.Model.Calendar.{
  CalendarEvent, CalendarReminder, CustomCalendarEvent, ReminderStatus, is_processed, is_queued,
  is_reminder_pending,
}
use miyohub.Model.Plans.{minute}
use miyohub.Store.Calendar.Events.{calendar_event_valid, record_game, runs_for}
use miyohub.Store.Environment.{Environment}
use miyohub.Store.Errors.{Err}
use miyohub.Store.Lookup.{account_runnable}
use miyohub.Store.Transaction.{Effect, or_fail, write}

abbrev pub leads : List ℤ
leads = pos 0 ∷ pos 10 ∷ pos 30 ∷ pos 60 ∷ pos 1440 ∷ []

abbrev pub is_lead : ℤ → Bool
is_lead lead = any_of (λ l. eqb_ℤ l lead) leads

abbrev pub is_target : String → Bool
is_target target = target == "start" || target == "end"

abbrev pub is_fresh_snapshot : ℕ → ℕ → Bool
is_fresh_snapshot now observed =
    not (eqb observed 0) && leb now (observed + 30 * minute) && leb observed (now + minute)

abbrev pub own_event : String → String → String → String → CustomCalendarEvent → Bool
own_event user_id account_id game id e =
    e.event.id == id && e.user_id == user_id && e.account_id == account_id && e.game == game

abbrev pub with_creation : CustomCalendarEvent → Result Err (CalendarEvent × ℕ)
with_creation own = ok (own.event, own.created_at)

-- The event that the reminder is of, with the time at which it was seen: the user's own, or one of the
-- official calendar.
unfoldable pub known_event :
    ℕ → String → String → String → CalendarEvent → ℕ → State → Result Err (CalendarEvent × ℕ)
known_event now user_id account_id game event observed d =
    if event.source == "manual"
    then (or_fail (find_first (own_event user_id account_id game event.id) d.calendar_events)
          Err.event_gone
        >>= with_creation)
    else (require (event.source == "official" && is_fresh_snapshot now observed)
          Err.snapshot_expired
        >> ok (event, observed))

abbrev pub target_time : String → CalendarEvent → Option ℕ
target_time target e = if target == "end" then e.end_at else e.start_at

abbrev pub after_now : ℕ → Option ℕ → Option ℕ
after_now now none = none
after_now now (some at) = if ltb now at then some at else none

abbrev pub of_subscriber : String → CalendarReminder → Bool
of_subscriber user_id r = r.user_id == user_id

-- A reminder of the same moment that is not over or was handled.
abbrev pub is_arranged : String → String → String → String → String → CalendarReminder → Bool
is_arranged user_id account_id game event_id target r =
    r.user_id == user_id
    && r.account_id == account_id
    && r.game == game
    && r.event_id == event_id
    && r.target == target
    && (is_reminder_pending r.status || is_queued r.status || is_processed r.status)

abbrev pub set_reminders : State → List CalendarReminder → State
set_reminders d rs = record d { calendar_reminders = rs }

-- The reminder that is added.
abbrev pub new_reminder :
    ℕ → String → String → String → String → String → ℕ → ℕ → CalendarEvent × ℕ → CalendarReminder
new_reminder now fresh user_id account_id game target at remind_at known = record {
  id = fresh;
  user_id = user_id;
  account_id = account_id;
  game = game;
  event_id = known.0.id;
  title = known.0.title;
  source = known.0.source;
  target = target;
  target_at = at;
  remind_at = remind_at;
  observed_at = known.1;
  status = ReminderStatus.pending;
  detail = "";
  accepted_channels = 0;
  failed_channels = 0;
  uncertain_channels = 0;
  created_at = now;
  updated_at = now;
}

-- `AddCalendarReminder`, with the random identifier.
unfoldable pub add_calendar_reminder :
    Environment
    → ℕ
    → String
    → String
    → String
    → String
    → CalendarEvent
    → String
    → ℤ
    → ℕ
    → State
    → Result Err (Effect CalendarReminder)
unfolding known_event calendar_event_valid account_runnable
add_calendar_reminder env now fresh user_id account_id game event target lead observed d = do
  require (record_game game && is_target target && is_lead lead) Err.bad_reminder
  require (runs_for user_id (account_runnable d account_id)) Err.account_disabled
  known ← known_event now user_id account_id game event observed d
  require (not (blank known.0.id) && calendar_event_valid env known.0 now) Err.bad_event
  at ← or_fail (after_now now (target_time target known.0)) Err.no_future_time
  let remind_at = at - pos_part lead * minute
  require (ltb now remind_at) Err.reminder_too_late
  require
      (not (any_of (is_arranged user_id account_id game known.0.id target) d.calendar_reminders))
      Err.reminder_repeated
  require
      (ltb (count_if (of_subscriber user_id) d.calendar_reminders) 200
        && ltb (length d.calendar_reminders) 10000)
      Err.too_many_reminders
  let r = new_reminder now fresh user_id account_id game target at remind_at known
  ok (write (set_reminders d (d.calendar_reminders ++ r ∷ [])) r)
