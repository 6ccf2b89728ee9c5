-- ===== src/Store/Calendar/Events.antt =====
-- internal/store/calendar.go and internal/mihoyo/calendar.go: the events that users add.
use Prim.Native.String.{count}
use miyohub.Base.{
  Bool, List, Option, String, [], any_of, blank, count_if, false, find_first, if◌then◌else◌,
  keep_if, leb, length, ltb, map, none, not, remove_first, some, true, ℕ, ◌&&◌, ◌*◌, ◌++◌, ◌+◌,
  ◌==◌, ◌||◌, ◌∷◌,
}
use miyohub.Base.Result.{Result, ok, require, ◌>>=◌, ◌>>◌}
use miyohub.Base.Text.{chars, trim_space}
use miyohub.Model.{State}
use miyohub.Model.Accounts.{Account}
use miyohub.Model.Calendar.{
  CalendarEvent, CalendarReminder, CustomCalendarEvent, ReminderStatus, is_queued,
  is_reminder_pending,
}
use miyohub.Model.Plans.{minute}
use miyohub.Store.Environment.{Environment}
use miyohub.Store.Errors.{Err}
use miyohub.Store.Lookup.{account_owned, account_runnable}
use miyohub.Store.Transaction.{Effect, or_fail, write}

abbrev pub year_span : ℕ
year_span = 366 * 24 * 60 * minute

abbrev pub is_near : ℕ → Option ℕ → Bool
is_near now none = true
is_near now (some at) = leb now (at + year_span) && leb at (now + year_span)

abbrev pub has_time : CalendarEvent → Bool
has_time e = elim e.start_at [
  | some t ↦ true
  | none ↦ elim e.end_at [ some t ↦ true | none ↦ false ]
]

abbrev pub in_order : Option ℕ → Option ℕ → Bool
in_order (some a) (some b) = ltb a b
in_order _ _ = true

-- The test of `recordText` for a title.
unfoldable pub is_title : Environment → String → Bool
is_title env title =
    let t = trim_space title in
    not (blank t) && leb (count t) 160 && not (any_of (λ c. env.is_control c) (chars t))

-- `CalendarEventValid`
unfoldable pub calendar_event_valid : Environment → CalendarEvent → ℕ → Bool
unfolding is_title
calendar_event_valid env e now =
    is_title env e.title
    && (e.kind == "pool" || e.kind == "activity" || e.kind == "challenge" || e.kind == "version")
    && has_time e
    && is_near now e.start_at
    && is_near now e.end_at
    && in_order e.start_at e.end_at

-- `RecordGame`
abbrev pub record_game : String → Bool
record_game game = game == "genshin" || game == "starrail" || game == "zzz"

abbrev pub event_of : String → CustomCalendarEvent → Bool
event_of user_id e = e.user_id == user_id

-- `CalendarEvents`
unfoldable pub calendar_events_of : String → String → String → State → List CustomCalendarEvent
calendar_events_of user_id account_id game d =
    if account_owned d user_id false account_id
    then keep_if (λ e. e.user_id == user_id && e.account_id == account_id && e.game == game)
        d.calendar_events
    else []

abbrev pub runs_for : String → Option Account → Bool
runs_for user_id none = false
runs_for user_id (some a) = a.user_id == user_id

abbrev pub set_events : State → List CustomCalendarEvent → State
set_events d es = record d { calendar_events = es }

-- `AddCalendarEvent`, with the random identifier.
unfoldable pub add_calendar_event :
    Environment
    → ℕ
    → String
    → String
    → String
    → String
    → CalendarEvent
    → State
    → Result Err (Effect CustomCalendarEvent)
unfolding calendar_event_valid account_runnable
add_calendar_event env now fresh user_id account_id game event d = do
  let e = record event { title = trim_space event.title }
  require (record_game game && calendar_event_valid env e now) Err.bad_event
  require (runs_for user_id (account_runnable d account_id)) Err.account_disabled
  require
      (ltb (count_if (event_of user_id) d.calendar_events) 100
        && ltb (length d.calendar_events) 5000)
      Err.too_many_events
  let item : CustomCalendarEvent = record {
    event = record e { id = fresh; source = "manual"; finished = none };
    user_id = user_id;
    account_id = account_id;
    game = game;
    created_at = now;
  }
  ok (write (set_events d (d.calendar_events ++ item ∷ [])) item)

abbrev pub is_event : String → String → CustomCalendarEvent → Bool
is_event user_id id e = e.event.id == id && e.user_id == user_id

abbrev pub is_open_reminder : ReminderStatus → Bool
is_open_reminder s = is_reminder_pending s || is_queued s

-- A reminder of an event that is gone.
unfoldable pub without_event : ℕ → String → String → CalendarReminder → CalendarReminder
without_event now user_id id r =
    if r.user_id == user_id && r.event_id == id && is_open_reminder r.status
    then record r { status = ReminderStatus.cancelled; detail = "日程已删除"; updated_at = now }
    else r

-- `DeleteCalendarEvent`
unfoldable pub delete_calendar_event : ℕ → String → String → State → Result Err (Effect (Unit {0}))
unfolding without_event
delete_calendar_event now user_id id d = do
  _ ← or_fail (find_first (is_event user_id id) d.calendar_events) Err.event_gone
  ok (
      write
        (record d {
          calendar_events = remove_first (is_event user_id id) d.calendar_events;
          calendar_reminders = map (without_event now user_id id) d.calendar_reminders;
        })
        tt)
