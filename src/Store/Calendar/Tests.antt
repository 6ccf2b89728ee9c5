-- ===== src/Store/Calendar/Tests.antt =====
-- Bob adds an event of his own and a reminder of its start.
use miyohub.Base.{List, [], arith, map, none, refl, some, ◌*◌, ◌+◌, ◌∷◌, ◌≡◌}
use miyohub.Base.Int.{pos}
use miyohub.Base.Result.{◌>>=◌}
use miyohub.Base.Text.{trim_space}
use miyohub.Model.Calendar.{CalendarEvent, CalendarReminder}
use miyohub.Model.Plans.{minute}
use miyohub.Store.Calendar.Events.{add_calendar_event}
use miyohub.Store.Calendar.Kept.{perform_calendars-KeepsQuotas}
use miyohub.Store.Calendar.Quotas.{
  CalendarRequest, KeepsQuotas, add_event, perform_calendar, perform_calendars, subscribe,
}
use miyohub.Store.Calendar.Subscribing.{add_calendar_reminder}
use miyohub.Store.Samples.{new_year, sample_environment, sample_site}

abbrev party : CalendarEvent
party = record {
  id = "";
  title = " party ";
  kind = "activity";
  source = "";
  start_at = some (new_year + 60 * minute);
  end_at = none;
  finished = none;
}

abbrev known_party : CalendarEvent
known_party = record party { id = "calendar_1"; source = "manual" }

abbrev day_requests : List CalendarRequest
day_requests =
    add_event sample_environment new_year "calendar_1" "usr_b" "acc_b" "zzz" party
    ∷ subscribe sample_environment new_year "reminder_1" "usr_b" "acc_b" "zzz" known_party "start"
        (pos 30) new_year
    ∷ []

day-run :
    map CalendarReminder.remind_at (perform_calendars day_requests sample_site).calendar_reminders
    ≡ (new_year + 30 * minute) ∷ []
unfolding perform_calendars perform_calendar add_calendar_event add_calendar_reminder trim_space
    ◌>>=◌
day-run = refl

sample-KeepsQuotas : KeepsQuotas sample_site
sample-KeepsQuotas = record {
  events = omega arith;
  events_of = λ u. omega arith;
  reminders = omega arith;
  reminders_of = λ u. omega arith;
  once = λ u a g e t. omega arith;
}

perform_calendars-KeepsQuotas_example : KeepsQuotas (perform_calendars day_requests sample_site)
perform_calendars-KeepsQuotas_example =
    perform_calendars-KeepsQuotas day_requests sample_site sample-KeepsQuotas
