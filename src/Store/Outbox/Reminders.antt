-- ===== src/Store/Outbox/Reminders.antt =====
-- internal/store/calendar_reminders.go and calendar.go: the life of a reminder under the lock.
use miyohub.Base.{
  Bool, List, String, any_of, blank, eqb, false, find_first, if◌then◌else◌, keep_if, leb, ltb, map,
  none, not, replace_first, some, true, ℕ, ◌&&◌, ◌*◌, ◌+◌, ◌==◌, ◌||◌,
}
use miyohub.Base.Result.{Result, ok, require, ◌>>=◌, ◌>>◌}
use miyohub.Model.{State}
use miyohub.Model.Calendar.{
  CalendarReminder, ReminderStatus, is_processed, is_queued, is_reminder_pending,
}
use miyohub.Model.Plans.{minute}
use miyohub.Model.Push.{DeliveryStatus, PushDelivery, in_flight, is_waiting}
use miyohub.Store.Errors.{Err}
use miyohub.Store.Lookup.{account_owned}
use miyohub.Store.Transaction.{Effect, or_fail, write}

abbrev pub set_reminders : State → List CalendarReminder → State
set_reminders d rs = record d { calendar_reminders = rs }

abbrev pub set_deliveries : State → List PushDelivery → State
set_deliveries d es = record d { push_deliveries = es }

abbrev pub has_reminder_id : String → CalendarReminder → Bool
has_reminder_id id r = r.id == id

-- `calendarReferenceLocked`: the first reminder of the identifier is the user's and is queued.
unfoldable pub calendar_reference : State → String → String → String → Bool
calendar_reference d user_id account_id id =
    not (blank id) && elim (find_first (has_reminder_id id) d.calendar_reminders) [
      | none ↦ false
      | some r ↦ r.user_id == user_id && r.account_id == account_id && is_queued r.status
    ]

-- Within a quarter of an hour of the reminder's time and five minutes of the event.
abbrev pub in_time : ℕ → CalendarReminder → Bool
in_time now r =
    leb r.remind_at now && leb now (r.remind_at + 15 * minute) && leb now (r.target_at + 5 * minute)

-- `calendarDeliveryAllowedLocked`
unfoldable pub calendar_delivery_allowed : ℕ → PushDelivery → State → Bool
unfolding calendar_reference
calendar_delivery_allowed now e d =
    calendar_reference d e.user_id e.account_id e.reference_id
    && elim (find_first (has_reminder_id e.reference_id) d.calendar_reminders) [
      | none ↦ false
      | some r ↦ in_time now r
    ]

-- The counter that the outcome of a delivery raises.
unfoldable pub counted : DeliveryStatus → CalendarReminder → CalendarReminder
counted DeliveryStatus.accepted r = record r { accepted_channels = r.accepted_channels + 1 }
counted DeliveryStatus.unknown r = record r { uncertain_channels = r.uncertain_channels + 1 }
counted _ r = record r { failed_channels = r.failed_channels + 1 }

unfoldable pub processed_detail : CalendarReminder → String
processed_detail r =
    if ltb 0 r.uncertain_channels
    then "部分通知发送状态未确认，未自动重发"
    else (if ltb 0 r.failed_channels && ltb 0 r.accepted_channels
        then "部分渠道未受理，请在消息推送查看详情"
        else (if eqb r.accepted_channels 0 then "未发送或发送失败，请在消息推送查看详情" else "推送服务已接收通知"))

-- A delivery for the reminder that is still pending or being sent.
abbrev pub still_open : String → List PushDelivery → Bool
still_open id es = any_of (λ e. e.reference_id == id && in_flight e.status) es

-- The queued reminder of an identifier.
abbrev pub queued_reminder : String → CalendarReminder → Bool
queued_reminder id r = r.id == id && is_queued r.status

abbrev pub settled : ℕ → Bool → CalendarReminder → CalendarReminder
settled now true r = r
settled now false r = record r {
  status = ReminderStatus.processed;
  detail = processed_detail r;
  updated_at = now;
}

-- `finishCalendarReminderLocked`: the reminder counts each outcome, and is processed with the last.
unfoldable pub finish_calendar_reminder : ℕ → PushDelivery → State → State
unfolding counted
finish_calendar_reminder now e d =
    if blank e.reference_id
    then d
    else elim (find_first (queued_reminder e.reference_id) d.calendar_reminders) [
      | none ↦ d
      | some r ↦ set_reminders d (
          replace_first (queued_reminder e.reference_id)
            (settled now (still_open e.reference_id d.push_deliveries) (counted e.status r))
            d.calendar_reminders)
    ]

-- A notification that cannot be called back.
abbrev pub submitted : DeliveryStatus → Bool
submitted DeliveryStatus.sending = true
submitted DeliveryStatus.accepted = true
submitted DeliveryStatus.unknown = true
submitted DeliveryStatus.pending = false
submitted DeliveryStatus.failed = false
submitted DeliveryStatus.skipped = false
submitted (DeliveryStatus.other t) = false

abbrev pub called_back : ℕ → String → PushDelivery → PushDelivery
called_back now id e =
    if e.reference_id == id && is_waiting e.status
    then record e { status = DeliveryStatus.skipped; error = "提醒已取消"; updated_at = now }
    else e

-- `CancelCalendarReminder`
unfoldable pub cancel_calendar_reminder :
    ℕ → String → String → State → Result Err (Effect (Unit {0}))
cancel_calendar_reminder now user_id id d = do
  let own = λ (r : CalendarReminder). r.user_id == user_id && r.id == id
  r ← or_fail (find_first own d.calendar_reminders) Err.no_such_reminder
  require (not (any_of (λ e. e.reference_id == r.id && submitted e.status) d.push_deliveries))
      Err.reminder_submitted
  require (not (is_processed r.status)) Err.reminder_processed
  let gone = record r { status = ReminderStatus.cancelled; detail = "已取消，未继续发送"; updated_at = now }
  ok (
      write
        (set_deliveries (set_reminders d (replace_first own gone d.calendar_reminders))
          (map (called_back now r.id) d.push_deliveries))
        tt)

-- `ClearCalendarReminderHistory`
unfoldable pub clear_calendar_reminder_history :
    ℕ → String → String → String → State → Result Err (Effect (Unit {0}))
clear_calendar_reminder_history now user_id account_id game d = do
  require (account_owned d user_id false account_id) Err.account_gone
  ok (write (set_reminders d (keep_if (λ r. not (old r)) d.calendar_reminders)) tt)
  where
    old : CalendarReminder → Bool
    old r =
        r.user_id == user_id
        && r.account_id == account_id
        && r.game == game
        && not (is_reminder_pending r.status)
        && not (is_queued r.status)
        && (not (is_processed r.status) || leb r.target_at now)
