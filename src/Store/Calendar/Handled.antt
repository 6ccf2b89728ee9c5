-- ===== src/Store/Calendar/Handled.antt =====
-- internal/store/calendar_reminders.go: the cancellation, the clearing and the counting of reminders
-- within the quotas.
-- The same subscriber and moment.
use miyohub.Base.{
  Bool, Bool-cases, Option-cases, String, arith, blank, count_if-keep_if-le, count_if-replace_first,
  false, find_first, find_first-passes, inl, inr, length-keep_if-le, length-replace_first, refl,
  replace_first, some, true, weight, ℕ, ◌&&◌, ◌==◌, ◌||◌, ◌≡◌, ◌≤◌,
}
use miyohub.Model.{State}
use miyohub.Model.Calendar.{
  CalendarReminder, ReminderStatus, is_processed, is_queued, is_reminder_pending,
}
use miyohub.Model.Push.{DeliveryStatus, PushDelivery}
use miyohub.Store.Calendar.Quotas.{KeepsQuotas}
use miyohub.Store.Calendar.Subscribing.{is_arranged, of_subscriber, set_reminders}
use miyohub.Store.Outbox.Reminders.{
  cancel_calendar_reminder, clear_calendar_reminder_history, counted, finish_calendar_reminder,
  queued_reminder, settled, still_open,
}
use miyohub.Store.Transaction.{Ensures, Ensures-find, Ensures-require, Saves, does}

record IsAlike (r v : CalendarReminder) : Type 0 where
  user : v.user_id ≡ r.user_id
  account : v.account_id ≡ r.account_id
  game : v.game ≡ r.game
  event : v.event_id ≡ r.event_id
  target : v.target ≡ r.target

counted-IsAlike : (s : DeliveryStatus) (r : CalendarReminder) → IsAlike r (counted s r)
unfolding counted
counted-IsAlike DeliveryStatus.accepted r = record {
  user = refl;
  account = refl;
  game = refl;
  event = refl;
  target = refl;
}
counted-IsAlike DeliveryStatus.unknown r = record {
  user = refl;
  account = refl;
  game = refl;
  event = refl;
  target = refl;
}
counted-IsAlike _ r = record {
  user = refl;
  account = refl;
  game = refl;
  event = refl;
  target = refl;
}

settled-IsAlike :
    (now : ℕ) (b : Bool) (r v : CalendarReminder) → IsAlike r v → IsAlike r (settled now b v)
settled-IsAlike now true r v h = h
settled-IsAlike now false r v h = record {
  user = h.user;
  account = h.account;
  game = h.game;
  event = h.event;
  target = h.target;
}

abbrev is_live : ReminderStatus → Bool
is_live s = is_reminder_pending s || is_queued s || is_processed s

alike-subscriber :
    (u : String) (r v : CalendarReminder)
    → IsAlike r v
    → weight (of_subscriber u v) ≤ weight (of_subscriber u r)
alike-subscriber u r v h = rw h.user (omega arith)

alike-arranged :
    (u a g e t : String) (r v : CalendarReminder)
    → IsAlike r v
    → is_live r.status ≡ true
    → weight (is_arranged u a g e t v) ≤ weight (is_arranged u a g e t r)
alike-arranged u a g e t r v h live =
    rw (h.user, h.account, h.game, h.event, h.target, live) (ground arith)

-- A write of one reminder.
replaced-KeepsQuotas :
    (d e : State) (test : CalendarReminder → Bool) (r v : CalendarReminder)
    → find_first test d.calendar_reminders ≡ some r
    → e.calendar_events ≡ d.calendar_events
    → e.calendar_reminders ≡ replace_first test v d.calendar_reminders
    → ((u : String) → weight (of_subscriber u v) ≤ weight (of_subscriber u r))
    → ((u a g m t : String) → weight (is_arranged u a g m t v) ≤ weight (is_arranged u a g m t r))
    → KeepsQuotas d
    → KeepsQuotas e
replaced-KeepsQuotas d e test r v found same next f k h = record {
  events = rw same h.events;
  events_of = λ u. rw same (h.events_of u);
  reminders = rw (next, length-replace_first test v d.calendar_reminders) h.reminders;
  reminders_of = λ u. rw next (
      omega (
        arith,
        count_if-replace_first (of_subscriber u) test v r d.calendar_reminders found,
        f u,
        h.reminders_of u,
      ));
  once = λ u a g m t. rw next (
      omega (
        arith,
        count_if-replace_first (is_arranged u a g m t) test v r d.calendar_reminders found,
        k u a g m t,
        h.once u a g m t,
      ));
}

module _ (d : State) (h : KeepsQuotas d) where
  pub cancel-KeepsQuotas :
      (now : ℕ) (user_id id : String)
      → Ensures (Saves KeepsQuotas) (cancel_calendar_reminder now user_id id d)
  unfolding cancel_calendar_reminder
  cancel-KeepsQuotas now user_id id = Ensures-find _ _ _ λ r found. Ensures-require _ _ _ λ _.
      Ensures-require _ _ _ λ _.
        let own : CalendarReminder → Bool = λ x. x.user_id == user_id && x.id == id in
        does _ (
          replaced-KeepsQuotas d _ own r _ found refl refl (λ u. omega arith)
            (λ u a g m t. ground arith) h)

  pub clear-KeepsQuotas :
      (now : ℕ) (user_id account_id game : String)
      → Ensures (Saves KeepsQuotas) (clear_calendar_reminder_history now user_id account_id game d)
  unfolding clear_calendar_reminder_history
  clear-KeepsQuotas now user_id account_id game = Ensures-require _ _ _ λ _. does _ (record {
    events = h.events;
    events_of = h.events_of;
    reminders = omega (arith, h.reminders, length-keep_if-le _ d.calendar_reminders);
    reminders_of = λ u.
        omega
          (arith, h.reminders_of u, count_if-keep_if-le (of_subscriber u) _ d.calendar_reminders);
    once = λ u a g e t. omega (
      arith,
      h.once u a g e t,
      count_if-keep_if-le (is_arranged u a g e t) _ d.calendar_reminders,
    );
  })

  pub finish-KeepsQuotas :
      (now : ℕ) (e : PushDelivery) → KeepsQuotas (finish_calendar_reminder now e d)
  unfolding finish_calendar_reminder
  finish-KeepsQuotas now e = elim (Bool-cases (blank e.reference_id)) [
    | inl b ↦ rw b h
    | inr b ↦
        elim (Option-cases (find_first (queued_reminder e.reference_id) d.calendar_reminders)) [
          | inl n ↦ rw (b, n) h
          | inr (r, found) ↦
              let waits : is_live r.status ≡ true = ground (
                arith,
                find_first-passes (queued_reminder e.reference_id) d.calendar_reminders r found,
              ) in
              let still = still_open e.reference_id d.push_deliveries in
              let v = settled now still (counted e.status r) in
              let alike : IsAlike r v =
                settled-IsAlike now still r (counted e.status r) (counted-IsAlike e.status r) in
              rw (b, found)
                (replaced-KeepsQuotas d
                  (set_reminders d
                    (replace_first (queued_reminder e.reference_id) v d.calendar_reminders))
                  (queued_reminder e.reference_id) r v found refl refl
                  (λ u. alike-subscriber u r v alike)
                  (λ u a g m t. alike-arranged u a g m t r v alike waits) h)
        ]
  ]
