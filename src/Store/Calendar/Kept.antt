-- ===== src/Store/Calendar/Kept.antt =====
-- internal/store/calendar.go and calendar_reminders.go: the quotas of events and reminders are kept.
use miyohub.Base.{
  ==_sound, Bool, Bool-cases, List, String, [], and_parts, any_of, any_of-ext, ap, arith, count_if,
  count_if-append, count_if-none, count_if-remove_first-le, false, inl, inr, length, length-append,
  ltb, map, refl, remove_first, subst, suc, true, ℕ, ◌&&◌, ◌*◌, ◌++◌, ◌-◌, ◌==◌, ◌∙◌, ◌∷◌, ◌≡◌, ◌≤◌,
}
use miyohub.Base.Int.{pos_part, ℤ}
use miyohub.Model.{State}
use miyohub.Model.Calendar.{CalendarEvent, CalendarReminder}
use miyohub.Model.Plans.{minute}
use miyohub.Store.Calendar.Events.{
  add_calendar_event, delete_calendar_event, event_of, is_event, is_open_reminder, without_event,
}
use miyohub.Store.Calendar.Handled.{cancel-KeepsQuotas, clear-KeepsQuotas, finish-KeepsQuotas}
use miyohub.Store.Calendar.Quotas.{
  CalendarRequest, KeepsQuotas, add_event, count_outcome, drop_event, forget_past, perform_calendar,
  perform_calendars, subscribe, unsubscribe,
}
use miyohub.Store.Calendar.Subscribing.{
  add_calendar_reminder, is_arranged, new_reminder, of_subscriber,
}
use miyohub.Store.Environment.{Environment}
use miyohub.Store.Transaction.{
  Ensures, Ensures-after, Ensures-bind, Ensures-find, Ensures-require, Saves, does,
}

length-map {ℓ κ} :
    {A : Type ℓ} {B : Type κ} (f : A → B) (xs : List A) → length (map f xs) ≡ length xs
length-map f [] = refl
length-map f (x ∷ xs) = ap suc (length-map f xs)

count_if-map-le {ℓ} :
    {A : Type ℓ} (q : A → Bool) (f : A → A) (xs : List A)
    → ((x : A) → q (f x) ≡ true → q x ≡ true)
    → count_if q (map f xs) ≤ count_if q xs
count_if-map-le q f [] h = omega arith
count_if-map-le q f (x ∷ xs) h = elim (Bool-cases (q (f x))) [
  | inl e ↦ rw (e, h x e) (omega (arith, count_if-map-le q f xs h))
  | inr e ↦ ground (arith, count_if-map-le q f xs h)
]

-- Room for one more element.
length-room {ℓ} :
    {A : Type ℓ} (v : A) (xs : List A) (n : ℕ)
    → ltb (length xs) n ≡ true
    → length (xs ++ v ∷ []) ≤ n
length-room v xs n h = ground (arith, h, length-append xs (v ∷ []))

count_if-room {ℓ} :
    {A : Type ℓ} (owned : String → A → Bool) (name : String) (v : A) (xs : List A) (n : ℕ)
    → ((u : String) → owned u v ≡ true → name ≡ u)
    → ltb (count_if (owned name) xs) n ≡ true
    → (u : String) → count_if (owned u) xs ≤ n
    → count_if (owned u) (xs ++ v ∷ []) ≤ n
count_if-room owned name v xs n f h u k =
    let sum = count_if-append (owned u) xs (v ∷ []) in
    elim (Bool-cases (owned u v)) [
      | inr e ↦ ground (arith, sum, k, e)
      | inl e ↦
          let room : ltb (count_if (owned u) xs) n ≡ true =
            subst (λ z. ltb (count_if (owned z) xs) n ≡ true) (f u e) h in
          ground (arith, sum, room, e)
    ]

length-remove_first-le {ℓ} :
    {A : Type ℓ} (t : A → Bool) (xs : List A) → length (remove_first t xs) ≤ length xs
length-remove_first-le t [] = omega arith
length-remove_first-le t (x ∷ xs) = ground (arith, length-remove_first-le t xs)

count_if-first {ℓ} :
    {A : Type ℓ} (q q0 : A → Bool) (v : A) (xs : List A)
    → any_of q0 xs ≡ false
    → (q v ≡ true → (x : A) → q x ≡ q0 x)
    → count_if q xs ≤ 1
    → count_if q (xs ++ v ∷ []) ≤ 1
count_if-first q q0 v xs n f k =
    let sum = count_if-append q xs (v ∷ []) in
    elim (Bool-cases (q v)) [
      | inr e ↦ ground (arith, sum, k, e)
      | inl e ↦ ground (arith, sum, e, count_if-none q xs (any_of-ext q q0 xs (f e) ∙ n))
    ]

-- Reminders that are arranged for the same moment agree on it.
arranged-moment :
    (u a g e t : String) (v x : CalendarReminder)
    → is_arranged u a g e t v ≡ true
    → is_arranged u a g e t x ≡ is_arranged v.user_id v.account_id v.game v.event_id v.target x
arranged-moment u a g e t v x h =
    let (key, _) = and_parts _ _ h in
    let (k1, same_t) = and_parts _ _ key in
    let (k2, same_e) = and_parts _ _ k1 in
    let (k3, same_g) = and_parts _ _ k2 in
    let (same_u, same_a) = and_parts _ _ k3 in
    rw
      (
        ==_sound v.user_id u same_u,
        ==_sound v.account_id a same_a,
        ==_sound v.game g same_g,
        ==_sound v.event_id e same_e,
        ==_sound v.target t same_t,
      )
      refl

without-subscriber :
    (now : ℕ) (user_id id u : String) (r : CalendarReminder)
    → of_subscriber u (without_event now user_id id r) ≡ true
    → of_subscriber u r ≡ true
unfolding without_event
without-subscriber now user_id id u r h =
    elim (Bool-cases (r.user_id == user_id && r.event_id == id && is_open_reminder r.status)) [
      | inl e ↦ rw e at h
      | inr e ↦ rw e at h
    ]

without-arranged :
    (now : ℕ) (user_id id u a g e t : String) (r : CalendarReminder)
    → is_arranged u a g e t (without_event now user_id id r) ≡ true
    → is_arranged u a g e t r ≡ true
unfolding without_event
without-arranged now user_id id u a g e t r h =
    elim (Bool-cases (r.user_id == user_id && r.event_id == id && is_open_reminder r.status)) [
      | inl p ↦ absurd (
          cc
            (and_parts
              (r.user_id == u
                && r.account_id == a
                && r.game == g
                && r.event_id == e
                && r.target == t)
              false (rw p at h)).1)
      | inr p ↦ rw p at h
    ]

module _ (d : State) (h : KeepsQuotas d) where
  add_event-KeepsQuotas :
      (env : Environment) (now : ℕ) (fresh user_id account_id game : String) (event : CalendarEvent)
      → Ensures
          (Saves KeepsQuotas)
          (add_calendar_event env now fresh user_id account_id game event d)
  unfolding add_calendar_event
  add_event-KeepsQuotas env now fresh user_id account_id game event = Ensures-require _ _ _ λ _.
      Ensures-require _ _ _ λ _. Ensures-require _ _ _ λ room.
        let (own, all) = and_parts _ _ room in
        does _ (record {
          events = length-room _ d.calendar_events 5000 all;
          events_of = λ u.
              count_if-room event_of user_id _ d.calendar_events 100 (λ x e. ==_sound _ _ e) own u
                (h.events_of u);
          reminders = h.reminders;
          reminders_of = h.reminders_of;
          once = h.once;
        })

  drop_event-KeepsQuotas :
      (now : ℕ) (user_id id : String)
      → Ensures (Saves KeepsQuotas) (delete_calendar_event now user_id id d)
  unfolding delete_calendar_event
  drop_event-KeepsQuotas now user_id id = Ensures-find _ _ _ λ _ _.
      let change = without_event now user_id id in
      does _ (record {
        events =
            omega (arith, h.events, length-remove_first-le (is_event user_id id) d.calendar_events);
        events_of = λ u. omega (
          arith,
          h.events_of u,
          count_if-remove_first-le (event_of u) (is_event user_id id) d.calendar_events,
        );
        reminders = rw (length-map change d.calendar_reminders) h.reminders;
        reminders_of = λ u. omega (
          arith,
          h.reminders_of u,
          count_if-map-le (of_subscriber u) change d.calendar_reminders
              (λ r e. without-subscriber now user_id id u r e),
        );
        once = λ u a g e t. omega (
          arith,
          h.once u a g e t,
          count_if-map-le (is_arranged u a g e t) change d.calendar_reminders
              (λ r p. without-arranged now user_id id u a g e t r p),
        );
      })

  subscribe-KeepsQuotas :
      (env : Environment) (now : ℕ) (fresh user_id account_id game : String) (event : CalendarEvent)
      (target : String) (lead : ℤ) (observed : ℕ)
      → Ensures
          (Saves KeepsQuotas)
          (add_calendar_reminder env now fresh user_id account_id game event target lead observed d)
  unfolding add_calendar_reminder
  subscribe-KeepsQuotas env now fresh user_id account_id game event target lead observed =
      Ensures-require _ _ _ λ _. Ensures-require _ _ _ λ _. Ensures-bind _ _ λ known _.
        Ensures-require _ _ _ λ _. Ensures-find _ _ _ λ at _. Ensures-require _ _ _ λ _.
          Ensures-require _ _ _ λ new. Ensures-require _ _ _ λ room.
            let (own, all) = and_parts _ _ room in
            does _ (record {
              events = h.events;
              events_of = h.events_of;
              reminders = length-room _ d.calendar_reminders 10000 all;
              reminders_of = λ u.
                  count_if-room of_subscriber user_id _ d.calendar_reminders 200
                    (λ x e. ==_sound _ _ e) own u (h.reminders_of u);
              once = λ u a g e t.
                  count_if-first (is_arranged u a g e t)
                    (is_arranged user_id account_id game known.0.id target) _ d.calendar_reminders
                    (ground (arith, new))
                    (λ p x.
                      arranged-moment u a g e t
                        (new_reminder now fresh user_id account_id game target at
                          (at - pos_part lead * minute) known)
                        x p)
                    (h.once u a g e t);
            })

-- If the site keeps at most five thousand events and ten thousand reminders, each user a hundred and two
-- hundred of them, and one live reminder for each moment of an event, then it does after any sequence of additions and deletions of events, subscriptions,
-- cancellations, clearings of the history and outcomes of deliveries.
pub perform_calendars-KeepsQuotas :
    (rs : List CalendarRequest) (d : State) → KeepsQuotas d → KeepsQuotas (perform_calendars rs d)
unfolding perform_calendars perform_calendar
perform_calendars-KeepsQuotas [] d h = h
perform_calendars-KeepsQuotas (add_event env now fresh user_id account_id game event ∷ rs) d h =
    perform_calendars-KeepsQuotas rs _ (
      Ensures-after KeepsQuotas h
        (add_event-KeepsQuotas d h env now fresh user_id account_id game event))
perform_calendars-KeepsQuotas (drop_event now user_id id ∷ rs) d h =
    perform_calendars-KeepsQuotas rs _
      (Ensures-after KeepsQuotas h (drop_event-KeepsQuotas d h now user_id id))
perform_calendars-KeepsQuotas (unsubscribe now user_id id ∷ rs) d h =
    perform_calendars-KeepsQuotas rs _
      (Ensures-after KeepsQuotas h (cancel-KeepsQuotas d h now user_id id))
perform_calendars-KeepsQuotas (forget_past now user_id account_id game ∷ rs) d h =
    perform_calendars-KeepsQuotas rs _
      (Ensures-after KeepsQuotas h (clear-KeepsQuotas d h now user_id account_id game))
perform_calendars-KeepsQuotas (count_outcome now e ∷ rs) d h =
    perform_calendars-KeepsQuotas rs _ (finish-KeepsQuotas d h now e)
perform_calendars-KeepsQuotas
      (subscribe env now fresh user_id account_id game event target lead observed ∷ rs) d h =
    perform_calendars-KeepsQuotas rs _ (
      Ensures-after KeepsQuotas h (
        subscribe-KeepsQuotas d h env now fresh user_id account_id game event target lead observed))
