-- ===== src/Store/Users/Forgotten.antt =====
-- internal/store/store.go: what is left of a user after `DeleteUser`.
-- Neither the user nor anything of the user's is in the state; the invite codes that the user issued stay.
-- In it, `ids` are the accounts that the user had.
use miyohub.Base.{
  Bool, List, String, arith, blank, count_if, count_if-keep_if_none, count_if-remove_first, false,
  find_first, find_first-passes, not, some, ◌&&◌, ◌==◌, ◌||◌, ◌≡◌, ◌≤◌,
}
use miyohub.Base.Result.{ok}
use miyohub.Model.{State}
use miyohub.Model.Accounts.{Account}
use miyohub.Model.Calendar.{CalendarReminder, CustomCalendarEvent}
use miyohub.Model.Captcha.{CaptchaActivity, CaptchaProbeEntry, UserCaptcha}
use miyohub.Model.Plans.{ExchangePlan}
use miyohub.Model.Push.{PushDelivery, UserPush}
use miyohub.Model.Users.{LogEntry, User}
use miyohub.Store.Lookup.{has_id}
use miyohub.Store.Plans.Editing.{plans}
use miyohub.Store.Transaction.{
  Ensures, Ensures-eq, Ensures-find, Ensures-require, Saves, does, write,
}
use miyohub.Store.Users.Deletion.{delete_user, listed, owned_ids, remove_calendar, without_user}
use miyohub.Store.Users.Revocation.{IsSignedOut, and_not}
use miyohub.Store.Users.Sessions.{of_user}

pub record IsForgotten (id : String) (ids : List String) (e : State) : Type 0 where
  pub users : count_if (has_id id) e.users ≡ 0
  pub accounts : count_if (λ (a : Account). a.user_id == id) e.config.accounts ≡ 0
  pub exchange_plans : count_if (λ (p : ExchangePlan). listed p.account_id ids) (plans e) ≡ 0
  pub sessions : IsSignedOut id e
  pub deliveries : count_if (λ (p : PushDelivery). p.user_id == id) e.push_deliveries ≡ 0
  pub push : count_if (λ (p : UserPush). p.user_id == id) e.user_push ≡ 0
  pub captcha : count_if (λ (c : UserCaptcha). c.user_id == id) e.user_captcha ≡ 0
  pub activity : count_if (λ (a : CaptchaActivity). a.user_id == id) e.captcha_activity ≡ 0
  pub probes : count_if (λ (p : CaptchaProbeEntry). p.user_id == id) e.captcha_probes ≡ 0
  pub reminders : count_if (λ (r : CalendarReminder). r.user_id == id) e.calendar_reminders ≡ 0
  pub events : count_if (λ (c : CustomCalendarEvent). c.user_id == id) e.calendar_events ≡ 0
  pub logs : count_if (λ (l : LogEntry). l.user_id == id) e.logs ≡ 0

and_not_or : (b c d : Bool) → c ≡ false → (b && not ((not c && b) || d)) ≡ false
and_not_or b c d h = ground arith

without_user-IsForgotten :
    (id : String) (d : State) (u : User)
    → blank id ≡ false
    → count_if (has_id id) d.users ≤ 1
    → find_first (has_id id) d.users ≡ some u
    → IsForgotten id (owned_ids id d.config.accounts) (without_user id d)
unfolding without_user remove_calendar
without_user-IsForgotten id d u h one found = record {
  users = ground (
    arith,
    count_if-remove_first (has_id id) (has_id id) u d.users found,
    find_first-passes (has_id id) d.users u found,
  );
  accounts = count_if-keep_if_none _ _ d.config.accounts λ a. and_not (a.user_id == id);
  exchange_plans =
      count_if-keep_if_none _ _ (plans d)
        λ p. and_not (listed p.account_id (owned_ids id d.config.accounts));
  sessions = count_if-keep_if_none _ _ d.sessions λ s. and_not (of_user id s);
  deliveries = count_if-keep_if_none _ _ d.push_deliveries λ p. and_not (p.user_id == id);
  push = count_if-keep_if_none _ _ d.user_push λ p. and_not (p.user_id == id);
  captcha = count_if-keep_if_none _ _ d.user_captcha λ c. and_not (c.user_id == id);
  activity = count_if-keep_if_none _ _ d.captcha_activity λ a. and_not (a.user_id == id);
  probes = count_if-keep_if_none _ _ d.captcha_probes λ p. and_not (p.user_id == id);
  reminders =
      count_if-keep_if_none _ _ d.calendar_reminders
        λ r. and_not_or (r.user_id == id) (blank id) _ h;
  events =
      count_if-keep_if_none _ _ d.calendar_events λ c. and_not_or (c.user_id == id) (blank id) _ h;
  logs = count_if-keep_if_none _ _ d.logs λ l. and_not (l.user_id == id);
}

delete_Forgets :
    (id : String) (d : State)
    → blank id ≡ false
    → count_if (has_id id) d.users ≤ 1
    → Ensures (Saves (IsForgotten id (owned_ids id d.config.accounts))) (delete_user id d)
unfolding delete_user
delete_Forgets id d h one = Ensures-find _ _ _ λ u found.
    Ensures-require _ _ _
      λ _. Ensures-require _ _ _ λ _. does _ (without_user-IsForgotten id d u h one found)

-- After a user of a non-empty identifier, which no other user has, was deleted, the state holds neither
-- the user nor any of the user's accounts, their plans, sessions, notifications, push and captcha
-- settings, captcha data, reminders, events and log entries.
pub delete_user-IsForgotten :
    (id : String) (d e : State)
    → blank id ≡ false
    → count_if (has_id id) d.users ≤ 1
    → delete_user id d ≡ ok (write e tt)
    → IsForgotten id (owned_ids id d.config.accounts) e
delete_user-IsForgotten id d e h one k =
    Ensures-eq (Saves (IsForgotten id (owned_ids id d.config.accounts))) (delete_Forgets id d h one)
      k
