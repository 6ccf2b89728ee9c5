-- ===== src/Store/Users/Deletion.antt =====
-- internal/store/store.go: `DeleteUser`, which removes a user with what the user owns.
use miyohub.Base.{
  Bool, List, String, [], any_of, blank, if◌then◌else◌, keep_if, not, remove_first, ◌&&◌, ◌==◌,
  ◌||◌, ◌∷◌,
}
use miyohub.Base.Result.{Result, ok, require, ◌>>=◌, ◌>>◌}
use miyohub.Model.{Config, State}
use miyohub.Model.Accounts.{Account}
use miyohub.Model.Plans.{ExchangePlan, is_running}
use miyohub.Store.Errors.{Err}
use miyohub.Store.Lookup.{find_user, has_id}
use miyohub.Store.Transaction.{Effect, or_fail, write}
use miyohub.Store.Users.Operations.{is_last_admin}
use miyohub.Store.Users.Sessions.{of_user}

abbrev pub owned_ids : String → List Account → List String
owned_ids id [] = []
owned_ids id (a ∷ accounts) =
    if a.user_id == id then a.id ∷ owned_ids id accounts else owned_ids id accounts

abbrev pub listed : String → List String → Bool
listed x ids = any_of (λ i. i == x) ids

-- A running plan of an account of the user.
abbrev pub is_exchanging : State → String → ExchangePlan → Bool
is_exchanging d id p =
    is_running p.state && any_of (λ a. a.user_id == id && a.id == p.account_id) d.config.accounts

-- `removeCalendarLocked`
unfoldable pub remove_calendar : String → String → State → State
remove_calendar user_id account_id d = record d {
  calendar_reminders =
      keep_if
        (λ r. not (
          (not (blank user_id) && r.user_id == user_id)
          || (not (blank account_id) && r.account_id == account_id)))
        d.calendar_reminders;
  calendar_events =
      keep_if
        (λ e. not (
          (not (blank user_id) && e.user_id == user_id)
          || (not (blank account_id) && e.account_id == account_id)))
        d.calendar_events;
}

-- The accounts and plans that stay when the user's are removed.
abbrev pub config_without : String → Config → Config
config_without id c = record c {
  accounts = keep_if (λ a. not (a.user_id == id)) c.accounts;
  shop = record (c.shop) {
    plans = keep_if (λ p. not (listed p.account_id (owned_ids id c.accounts))) c.shop.plans;
  };
}

-- The state without the user and what the user owned.
unfoldable pub without_user : String → State → State
unfolding remove_calendar
without_user id d = record (remove_calendar id "" d) {
  users = remove_first (has_id id) d.users;
  user_push = keep_if (λ p. not (p.user_id == id)) d.user_push;
  user_captcha = keep_if (λ c. not (c.user_id == id)) d.user_captcha;
  captcha_activity = keep_if (λ a. not (a.user_id == id)) d.captcha_activity;
  captcha_probes = keep_if (λ p. not (p.user_id == id)) d.captcha_probes;
  push_deliveries = keep_if (λ p. not (p.user_id == id)) d.push_deliveries;
  sessions = keep_if (λ s. not (of_user id s)) d.sessions;
  config = config_without id d.config;
  logs = keep_if (λ l. not (l.user_id == id)) d.logs;
}

-- `DeleteUser`
unfoldable pub delete_user : String → State → Result Err (Effect (Unit {0}))
unfolding without_user
delete_user id d = do
  u ← or_fail (find_user d id) Err.no_such_user
  require (not (is_last_admin d u)) Err.last_admin
  require (not (any_of (is_exchanging d id) d.config.shop.plans)) Err.user_exchanging
  ok (write (without_user id d) tt)
