-- ===== src/Store/Accounts/Binding.antt =====
-- internal/store/accounts.go and store.go: how an account is bound, new or in the place of an old one.
use miyohub.Base.{
  Bool, List, Option, String, [], any_of, blank, false, find_first, if◌then◌else◌, none, not,
  replace_first, some, true, ◌&&◌, ◌++◌, ◌==◌, ◌||◌, ◌∷◌,
}
use miyohub.Base.Result.{Result, ok, require, ◌>>=◌, ◌>>◌}
use miyohub.Base.Text.{trim_space}
use miyohub.Model.{State}
use miyohub.Model.Accounts.{Account, Device}
use miyohub.Model.Plans.{is_running}
use miyohub.Model.Schedules.{AccountTaskSettings}
use miyohub.Model.Users.{User, is_active}
use miyohub.Store.Accounts.Credentials.{cookie_fields, or_else, validate_account}
use miyohub.Store.Environment.{Environment}
use miyohub.Store.Errors.{Err}
use miyohub.Store.Lookup.{find_user}
use miyohub.Store.Tasks.Settings.{default_tasks, validate_task_settings}
use miyohub.Store.Transaction.{Effect, or_fail, write}

-- The three tests of the loop of `addAccountLocked` that make an entry the same account.
abbrev pub same_account : Account → Account → Bool
same_account a x =
    (not (blank a.id) && a.id == x.id)
    || (not (blank a.stuid) && a.stuid == x.stuid)
    || (a.name == x.name && x.user_id == a.user_id)

abbrev pub other_uid : Account → Account → Bool
other_uid a x = not (blank a.stuid) && not (blank x.stuid) && not (a.stuid == x.stuid)

-- `target >= 0`
abbrev pub has_target : Option Account → Bool
has_target none = false
has_target (some t) = true

-- The loop of `addAccountLocked`, with the account at `target` for the index: a loop visits an index
-- once, so that a second match is always another index.
unfoldable pub find_target :
    Account → String → Option Account → List Account → Result Err (Option Account)
find_target a user_id target [] = ok target
find_target a user_id target (x ∷ xs) = do
  require (not (same_account a x) || blank user_id || x.user_id == user_id) Err.account_bound
  require (not (same_account a x) || not (other_uid a x)) Err.name_taken_by_uid
  require (not (same_account a x) || not (has_target target)) Err.account_duplicate
  find_target a user_id (if same_account a x then some x else target) xs

abbrev pub or_tokens :
    Option (List (String × String))
    → Option (List (String × String))
    → Option (List (String × String))
or_tokens none old = old
or_tokens (some ts) old = some ts

abbrev pub or_device : Device → Device → Device
or_device a b = if blank a.id then b else a

-- The new binding of an account that exists: what the binding lacks is kept.
unfoldable pub rebound : Account → Account → Account
rebound old a = record a {
  id = old.id;
  user_id = old.user_id;
  cloud_tokens = or_tokens a.cloud_tokens old.cloud_tokens;
  cookie = or_else a.cookie old.cookie;
  stoken = or_else a.stoken old.stoken;
  stuid = or_else a.stuid old.stuid;
  mid = or_else a.mid old.mid;
  device = or_device a.device old.device;
  disabled = old.disabled;
  task_results = old.task_results;
  last_task_at = old.last_task_at;
  task_settings = old.task_settings;
  group = old.group;
}

-- The device of an account that has none, and the status before the first check.
abbrev pub unchecked : Device → Account → Account
unchecked device a = record a { device = or_device a.device device; status = "unchecked" }

abbrev pub account_running : State → String → Bool
account_running d id = any_of (λ p. p.account_id == id && is_running p.state) d.config.shop.plans

abbrev pub set_accounts : State → List Account → State
set_accounts d accounts = record d { config = record (d.config) { accounts = accounts } }

-- The tasks of a new account, with the defaults for none and the first revision.
abbrev pub first_tasks : Option AccountTaskSettings → AccountTaskSettings
first_tasks none = default_tasks
first_tasks (some t) = record t { revision = 1 }

-- The end of `addAccountLocked`, with no target or with one.
unfoldable pub place_account :
    Environment
    → String
    → Device
    → Account
    → State
    → Option Account
    → Result Err (Effect (Unit {0}))
unfolding rebound validate_task_settings
place_account env fresh device a d none = do
  let t = first_tasks a.task_settings
  validate_task_settings env t
  let b = unchecked device (record a { id = fresh; task_settings = some t })
  ok (write (set_accounts d (d.config.accounts ++ b ∷ [])) tt)
place_account env fresh device a d (some old) = do
  require (not (account_running d old.id)) Err.account_exchanging
  let b = unchecked device (rebound old a)
  ok (write (set_accounts d (replace_first (same_account a) b d.config.accounts)) tt)

-- `addAccountLocked`, with the random identifier and device that a new account may take.
unfoldable pub add_account_locked :
    Environment → String → Device → Account → String → State → Result Err (Effect (Unit {0}))
unfolding cookie_fields validate_account find_target place_account
add_account_locked env fresh device account user_id d = do
  a ← cookie_fields (record account { name = trim_space account.name })
  validate_account env a
  target ← find_target a user_id none d.config.accounts
  place_account env fresh device a d target

-- `AddAccount`
unfoldable pub add_account :
    Environment → String → Device → Account → State → Result Err (Effect (Unit {0}))
unfolding add_account_locked
add_account env fresh device a d = add_account_locked env fresh device a "" d

abbrev pub active_user : Option User → Bool
active_user none = false
active_user (some u) = is_active u.status

-- `AddAccountForUser`
unfoldable pub add_account_for_user :
    Environment → String → Device → String → Account → State → Result Err (Effect (Unit {0}))
unfolding add_account_locked
add_account_for_user env fresh device user_id a d = do
  require (not (blank (trim_space user_id))) Err.no_owner
  require (active_user (find_user d user_id)) Err.user_inactive
  add_account_locked env fresh device (record a { user_id = user_id }) user_id d

-- The loop over the accounts of `BindAccountForUser`: a login takes the place of the account named.
unfoldable pub rebind_target : String → String → Account → State → Result Err Account
rebind_target user_id target_id a d = if blank target_id then ok a else do
  old ←
      or_fail (find_first (λ x. x.id == target_id && x.user_id == user_id) d.config.accounts)
        Err.rebind_gone
  require (blank old.stuid || old.stuid == a.stuid) Err.other_account
  ok (record a { id = old.id; name = old.name })

-- `BindAccountForUser`
unfoldable pub bind_account_for_user :
    Environment
    → String
    → Device
    → String
    → String
    → Account
    → State
    → Result Err (Effect (Unit {0}))
unfolding add_account_locked rebind_target
bind_account_for_user env fresh device user_id target_id a d = do
  require (active_user (find_user d user_id)) Err.user_inactive
  b ← rebind_target user_id target_id a d
  add_account_locked env fresh device (record b { user_id = user_id }) user_id d
