-- ===== src/Store/Accounts/Editing.antt =====
-- internal/store/accounts.go and exchange.go: the changes of an account that is bound.
use miyohub.Base.{
  Bool, List, Option, String, [], any_of, blank, find_first, if◌then◌else◌, keep_if, none, not,
  remove_first, replace_first, some, ℕ, ◌&&◌, ◌++◌, ◌==◌, ◌||◌, ◌∷◌,
}
use miyohub.Base.Result.{Result, ok, require, ◌>>=◌, ◌>>◌}
use miyohub.Base.Text.{trim_space}
use miyohub.Model.{State}
use miyohub.Model.Accounts.{Account, TaskSummary}
use miyohub.Store.Accounts.Binding.{account_running, set_accounts}
use miyohub.Store.Accounts.Credentials.{cookie_fields, or_else, tokens, validate_account}
use miyohub.Store.Environment.{Environment}
use miyohub.Store.Errors.{Err}
use miyohub.Store.Lookup.{account_runnable}
use miyohub.Store.Transaction.{Effect, keep, or_fail, write}
use miyohub.Store.Users.Deletion.{remove_calendar}

-- `AccountPatch`; `none` is a nil pointer.
pub record AccountPatch : Type 0 where
  pub id : String
  pub name : Option String
  pub group : Option String
  pub disabled : Option Bool
  pub cookie : String
  pub stoken : String
  pub mid : String
  pub cloud_tokens : List (String × String)
  pub clear_cloud_tokens : List String

abbrev pub trimmed : Option String → String → String
trimmed none old = old
trimmed (some v) old = trim_space v

abbrev pub or_bool : Option Bool → Bool → Bool
or_bool none old = old
or_bool (some b) old = b

-- The cookie of the patch, with the token and the mid that it carries.
unfoldable pub with_cookie : String → Account → Result Err Account
unfolding cookie_fields
with_cookie cookie a = if blank cookie then ok a else do
  parsed ← cookie_fields (record a { cookie = cookie; stuid = ""; stoken = ""; mid = "" })
  ok (record a {
    cookie = cookie;
    status = "unchecked";
    stoken = or_else parsed.stoken a.stoken;
    mid = or_else parsed.mid a.mid;
  })

abbrev pub has_key : String → String × String → Bool
has_key key (k, v) = k == key

-- `tokens[key] = v`
abbrev pub put_token : String → String → List (String × String) → List (String × String)
put_token key v ts =
    if any_of (has_key key) ts then replace_first (has_key key) (key, v) ts else ts ++ (key, v) ∷ []

-- The two loops over the tokens of the patch.
unfoldable pub put_tokens : List (String × String) → List (String × String) → List (String × String)
put_tokens [] ts = ts
put_tokens ((key, v) ∷ rest) ts = put_tokens rest (if blank v then ts else put_token key v ts)

unfoldable pub clear_tokens : List String → List (String × String) → List (String × String)
clear_tokens [] ts = ts
clear_tokens (key ∷ keys) ts = clear_tokens keys (keep_if (λ t. not (has_key key t)) ts)

-- The account under the patch, before the checks.
unfoldable pub patched : AccountPatch → Account → Result Err Account
unfolding with_cookie put_tokens clear_tokens cookie_fields
patched p old = do
  a ← with_cookie p.cookie (record old {
    name = trimmed p.name old.name;
    group = trimmed p.group old.group;
    disabled = or_bool p.disabled old.disabled;
  })
  b ← cookie_fields (record a { stoken = or_else p.stoken a.stoken; mid = or_else p.mid a.mid })
  ok (record b {
    cloud_tokens =
        some
          (clear_tokens p.clear_cloud_tokens (put_tokens p.cloud_tokens (tokens b.cloud_tokens)));
  })

-- Another account with the owner and name, or with the UID.
abbrev pub is_taken_by : Account → Account → Bool
is_taken_by a other =
    not (other.id == a.id)
    && ((other.user_id == a.user_id && other.name == a.name)
        || (not (blank a.stuid) && a.stuid == other.stuid))

abbrev pub is_owned : String → String → Account → Bool
is_owned user_id id a = a.id == id && a.user_id == user_id

-- `UpdateAccount`
unfoldable pub update_account :
    Environment → String → AccountPatch → State → Result Err (Effect Account)
unfolding patched validate_account
update_account env user_id p d = do
  old ← or_fail (find_first (is_owned user_id p.id) d.config.accounts) Err.account_gone
  a ← patched p old
  validate_account env a
  require (not (any_of (is_taken_by a) d.config.accounts)) Err.account_exists
  ok (write (set_accounts d (replace_first (is_owned user_id p.id) a d.config.accounts)) a)

-- The state without the account, its plans and its calendar.
unfoldable pub without_account : String → String → State → State
unfolding remove_calendar
without_account user_id id d = record (remove_calendar "" id d) {
  config = record (d.config) {
    accounts = remove_first (is_owned user_id id) d.config.accounts;
    shop = record (d.config.shop) {
      plans = keep_if (λ p. not (p.account_id == id)) d.config.shop.plans;
    };
  };
}

-- `DeleteAccount`
unfoldable pub delete_account : String → String → State → Result Err (Effect (Unit {0}))
unfolding without_account
delete_account user_id id d = do
  _ ← or_fail (find_first (is_owned user_id id) d.config.accounts) Err.account_gone
  require (not (account_running d id)) Err.account_exchanging
  ok (write (without_account user_id id d) tt)

abbrev pub has_account_id : String → Account → Bool
has_account_id id a = a.id == id

-- `s.data.Config.Accounts[i] = a` at the first account of the identifier.
abbrev pub write_account : String → Account → State → State
write_account id a d = set_accounts d (replace_first (has_account_id id) a d.config.accounts)

-- `RecordAccountCheck`
unfoldable pub record_account_check : ℕ → String → String → State → Result Err (Effect (Unit {0}))
record_account_check now id status d = do
  a ← or_fail (find_first (has_account_id id) d.config.accounts) Err.account_gone
  ok (write (write_account id (record a { status = status; checked_at = now }) d) tt)

-- `RecordTasks`
unfoldable pub record_tasks :
    ℕ → String → List (String × TaskSummary) → State → Result Err (Effect (Unit {0}))
record_tasks now id results d = do
  a ← or_fail (find_first (has_account_id id) d.config.accounts) Err.account_gone
  ok (write (write_account id (record a { task_results = results; last_task_at = now }) d) tt)

abbrev pub same_credentials : Account → Account → Bool
same_credentials a b =
    a.cookie == b.cookie
    && a.stoken == b.stoken
    && a.stuid == b.stuid
    && a.mid == b.mid
    && a.device.id == b.device.id

-- `RenewAccountCookie`
unfoldable pub renew_account_cookie :
    Environment → Account → String → State → Result Err (Effect Account)
unfolding account_runnable cookie_fields validate_account
renew_account_cookie env before cookie d = do
  a ← or_fail (find_first (has_account_id before.id) d.config.accounts) Err.account_gone
  require (same_credentials a before && not a.disabled) Err.credentials_changed
  _ ← or_fail (account_runnable d a.id) Err.account_disabled
  b ← cookie_fields (record a { cookie = cookie })
  validate_account env b
  ok (write (write_account before.id b d) b)

abbrev pub has_device : String → String → Account → Bool
has_device id device_id a = a.id == id && a.device.id == device_id

-- `SetAccountDeviceFP`
unfoldable pub set_account_device_fp :
    String → String → String → State → Result Err (Effect (Unit {0}))
set_account_device_fp id device_id fp d = do
  a ← or_fail (find_first (has_device id device_id) d.config.accounts) Err.device_changed
  ok (
      if a.shop_device_fp == fp
      then keep tt
      else write
          (set_accounts d (
            replace_first (has_device id device_id) (record a { shop_device_fp = fp })
              d.config.accounts))
          tt)
