-- ===== src/Store/Lookup.antt =====
-- internal/store: the lookups that hold the lock. `userIndexLocked` returns an index; here it is
-- the user at that index, and a write at the index is a write at the first user of the name.
use miyohub.Base.{
  Bool, Option, String, any_of, blank, count_if, false, find_first, if◌then◌else◌, none, not, some,
  true, ℕ, ◌&&◌, ◌==◌, ◌||◌,
}
use miyohub.Base.Result.{Result, require, ◌>>◌}
use miyohub.Model.{State}
use miyohub.Model.Accounts.{Account}
use miyohub.Model.Users.{User, can_exchange, is_active, is_admin_role}
use miyohub.Store.Errors.{Err}

abbrev pub has_id : String → User → Bool
has_id id u = u.id == id

-- `userIndexLocked`, as the user found.
abbrev pub find_user : State → String → Option User
find_user d id = find_first (has_id id) d.users

-- `userIndexLocked(id) < 0`
abbrev pub no_user : Option User → Bool
no_user none = true
no_user (some u) = false

-- `isAdmin`
abbrev pub is_admin : User → Bool
is_admin u = is_admin_role u.role && is_active u.status

abbrev pub admin_option : Option User → Bool
admin_option none = false
admin_option (some u) = is_admin u

-- `activeAdminCountLocked`
abbrev pub active_admin_count : State → ℕ
active_admin_count d = count_if is_admin d.users

-- `(admin && userID == "") || account.UserID == userID`
abbrev pub may_see : String → Bool → Account → Bool
may_see user_id admin a = (admin && blank user_id) || a.user_id == user_id

-- `accountOwnedLocked`
abbrev pub account_owned : State → String → Bool → String → Bool
account_owned d user_id admin account_id =
    any_of (λ a. a.id == account_id && may_see user_id admin a) d.config.accounts

-- The test of the two nested loops of `accountRunnableLocked`.
abbrev pub owner_active : State → Account → Bool
owner_active d a = any_of (λ u. u.id == a.user_id && is_active u.status) d.users

-- `accountRunnableLocked`, and `AccountRunnable` under the lock.
unfoldable pub account_runnable : State → String → Option Account
account_runnable d id =
    find_first (λ a. a.id == id && not a.disabled && owner_active d a) d.config.accounts

abbrev pub user_can_exchange : Option User → Bool
user_can_exchange none = false
user_can_exchange (some u) = can_exchange u

-- `accountCanExchangeLocked`
unfoldable pub account_can_exchange : State → String → Bool
account_can_exchange d id = elim (account_runnable d id) [
  | none ↦ false
  | some a ↦ user_can_exchange (find_user d a.user_id)
]

-- The caller's admin flag, held to its user's own role; a call with no user keeps the flag.
abbrev pub caller_admin : Option User → Bool → Bool
caller_admin none admin = admin
caller_admin (some u) admin = admin && is_admin u

-- The user of a call: none for a call of the engine itself.
abbrev pub calling_user : State → String → Option User
calling_user d user_id = if blank user_id then none else find_user d user_id

-- `checkExchangeAccessLocked`: a caller cannot turn its own admin flag into an ownership bypass.
unfoldable pub check_exchange_access : State → String → Bool → String → Result Err (Unit {0})
unfolding account_can_exchange
check_exchange_access d user_id admin account_id = do
  let user = calling_user d user_id
  require (if blank user_id then admin else user_can_exchange user) Err.exchange_permission
  require (account_owned d user_id (caller_admin user admin) account_id) Err.not_owner
  require (account_can_exchange d account_id) Err.exchange_permission
