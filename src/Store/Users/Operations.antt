-- ===== src/Store/Users/Operations.antt =====
-- internal/store/store.go, users.go, permissions.go and onboarding.go: the operations on users.
-- `now` is the server's time; `raw`, `salt` and `token` are texts of random bytes.
use miyohub.Base.{
  Bool, List, String, [], any_of, blank, false, if◌then◌else◌, keep_if, leb, ltb, map, not,
  replace_first, true, ℕ, ◌&&◌, ◌++◌, ◌==◌, ◌||◌, ◌∷◌,
}
use miyohub.Base.Int.{pos}
use miyohub.Base.Result.{Result, err, ok, require, ◌>>=◌, ◌>>◌}
use miyohub.Base.Text.{trim_space}
use miyohub.Model.{State}
use miyohub.Model.Accounts.{Account}
use miyohub.Model.Captcha.{UserCaptcha}
use miyohub.Model.Users.{
  InviteCode, OnboardingStatus, RegistrationMode, Role, User, UserPermissions, UserStatus,
  is_active, is_admin_role, is_user_role, known_status,
}
use miyohub.Store.Environment.{Environment, equal_fold}
use miyohub.Store.Errors.{Err}
use miyohub.Store.Lookup.{active_admin_count, admin_option, find_user, has_id, is_admin}
use miyohub.Store.Transaction.{Effect, or_fail, write}
use miyohub.Store.Users.Invites.{consume_invite}
use miyohub.Store.Users.Passwords.{hash_password, new_user, validate_password}
use miyohub.Store.Users.Sessions.{create_session, public_user, revoke_sessions}

abbrev pub set_users : State → List User → State
set_users d us = record d { users = us }

-- The first user of the identifier, written anew.
abbrev pub write_user : String → User → State → State
write_user id u d = set_users d (replace_first (has_id id) u d.users)

-- What a login or registration answers.
pub record SignedIn : Type 0 where
  pub user : User
  pub token : String

abbrev pub adopt_account : String → Account → Account
adopt_account id a = if blank a.user_id then record a { user_id = id } else a

-- `CreateAdmin`: the first administrator takes the accounts that nobody owns.
unfoldable pub create_admin :
    Environment
    → ℕ
    → String
    → String
    → String
    → String
    → String
    → State
    → Result Err (Effect SignedIn)
unfolding new_user create_session
create_admin env now raw salt token username password d = do
  require (not (any_of (λ u. is_admin_role u.role) d.users)) Err.already_initialised
  u ← new_user env now raw salt username password Role.admin UserStatus.active
  let adopted = map (adopt_account u.id) d.config.accounts
  let e : State = record d {
    users = d.users ++ u ∷ [];
    config = record (d.config) { accounts = adopted };
  }
  ok (write (create_session now token u.id e) (record { user = public_user u; token = token }))

-- The status of a new user without an invite, by the registration mode.
abbrev pub status_by_mode : RegistrationMode → Result Err UserStatus
status_by_mode RegistrationMode.closed = err Err.invite_only
status_by_mode RegistrationMode.review = ok UserStatus.pending
status_by_mode RegistrationMode.unset = ok UserStatus.pending
status_by_mode RegistrationMode.open_to_all = ok UserStatus.active
status_by_mode (RegistrationMode.other t) = err Err.bad_mode

abbrev pub hide_reason {ℓ} : {A : Type ℓ} → Result Err A → Result Err A
hide_reason (ok a) = ok a
hide_reason (err e) = err Err.bad_invite

-- The captcha settings that an invite may bring.
abbrev pub site_captcha : String → UserCaptcha
site_captcha id = record {
  user_id = id;
  captcha = record { source = "site"; revision = 1; max_retries = pos 3; channels = [] };
}

abbrev pub grant_captcha : InviteCode → String → List UserCaptcha → List UserCaptcha
grant_captcha i id cs =
    if i.use_site_captcha && i.permissions.site_captcha
    then keep_if (λ c. not (c.user_id == id)) cs ++ site_captcha id ∷ []
    else cs

-- The new user and the state with the invite used, if one was given.
unfoldable pub redeem_invite : Environment → ℕ → String → User → State → Result Err (User × State)
unfolding consume_invite
redeem_invite env now text u d = if blank text then ok (u, d) else (do
  (i, is) ← hide_reason (consume_invite env now text d)
  ok (
    record u { permissions = i.permissions },
    record d { invite_codes = is; user_captcha = grant_captcha i u.id d.user_captcha },
  ))

-- `RegisterWithInvite`
unfoldable pub register_with_invite :
    Environment
    → ℕ
    → String
    → String
    → String
    → String
    → String
    → String
    → State
    → Result Err (Effect SignedIn)
unfolding new_user redeem_invite create_session equal_fold
register_with_invite env now raw salt token username password invite d = do
  require (ltb 0 (active_admin_count d)) Err.not_initialised
  let name = trim_space username
  let text = trim_space invite
  require (not (any_of (λ u. equal_fold env u.username name) d.users)) Err.name_taken
  status ← if blank text then status_by_mode d.registration_mode else ok UserStatus.active
  fresh ← new_user env now raw salt name password Role.user status
  (u, e) ← redeem_invite env now text fresh d
  let with_user = set_users e (e.users ++ u ∷ [])
  let done = if is_active status then create_session now token u.id with_user else with_user
  ok (write done (record { user = public_user u; token = if is_active status then token else "" }))

abbrev pub known_mode : RegistrationMode → Bool
known_mode RegistrationMode.open_to_all = true
known_mode RegistrationMode.review = true
known_mode RegistrationMode.closed = true
known_mode RegistrationMode.unset = false
known_mode (RegistrationMode.other t) = false

-- `SetRegistrationMode`
unfoldable pub set_registration_mode : RegistrationMode → State → Result Err (Effect (Unit {0}))
set_registration_mode mode d = do
  require (known_mode mode) Err.bad_mode
  ok (write (record d { registration_mode = mode }) tt)

-- `CreateUser`
unfoldable pub create_user :
    Environment → ℕ → String → String → String → String → Role → State → Result Err (Effect User)
unfolding new_user equal_fold
create_user env now raw salt username password role d = do
  require (is_user_role role || is_admin_role role) Err.bad_role
  require (not (any_of (λ u. equal_fold env u.username (trim_space username)) d.users))
      Err.name_taken
  u ← new_user env now raw salt username password role UserStatus.active
  ok (write (set_users d (d.users ++ u ∷ [])) (public_user u))

-- The last active administrator.
abbrev pub is_last_admin : State → User → Bool
is_last_admin d u = is_admin u && leb (active_admin_count d) 1

abbrev pub sign_out_unless : Bool → String → State → State
sign_out_unless true id d = d
sign_out_unless false id d = revoke_sessions id d

-- `UpdateUserStatus`
unfoldable pub update_user_status : String → UserStatus → State → Result Err (Effect (Unit {0}))
unfolding revoke_sessions
update_user_status id status d = do
  require (known_status status) Err.bad_status
  u ← or_fail (find_user d id) Err.no_such_user
  require (not (is_last_admin d u && not (is_active status))) Err.last_admin
  ok (
      write (sign_out_unless (is_active status) id (write_user id (record u { status = status }) d))
        tt)

-- `UpdateUserRole`
unfoldable pub update_user_role : String → Role → State → Result Err (Effect (Unit {0}))
update_user_role id role d = do
  require (is_admin_role role || is_user_role role) Err.bad_role
  u ← or_fail (find_user d id) Err.no_such_user
  require (not (is_last_admin d u && not (is_admin_role role))) Err.last_admin
  ok (write (write_user id (record u { role = role }) d) tt)

-- `ResetUserPassword`
unfoldable pub reset_user_password :
    Environment → String → String → String → State → Result Err (Effect (Unit {0}))
unfolding validate_password hash_password revoke_sessions
reset_user_password env salt id password d = do
  validate_password password
  u ← or_fail (find_user d id) Err.no_such_user
  let v = record u { password_hash = hash_password env salt password }
  ok (write (revoke_sessions id (write_user id v d)) tt)

abbrev pub with_access : User → Role → UserStatus → UserPermissions → User
with_access u role status permissions = record u {
  role = role;
  status = status;
  permissions = if is_user_role role then permissions else u.permissions;
}

-- `UpdateUserAccess`: role, status and permissions together; permissions stay those of a role
-- other than `user`.
unfoldable pub update_user_access :
    String
    → String
    → Role
    → UserStatus
    → UserPermissions
    → State
    → Result Err (Effect (User × User))
unfolding revoke_sessions
update_user_access actor id role status permissions d = do
  require (admin_option (find_user d actor)) Err.admin_only
  u ← or_fail (find_user d id) Err.no_such_user
  require (not (id == actor)) Err.not_yourself
  require (is_user_role role || is_admin_role role) Err.bad_role
  require (known_status status) Err.bad_status
  require (not (is_last_admin d u && (not (is_admin_role role) || not (is_active status))))
      Err.last_admin
  let v = with_access u role status permissions
  ok (
      write (sign_out_unless (is_active status) id (write_user id v d))
        (public_user u, public_user v))

-- `UpdateUserPermissions`
unfoldable pub update_user_permissions :
    String → String → UserPermissions → State → Result Err (Effect (Unit {0}))
update_user_permissions actor id permissions d = do
  require (admin_option (find_user d actor)) Err.admin_only
  u ← or_fail (find_user d id) Err.no_such_user
  require (not (is_admin_role u.role)) Err.admin_needs_no_grant
  ok (write (write_user id (record u { permissions = permissions }) d) tt)

abbrev pub onboarding_result : OnboardingStatus → Bool
onboarding_result OnboardingStatus.dismissed = true
onboarding_result OnboardingStatus.complete = true
onboarding_result OnboardingStatus.unset = false
onboarding_result OnboardingStatus.pending = false
onboarding_result (OnboardingStatus.other t) = false

-- `UpdateOnboarding`
unfoldable pub update_onboarding : String → OnboardingStatus → State → Result Err (Effect User)
update_onboarding id status d = do
  require (onboarding_result status) Err.bad_onboarding
  u ← or_fail (find_user d id) Err.user_inactive
  require (is_active u.status) Err.user_inactive
  let v = record u { onboarding_status = status }
  ok (write (write_user id v d) (public_user v))
