-- ===== src/Store/Users/Requests.antt =====
-- The operations on users, sessions and invites as one type of requests.
use miyohub.Base.{Bool, List, String, [], ℕ, ◌∷◌}
use miyohub.Base.Int.{ℤ}
use miyohub.Model.{State}
use miyohub.Model.Users.{OnboardingStatus, RegistrationMode, Role, UserPermissions, UserStatus}
use miyohub.Store.Environment.{Environment}
use miyohub.Store.Transaction.{after}
use miyohub.Store.Users.Deletion.{delete_user}
use miyohub.Store.Users.Invites.{
  consume_invite_code, create_invite_code, delete_invite_code, disable_invite,
}
use miyohub.Store.Users.Login.{authenticate, change_password}
use miyohub.Store.Users.Operations.{
  create_admin, create_user, register_with_invite, reset_user_password, set_registration_mode,
  update_onboarding, update_user_access, update_user_permissions, update_user_role,
  update_user_status,
}
use miyohub.Store.Users.Sessions.{delete_session}

pub data UserRequest : Type 0 where
  setup : Environment → ℕ → String → String → String → String → String → UserRequest
  register : Environment → ℕ → String → String → String → String → String → String → UserRequest
  set_mode : RegistrationMode → UserRequest
  add_user : Environment → ℕ → String → String → String → String → Role → UserRequest
  set_status : String → UserStatus → UserRequest
  set_role : String → Role → UserRequest
  reset_password : Environment → String → String → String → UserRequest
  set_access : String → String → Role → UserStatus → UserPermissions → UserRequest
  set_permissions : String → String → UserPermissions → UserRequest
  set_onboarding : String → OnboardingStatus → UserRequest
  remove_user : String → UserRequest
  sign_out : String → UserRequest
  invite :
      Environment
      → ℕ
      → String
      → String
      → ℕ
      → ℤ
      → String
      → String
      → UserPermissions
      → Bool
      → UserRequest
  drop_invite : Environment → String → UserRequest
  block_invite : Environment → String → Bool → UserRequest
  use_invite : Environment → ℕ → String → UserRequest
  sign_in : Environment → ℕ → String → String → String → String → UserRequest
  set_password : Environment → ℕ → String → String → String → String → String → UserRequest

-- The state after a request that could be saved.
unfoldable pub perform_user : UserRequest → State → State
perform_user (setup env now raw salt token name password) d =
    after d (create_admin env now raw salt token name password d)
perform_user (register env now raw salt token name password text) d =
    after d (register_with_invite env now raw salt token name password text d)
perform_user (set_mode mode) d = after d (set_registration_mode mode d)
perform_user (add_user env now raw salt name password role) d =
    after d (create_user env now raw salt name password role d)
perform_user (set_status id status) d = after d (update_user_status id status d)
perform_user (set_role id role) d = after d (update_user_role id role d)
perform_user (reset_password env salt id password) d =
    after d (reset_user_password env salt id password d)
perform_user (set_access actor id role status permissions) d =
    after d (update_user_access actor id role status permissions d)
perform_user (set_permissions actor id permissions) d =
    after d (update_user_permissions actor id permissions d)
perform_user (set_onboarding id status) d = after d (update_onboarding id status d)
perform_user (remove_user id) d = after d (delete_user id d)
perform_user (sign_out token) d = after d (delete_session token d)
perform_user (invite env now text given expires_at uses note creator permissions captcha) d =
    after d
      (create_invite_code env now text given expires_at uses note creator permissions captcha d)
perform_user (drop_invite env text) d = after d (delete_invite_code env text d)
perform_user (block_invite env text disabled) d = after d (disable_invite env text disabled d)
perform_user (use_invite env now text) d = after d (consume_invite_code env now text d)
perform_user (sign_in env now salt token name password) d =
    after d (authenticate env now salt token name password d)
perform_user (set_password env now salt token id old new) d =
    after d (change_password env now salt token id old new d)

unfoldable pub perform_users : List UserRequest → State → State
perform_users [] d = d
perform_users (r ∷ rs) d = perform_users rs (perform_user r d)
