-- ===== src/Model/Users.antt =====
-- internal/model/models.go: users, their permissions, sessions, invite codes and log entries.
-- A status or role is a text in the source: each word that the code tests or writes is a
-- constructor, and `other` stands for any text besides.
use miyohub.Base.{Bool, String, false, true, ℕ, ◌&&◌, ◌||◌}
use miyohub.Base.Int.{ℤ}

pub data Role : Type 0 where
  admin user : Role
  other : String → Role

pub data UserStatus : Type 0 where
  active pending disabled : UserStatus
  other : String → UserStatus

pub data RegistrationMode : Type 0 where
  unset open_to_all review closed : RegistrationMode
  other : String → RegistrationMode

pub data OnboardingStatus : Type 0 where
  unset pending dismissed complete : OnboardingStatus
  other : String → OnboardingStatus

pub record UserPermissions : Type 0 where
  pub exchange : Bool
  pub site_captcha : Bool

pub record User : Type 0 where
  pub id : String
  pub username : String
  pub password_hash : String
  pub role : Role
  pub status : UserStatus
  pub created_at : ℕ
  pub permissions : UserPermissions
  pub onboarding_status : OnboardingStatus

abbrev pub is_admin_role : Role → Bool
is_admin_role Role.admin = true
is_admin_role Role.user = false
is_admin_role (Role.other t) = false

abbrev pub is_user_role : Role → Bool
is_user_role Role.user = true
is_user_role Role.admin = false
is_user_role (Role.other t) = false

abbrev pub is_active : UserStatus → Bool
is_active UserStatus.active = true
is_active UserStatus.pending = false
is_active UserStatus.disabled = false
is_active (UserStatus.other t) = false

-- One of the three statuses that a request may set.
abbrev pub known_status : UserStatus → Bool
known_status UserStatus.active = true
known_status UserStatus.pending = true
known_status UserStatus.disabled = true
known_status (UserStatus.other t) = false

unfoldable pub can_exchange : User → Bool
can_exchange u = is_active u.status && (is_admin_role u.role || u.permissions.exchange)

unfoldable pub can_use_site_captcha : User → Bool
can_use_site_captcha u = is_active u.status && (is_admin_role u.role || u.permissions.site_captcha)

pub record InviteCode : Type 0 where
  pub permissions : UserPermissions
  pub use_site_captcha : Bool
  pub code : String
  pub created_at : ℕ
  pub expires_at : ℕ
  pub max_uses : ℤ
  pub used_count : ℕ
  pub note : String
  pub created_by : String
  pub disabled : Bool

-- An entry of the map `State.Sessions`, with its key.
pub record Session : Type 0 where
  pub token : String
  pub user_id : String
  pub expires_at : ℕ

pub record LogEntry : Type 0 where
  pub at : ℕ
  pub component : String
  pub message : String
  pub user_id : String
  pub account_id : String
  pub run_id : String
