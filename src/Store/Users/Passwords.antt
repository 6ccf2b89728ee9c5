-- ===== src/Store/Users/Passwords.antt =====
-- internal/store/password.go and users.go: new users and the text under which a password is kept.
use Prim.Native.Char.{Char, code}
use Prim.Native.String.{count, len}
use miyohub.Base.{Bool, String, any_of, eqb, false, leb, not, ℕ, ◌&&◌, ◌||◌}
use miyohub.Base.Result.{Result, ok, require, ◌>>◌}
use miyohub.Base.Text.{chars, trim_space}
use miyohub.Model.Users.{OnboardingStatus, Role, User, UserStatus}
use miyohub.Store.Environment.{Environment}
use miyohub.Store.Errors.{Err}
use Prim.Native.String.{◌++◌ as append}

-- `validatePassword`
unfoldable pub validate_password : String → Result Err (Unit {0})
validate_password password =
    require (leb 8 (len password) && leb (len password) 128) Err.bad_password

abbrev pub username_character : Environment → Char → Bool
username_character env c =
    env.is_letter_or_digit c || eqb (code c) b'_' || eqb (code c) b'.' || eqb (code c) b'-'

-- `validateUser`
unfoldable pub validate_user : Environment → String → String → Result Err (Unit {0})
unfolding validate_password
validate_user env username password = do
  let name = trim_space username
  require (leb 1 (count name) && leb (count name) 64) Err.bad_username
  require (not (any_of (λ c. not (username_character env c)) (chars name)))
      Err.bad_username_character
  validate_password password

-- `hashPassword`, with the hexadecimal text of the salt.
unfoldable pub hash_password : Environment → String → String → String
hash_password env salt password =
    append "pbkdf2-sha256$600000$" (append salt (append "$" (env.pbkdf2 password salt 600000)))

-- `newUser`, with the hexadecimal text of the eight random bytes.
unfoldable pub new_user :
    Environment → ℕ → String → String → String → String → Role → UserStatus → Result Err User
unfolding validate_user hash_password
new_user env now raw salt username password role status = do
  validate_user env username password
  ok (record {
    id = append "usr_" raw;
    username = trim_space username;
    password_hash = hash_password env salt password;
    role = role;
    status = status;
    created_at = now;
    permissions = record { exchange = false; site_captcha = false };
    onboarding_status = OnboardingStatus.pending;
  })
