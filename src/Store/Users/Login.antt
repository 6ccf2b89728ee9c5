-- ===== src/Store/Users/Login.antt =====
-- internal/store/password.go and store.go: the test of a password, the login and the change of a password.
use Prim.Native.Char.{Char, code}
use Prim.Native.String.{len}
use miyohub.Base.{
  Bool, List, Option, String, [], any_of, eqb, false, find_first, if◌then◌else◌, leb, length, none,
  not, replace_first, some, suc, true, zero, ℕ, ◌&&◌, ◌*◌, ◌+◌, ◌-◌, ◌==◌, ◌||◌, ◌∷◌,
}
use miyohub.Base.Result.{Result, ok, require, ◌>>=◌, ◌>>◌}
use miyohub.Base.Text.{chars, split_at, trim_space}
use miyohub.Model.{State}
use miyohub.Model.Users.{User, is_active}
use miyohub.Store.Environment.{Environment, equal_fold}
use miyohub.Store.Errors.{Err}
use miyohub.Store.Lookup.{find_user, has_id}
use miyohub.Store.Transaction.{Effect, or_fail, write}
use miyohub.Store.Users.Operations.{set_users}
use miyohub.Store.Users.Passwords.{hash_password, validate_password}
use miyohub.Store.Users.Sessions.{create_session, public_user, revoke_sessions}
use Prim.Native.String.{◌++◌ as append}

abbrev pub is_hex : Char → Bool
is_hex c =
    (leb b'0' (code c) && leb (code c) b'9')
    || (leb b'a' (code c) && leb (code c) b'f')
    || (leb b'A' (code c) && leb (code c) b'F')

-- `hex.DecodeString` succeeds with so many bytes.
unfoldable pub decodes_to : ℕ → String → Bool
decodes_to bytes s =
    eqb (length (chars s)) (2 * bytes) && not (any_of (λ c. not (is_hex c)) (chars s))

-- The value of a hexadecimal digit: 0-9, A-F or a-f.
abbrev pub hex_value : Char → ℕ
hex_value c =
    if leb (code c) b'9'
    then code c - b'0'
    else if leb (code c) b'F'
    then code c - b'A' + 10
    else code c - b'a' + 10

abbrev pub same_values : List Char → List Char → Bool
same_values [] [] = true
same_values (a ∷ s) (b ∷ t) = eqb (hex_value a) (hex_value b) && same_values s t
same_values _ _ = false

-- `subtle.ConstantTimeCompare` of the bytes of two hexadecimal texts.
unfoldable pub same_bytes : String → String → Bool
same_bytes s t = same_values (chars s) (chars t)

-- `strconv.Atoi`, where it gives a number that is not negative.
abbrev pub digits : ℕ → List Char → Option ℕ
digits n [] = some n
digits n (c ∷ s) =
    let rest = digits (10 * n + (code c - b'0')) s in
    if leb b'0' (code c) && leb (code c) b'9' then rest else none

abbrev pub unsigned : List Char → List Char
unsigned [] = []
unsigned (c ∷ s) = if eqb (code c) b'+' then s else c ∷ s

unfoldable pub atoi : String → Option ℕ
atoi s = elim (unsigned (chars s)) [ [] ↦ none | c ∷ cs ↦ digits 0 (c ∷ cs) ]

unfoldable pub repeat {ℓ} : {A : Type ℓ} → ℕ → (A → A) → A → A
repeat zero f a = a
repeat (suc n) f a = repeat n f (f a)

-- `derivePassword`
unfoldable pub derive_password : Environment → String → String → String
unfolding repeat
derive_password env salt password = repeat 100000 env.sha256 (append salt (append ":" password))

abbrev pub good_iterations : Option ℕ → Bool
good_iterations none = false
good_iterations (some n) = leb 600000 n && leb n 2000000

abbrev pub or_zero : Option ℕ → ℕ
or_zero none = 0
or_zero (some n) = n

-- The parts of a stored text against the password.
unfoldable pub verify_parts : Environment → String → List String → Bool
unfolding decodes_to same_bytes derive_password atoi
verify_parts env password (salt ∷ key ∷ []) =
    decodes_to 16 salt
    && decodes_to 32 key
    && same_bytes key (env.hex (derive_password env salt password))
verify_parts env password (kind ∷ times ∷ salt ∷ key ∷ []) =
    kind == "pbkdf2-sha256"
    && good_iterations (atoi times)
    && decodes_to 16 salt
    && decodes_to 32 key
    && same_bytes key (env.pbkdf2 password salt (or_zero (atoi times)))
verify_parts env password _ = false

-- `verifyPassword`
unfoldable pub verify_password : Environment → String → String → Bool
unfolding verify_parts
verify_password env password stored =
    leb (len password) 128 && verify_parts env password (split_at b'$' stored)

-- `strings.HasPrefix(hash, "pbkdf2-sha256$")`
abbrev pub starts_with : List Char → List Char → Bool
starts_with [] s = true
starts_with (p ∷ ps) [] = false
starts_with (p ∷ ps) (c ∷ s) = eqb (code p) (code c) && starts_with ps s

unfoldable pub is_current_hash : String → Bool
is_current_hash hash = starts_with (chars "pbkdf2-sha256$") (chars hash)

unfoldable pub named : Environment → String → User → Bool
unfolding equal_fold
named env username u = equal_fold env u.username (trim_space username)

unfoldable pub with_password : Environment → String → String → User → User
unfolding hash_password
with_password env salt password u = record u { password_hash = hash_password env salt password }

-- A legacy text is replaced after a successful login.
unfoldable pub migrated : Environment → String → String → User → User
unfolding is_current_hash
migrated env salt password u =
    if is_current_hash u.password_hash then u else with_password env salt password u

-- `Authenticate`, with the random salt and token.
unfoldable pub authenticate :
    Environment
    → ℕ
    → String
    → String
    → String
    → String
    → State
    → Result Err (Effect (User × String))
unfolding verify_password create_session named migrated
authenticate env now salt token username password d = do
  require (leb (len password) 128) Err.bad_login
  u ← or_fail (find_first (named env username) d.users) Err.bad_login
  require (verify_password env password u.password_hash) Err.bad_login
  require (is_active u.status) Err.user_inactive
  let v = migrated env salt password u
  let e = set_users d (replace_first (named env username) v d.users)
  ok (write (create_session now token u.id e) (public_user u, token))

-- `ChangePassword`
unfoldable pub change_password :
    Environment
    → ℕ
    → String
    → String
    → String
    → String
    → String
    → State
    → Result Err (Effect (User × String))
unfolding validate_password verify_password revoke_sessions create_session hash_password
change_password env now salt token id old new d = do
  validate_password new
  u ← or_fail (find_user d id) Err.wrong_password
  require (verify_password env old u.password_hash) Err.wrong_password
  let v = with_password env salt new u
  let e = set_users d (replace_first (has_id id) v d.users)
  ok (write (create_session now token id (revoke_sessions id e)) (public_user v, token))
