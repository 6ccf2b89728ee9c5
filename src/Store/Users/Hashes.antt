-- ===== src/Store/Users/Hashes.antt =====
-- internal/store/password.go: a stored password verifies, and a login keeps it so.
use Prim.Native.Char.{Char, code}
use Prim.Native.String.{len}
use miyohub.Base.{
  Bool-cases, List, String, [], any_of, ap, arith, eqb, false, find_first, inl, inr, leb, not, refl,
  replace_first, some, sym, true, ℕ, ◌∷◌, ◌≡◌,
}
use miyohub.Base.Result.{Result, ok}
use miyohub.Base.Split.{
  chars-append, has_char, of_chars-chars, split_chars-append, split_chars-last,
}
use miyohub.Base.Text.{chars, split_at, split_chars}
use miyohub.Model.{State}
use miyohub.Model.Users.{User, is_active}
use miyohub.Store.Environment.{Environment}
use miyohub.Store.Errors.{Err}
use miyohub.Store.Transaction.{Effect, find-ok, require-ok, write}
use miyohub.Store.Users.Login.{
  atoi, authenticate, decodes_to, is_current_hash, is_hex, migrated, named, same_bytes, same_values,
  verify_parts, verify_password, with_password,
}
use miyohub.Store.Users.Passwords.{hash_password}
use miyohub.Store.Users.Sessions.{create_session}
use Prim.Native.String.{◌++◌ as append}

-- The key of a password and a salt is a text of 64 hexadecimal digits.
abbrev pub MakesKeys : Environment → Type 0
MakesKeys env = (password salt : String) → decodes_to 32 (env.pbkdf2 password salt 600000) ≡ true

hex-no_dollar : (c : Char) → is_hex c ≡ true → eqb (code c) b'$' ≡ false
hex-no_dollar c h = ground arith

hex-has_char : (cs : List Char) → any_of (λ c. not (is_hex c)) cs ≡ false → has_char b'$' cs ≡ false
hex-has_char [] h = refl
hex-has_char (c ∷ cs) h = elim (Bool-cases (is_hex c)) [
  | inl e ↦ rw (hex-no_dollar c e) (hex-has_char cs (rw e at h))
  | inr e ↦ absurd (cc (rw e at h))
]

same_values_refl : (cs : List Char) → same_values cs cs ≡ true
same_values_refl [] = refl
same_values_refl (c ∷ cs) = ground (arith, same_values_refl cs)

decoded-no_dollar : (n : ℕ) (s : String) → decodes_to n s ≡ true → has_char b'$' (chars s) ≡ false
unfolding decodes_to
decoded-no_dollar n s h = hex-has_char (chars s) (ground arith)

-- The parts of a text that `hashPassword` makes.
split-hash :
    (env : Environment) (salt password : String)
    → decodes_to 16 salt ≡ true
    → MakesKeys env
    → split_at b'$' (hash_password env salt password)
      ≡ "pbkdf2-sha256" ∷ "600000" ∷ salt ∷ env.pbkdf2 password salt 600000 ∷ []
unfolding split_at hash_password split_chars
split-hash env salt password h k =
    let key = env.pbkdf2 password salt 600000 in
    rw
      (
        chars-append "pbkdf2-sha256$600000$" (append salt (append "$" key)),
        chars-append salt (append "$" key),
        chars-append "$" key,
        split_chars-append b'$' (chars salt) "$" (chars key) (decoded-no_dollar 16 salt h) refl,
        split_chars-last b'$' (chars key) (decoded-no_dollar 32 key (k password salt)),
        of_chars-chars salt,
        of_chars-chars key,
      )
      refl

-- A password of at most 128 bytes verifies against the text under which it is stored, whatever the
-- salt of sixteen bytes, if PBKDF2 gives keys of 32 bytes.
pub verify_password-hash_password :
    (env : Environment) (salt password : String)
    → MakesKeys env
    → decodes_to 16 salt ≡ true
    → leb (len password) 128 ≡ true
    → verify_password env password (hash_password env salt password) ≡ true
unfolding verify_password verify_parts atoi same_bytes
verify_password-hash_password env salt password k h l =
    rw
      (
        l,
        split-hash env salt password h k,
        h,
        k password salt,
        same_values_refl (chars (env.pbkdf2 password salt 600000)),
      )
      refl

-- What a login does to the state, for a password that verifies.
pub record IsAccepted (env : Environment) (username password : String) (u v : User) (d e : State)
    : Type 0 where
  found : find_first (named env username) d.users ≡ some u
  active : is_active u.status ≡ true
  checked : verify_password env password u.password_hash ≡ true
  written : e.users ≡ replace_first (named env username) v d.users
  still : verify_password env password v.password_hash ≡ true
  current : is_current_hash v.password_hash ≡ true

is_current_hash-hash_password :
    (env : Environment) (salt password : String)
    → is_current_hash (hash_password env salt password) ≡ true
unfolding is_current_hash hash_password
is_current_hash-hash_password env salt password =
    rw
      (chars-append "pbkdf2-sha256$600000$"
        (append salt (append "$" (env.pbkdf2 password salt 600000))))
      refl

migrated-verifies :
    (env : Environment) (salt password : String) (u : User)
    → MakesKeys env
    → decodes_to 16 salt ≡ true
    → leb (len password) 128 ≡ true
    → verify_password env password u.password_hash ≡ true
    → (verify_password env password (migrated env salt password u).password_hash ≡ true)
      × (is_current_hash (migrated env salt password u).password_hash ≡ true)
unfolding migrated with_password
migrated-verifies env salt password u k s l h =
    elim (Bool-cases (is_current_hash u.password_hash)) [
      | inl e ↦ rw e (h, e)
      | inr e ↦ rw e (
        verify_password-hash_password env salt password k s l,
        is_current_hash-hash_password env salt password,
      )
    ]

-- A login that succeeds is of an active user whose stored text the password verifies; afterwards the
-- text is of the current form and the password still verifies against it.
pub authenticate-IsAccepted :
    (env : Environment) (now : ℕ) (salt token username password : String) (d e : State)
    (r : User × String)
    → MakesKeys env
    → decodes_to 16 salt ≡ true
    → authenticate env now salt token username password d ≡ ok (write e r)
    → (u v : User) × IsAccepted env username password u v d e
unfolding authenticate create_session
authenticate-IsAccepted env now salt token username password d e r k s h =
    let (short, h1) = require-ok _ _ _ _ h in
    let (u, found, h2) = find-ok _ _ _ _ h1 in
    let (checked, h3) = require-ok _ _ _ _ h2 in
    let (active, h4) = require-ok _ _ _ _ h3 in
    let kept = migrated-verifies env salt password u k s short checked in
    (
      u,
      migrated env salt password u,
      record {
        found = found;
        active = active;
        checked = checked;
        written = sym (ap users_of h4);
        still = kept.0;
        current = kept.1;
      },
    )
  where
    users_of : Result Err (Effect (User × String)) → List User
    users_of (ok (write x y)) = x.users
    users_of _ = []
