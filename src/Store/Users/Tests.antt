-- ===== src/Store/Users/Tests.antt =====
-- Runs of the operations on users at the sample site, and the theorems on them at work.
-- Bob makes himself scarce, and alice cannot be the next one to go.
use miyohub.Base.{List, [], arith, count_if, false, map, refl, some, true, ◌∷◌, ◌≡◌, ◌≤◌, ◌⊎◌}
use miyohub.Base.Int.{pos}
use miyohub.Base.Result.{ok, ◌>>=◌}
use miyohub.Base.Text.{split_at, trim_space}
use miyohub.Model.{State}
use miyohub.Model.Users.{InviteCode, User, UserStatus}
use miyohub.Store.Environment.{equal_fold}
use miyohub.Store.Samples.{
  alice, bob, bob_login, new_year, sample_environment, sample_salt, sample_site,
}
use miyohub.Store.Transaction.{write}
use miyohub.Store.Users.Admins.{HasAdmin, perform_users-HasAdmin}
use miyohub.Store.Users.Deletion.{delete_user, owned_ids, remove_calendar, without_user}
use miyohub.Store.Users.Forgotten.{IsForgotten, delete_user-IsForgotten}
use miyohub.Store.Users.Hashes.{
  IsAccepted, MakesKeys, authenticate-IsAccepted, verify_password-hash_password,
}
use miyohub.Store.Users.Invites.{consume_invite}
use miyohub.Store.Users.Limits.{create_session-limit}
use miyohub.Store.Users.Login.{authenticate, decodes_to, migrated, verify_password}
use miyohub.Store.Users.Operations.{update_user_status}
use miyohub.Store.Users.Passwords.{hash_password}
use miyohub.Store.Users.Requests.{UserRequest, perform_user, perform_users, remove_user, set_status}
use miyohub.Store.Users.Revocation.{IsSignedOut, Revokes, revocation}
use miyohub.Store.Users.Sessions.{
  create_session, of_user, public_user, revoke_sessions, session_limit, user_by_session,
}
use miyohub.Store.Users.Usable.{IsLogin, IsUse, consume-IsUse, user_by_session-IsLogin}

abbrev removals : List UserRequest
removals = remove_user "usr_b" ∷ set_status "usr_a" UserStatus.disabled ∷ remove_user "usr_a" ∷ []

removals-run : map (λ (u : User). u.id) (perform_users removals sample_site).users ≡ "usr_a" ∷ []
unfolding perform_users perform_user delete_user update_user_status without_user revoke_sessions
    ◌>>=◌ remove_calendar
removals-run = refl

sample-HasAdmin : HasAdmin sample_site
sample-HasAdmin = ground arith

perform_users-HasAdmin_example : HasAdmin (perform_users removals sample_site)
perform_users-HasAdmin_example = perform_users-HasAdmin removals sample_site sample-HasAdmin

create_session-limit_example :
    count_if (of_user "usr_b") (create_session new_year "u" "usr_b" sample_site).sessions
    ≤ session_limit
create_session-limit_example =
    create_session-limit new_year "u" "usr_b" "usr_b" sample_site (ground arith)

revocation_example :
    (perform_user (set_status "usr_b" UserStatus.disabled) sample_site ≡ sample_site)
    ⊎ IsSignedOut "usr_b" (perform_user (set_status "usr_b" UserStatus.disabled) sample_site)
revocation_example =
    revocation "usr_b" (set_status "usr_b" UserStatus.disabled) sample_site
      (Revokes.by_status UserStatus.disabled refl)

-- A code for three uses, of which two are gone.
abbrev card : InviteCode
card = record {
  permissions = record { exchange = true; site_captcha = false };
  use_site_captcha = false;
  code = "MIYO-2026";
  created_at = 1;
  expires_at = 0;
  max_uses = pos 3;
  used_count = 2;
  note = "";
  created_by = "usr_a";
  disabled = false;
}

abbrev invited_site : State
invited_site = record sample_site { invite_codes = card ∷ [] }

card-run :
    consume_invite sample_environment new_year " MIYO-2026 " invited_site
    ≡ ok (record card { used_count = 3 }, record card { used_count = 3 } ∷ [])
unfolding consume_invite equal_fold trim_space ◌>>=◌
card-run = refl

consume-IsUse_example :
    (old : InviteCode) × IsUse sample_environment new_year " MIYO-2026 " invited_site old
      (record card { used_count = 3 })
      (record card { used_count = 3 } ∷ [])
consume-IsUse_example =
    consume-IsUse sample_environment new_year " MIYO-2026 " invited_site
      (record card { used_count = 3 }) (record card { used_count = 3 } ∷ []) card-run

token-run : user_by_session new_year "t" sample_site ≡ some (public_user bob)
unfolding user_by_session
token-run = refl

user_by_session-IsLogin_example : IsLogin new_year "t" sample_site (public_user bob)
user_by_session-IsLogin_example =
    user_by_session-IsLogin new_year "t" sample_site (public_user bob) token-run

bob_gone-run : delete_user "usr_b" sample_site ≡ ok (write (without_user "usr_b" sample_site) tt)
unfolding delete_user ◌>>=◌
bob_gone-run = refl

delete_user-IsForgotten_example :
    IsForgotten "usr_b"
      (owned_ids "usr_b" sample_site.config.accounts)
      (without_user "usr_b" sample_site)
delete_user-IsForgotten_example =
    delete_user-IsForgotten "usr_b" sample_site (without_user "usr_b" sample_site) refl
      (omega arith) bob_gone-run

-- Bob signs in with a password.
sample-MakesKeys : MakesKeys sample_environment
unfolding decodes_to
sample-MakesKeys password salt = refl

verify_password-hash_password_example :
    verify_password sample_environment "password"
      (hash_password sample_environment sample_salt "password")
    ≡ true
unfolding decodes_to
verify_password-hash_password_example =
    verify_password-hash_password sample_environment sample_salt "password" sample-MakesKeys refl
      refl

abbrev login_site : State
login_site = record sample_site { users = alice ∷ bob_login ∷ [] }

login-run :
    authenticate sample_environment new_year sample_salt "u" " bob " "password" login_site
    ≡ ok (write (create_session new_year "u" "usr_b" login_site) (public_user bob_login, "u"))
unfolding authenticate hash_password ◌>>=◌ trim_space equal_fold migrated split_at
login-run = refl

authenticate-IsAccepted_example :
    (u v : User) × IsAccepted sample_environment " bob " "password" u v login_site
      (create_session new_year "u" "usr_b" login_site)
unfolding decodes_to
authenticate-IsAccepted_example =
    authenticate-IsAccepted sample_environment new_year sample_salt "u" " bob " "password"
      login_site (create_session new_year "u" "usr_b" login_site) (public_user bob_login, "u")
      sample-MakesKeys refl login-run
