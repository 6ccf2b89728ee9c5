-- ===== src/Store/Users/Sessions.antt =====
-- internal/store/store.go and users.go: login sessions. The map of sessions is a list of entries in
-- the order of an iteration, which Go leaves open: every statement here is for every order.
use miyohub.Base.{
  Bool, List, Option, String, [], count_if, eqb, find_first, if◌then◌else◌, keep_if, leb, ltb, none,
  not, some, ℕ, ◌&&◌, ◌++◌, ◌+◌, ◌==◌, ◌||◌, ◌∷◌,
}
use miyohub.Base.Result.{Result, ok}
use miyohub.Model.{State}
use miyohub.Model.Users.{Session, User, is_active}
use miyohub.Store.Errors.{Err}
use miyohub.Store.Transaction.{Effect, write}

abbrev pub of_user : String → Session → Bool
of_user user_id s = s.user_id == user_id

abbrev pub set_sessions : State → List Session → State
set_sessions d ss = record d { sessions = ss }

-- `delete(s.data.Sessions, token)`
abbrev pub without_token : String → List Session → List Session
without_token token = keep_if (λ s. not (s.token == token))

-- The loop of `createSessionLocked` that looks for the user's session that ends first.
unfoldable pub oldest_token : String → ℕ → String → List Session → String
oldest_token user_id oldest token [] = token
oldest_token user_id oldest token (s ∷ ss) =
    let earlier = s.user_id == user_id && (eqb oldest 0 || ltb s.expires_at oldest) in
    oldest_token user_id (if earlier then s.expires_at else oldest)
      (if earlier then s.token else token) ss

abbrev pub week : ℕ
week = 604800000000000

abbrev pub session_limit : ℕ
session_limit = 20

-- The sessions that stay when the user signs in once more.
unfoldable pub make_room : String → List Session → List Session
unfolding oldest_token
make_room user_id ss =
    if leb session_limit (count_if (of_user user_id) ss)
    then without_token (oldest_token user_id 0 "" ss) ss
    else ss

-- `createSessionLocked`, with the random token.
unfoldable pub create_session : ℕ → String → String → State → State
unfolding make_room
create_session now token user_id d =
    let live = keep_if (λ s. ltb now s.expires_at) d.sessions in
    let entry : Session = record { token = token; user_id = user_id; expires_at = now + week } in
    set_sessions d (without_token token (make_room user_id live) ++ entry ∷ [])

-- `revokeSessionsLocked`
unfoldable pub revoke_sessions : String → State → State
revoke_sessions id d = set_sessions d (keep_if (λ s. not (of_user id s)) d.sessions)

-- `publicUser`
abbrev pub public_user : User → User
public_user u = record u { password_hash = "" }

abbrev pub public_option : Option User → Option User
public_option none = none
public_option (some u) = some (public_user u)

-- The user whom a session entry signs in.
abbrev pub session_user : ℕ → State → Option Session → Option User
session_user now d none = none
session_user now d (some s) =
    if ltb s.expires_at now
    then none
    else public_option (find_first (λ u. u.id == s.user_id && is_active u.status) d.users)

-- `UserBySession`
unfoldable pub user_by_session : ℕ → String → State → Option User
user_by_session now token d = session_user now d (find_first (λ s. s.token == token) d.sessions)

-- `DeleteSession`
unfoldable pub delete_session : String → State → Result Err (Effect (Unit {0}))
delete_session token d = ok (write (set_sessions d (without_token token d.sessions)) tt)
