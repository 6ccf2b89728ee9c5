-- ===== src/Store/Users/Revocation.antt =====
-- internal/store: what ends a user's access, and what a session token is worth.
use miyohub.Base.{
  Bool, String, count_if, count_if-keep_if_none, false, inl, inr, not, refl, true, ◌&&◌, ◌≡◌, ◌⊎◌,
}
use miyohub.Base.Result.{Result}
use miyohub.Model.{State}
use miyohub.Model.Users.{Role, UserPermissions, UserStatus, is_active}
use miyohub.Store.Environment.{Environment}
use miyohub.Store.Errors.{Err}
use miyohub.Store.Transaction.{
  Effect, Ensures, Ensures-bind, Ensures-find, Ensures-require, Saves, after, does, fails, keep,
  write, write_fail,
}
use miyohub.Store.Users.Deletion.{delete_user, without_user}
use miyohub.Store.Users.Operations.{
  reset_user_password, sign_out_unless, update_user_access, update_user_status, with_access,
  write_user,
}
use miyohub.Store.Users.Passwords.{hash_password}
use miyohub.Store.Users.Requests.{
  UserRequest, perform_user, remove_user, reset_password, set_access, set_status,
}
use miyohub.Store.Users.Sessions.{of_user, revoke_sessions}

-- No session of the user is left.
abbrev pub IsSignedOut : String → State → Type 0
IsSignedOut id d = count_if (of_user id) d.sessions ≡ 0

pub and_not : (b : Bool) → (b && not b) ≡ false
and_not true = refl
and_not false = refl

revoke_sessions-IsSignedOut : (id : String) (d : State) → IsSignedOut id (revoke_sessions id d)
unfolding revoke_sessions
revoke_sessions-IsSignedOut id d =
    count_if-keep_if_none (of_user id) _ d.sessions λ s. and_not (of_user id s)

sign_out_unless-IsSignedOut :
    (b : Bool) (id : String) (d : State) → b ≡ false → IsSignedOut id (sign_out_unless b id d)
sign_out_unless-IsSignedOut true id d h = absurd (cc h)
sign_out_unless-IsSignedOut false id d h = revoke_sessions-IsSignedOut id d

-- The requests of an administrator that end a user's access.
pub data Revokes (id : String) : UserRequest → Type 0 where
  by_status : (status : UserStatus) → is_active status ≡ false → Revokes id (set_status id status)
  by_access :
      (actor : String) (role : Role) (status : UserStatus) (permissions : UserPermissions)
      → is_active status ≡ false
      → Revokes id (set_access actor id role status permissions)
  by_password :
      (env : Environment) (salt password : String)
      → Revokes id (reset_password env salt id password)
  by_removal : Revokes id (remove_user id)

status_revokes :
    (id : String) (status : UserStatus) (d : State)
    → is_active status ≡ false
    → Ensures (Saves (IsSignedOut id)) (update_user_status id status d)
unfolding update_user_status
status_revokes id status d h = Ensures-require _ _ _ λ _. Ensures-find _ _ _ λ u _.
    Ensures-require _ _ _ λ _. does _ (
      sign_out_unless-IsSignedOut (is_active status) id
        (write_user id (record u { status = status }) d) h)

access_revokes :
    (actor id : String) (role : Role) (status : UserStatus) (permissions : UserPermissions)
    (d : State)
    → is_active status ≡ false
    → Ensures (Saves (IsSignedOut id)) (update_user_access actor id role status permissions d)
unfolding update_user_access
access_revokes actor id role status permissions d h = Ensures-require _ _ _ λ _.
    Ensures-find _ _ _ λ u _. Ensures-require _ _ _ λ _. Ensures-require _ _ _ λ _.
      Ensures-require _ _ _ λ _. Ensures-require _ _ _ λ _. does _ (
        sign_out_unless-IsSignedOut (is_active status) id
          (write_user id (with_access u role status permissions) d) h)

password_revokes :
    (env : Environment) (salt id password : String) (d : State)
    → Ensures (Saves (IsSignedOut id)) (reset_user_password env salt id password d)
unfolding reset_user_password
password_revokes env salt id password d = Ensures-bind _ _ λ _ _. Ensures-find _ _ _ λ u _. does _ (
    revoke_sessions-IsSignedOut id
      (write_user id (record u { password_hash = hash_password env salt password }) d))

removal_revokes : (id : String) (d : State) → Ensures (Saves (IsSignedOut id)) (delete_user id d)
unfolding delete_user without_user
removal_revokes id d = Ensures-find _ _ _ λ u _. Ensures-require _ _ _ λ _.
    Ensures-require _ _ _
      λ _. does _ (count_if-keep_if_none (of_user id) _ d.sessions λ s. and_not (of_user id s))

both_ways :
    {A : Type 0} (id : String) (d : State) {r : Result Err (Effect A)}
    → Ensures (Saves (IsSignedOut id)) r
    → (after d r ≡ d) ⊎ IsSignedOut id (after d r)
both_ways id d (fails e) = inl refl
both_ways id d (does (keep a) k) = inl refl
both_ways id d (does (write d' a) k) = inr k
both_ways id d (does (write_fail d' e) k) = inr k

-- A request that sets a user's status to one other than active, alone or with the other access
-- settings, resets the user's password, or deletes the user, either leaves the state as it was or
-- leaves no session of that user.
pub revocation :
    (id : String) (r : UserRequest) (d : State)
    → Revokes id r
    → (perform_user r d ≡ d) ⊎ IsSignedOut id (perform_user r d)
unfolding perform_user
revocation id _ d (by_status status h) = both_ways id d (status_revokes id status d h)
revocation id _ d (by_access actor role status permissions h) =
    both_ways id d (access_revokes actor id role status permissions d h)
revocation id _ d (by_password env salt password) =
    both_ways id d (password_revokes env salt id password d)
revocation id _ d by_removal = both_ways id d (removal_revokes id d)
