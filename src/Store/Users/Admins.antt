-- ===== src/Store/Users/Admins.antt =====
-- internal/store: the site never loses its last active administrator.
use miyohub.Base.{
  Bool, Bool-cases, List, String, [], arith, count_if, count_if-append, count_if-remove_first,
  count_if-replace_first, false, find_first, if◌then◌else◌, inl, inr, refl, replace_first, some,
  true, ℕ, ◌++◌, ◌<◌, ◌∷◌, ◌≡◌, ◌⊎◌,
}
use miyohub.Base.Int.{ℤ}
use miyohub.Base.Result.{Result, err, ok, ◌>>=◌}
use miyohub.Model.{State}
use miyohub.Model.Users.{
  OnboardingStatus, RegistrationMode, Role, User, UserPermissions, UserStatus, is_active,
}
use miyohub.Store.Environment.{Environment}
use miyohub.Store.Errors.{Err}
use miyohub.Store.Lookup.{active_admin_count, has_id, is_admin}
use miyohub.Store.Transaction.{
  Ensures, Ensures-after, Ensures-bind, Ensures-find, Ensures-require, Saves, does,
}
use miyohub.Store.Users.Deletion.{delete_user, without_user}
use miyohub.Store.Users.Invites.{
  consume_invite_code, create_invite_code, delete_invite_code, disable_invite,
}
use miyohub.Store.Users.Login.{
  authenticate, change_password, is_current_hash, migrated, named, with_password,
}
use miyohub.Store.Users.Operations.{
  create_admin, create_user, hide_reason, redeem_invite, register_with_invite, reset_user_password,
  set_registration_mode, set_users, sign_out_unless, update_onboarding, update_user_access,
  update_user_permissions, update_user_role, update_user_status, with_access, write_user,
}
use miyohub.Store.Users.Requests.{
  UserRequest, add_user, block_invite, drop_invite, invite, perform_user, perform_users, register,
  remove_user, reset_password, set_access, set_mode, set_onboarding, set_password, set_permissions,
  set_role, set_status, setup, sign_in, sign_out, use_invite,
}
use miyohub.Store.Users.Sessions.{create_session, delete_session, revoke_sessions}

abbrev pub HasAdmin : State → Type 0
HasAdmin d = 0 < active_admin_count d

append-HasAdmin :
    (us : List User) (u : User) → 0 < count_if is_admin us → 0 < count_if is_admin (us ++ u ∷ [])
append-HasAdmin us u h = omega (arith, count_if-append is_admin us (u ∷ []))

-- A write keeps an administrator if it does not take the role or status of the last one.
write-HasAdmin :
    (test : User → Bool) (u v : User) (us : List User)
    → find_first test us ≡ some u
    → (is_admin u ≡ true → (is_admin v ≡ true) ⊎ (1 < count_if is_admin us))
    → 0 < count_if is_admin us
    → 0 < count_if is_admin (replace_first test v us)
write-HasAdmin test u v us e k h = ground (arith, count_if-replace_first is_admin test v u us e)

sign_out_unless-users :
    (b : Bool) (id : String) (d : State) → (sign_out_unless b id d).users ≡ d.users
unfolding revoke_sessions
sign_out_unless-users true id d = refl
sign_out_unless-users false id d = refl

sign_out-HasAdmin :
    (b : Bool) (id : String) (d : State) → HasAdmin d → HasAdmin (sign_out_unless b id d)
sign_out-HasAdmin b id d h = rw (sign_out_unless-users b id d) h

hidden-eq {ℓ} : {A : Type ℓ} (m : Result Err A) {a : A} → hide_reason m ≡ ok a → m ≡ ok a
hidden-eq (ok b) h = h
hidden-eq (err e) h = absurd (cc h)

redeem-HasAdmin :
    (env : Environment) (now : ℕ) (text : String) (u : User) (d : State) (r : User × State)
    → redeem_invite env now text u d ≡ ok r
    → HasAdmin d
    → HasAdmin r.1
unfolding redeem_invite ◌>>=◌
redeem-HasAdmin env now text u d r e h = ground arith

joined-HasAdmin :
    (status : UserStatus) (token : String) (now : ℕ) (u : User) (d : State)
    → HasAdmin d
    → let e = set_users d (d.users ++ u ∷ []) in
      HasAdmin (if is_active status then create_session now token u.id e else e)
unfolding create_session
joined-HasAdmin status token now u d h = elim (Bool-cases (is_active status)) [
  | inl e ↦ rw e (append-HasAdmin d.users u h)
  | inr e ↦ rw e (append-HasAdmin d.users u h)
]

migrated-admin :
    (env : Environment) (salt password : String) (u : User)
    → is_admin u ≡ true
    → is_admin (migrated env salt password u) ≡ true
unfolding migrated with_password
migrated-admin env salt password u h = elim (Bool-cases (is_current_hash u.password_hash)) [
  | inl e ↦ rw e h
  | inr e ↦ rw e h
]

module _ (d : State) (h : HasAdmin d) where
  register-HasAdmin :
      (env : Environment) (now : ℕ) (raw salt token name password text : String)
      → Ensures (Saves HasAdmin) (register_with_invite env now raw salt token name password text d)
  unfolding register_with_invite
  register-HasAdmin env now raw salt token name password text = Ensures-require _ _ _ λ _.
      Ensures-require _ _ _ λ _. Ensures-bind _ _ λ status _. Ensures-bind _ _ λ fresh _.
        Ensures-bind _ _ λ r made.
          does _
            (joined-HasAdmin status token now r.0 r.1 (redeem-HasAdmin env now _ fresh d r made h))

  create-HasAdmin :
      (env : Environment) (now : ℕ) (raw salt name password : String) (role : Role)
      → Ensures (Saves HasAdmin) (create_user env now raw salt name password role d)
  unfolding create_user
  create-HasAdmin env now raw salt name password role =
      Ensures-require _ _ _
        λ _. Ensures-require _ _ _ λ _. Ensures-bind _ _ λ u _. does _ (append-HasAdmin d.users u h)

  status-HasAdmin :
      (id : String) (status : UserStatus)
      → Ensures (Saves HasAdmin) (update_user_status id status d)
  unfolding update_user_status
  status-HasAdmin id status = Ensures-require _ _ _ λ _. Ensures-find _ _ _ λ u found.
      Ensures-require _ _ _ λ allowed.
        let v = record u { status = status } in
        does _ (
          sign_out-HasAdmin (is_active status) id (write_user id v d)
            (write-HasAdmin (has_id id) u v d.users found (λ a. ground arith) h))

  role-HasAdmin :
      (id : String) (role : Role) → Ensures (Saves HasAdmin) (update_user_role id role d)
  unfolding update_user_role
  role-HasAdmin id role = Ensures-require _ _ _ λ _. Ensures-find _ _ _ λ u found.
      Ensures-require _ _ _ λ allowed. does _ (
        write-HasAdmin (has_id id) u (record u { role = role }) d.users found (λ a. ground arith) h)

  password-HasAdmin :
      (env : Environment) (salt id password : String)
      → Ensures (Saves HasAdmin) (reset_user_password env salt id password d)
  unfolding reset_user_password
  password-HasAdmin env salt id password = Ensures-bind _ _ λ _ _.
      Ensures-find _ _ _ λ u found. does _ (write-HasAdmin (has_id id) u _ d.users found inl h)

  access-HasAdmin :
      (actor id : String) (role : Role) (status : UserStatus) (permissions : UserPermissions)
      → Ensures (Saves HasAdmin) (update_user_access actor id role status permissions d)
  unfolding update_user_access
  access-HasAdmin actor id role status permissions = Ensures-require _ _ _ λ _.
      Ensures-find _ _ _ λ u found. Ensures-require _ _ _ λ _. Ensures-require _ _ _ λ _.
        Ensures-require _ _ _ λ _. Ensures-require _ _ _ λ allowed.
          let v = with_access u role status permissions in
          does _ (
            sign_out-HasAdmin (is_active status) id (write_user id v d)
              (write-HasAdmin (has_id id) u v d.users found (λ a. ground arith) h))

  permissions-HasAdmin :
      (actor id : String) (permissions : UserPermissions)
      → Ensures (Saves HasAdmin) (update_user_permissions actor id permissions d)
  unfolding update_user_permissions
  permissions-HasAdmin actor id permissions = Ensures-require _ _ _ λ _.
      Ensures-find _ _ _ λ u found.
        Ensures-require _ _ _ λ _. does _ (write-HasAdmin (has_id id) u _ d.users found inl h)

  onboarding-HasAdmin :
      (id : String) (status : OnboardingStatus)
      → Ensures (Saves HasAdmin) (update_onboarding id status d)
  unfolding update_onboarding
  onboarding-HasAdmin id status = Ensures-require _ _ _ λ _. Ensures-find _ _ _ λ u found.
      Ensures-require _ _ _ λ _. does _ (write-HasAdmin (has_id id) u _ d.users found inl h)

  delete-HasAdmin : (id : String) → Ensures (Saves HasAdmin) (delete_user id d)
  unfolding delete_user without_user
  delete-HasAdmin id = Ensures-find _ _ _ λ u found. Ensures-require _ _ _ λ allowed.
      Ensures-require _ _ _
        λ _. does _ (ground (arith, count_if-remove_first is_admin (has_id id) u d.users found))

  setup-HasAdmin :
      (env : Environment) (now : ℕ) (raw salt token name password : String)
      → Ensures (Saves HasAdmin) (create_admin env now raw salt token name password d)
  unfolding create_admin create_session
  setup-HasAdmin env now raw salt token name password =
      Ensures-require _ _ _ λ _. Ensures-bind _ _ λ u _. does _ (append-HasAdmin d.users u h)

  mode-HasAdmin :
      (mode : RegistrationMode) → Ensures (Saves HasAdmin) (set_registration_mode mode d)
  unfolding set_registration_mode
  mode-HasAdmin mode = Ensures-require _ _ _ λ _. does _ h

  sign_out_token-HasAdmin : (token : String) → Ensures (Saves HasAdmin) (delete_session token d)
  unfolding delete_session
  sign_out_token-HasAdmin token = does _ h

  invite-HasAdmin :
      (env : Environment) (now : ℕ) (text given : String) (expires_at : ℕ) (uses : ℤ)
      (note creator : String) (permissions : UserPermissions) (captcha : Bool)
      → Ensures
          (Saves HasAdmin)
          (create_invite_code env now text given expires_at uses note creator permissions captcha d)
  unfolding create_invite_code
  invite-HasAdmin env now text given expires_at uses note creator permissions captcha =
      Ensures-require _ _ _ λ _. Ensures-require _ _ _ λ _. Ensures-require _ _ _ λ _.
        Ensures-require _ _ _ λ _.
          Ensures-require _ _ _ λ _. Ensures-require _ _ _ λ _. Ensures-require _ _ _ λ _. does _ h

  drop-HasAdmin :
      (env : Environment) (text : String) → Ensures (Saves HasAdmin) (delete_invite_code env text d)
  unfolding delete_invite_code
  drop-HasAdmin env text = Ensures-find _ _ _ λ _ _. does _ h

  block-HasAdmin :
      (env : Environment) (text : String) (disabled : Bool)
      → Ensures (Saves HasAdmin) (disable_invite env text disabled d)
  unfolding disable_invite
  block-HasAdmin env text disabled = Ensures-find _ _ _ λ _ _. does _ h

  use-HasAdmin :
      (env : Environment) (now : ℕ) (text : String)
      → Ensures (Saves HasAdmin) (consume_invite_code env now text d)
  unfolding consume_invite_code
  use-HasAdmin env now text = Ensures-bind _ _ λ _ _. does _ h

  login-HasAdmin :
      (env : Environment) (now : ℕ) (salt token name password : String)
      → Ensures (Saves HasAdmin) (authenticate env now salt token name password d)
  unfolding authenticate create_session
  login-HasAdmin env now salt token name password = Ensures-require _ _ _ λ _.
      Ensures-find _ _ _ λ u found. Ensures-require _ _ _ λ _. Ensures-require _ _ _ λ _. does _ (
        write-HasAdmin (named env name) u (migrated env salt password u) d.users found
          (λ a. inl (migrated-admin env salt password u a)) h)

  change-HasAdmin :
      (env : Environment) (now : ℕ) (salt token id old new : String)
      → Ensures (Saves HasAdmin) (change_password env now salt token id old new d)
  unfolding change_password create_session revoke_sessions with_password
  change-HasAdmin env now salt token id old new = Ensures-bind _ _ λ _ _.
      Ensures-find _ _ _ λ u found.
        Ensures-require _ _ _ λ _. does _ (write-HasAdmin (has_id id) u _ d.users found inl h)

perform_user-HasAdmin : (r : UserRequest) (d : State) → HasAdmin d → HasAdmin (perform_user r d)
unfolding perform_user
perform_user-HasAdmin (setup env now raw salt token name password) d h =
    Ensures-after HasAdmin h (setup-HasAdmin d h env now raw salt token name password)
perform_user-HasAdmin (register env now raw salt token name password text) d h =
    Ensures-after HasAdmin h (register-HasAdmin d h env now raw salt token name password text)
perform_user-HasAdmin (set_mode mode) d h = Ensures-after HasAdmin h (mode-HasAdmin d h mode)
perform_user-HasAdmin (add_user env now raw salt name password role) d h =
    Ensures-after HasAdmin h (create-HasAdmin d h env now raw salt name password role)
perform_user-HasAdmin (set_status id status) d h =
    Ensures-after HasAdmin h (status-HasAdmin d h id status)
perform_user-HasAdmin (set_role id role) d h = Ensures-after HasAdmin h (role-HasAdmin d h id role)
perform_user-HasAdmin (reset_password env salt id password) d h =
    Ensures-after HasAdmin h (password-HasAdmin d h env salt id password)
perform_user-HasAdmin (set_access actor id role status permissions) d h =
    Ensures-after HasAdmin h (access-HasAdmin d h actor id role status permissions)
perform_user-HasAdmin (set_permissions actor id permissions) d h =
    Ensures-after HasAdmin h (permissions-HasAdmin d h actor id permissions)
perform_user-HasAdmin (set_onboarding id status) d h =
    Ensures-after HasAdmin h (onboarding-HasAdmin d h id status)
perform_user-HasAdmin (remove_user id) d h = Ensures-after HasAdmin h (delete-HasAdmin d h id)
perform_user-HasAdmin (sign_out token) d h =
    Ensures-after HasAdmin h (sign_out_token-HasAdmin d h token)
perform_user-HasAdmin (invite env now text given expires_at uses note creator permissions captcha) d
      h =
    Ensures-after HasAdmin h
      (invite-HasAdmin d h env now text given expires_at uses note creator permissions captcha)
perform_user-HasAdmin (drop_invite env text) d h =
    Ensures-after HasAdmin h (drop-HasAdmin d h env text)
perform_user-HasAdmin (block_invite env text disabled) d h =
    Ensures-after HasAdmin h (block-HasAdmin d h env text disabled)
perform_user-HasAdmin (use_invite env now text) d h =
    Ensures-after HasAdmin h (use-HasAdmin d h env now text)
perform_user-HasAdmin (sign_in env now salt token name password) d h =
    Ensures-after HasAdmin h (login-HasAdmin d h env now salt token name password)
perform_user-HasAdmin (set_password env now salt token id old new) d h =
    Ensures-after HasAdmin h (change-HasAdmin d h env now salt token id old new)

-- If the site has an active administrator, it still has one after any saved requests on users,
-- sessions and invite codes, logins and changes of passwords included, by anybody.
pub perform_users-HasAdmin :
    (rs : List UserRequest) (d : State) → HasAdmin d → HasAdmin (perform_users rs d)
unfolding perform_users
perform_users-HasAdmin [] d h = h
perform_users-HasAdmin (r ∷ rs) d h =
    perform_users-HasAdmin rs (perform_user r d) (perform_user-HasAdmin r d h)
