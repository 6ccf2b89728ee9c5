-- ===== src/Store/Accounts/Foreign.antt =====
-- internal/store: no request of a user changes the accounts of other users.
use miyohub.Base.{
  ==_refl, List, Option, String, [], ap, arith, blank, eqb, false, find_first-passes, keep_if,
  keep_if-append_out, keep_if-remove_first_out, keep_if-replace_first_out, length, none, refl, some,
  suc, sym, ℕ, ◌&&◌, ◌++◌, ◌∙◌, ◌∷◌, ◌≡◌,
}
use miyohub.Base.Result.{Result, err, ok, ◌>>=◌}
use miyohub.Base.Text.{trim_space}
use miyohub.Model.{State}
use miyohub.Model.Accounts.{Account, Device}
use miyohub.Model.Schedules.{AccountTaskSettings}
use miyohub.Store.Accounts.Archives.{AccountArchive, adopt, import_account_archive}
use miyohub.Store.Accounts.Batch.{
  AccountBatchPatch, batch_update_accounts, edit_account, edit_accounts, same_bool, same_schedule,
  unedited,
}
use miyohub.Store.Accounts.Binding.{
  add_account_for_user, add_account_locked, bind_account_for_user, find_target, place_account,
  rebound, same_account,
}
use miyohub.Store.Accounts.Credentials.{cookie_fields, or_else}
use miyohub.Store.Accounts.Editing.{
  AccountPatch, delete_account, is_owned, or_bool, patched, trimmed, update_account, with_cookie,
  without_account,
}
use miyohub.Store.Accounts.Requests.{
  AccountRequest, bind_login, bind_own, delete_own, edit_own, edit_some, foreign_accounts,
  import_file, is_foreign, perform_account, set_tasks,
}
use miyohub.Store.Accounts.Targets.{find_target-first, find_target-owner}
use miyohub.Store.Environment.{Environment}
use miyohub.Store.Errors.{Err}
use miyohub.Store.Tasks.Runs.{replace_tasks, same_work, update_account_tasks}
use miyohub.Store.Transaction.{
  Ensures, Ensures-after, Ensures-bind, Ensures-choice, Ensures-find, Ensures-require, Saves,
  bind-ok, does, require-ok,
}
use miyohub.Store.Users.Login.{named}

cookie_fields-owner : (a b : Account) → cookie_fields a ≡ ok b → b.user_id ≡ a.user_id
unfolding cookie_fields ◌>>=◌
cookie_fields-owner a b h = ground arith

with_cookie-owner :
    (cookie : String) (a b : Account) → with_cookie cookie a ≡ ok b → b.user_id ≡ a.user_id
unfolding with_cookie ◌>>=◌
with_cookie-owner cookie a b h = ground arith

patched-owner :
    (p : AccountPatch) (old a : Account) → patched p old ≡ ok a → a.user_id ≡ old.user_id
unfolding patched
patched-owner p old a h =
    let (b, e, h1) = bind-ok _ _ _ h in
    let (c, f, h2) = bind-ok _ _ _ h1 in
    let last : c.user_id ≡ a.user_id = ap owner_of h2 in
    sym last
    ∙ cookie_fields-owner
        (record b { stoken = or_else p.stoken b.stoken; mid = or_else p.mid b.mid }) c f
    ∙ with_cookie-owner p.cookie
        (record old {
          name = trimmed p.name old.name;
          group = trimmed p.group old.group;
          disabled = or_bool p.disabled old.disabled;
        })
        b e
  where
    owner_of : Result Err Account → String
    owner_of (ok x) = x.user_id
    owner_of (err e) = ""

owned-not_foreign :
    (user_id : String) (a : Account) → a.user_id ≡ user_id → is_foreign user_id a ≡ false
owned-not_foreign user_id a e = rw (e, ==_refl user_id) refl

edit_accounts-foreign :
    (user_id : String) (p : AccountBatchPatch) (accounts : List Account)
    (r : List Account × List Account)
    → edit_accounts user_id p accounts ≡ ok r
    → keep_if (is_foreign user_id) r.0 ≡ keep_if (is_foreign user_id) accounts
unfolding edit_accounts edit_account
edit_accounts-foreign user_id p [] r h = ap (λ x. keep_if (is_foreign user_id) (next_of x)) (sym h)
  where
    next_of : Result Err (List Account × List Account) → List Account
    next_of (ok x) = x.0
    next_of (err e) = []
edit_accounts-foreign user_id p (a ∷ accounts) r h =
    let (_, h1) = require-ok _ _ _ _ h in
    let (rest, e, h2) = bind-ok _ _ _ h1 in
    let more = edit_accounts-foreign user_id p accounts rest e in ground (arith, h2, more)

adopt-foreign :
    (user_id : String) (fresh : ℕ → String × Device) (n : ℕ) (xs accounts : List Account)
    → keep_if (is_foreign user_id) (accounts ++ adopt user_id fresh n xs)
      ≡ keep_if (is_foreign user_id) accounts
unfolding adopt
adopt-foreign user_id fresh n [] [] = refl
adopt-foreign user_id fresh n (x ∷ xs) [] =
    rw (==_refl user_id) (adopt-foreign user_id fresh (suc n) xs [])
adopt-foreign user_id fresh n xs (a ∷ accounts) =
    rw (adopt-foreign user_id fresh n xs accounts) refl

module _ (user_id : String) (d : State) where
  abbrev KeepsForeign : State → Type 0
  KeepsForeign e = foreign_accounts user_id e ≡ foreign_accounts user_id d

  place-foreign :
      (env : Environment) (fresh : String) (device : Device) (a : Account) (target : Option Account)
      → blank user_id ≡ false
      → a.user_id ≡ user_id
      → find_target a user_id none d.config.accounts ≡ ok target
      → Ensures (Saves KeepsForeign) (place_account env fresh device a d target)
  unfolding place_account rebound
  place-foreign env fresh device a none named own found = Ensures-bind _ _ λ _ _.
      does _ (
        keep_if-append_out (is_foreign user_id) _ d.config.accounts
          (rw (own, ==_refl user_id) refl))
  place-foreign env fresh device a (some old) named own found = Ensures-require _ _ _ λ _.
      let (first, one) = find_target-first a user_id (some old) d.config.accounts found in
      let mine : is_foreign user_id old ≡ false =
        ground (arith, named, find_target-owner a user_id old none d.config.accounts found) in
      does _ (
        keep_if-replace_first_out (is_foreign user_id) (same_account a) _ old d.config.accounts
          first mine mine)

  add-foreign :
      (env : Environment) (fresh : String) (device : Device) (a : Account)
      → blank user_id ≡ false
      → a.user_id ≡ user_id
      → Ensures (Saves KeepsForeign) (add_account_locked env fresh device a user_id d)
  unfolding add_account_locked
  add-foreign env fresh device a named own = Ensures-bind _ _ λ b made. Ensures-bind _ _ λ _ _.
      Ensures-bind _ _ λ target found.
        place-foreign env fresh device b target named
          (cookie_fields-owner (record a { name = trim_space a.name }) b made ∙ own) found

  update-foreign :
      (env : Environment) (p : AccountPatch)
      → Ensures (Saves KeepsForeign) (update_account env user_id p d)
  unfolding update_account
  update-foreign env p = Ensures-find _ _ _ λ old found. Ensures-bind _ _ λ a made.
      Ensures-bind _ _ λ _ _. Ensures-require _ _ _ λ _.
        let mine : is_foreign user_id old ≡ false =
          ground (arith, find_first-passes (is_owned user_id p.id) d.config.accounts old found) in
        does _ (
          keep_if-replace_first_out (is_foreign user_id) (is_owned user_id p.id) a old
            d.config.accounts found mine (rw (patched-owner p old a made) mine))

  delete-foreign : (id : String) → Ensures (Saves KeepsForeign) (delete_account user_id id d)
  unfolding delete_account without_account
  delete-foreign id = Ensures-find _ _ _ λ old found. Ensures-require _ _ _ λ _. does _ (
      keep_if-remove_first_out (is_foreign user_id) (is_owned user_id id) old d.config.accounts
        found (ground (arith, find_first-passes (is_owned user_id id) d.config.accounts old found)))

  batch-foreign :
      (env : Environment) (p : AccountBatchPatch)
      → Ensures (Saves KeepsForeign) (batch_update_accounts env user_id p d)
  unfolding batch_update_accounts
  batch-foreign env p = Ensures-bind _ _ λ _ _. Ensures-require _ _ _ λ _.
      Ensures-bind _ _ λ edited made. Ensures-require _ _ _ λ _.
        Ensures-choice (unedited edited.0 d.config.accounts) _ _ tt
          (edit_accounts-foreign user_id p d.config.accounts edited made)

  tasks-foreign :
      (env : Environment) (id : String) (p : AccountTaskSettings)
      → Ensures (Saves KeepsForeign) (update_account_tasks env user_id id p d)
  unfolding update_account_tasks replace_tasks
  tasks-foreign env id p = Ensures-require _ _ _ λ _. Ensures-find _ _ _ λ old found.
      Ensures-find _ _ _ λ t _. Ensures-require _ _ _ λ _. Ensures-bind _ _ λ _ _.
        let mine : is_foreign user_id old ≡ false =
          ground (arith, find_first-passes (is_owned user_id id) d.config.accounts old found) in
        Ensures-choice
          (same_work p t
            && same_bool p.automatic t.automatic
            && same_schedule p.schedule t.schedule)
          _ _ tt
          (keep_if-replace_first_out (is_foreign user_id) (is_owned user_id id) _ old
            d.config.accounts found mine mine)

  archive-foreign :
      (env : Environment) (fresh : ℕ → String × Device) (file : AccountArchive)
      → Ensures (Saves KeepsForeign) (import_account_archive env user_id fresh file d)
  unfolding import_account_archive
  archive-foreign env fresh file = Ensures-bind _ _ λ _ _. Ensures-bind _ _ λ chosen _.
      Ensures-choice (eqb (length chosen.0) 0) _ _ tt
        (adopt-foreign user_id fresh 0 chosen.0 d.config.accounts)

-- No request of a user on accounts, if the user has an identifier, changes the accounts of others.
pub perform_account-foreign :
    (user_id : String) (r : AccountRequest) (d : State)
    → blank user_id ≡ false
    → foreign_accounts user_id (perform_account user_id r d) ≡ foreign_accounts user_id d
unfolding perform_account add_account_for_user bind_account_for_user
perform_account-foreign user_id (bind_own env fresh device a) d named =
    Ensures-after (KeepsForeign user_id d) refl (
      Ensures-require _ _ _ λ _.
        Ensures-require _ _ _
          λ _. add-foreign user_id d env fresh device (record a { user_id = user_id }) named refl)
perform_account-foreign user_id (bind_login env fresh device target a) d named =
    Ensures-after (KeepsForeign user_id d) refl (
      Ensures-require _ _ _ λ _.
        Ensures-bind _ _
          λ b _. add-foreign user_id d env fresh device (record b { user_id = user_id }) named refl)
perform_account-foreign user_id (edit_own env p) d named =
    Ensures-after (KeepsForeign user_id d) refl (update-foreign user_id d env p)
perform_account-foreign user_id (delete_own id) d named =
    Ensures-after (KeepsForeign user_id d) refl (delete-foreign user_id d id)
perform_account-foreign user_id (edit_some env p) d named =
    Ensures-after (KeepsForeign user_id d) refl (batch-foreign user_id d env p)
perform_account-foreign user_id (set_tasks env id p) d named =
    Ensures-after (KeepsForeign user_id d) refl (tasks-foreign user_id d env id p)
perform_account-foreign user_id (import_file env fresh file) d named =
    Ensures-after (KeepsForeign user_id d) refl (archive-foreign user_id d env fresh file)
