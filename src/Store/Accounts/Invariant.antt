-- ===== src/Store/Accounts/Invariant.antt =====
-- internal/store/accounts.go, account_batch.go and archive.go: no step binds an account twice.
use miyohub.Base.{
  ==_sound, Bool-cases, List, Option, String, [], ap, arith, blank, eqb, false, inl, inr, keep_if,
  length, none, not, refl, some, subst, sym, true, ℕ, ◌&&◌, ◌++◌, ◌==◌, ◌∙◌, ◌≡◌,
}
use miyohub.Base.Result.{Result, err, ok, ◌>>=◌}
use miyohub.Model.{State}
use miyohub.Model.Accounts.{Account, Device, TaskSummary}
use miyohub.Store.Accounts.Apart.{edit-AreUnique, import-AreUnique}
use miyohub.Store.Accounts.Archives.{
  AccountArchive, ArchivePreview, adopt, archive_candidates, import_account_archive, is_present,
  prepare_archive,
}
use miyohub.Store.Accounts.Batch.{AccountBatchPatch, batch_update_accounts, unedited}
use miyohub.Store.Accounts.Binding.{
  add_account, add_account_for_user, add_account_locked, bind_account_for_user, find_target,
  place_account, rebound,
}
use miyohub.Store.Accounts.Credentials.{cookie_fields, cookie_fields-stuid, or_else}
use miyohub.Store.Accounts.Editing.{
  AccountPatch, delete_account, has_account_id, has_device, is_owned, or_bool, patched,
  record_account_check, record_tasks, renew_account_cookie, same_credentials, set_account_device_fp,
  trimmed, update_account, with_cookie, without_account,
}
use miyohub.Store.Accounts.Steps.{
  AccountStep, AccountSteps, add, add_for_user, archive, batch, bind, check, delete, fingerprint,
  followed, renew, start_of, update, work,
}
use miyohub.Store.Accounts.Targets.{find_target-first}
use miyohub.Store.Accounts.Unique.{
  AreUnique, bind-AreUnique, change-AreUnique, count_id, drop-AreUnique, keep-AreUnique,
  rebind-AreUnique,
}
use miyohub.Store.Environment.{Environment}
use miyohub.Store.Errors.{Err}
use miyohub.Store.Transaction.{
  Ensures, Ensures-after, Ensures-bind, Ensures-choice, Ensures-find, Ensures-require, Saves,
  bind-ok, does, require-ok,
}

abbrev pub AreUniqueIn : State → Type 0
AreUniqueIn d = AreUnique d.config.accounts

cookie_fields-id : (a b : Account) → cookie_fields a ≡ ok b → b.id ≡ a.id
unfolding cookie_fields ◌>>=◌
cookie_fields-id a b h = ground arith

with_cookie-id : (cookie : String) (a b : Account) → with_cookie cookie a ≡ ok b → b.id ≡ a.id
unfolding with_cookie ◌>>=◌
with_cookie-id cookie a b h = ground arith

patched-id : (p : AccountPatch) (old a : Account) → patched p old ≡ ok a → a.id ≡ old.id
unfolding patched
patched-id p old a h =
    let (b, e, h1) = bind-ok _ _ _ h in
    let (c, f, h2) = bind-ok _ _ _ h1 in
    let last : c.id ≡ a.id = ap id_of h2 in
    sym last
    ∙ cookie_fields-id (record b { stoken = or_else p.stoken b.stoken; mid = or_else p.mid b.mid })
        c f
    ∙ with_cookie-id p.cookie
        (record old {
          name = trimmed p.name old.name;
          group = trimmed p.group old.group;
          disabled = or_bool p.disabled old.disabled;
        })
        b e
  where
    id_of : Result Err Account → String
    id_of (ok x) = x.id
    id_of (err e) = ""

renewed-uid :
    (a before : Account) (cookie : String) (b : Account)
    → blank before.stuid ≡ false
    → (same_credentials a before && not a.disabled) ≡ true
    → cookie_fields (record a { cookie = cookie }) ≡ ok b
    → b.stuid ≡ a.stuid
renewed-uid a before cookie b known same made =
    elim (cookie_fields-stuid (record a { cookie = cookie }) b made) [
      | inl e ↦ e
      | inr e ↦
          let one : (a.stuid == before.stuid) ≡ true = ground arith in
          let none : before.stuid ≡ "" = sym (==_sound _ _ one) ∙ e in
          absurd (cc (rw none at known))
    ]

candidates-eq :
    (user_id : String) (accounts : List Account) (d : State) (r : List Account × ArchivePreview)
    → archive_candidates user_id accounts d ≡ ok r
    → keep_if (λ a. not (is_present user_id d.config.accounts a)) accounts ≡ r.0
unfolding archive_candidates
candidates-eq user_id accounts d r h = ap chosen_of (require-ok _ _ _ _ h).1
  where
    chosen_of : Result Err (List Account × ArchivePreview) → List Account
    chosen_of (ok x) = x.0
    chosen_of (err e) = []

module _ (d : State) (h : AreUniqueIn d) where
  place-AreUnique :
      (env : Environment) (fresh user_id : String) (device : Device) (a : Account)
      (target : Option Account)
      → count_id fresh d.config.accounts ≡ 0
      → find_target a user_id none d.config.accounts ≡ ok target
      → Ensures (Saves AreUniqueIn) (place_account env fresh device a d target)
  unfolding place_account rebound
  place-AreUnique env fresh user_id device a none new found = Ensures-bind _ _ λ _ _.
      let (first, one) = find_target-first a user_id none d.config.accounts found in
      does _ (bind-AreUnique a _ fresh d.config.accounts first new refl refl h)
  place-AreUnique env fresh user_id device a (some old) new found = Ensures-require _ _ _ λ _.
      let (first, one) = find_target-first a user_id (some old) d.config.accounts found in
      does _ (rebind-AreUnique a _ old d.config.accounts first one refl refl h)

  add-AreUnique :
      (env : Environment) (fresh : String) (device : Device) (a : Account) (user_id : String)
      → count_id fresh d.config.accounts ≡ 0
      → Ensures (Saves AreUniqueIn) (add_account_locked env fresh device a user_id d)
  unfolding add_account_locked
  add-AreUnique env fresh device a user_id new = Ensures-bind _ _ λ b _. Ensures-bind _ _ λ _ _.
      Ensures-bind _ _ λ target found. place-AreUnique env fresh user_id device b target new found

  update-AreUnique :
      (env : Environment) (user_id : String) (p : AccountPatch)
      → Ensures (Saves AreUniqueIn) (update_account env user_id p d)
  unfolding update_account
  update-AreUnique env user_id p = Ensures-find _ _ _ λ old found. Ensures-bind _ _ λ a made.
      Ensures-bind _ _ λ _ _. Ensures-require _ _ _ λ free. does _ (
        change-AreUnique (is_owned user_id p.id) a old d.config.accounts found
          (patched-id p old a made) (ground arith) h)

  renew-AreUnique :
      (env : Environment) (before : Account) (cookie : String)
      → blank before.stuid ≡ false
      → Ensures (Saves AreUniqueIn) (renew_account_cookie env before cookie d)
  unfolding renew_account_cookie
  renew-AreUnique env before cookie known = Ensures-find _ _ _ λ a found.
      Ensures-require _ _ _ λ same. Ensures-find _ _ _ λ _ _. Ensures-bind _ _ λ b made.
        Ensures-bind _ _ λ _ _. does _ (
          keep-AreUnique (has_account_id before.id) b a d.config.accounts found
            (renewed-uid a before cookie b known same made)
            (cookie_fields-id (record a { cookie = cookie }) b made) h)

  delete-AreUnique :
      (user_id id : String) → Ensures (Saves AreUniqueIn) (delete_account user_id id d)
  unfolding delete_account without_account
  delete-AreUnique user_id id = Ensures-find _ _ _ λ _ _.
      Ensures-require _ _ _ λ _. does _ (drop-AreUnique (is_owned user_id id) d.config.accounts h)

  check-AreUnique :
      (now : ℕ) (id status : String)
      → Ensures (Saves AreUniqueIn) (record_account_check now id status d)
  unfolding record_account_check
  check-AreUnique now id status =
      Ensures-find _ _ _ λ a found.
        does _ (keep-AreUnique (has_account_id id) _ a d.config.accounts found refl refl h)

  tasks-AreUnique :
      (now : ℕ) (id : String) (results : List (String × TaskSummary))
      → Ensures (Saves AreUniqueIn) (record_tasks now id results d)
  unfolding record_tasks
  tasks-AreUnique now id results =
      Ensures-find _ _ _ λ a found.
        does _ (keep-AreUnique (has_account_id id) _ a d.config.accounts found refl refl h)

  fingerprint-AreUnique :
      (id device_id fp : String)
      → Ensures (Saves AreUniqueIn) (set_account_device_fp id device_id fp d)
  unfolding set_account_device_fp
  fingerprint-AreUnique id device_id fp = Ensures-find _ _ _ λ a found.
      elim (Bool-cases (a.shop_device_fp == fp)) [
        | inl e ↦ rw e (does _ tt)
        | inr e ↦ rw e (
            does _
              (keep-AreUnique (has_device id device_id) _ a d.config.accounts found refl refl h))
      ]

  batch-AreUnique :
      (env : Environment) (user_id : String) (p : AccountBatchPatch)
      → Ensures (Saves AreUniqueIn) (batch_update_accounts env user_id p d)
  unfolding batch_update_accounts
  batch-AreUnique env user_id p = Ensures-bind _ _ λ _ _. Ensures-require _ _ _ λ _.
      Ensures-bind _ _ λ edited made. Ensures-require _ _ _ λ _.
        Ensures-choice (unedited edited.0 d.config.accounts) _ _ tt
          (edit-AreUnique user_id p d.config.accounts edited made h)

  archive-AreUnique :
      (env : Environment) (user_id : String) (fresh : ℕ → String × Device) (file : AccountArchive)
      → ((n : ℕ) → count_id (fresh n).0 d.config.accounts ≡ 0)
      → ((m n : ℕ) → (fresh m).0 ≡ (fresh n).0 → m ≡ n)
      → Ensures (Saves AreUniqueIn) (import_account_archive env user_id fresh file d)
  unfolding import_account_archive prepare_archive
  archive-AreUnique env user_id fresh file new apart = Ensures-bind _ _ λ accounts prepared.
      Ensures-bind _ _ λ chosen picked. Ensures-choice (eqb (length chosen.0) 0) _ _ tt (
        subst (λ xs. AreUnique (d.config.accounts ++ adopt user_id fresh 0 xs))
          (candidates-eq user_id accounts d chosen picked)
          (import-AreUnique env user_id fresh file.accounts accounts d.config.accounts
            (require-ok _ _ _ _ prepared).1 new apart h))

-- A step keeps the UIDs and the identifiers apart.
step-AreUnique : (d e : State) → AccountStep d e → AreUniqueIn d → AreUniqueIn e
unfolding add_account add_account_for_user bind_account_for_user
step-AreUnique d e (add env fresh device a new) h =
    Ensures-after AreUniqueIn h (add-AreUnique d h env fresh device a "" new)
step-AreUnique d e (add_for_user env fresh device user_id a new) h = Ensures-after AreUniqueIn h (
    Ensures-require _ _ _ λ _.
      Ensures-require _ _ _
        λ _. add-AreUnique d h env fresh device (record a { user_id = user_id }) user_id new)
step-AreUnique d e (bind env fresh device user_id target a new) h = Ensures-after AreUniqueIn h (
    Ensures-require _ _ _ λ _.
      Ensures-bind _ _
        λ b _. add-AreUnique d h env fresh device (record b { user_id = user_id }) user_id new)
step-AreUnique d e (update env user_id p) h =
    Ensures-after AreUniqueIn h (update-AreUnique d h env user_id p)
step-AreUnique d e (delete user_id id) h =
    Ensures-after AreUniqueIn h (delete-AreUnique d h user_id id)
step-AreUnique d e (check now id status) h =
    Ensures-after AreUniqueIn h (check-AreUnique d h now id status)
step-AreUnique d e (work now id results) h =
    Ensures-after AreUniqueIn h (tasks-AreUnique d h now id results)
step-AreUnique d e (renew env before cookie known) h =
    Ensures-after AreUniqueIn h (renew-AreUnique d h env before cookie known)
step-AreUnique d e (fingerprint id device_id fp) h =
    Ensures-after AreUniqueIn h (fingerprint-AreUnique d h id device_id fp)
step-AreUnique d e (batch env user_id p) h =
    Ensures-after AreUniqueIn h (batch-AreUnique d h env user_id p)
step-AreUnique d e (archive env user_id fresh file new apart) h =
    Ensures-after AreUniqueIn h (archive-AreUnique d h env user_id fresh file new apart)

-- No sequence of operations on accounts gives two accounts one known UID or one identifier, where
-- new identifiers are unused and a renewal is of an account whose UID is known.
pub steps-AreUnique : (d e : State) → AccountSteps d e → AreUniqueIn d → AreUniqueIn e
steps-AreUnique d e start_of h = h
steps-AreUnique d e (followed {e = m} before step) h =
    step-AreUnique m e step (steps-AreUnique d m before h)
