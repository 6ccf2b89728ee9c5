-- ===== src/Store/Accounts/Exports.antt =====
-- internal/store/archive.go: the export of a user's accounts, and how it reads back.
use miyohub.Base.{
  ==_sound, List, Option, String, [], and_parts, ap, blank, if◌then◌else◌, inl, inr, keep_if, map,
  none, not, refl, some, subst, sym, true, ℕ, ◌&&◌, ◌==◌, ◌∙◌, ◌∷◌, ◌≡◌, ◌⊎◌,
}
use miyohub.Base.Result.{Result, err, ok, require, ◌>>=◌, ◌>>◌}
use miyohub.Base.Text.{trim_space}
use miyohub.Model.{State}
use miyohub.Model.Accounts.{Account}
use miyohub.Model.Users.{User, is_active}
use miyohub.Store.Accounts.Apart.{listing}
use miyohub.Store.Accounts.Archives.{
  AccountArchive, idle_tasks, imported, portable, prepare_account, prepare_accounts,
  prepare_archive, tasks_or_zero,
}
use miyohub.Store.Accounts.Credentials.{cookie_fields, cookie_fields-stuid, cookie_value, or_else}
use miyohub.Store.Environment.{Environment}
use miyohub.Store.Errors.{Err}
use miyohub.Store.Lookup.{find_user}
use miyohub.Store.Transaction.{bind-ok, require-ok}
use miyohub.Store.Users.Login.{verify_password}

abbrev pub active_hash : Option User → String
active_hash none = ""
active_hash (some u) = if is_active u.status then u.password_hash else ""

abbrev pub own_accounts : String → State → List Account
own_accounts user_id d = keep_if (λ a. a.user_id == user_id) d.config.accounts

unfoldable pub archive_of : ℕ → List Account → AccountArchive
archive_of now accounts = record { version = 1; created_at = now; accounts = map portable accounts }

-- `ExportAccountArchive`; the lock is free between the read of the password and that of the accounts,
-- so that these are two states.
unfoldable pub export_account_archive :
    Environment → ℕ → String → String → State → State → Result Err AccountArchive
unfolding verify_password prepare_archive archive_of
export_account_archive env now user_id password before d = do
  let hash = active_hash (find_user before user_id)
  require (not (blank hash) && verify_password env password hash) Err.wrong_password
  require (active_hash (find_user d user_id) == hash) Err.user_inactive
  let archive = archive_of now (own_accounts user_id d)
  _ ← prepare_archive env archive
  ok archive

-- An account that was read back, and the one that was written.
pub record IsCopy (a b : Account) : Type 0 where
  uid : (b.stuid ≡ a.stuid) ⊎ (a.stuid ≡ "")
  cookie : b.cookie ≡ a.cookie
  stoken : b.stoken ≡ or_else a.stoken (cookie_value a.cookie "stoken")
  mid : b.mid ≡ or_else a.mid (cookie_value a.cookie "mid")
  name : b.name ≡ trim_space a.name
  group : b.group ≡ trim_space a.group
  device : b.device ≡ a.device
  cloud_tokens : b.cloud_tokens ≡ a.cloud_tokens
  tasks : b.task_settings ≡ some (idle_tasks (tasks_or_zero a.task_settings))
  off : b.disabled ≡ true

pub data AreCopies : List Account → List Account → Type 0 where
  no_more : AreCopies [] []
  and_copy :
      {a b : Account} {xs ys : List Account}
      → IsCopy a b
      → AreCopies xs ys
      → AreCopies (a ∷ xs) (b ∷ ys)

abbrev account_of : Account → Result Err Account → Account
account_of a (ok b) = b
account_of a (err e) = a

-- The account with a UID, and with the token and the number of its cookie where it has none.
abbrev read_cookie : String → Account → Account
read_cookie uid a = record a {
  stuid = uid;
  stoken = or_else a.stoken (cookie_value a.cookie "stoken");
  mid = or_else a.mid (cookie_value a.cookie "mid");
}

cookie_fields-rest : (a b : Account) → cookie_fields a ≡ ok b → b ≡ read_cookie b.stuid a
unfolding cookie_fields
cookie_fields-rest a b h =
    let (uid, _, h1) = bind-ok _ _ _ h in
    let made = ap (account_of a) (require-ok _ _ _ _ h1).1 in
    subst (λ z. z ≡ read_cookie z.stuid a) made refl

-- The account that was read, with its tasks.
copied :
    (a b c : Account)
    → c ≡ read_cookie c.stuid (imported (portable a))
    → (c.stuid ≡ a.stuid) ⊎ (a.stuid ≡ "")
    → record c { task_settings = some (idle_tasks (tasks_or_zero a.task_settings)) } ≡ b
    → IsCopy a b
unfolding imported portable
copied a b c rest known made = record {
  uid = elim known [ inl e ↦ inl (sym (ap Account.stuid made) ∙ e) | inr e ↦ inr e ];
  cookie = sym (ap Account.cookie made) ∙ ap Account.cookie rest;
  stoken = sym (ap Account.stoken made) ∙ ap Account.stoken rest;
  mid = sym (ap Account.mid made) ∙ ap Account.mid rest;
  name = sym (ap Account.name made) ∙ ap Account.name rest;
  group = sym (ap Account.group made) ∙ ap Account.group rest;
  device = sym (ap Account.device made) ∙ ap Account.device rest;
  cloud_tokens = sym (ap Account.cloud_tokens made) ∙ ap Account.cloud_tokens rest;
  tasks = sym (ap Account.task_settings made);
  off = sym (ap Account.disabled made) ∙ ap Account.disabled rest;
}

prepare-IsCopy :
    (env : Environment) (a b : Account) → prepare_account env (portable a) ≡ ok b → IsCopy a b
unfolding prepare_account portable imported
prepare-IsCopy env a b h =
    let (c, read, h1) = bind-ok _ _ _ h in
    let (_, h2) = require-ok _ _ _ _ h1 in
    let (_, _, h3) = bind-ok _ _ _ h2 in
    let (_, h4) = require-ok _ _ _ _ h3 in
    let (_, _, h5) = bind-ok _ _ _ h4 in
    let made = ap (account_of a) h5 in
    let rest = cookie_fields-rest (imported (portable a)) c read in
    let known = cookie_fields-stuid (imported (portable a)) c read in copied a b c rest known made

prepare-AreCopies :
    (env : Environment) (before accounts copies : List Account)
    → prepare_accounts env before (map portable accounts) ≡ ok copies
    → AreCopies accounts copies
unfolding prepare_accounts
prepare-AreCopies env before [] copies h = subst (AreCopies []) (ap listing h) no_more
prepare-AreCopies env before (a ∷ accounts) copies h =
    let (b, e, h1) = bind-ok _ _ _ h in
    let (_, h2) = require-ok _ _ _ _ h1 in
    let (rest, f, h3) = bind-ok _ _ _ h2 in
    subst (AreCopies (a ∷ accounts)) (ap listing h3)
      (and_copy (prepare-IsCopy env a b e) (prepare-AreCopies env (b ∷ before) accounts rest f))

-- A file that was exported is for an active user with the right password, and every site reads it back
-- as the user's accounts, each with its UID if it was known, its cookie, device, cloud tokens and tasks,
-- with its own login token and number or else those of its cookie, disabled and not automatic.
pub export_account_archive-AreCopies :
    (env : Environment) (now : ℕ) (user_id password : String) (before d : State)
    (archive : AccountArchive)
    → export_account_archive env now user_id password before d ≡ ok archive
    → (verify_password env password (active_hash (find_user d user_id)) ≡ true)
      × (copies : List Account) × (prepare_archive env archive ≡ ok copies)
      × AreCopies (own_accounts user_id d) copies
unfolding export_account_archive archive_of prepare_archive
export_account_archive-AreCopies env now user_id password before d archive h =
    let (checked, h1) = require-ok _ _ _ _ h in
    let (same, h2) = require-ok _ _ _ _ h1 in
    let (copies, read, h3) = bind-ok _ _ _ h2 in
    let made : archive_of now (own_accounts user_id d) ≡ archive = ap archive_value h3 in
    (
      rw (==_sound _ _ same) ((and_parts _ _ checked).1),
      copies,
      subst (λ x. prepare_archive env x ≡ ok copies) made read,
      prepare-AreCopies env [] (own_accounts user_id d) copies (require-ok _ _ _ _ read).1,
    )
  where
    archive_value : Result Err AccountArchive → AccountArchive
    archive_value (ok x) = x
    archive_value (err e) = archive
