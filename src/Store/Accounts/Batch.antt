-- ===== src/Store/Accounts/Batch.antt =====
-- internal/store/account_batch.go: one edit of several accounts of a user.
use miyohub.Base.{
  Bool, List, Option, String, [], any_of, blank, eqb, false, if◌then◌else◌, leb, length, none, not,
  some, suc, true, ℕ, ◌&&◌, ◌==◌, ◌||◌, ◌∷◌,
}
use miyohub.Base.Result.{Result, ok, require, ◌>>=◌, ◌>>◌}
use miyohub.Base.Text.{trim_space}
use miyohub.Model.{State}
use miyohub.Model.Accounts.{Account}
use miyohub.Model.Schedules.{AccountSchedule, AccountTaskSettings}
use miyohub.Store.Accounts.Binding.{active_user, set_accounts}
use miyohub.Store.Accounts.Credentials.{validate_account_group}
use miyohub.Store.Accounts.Editing.{or_bool, trimmed}
use miyohub.Store.Environment.{Environment}
use miyohub.Store.Errors.{Err}
use miyohub.Store.Lookup.{find_user}
use miyohub.Store.Tasks.Settings.{validate_optional}
use miyohub.Store.Transaction.{Effect, keep, write}
use mathlib.Core.Option.{map as map_option}

-- `AccountBatchPatch`; `none` is a nil pointer.
pub record AccountBatchPatch : Type 0 where
  pub account_ids : List String
  pub group : Option String
  pub disabled : Option Bool
  pub automatic : Option Bool
  pub schedule : Option AccountSchedule
  pub follow_default : Bool
  pub revisions : List (String × ℕ)

abbrev pub is_given {ℓ} : {A : Type ℓ} → Option A → Bool
is_given none = false
is_given (some a) = true

abbrev pub schedule_edit : AccountBatchPatch → Bool
schedule_edit p = is_given p.schedule || p.follow_default || is_given p.automatic

-- `patch.Revisions[id]`, with 0 for a missing key.
abbrev pub revision_of : String → List (String × ℕ) → ℕ
revision_of id [] = 0
revision_of id ((k, n) ∷ rest) = if k == id then n else revision_of id rest

-- The loop that fills `selected`.
unfoldable pub check_selection : List String → List String → Result Err (Unit {0})
check_selection seen [] = ok tt
check_selection seen (id ∷ ids) = do
  require (not (blank id) && not (any_of (λ s. s == id) seen)) Err.bad_selection
  check_selection (id ∷ seen) ids

unfoldable pub validate_given : Environment → Option String → Result Err (Unit {0})
unfolding validate_account_group
validate_given env none = ok tt
validate_given env (some group) = validate_account_group env (trim_space group)

-- The checks before the lock is taken.
unfoldable pub check_batch : Environment → AccountBatchPatch → Result Err (Unit {0})
unfolding check_selection validate_given
check_batch env p = do
  require (leb 1 (length p.account_ids) && leb (length p.account_ids) 50) Err.bad_batch
  require (is_given p.group || is_given p.disabled || schedule_edit p) Err.no_batch_change
  require (not (is_given p.schedule && p.follow_default)) Err.bad_batch
  validate_optional env p.schedule
  validate_given env p.group
  check_selection [] p.account_ids

abbrev pub same_bool : Bool → Bool → Bool
same_bool true b = b
same_bool false b = not b

-- `reflect.DeepEqual` of two pointers to a schedule.
abbrev pub same_schedule : Option AccountSchedule → Option AccountSchedule → Bool
same_schedule none none = true
same_schedule (some s) (some t) = s.time == t.time && s.timezone == t.timezone
same_schedule _ _ = false

abbrev pub next_schedule : AccountBatchPatch → Option AccountSchedule → Option AccountSchedule
next_schedule p old = elim p.schedule [
  | none ↦ if p.follow_default then none else old
  | some s ↦ some s
]

-- The new settings; the revision counts only a change.
unfoldable pub edit_settings : AccountBatchPatch → AccountTaskSettings → AccountTaskSettings
edit_settings p t =
    let automatic = or_bool p.automatic t.automatic in
    let schedule = next_schedule p t.schedule in
    if same_bool t.automatic automatic && same_schedule t.schedule schedule
    then t
    else record t { automatic = automatic; schedule = schedule; revision = suc t.revision }

abbrev pub at_revision : String → List (String × ℕ) → Option AccountTaskSettings → Bool
at_revision id revisions none = false
at_revision id revisions (some t) = eqb (revision_of id revisions) t.revision

-- The body of the loop for a selected account.
unfoldable pub edit_account : AccountBatchPatch → Account → Account
unfolding edit_settings
edit_account p a = record a {
  group = trimmed p.group a.group;
  disabled = or_bool p.disabled a.disabled;
  task_settings =
      if schedule_edit p then map_option (edit_settings p) a.task_settings else a.task_settings;
}

abbrev pub is_selected : String → List String → Account → Bool
is_selected user_id ids a = any_of (λ id. id == a.id) ids && a.user_id == user_id

-- The loop of `BatchUpdateAccounts`: the new accounts, and those among them that were edited.
unfoldable pub edit_accounts :
    String → AccountBatchPatch → List Account → Result Err (List Account × List Account)
unfolding edit_account
edit_accounts user_id p [] = ok ([], [])
edit_accounts user_id p (a ∷ accounts) = do
  let taken = is_selected user_id p.account_ids a
  require (not taken || not (schedule_edit p) || at_revision a.id p.revisions a.task_settings)
      Err.settings_changed
  rest ← edit_accounts user_id p accounts
  ok (
      if taken
      then (edit_account p a ∷ rest.0, edit_account p a ∷ rest.1)
      else (a ∷ rest.0, rest.1))

abbrev pub same_revision : Option AccountTaskSettings → Option AccountTaskSettings → Bool
same_revision none none = true
same_revision (some s) (some t) = eqb s.revision t.revision
same_revision _ _ = false

-- `reflect.DeepEqual` of the accounts before and after the loop, which changes nothing else and
-- changes settings only with their revision.
unfoldable pub unedited : List Account → List Account → Bool
unedited (a ∷ old) (b ∷ next) =
    a.group == b.group
    && same_bool a.disabled b.disabled
    && same_revision a.task_settings b.task_settings
    && unedited old next
unedited _ _ = true

-- `BatchUpdateAccounts`
unfoldable pub batch_update_accounts :
    Environment → String → AccountBatchPatch → State → Result Err (Effect (List Account))
unfolding check_batch edit_accounts unedited
batch_update_accounts env user_id p d = do
  check_batch env p
  require (active_user (find_user d user_id)) Err.user_inactive
  edited ← edit_accounts user_id p d.config.accounts
  require (eqb (length edited.1) (length p.account_ids)) Err.account_gone
  ok (
      if unedited edited.0 d.config.accounts
      then keep edited.1
      else write (set_accounts d edited.0) edited.1)
