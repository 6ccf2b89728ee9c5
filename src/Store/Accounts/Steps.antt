-- ===== src/Store/Accounts/Steps.antt =====
-- internal/store: the operations on accounts as steps of the state.
-- A step is an operation whose save succeeds; the identifiers that `randomID` makes are new ones.
use miyohub.Base.{List, String, blank, false, ℕ, ◌≡◌}
use miyohub.Model.{State}
use miyohub.Model.Accounts.{Account, Device, TaskSummary}
use miyohub.Store.Accounts.Archives.{AccountArchive, import_account_archive}
use miyohub.Store.Accounts.Batch.{AccountBatchPatch, batch_update_accounts}
use miyohub.Store.Accounts.Binding.{add_account, add_account_for_user, bind_account_for_user}
use miyohub.Store.Accounts.Editing.{
  AccountPatch, delete_account, record_account_check, record_tasks, renew_account_cookie,
  set_account_device_fp, update_account,
}
use miyohub.Store.Accounts.Unique.{count_id}
use miyohub.Store.Environment.{Environment}
use miyohub.Store.Transaction.{after}

pub data AccountStep : State → State → Type 0 where
  add :
      {d : State} (env : Environment) (fresh : String) (device : Device) (a : Account)
      → count_id fresh d.config.accounts ≡ 0
      → AccountStep d (after d (add_account env fresh device a d))
  add_for_user :
      {d : State} (env : Environment) (fresh : String) (device : Device) (user_id : String)
      (a : Account)
      → count_id fresh d.config.accounts ≡ 0
      → AccountStep d (after d (add_account_for_user env fresh device user_id a d))
  bind :
      {d : State} (env : Environment) (fresh : String) (device : Device) (user_id target : String)
      (a : Account)
      → count_id fresh d.config.accounts ≡ 0
      → AccountStep d (after d (bind_account_for_user env fresh device user_id target a d))
  update :
      {d : State} (env : Environment) (user_id : String) (p : AccountPatch)
      → AccountStep d (after d (update_account env user_id p d))
  delete : {d : State} (user_id id : String) → AccountStep d (after d (delete_account user_id id d))
  check :
      {d : State} (now : ℕ) (id status : String)
      → AccountStep d (after d (record_account_check now id status d))
  work :
      {d : State} (now : ℕ) (id : String) (results : List (String × TaskSummary))
      → AccountStep d (after d (record_tasks now id results d))
  -- The renewal logs in with the UID of the account.
  renew :
      {d : State} (env : Environment) (before : Account) (cookie : String)
      → blank before.stuid ≡ false
      → AccountStep d (after d (renew_account_cookie env before cookie d))
  fingerprint :
      {d : State} (id device_id fp : String)
      → AccountStep d (after d (set_account_device_fp id device_id fp d))
  batch :
      {d : State} (env : Environment) (user_id : String) (p : AccountBatchPatch)
      → AccountStep d (after d (batch_update_accounts env user_id p d))
  archive :
      {d : State} (env : Environment) (user_id : String) (fresh : ℕ → String × Device)
      (file : AccountArchive)
      → ((n : ℕ) → count_id (fresh n).0 d.config.accounts ≡ 0)
      → ((m n : ℕ) → (fresh m).0 ≡ (fresh n).0 → m ≡ n)
      → AccountStep d (after d (import_account_archive env user_id fresh file d))

pub data AccountSteps : State → State → Type 0 where
  start_of : {d : State} → AccountSteps d d
  followed : {d e f : State} → AccountSteps d e → AccountStep e f → AccountSteps d f
