-- ===== src/Store/Accounts/Requests.antt =====
-- internal/store: the requests of a user on accounts.
use miyohub.Base.{Bool, List, String, keep_if, not, ℕ, ◌==◌}
use miyohub.Model.{State}
use miyohub.Model.Accounts.{Account, Device}
use miyohub.Model.Schedules.{AccountTaskSettings}
use miyohub.Store.Accounts.Archives.{AccountArchive, import_account_archive}
use miyohub.Store.Accounts.Batch.{AccountBatchPatch, batch_update_accounts}
use miyohub.Store.Accounts.Binding.{add_account_for_user, bind_account_for_user}
use miyohub.Store.Accounts.Editing.{AccountPatch, delete_account, update_account}
use miyohub.Store.Environment.{Environment}
use miyohub.Store.Tasks.Runs.{update_account_tasks}
use miyohub.Store.Transaction.{after}

pub data AccountRequest : Type 0 where
  bind_own : Environment → String → Device → Account → AccountRequest
  bind_login : Environment → String → Device → String → Account → AccountRequest
  edit_own : Environment → AccountPatch → AccountRequest
  delete_own : String → AccountRequest
  edit_some : Environment → AccountBatchPatch → AccountRequest
  set_tasks : Environment → String → AccountTaskSettings → AccountRequest
  import_file : Environment → (ℕ → String × Device) → AccountArchive → AccountRequest

-- The state after a request of the user that could be saved.
unfoldable pub perform_account : String → AccountRequest → State → State
perform_account user_id (bind_own env fresh device a) d =
    after d (add_account_for_user env fresh device user_id a d)
perform_account user_id (bind_login env fresh device target a) d =
    after d (bind_account_for_user env fresh device user_id target a d)
perform_account user_id (edit_own env p) d = after d (update_account env user_id p d)
perform_account user_id (delete_own id) d = after d (delete_account user_id id d)
perform_account user_id (edit_some env p) d = after d (batch_update_accounts env user_id p d)
perform_account user_id (set_tasks env id p) d = after d (update_account_tasks env user_id id p d)
perform_account user_id (import_file env fresh file) d =
    after d (import_account_archive env user_id fresh file d)

abbrev pub is_foreign : String → Account → Bool
is_foreign user_id a = not (a.user_id == user_id)

-- The accounts of the other users.
abbrev pub foreign_accounts : String → State → List Account
foreign_accounts user_id d = keep_if (is_foreign user_id) d.config.accounts
