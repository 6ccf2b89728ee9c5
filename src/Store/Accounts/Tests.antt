-- ===== src/Store/Accounts/Tests.antt =====
-- Bob binds a second account, edits the first, and takes his accounts to another site.
use miyohub.Base.{List, [], arith, false, length, map, none, refl, some, true, ◌∷◌, ◌≡◌}
use miyohub.Base.Result.{ok, ◌>>=◌}
use miyohub.Base.Text.{contains_any, is_uid, split_at, trim_space}
use miyohub.Model.{State}
use miyohub.Model.Accounts.{Account, Device}
use miyohub.Store.Accounts.Archives.{AccountArchive, portable, prepare_archive}
use miyohub.Store.Accounts.Batch.{
  AccountBatchPatch, batch_update_accounts, edit_account, validate_given,
}
use miyohub.Store.Accounts.Batched.{AreEdited, batch_update_accounts-AreEdited}
use miyohub.Store.Accounts.Binding.{add_account_for_user, set_accounts}
use miyohub.Store.Accounts.Exports.{
  AreCopies, active_hash, archive_of, export_account_archive, export_account_archive-AreCopies,
  own_accounts,
}
use miyohub.Store.Accounts.Foreign.{perform_account-foreign}
use miyohub.Store.Accounts.Invariant.{steps-AreUnique}
use miyohub.Store.Accounts.Requests.{delete_own, foreign_accounts, perform_account}
use miyohub.Store.Accounts.Steps.{add_for_user, followed, start_of}
use miyohub.Store.Accounts.Unique.{AreUnique}
use miyohub.Store.Environment.{has_control}
use miyohub.Store.Lookup.{find_user}
use miyohub.Store.Samples.{bob_account, bob_login, new_year, sample_environment, sample_site}
use miyohub.Store.Tasks.Settings.{default_tasks}
use miyohub.Store.Transaction.{after, write}
use miyohub.Store.Users.Login.{verify_password}
use miyohub.Store.Users.Passwords.{hash_password}

abbrev phone : Device
phone = record { id = "d2"; fp = ""; name = "MiyoHub"; model = "MiyoHub" }

abbrev second_account : Account
second_account = record bob_account {
  id = "";
  name = " second ";
  stuid = "";
  cookie = "ltuid=2; x=y";
}

abbrev bound : State
bound =
    after sample_site
      (add_account_for_user sample_environment "acc_new" phone "usr_b" second_account sample_site)

bound-run : map Account.stuid bound.config.accounts ≡ "1" ∷ "2" ∷ []
unfolding add_account_for_user ◌>>=◌ trim_space split_at is_uid contains_any has_control portable
bound-run = refl

sample-AreUnique : AreUnique sample_site.config.accounts
sample-AreUnique = record { uids = λ u b. ground arith; ids = λ i. ground arith }

steps-AreUnique_example : AreUnique bound.config.accounts
steps-AreUnique_example =
    steps-AreUnique sample_site bound
      (followed start_of
        (add_for_user sample_environment "acc_new" phone "usr_b" second_account refl))
      sample-AreUnique

perform_account-foreign_example :
    foreign_accounts "usr_a" (perform_account "usr_a" (delete_own "acc_b") sample_site)
    ≡ foreign_accounts "usr_a" sample_site
perform_account-foreign_example =
    perform_account-foreign "usr_a" (delete_own "acc_b") sample_site refl

abbrev new_group : AccountBatchPatch
new_group = record {
  account_ids = "acc_b" ∷ [];
  group = some " daily ";
  disabled = none;
  automatic = none;
  schedule = none;
  follow_default = false;
  revisions = [];
}

abbrev grouped : State
grouped = set_accounts sample_site (record bob_account { group = "daily" } ∷ [])

grouped-run :
    batch_update_accounts sample_environment "usr_b" new_group sample_site
    ≡ ok (write grouped grouped.config.accounts)
unfolding batch_update_accounts edit_account ◌>>=◌ trim_space validate_given
grouped-run = refl

batch_update_accounts-AreEdited_example :
    AreEdited "usr_b" new_group sample_site.config.accounts grouped.config.accounts
      grouped.config.accounts
    × (length grouped.config.accounts ≡ length new_group.account_ids)
batch_update_accounts-AreEdited_example =
    batch_update_accounts-AreEdited sample_environment "usr_b" new_group sample_site grouped
      grouped.config.accounts grouped-run

-- Bob alone, and an account with tasks.
abbrev ready_site : State
ready_site =
    set_accounts (record sample_site { users = bob_login ∷ [] })
      (record bob_account { task_settings = some default_tasks } ∷ [])

abbrev sample_archive : AccountArchive
sample_archive = archive_of new_year ready_site.config.accounts

exported-run :
    export_account_archive sample_environment new_year "usr_b" "password" ready_site ready_site
    ≡ ok sample_archive
unfolding export_account_archive hash_password ◌>>=◌ trim_space split_at is_uid contains_any
    has_control portable
exported-run = refl

export_account_archive-AreCopies_example :
    (verify_password sample_environment "password" (active_hash (find_user ready_site "usr_b"))
      ≡ true)
    × (copies : List Account) × (prepare_archive sample_environment sample_archive ≡ ok copies)
    × AreCopies (own_accounts "usr_b" ready_site) copies
export_account_archive-AreCopies_example =
    export_account_archive-AreCopies sample_environment new_year "usr_b" "password" ready_site
      ready_site sample_archive exported-run
