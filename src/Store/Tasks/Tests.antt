-- ===== src/Store/Tasks/Tests.antt =====
-- An account with a schedule of its own runs once on New Year's Day.
use miyohub.Base.{List, [], arith, false, refl, some, subst, sym, ◌+◌, ◌∷◌, ◌≡◌, ◌≤◌}
use miyohub.Base.Result.{err, ok, ◌>>=◌}
use miyohub.Model.{State}
use miyohub.Model.Accounts.{Account}
use miyohub.Model.Plans.{minute}
use miyohub.Model.Schedules.{AccountTaskSettings}
use miyohub.Store.Accounts.Binding.{set_accounts}
use miyohub.Store.Accounts.Editing.{record_tasks}
use miyohub.Store.Errors.{Err}
use miyohub.Store.Samples.{bob_account, new_year, sample_environment, sample_site}
use miyohub.Store.Tasks.Daily.{AreOnDay, HasRun, IsQuiet, Turn, granted, granted_once}
use miyohub.Store.Tasks.Edited.{update_account_tasks_stale}
use miyohub.Store.Tasks.Quiet.{record_tasks-IsQuiet}
use miyohub.Store.Tasks.Runs.{claim_automatic_run, effective_schedule, update_account_tasks}
use miyohub.Store.Tasks.Settings.{default_tasks}
use miyohub.Store.Transaction.{after, write}

abbrev runner : Account
runner = record bob_account {
  task_settings =
      some (record default_tasks { schedule = some (record { time = "00:00"; timezone = "UTC" }) });
}

abbrev run_site : State
run_site = set_accounts sample_site (runner ∷ [])

-- A claim, the end of the run, and a second claim a minute later.
abbrev claimed_site : State
claimed_site = set_accounts run_site (record runner { last_automatic_at = new_year } ∷ [])

abbrev two_turns : List Turn
two_turns =
    record { site = run_site; revision = 1; now = new_year }
    ∷ record {
      site = after claimed_site (record_tasks new_year "acc_b" [] claimed_site);
      revision = 1;
      now = new_year + minute;
    }
    ∷ []

granted-run : granted sample_environment "acc_b" two_turns ≡ 1
unfolding granted claim_automatic_run record_tasks ◌>>=◌
granted-run = refl

first_claim :
    after run_site (claim_automatic_run sample_environment "acc_b" 1 new_year run_site)
    ≡ claimed_site
unfolding claim_automatic_run
first_claim = refl

runner-HasRun : HasRun "acc_b" "UTC" 0 run_site
unfolding effective_schedule
runner-HasRun = record {
  account = runner;
  found = refl;
  alone = omega arith;
  at = refl;
  zoned = refl;
}

turns-AreOnDay : AreOnDay sample_environment "acc_b" "UTC" "2026-01-01" two_turns run_site
turns-AreOnDay = (
  λ _ _ h. h,
  refl,
  refl,
  (
    subst
        (λ d.
          IsQuiet "acc_b" d (after claimed_site (record_tasks new_year "acc_b" [] claimed_site)))
        (sym first_claim) (record_tasks-IsQuiet "acc_b" "acc_b" new_year [] claimed_site),
    refl,
    refl,
    tt,
  ),
)

granted_once_example : granted sample_environment "acc_b" two_turns ≤ 1
granted_once_example =
    granted_once sample_environment "acc_b" "UTC" "2026-01-01" 0 two_turns run_site runner-HasRun
      refl turns-AreOnDay

-- Bob turns the automatic run off in one window, and edits from an old one.
abbrev manual_tasks : AccountTaskSettings
manual_tasks = record default_tasks { automatic = false }

abbrev task_site : State
task_site =
    set_accounts sample_site (record bob_account { task_settings = some default_tasks } ∷ [])

abbrev manual_account : Account
manual_account = record bob_account { task_settings = some (record manual_tasks { revision = 2 }) }

edit-run :
    update_account_tasks sample_environment "usr_b" "acc_b" manual_tasks task_site
    ≡ ok (write (set_accounts task_site (manual_account ∷ [])) manual_account)
unfolding update_account_tasks ◌>>=◌
edit-run = refl

update_account_tasks_stale_example :
    update_account_tasks sample_environment "usr_b" "acc_b" default_tasks
      (set_accounts task_site (manual_account ∷ []))
    ≡ err Err.settings_changed
update_account_tasks_stale_example =
    update_account_tasks_stale sample_environment "usr_b" "acc_b" manual_tasks default_tasks
      task_site (set_accounts task_site (manual_account ∷ [])) manual_account edit-run refl
