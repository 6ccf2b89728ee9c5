-- ===== src/Tasks/Tests.antt =====
-- Bob runs the tasks of his account.
use miyohub.Base.{All, Bool, String, [], false, none, refl, some, true, ◌∷◌, ◌≡◌}
use miyohub.Base.Result.{ok}
use miyohub.Model.{State}
use miyohub.Model.Accounts.{Account}
use miyohub.Store.Accounts.Binding.{set_accounts}
use miyohub.Store.Lookup.{account_runnable}
use miyohub.Store.Samples.{bob_account, new_year, sample_environment, sample_site}
use miyohub.Store.Tasks.Settings.{default_tasks}
use miyohub.Store.Transaction.{Store}
use miyohub.Tasks.Begun.{WasReady, begin_batch-IsReady}
use miyohub.Tasks.Narrowed.{IsWithin, apply_options-IsWithin, implies}
use miyohub.Tasks.Options.{RunOptions, apply_options, available, config_tasks}
use miyohub.Tasks.Runner.{Runner, begin_batch}

abbrev all_tasks : RunOptions
all_tasks = record { automatic = false; games_only = true; bbs_only = false; games = "zzz" ∷ [] }

abbrev idle_runner : Runner
idle_runner = record { runs = []; progress = []; batches = []; stopped = false }

abbrev worker : Account
worker = record bob_account { task_settings = some default_tasks }

abbrev work_site : State
work_site = set_accounts sample_site (worker ∷ [])

abbrev work_store : Store
work_store = record { read_only = false; current = work_site; committed = work_site }

abbrev busy_runner : Runner
busy_runner = record {
  runs = record { account_id = "acc_b"; context = 1; cancelled = none } ∷ [];
  progress =
      record { account_id = "acc_b"; state = "queued"; current = "等待执行"; started_at = new_year }
      ∷ [];
  batches = 1 ∷ [];
  stopped = false;
}

abbrev saves : String → Bool × Bool
saves id = (true, true)

begin-run :
    (begin_batch sample_environment new_year saves 1 none all_tasks idle_runner work_store).1
    ≡ ok (worker ∷ [], busy_runner)
unfolding begin_batch account_runnable available
begin-run = refl

begin_batch-IsReady_example :
    (idle_runner.stopped ≡ false)
    × (work_store.current.config.enabled ≡ true)
    × All
        (WasReady sample_environment new_year saves none all_tasks idle_runner work_store)
        (worker ∷ [])
begin_batch-IsReady_example =
    begin_batch-IsReady sample_environment new_year saves 1 none all_tasks idle_runner busy_runner
      work_store (worker ∷ []) begin-run

apply_options-IsWithin_example :
    IsWithin (apply_options all_tasks work_site.config) work_site.config
    × (apply_options all_tasks (apply_options all_tasks work_site.config)
        ≡ apply_options all_tasks work_site.config)
    × (implies (available all_tasks work_site.config) (config_tasks work_site.config) ≡ true)
apply_options-IsWithin_example = apply_options-IsWithin all_tasks work_site.config
