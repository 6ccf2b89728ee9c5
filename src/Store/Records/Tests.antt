-- ===== src/Store/Records/Tests.antt =====
-- Reads and log entries at the sample site.
use miyohub.Base.{[], false, keep_if, refl, true, ◌∷◌, ◌≡◌}
use miyohub.Base.Result.{err, ok, ◌>>=◌}
use miyohub.Model.{State}
use miyohub.Model.Users.{LogEntry}
use miyohub.Store.Errors.{Err}
use miyohub.Store.Lookup.{account_owned, find_user, no_user}
use miyohub.Store.Plans.Editing.{plans}
use miyohub.Store.Records.Logs.{IsShort, add_task_log-kept, add_task_log_for_user, append_log}
use miyohub.Store.Records.Views.{exchange_plans_for_user, exchange_plans_for_user-owned}
use miyohub.Store.Samples.{sample_site}
use miyohub.Store.Transaction.{write}

abbrev long_site : State
long_site = record sample_site {
  logs =
      record {
        at = 1;
        component = "system";
        message = "started";
        user_id = "";
        account_id = "";
        run_id = "";
      }
      ∷ [];
}

abbrev run_entry : LogEntry
run_entry = record {
  at = 2;
  component = "task";
  message = "m";
  user_id = "usr_b";
  account_id = "acc_b";
  run_id = "r";
}

task_log-run :
    add_task_log_for_user 2 "usr_b" "acc_b" "r" "task" "m" long_site
    ≡ ok (write (append_log run_entry long_site) tt)
unfolding add_task_log_for_user ◌>>=◌
task_log-run = refl

foreign_log-run :
    add_task_log_for_user 2 "usr_a" "acc_b" "r" "task" "m" long_site ≡ err Err.bad_log_owner
unfolding add_task_log_for_user ◌>>=◌
foreign_log-run = refl

add_task_log-kept_example :
    (account_owned long_site "usr_b" false "acc_b" ≡ true)
    × (no_user (find_user long_site "usr_b") ≡ false)
    × IsShort (append_log run_entry long_site)
add_task_log-kept_example =
    add_task_log-kept 2 "usr_b" "acc_b" "r" "task" "m" long_site (append_log run_entry long_site)
      task_log-run

exchange_plans_for_user-owned_example :
    exchange_plans_for_user "usr_b" false sample_site
    ≡ keep_if (λ p. account_owned sample_site "usr_b" false p.account_id) (plans sample_site)
exchange_plans_for_user-owned_example = exchange_plans_for_user-owned "usr_b" false sample_site
