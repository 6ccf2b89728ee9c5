-- ===== src/Tasks/Runner.antt =====
-- internal/tasks/runner.go: the reservation of accounts for a batch of runs. The maps `running` and
-- `contexts`, which are written together, are one list of runs; the number of its batch stands for the
-- context of an account, which no other batch shares.
use miyohub.Base.{
  Bool, List, Option, String, [], any_of, blank, eqb, false, if◌then◌else◌, keep_if, map, none, not,
  some, true, ℕ, ◌&&◌, ◌++◌, ◌==◌, ◌||◌, ◌∷◌,
}
use miyohub.Base.Result.{Result, err, ok}
use miyohub.Model.{Config, State}
use miyohub.Model.Accounts.{Account}
use miyohub.Model.Schedules.{AccountTaskSettings}
use miyohub.Store.Environment.{Environment}
use miyohub.Store.Lookup.{account_runnable}
use miyohub.Store.Records.Logs.{add_log_for_user}
use miyohub.Store.Tasks.Runs.{claim_automatic_run, config_for_account}
use miyohub.Store.Transaction.{Store, transact}
use miyohub.Tasks.Options.{RunOptions, available}

pub record Run : Type 0 where
  pub account_id : String
  pub context : ℕ
  -- The reason of a cancellation.
  pub cancelled : Option String

pub record TaskProgress : Type 0 where
  pub account_id : String
  pub state : String
  pub current : String
  pub started_at : ℕ

pub record Runner : Type 0 where
  pub runs : List Run
  pub progress : List TaskProgress
  pub batches : List ℕ
  pub stopped : Bool

pub data RunErr : Type 0 where
  stopping tasks_off busy_account no_tasks : RunErr

-- What the loop of `begin` makes of an account.
pub data Judgement : Type 0 where
  pass_over busy : Judgement
  take : Account → Judgement
  -- A claim of the automatic run is asked of the store.
  ask : Account → ℕ → Judgement

abbrev pub is_wanted : Option (List String) → String → Bool
is_wanted none id = true
is_wanted (some ids) id = any_of (λ i. i == id) ids

abbrev pub has_run : String → Run → Bool
has_run id x = x.account_id == id

-- `r.running[id] != nil`
abbrev pub is_busy : Runner → String → Bool
is_busy r id = any_of (has_run id) r.runs

abbrev pub runs_itself : Option AccountTaskSettings → Bool
runs_itself none = false
runs_itself (some t) = t.automatic

abbrev pub settings_revision : Option AccountTaskSettings → ℕ
settings_revision none = 0
settings_revision (some t) = t.revision

abbrev pub has_work : RunOptions → Option Config → Bool
has_work o none = false
has_work o (some c) = available o c

-- The tests on an account that the store lets run.
unfoldable pub judge_runnable : RunOptions → Runner → State → Account → Judgement
unfolding config_for_account
judge_runnable o r d a =
    if (o.automatic && not (runs_itself a.task_settings))
      || not (has_work o (config_for_account a.id d))
    then pass_over
    else if is_busy r a.id
    then if o.automatic then pass_over else busy
    else if o.automatic
    then ask a (settings_revision a.task_settings)
    else take a

-- The tests of the loop of `begin`, in order.
unfoldable pub judge : Option (List String) → RunOptions → Runner → State → Account → Judgement
unfolding account_runnable judge_runnable
judge ids o r d x =
    if is_wanted ids x.id
    then elim (account_runnable d x.id) [ none ↦ pass_over | some a ↦ judge_runnable o r d a ]
    else pass_over

abbrev pub failed_claim : String
failed_claim = "无法保存自动签到状态，本次未启动，请检查磁盘空间。"

-- The claim of an automatic run, with a log entry if it could not be saved; the two outcomes of the disk
-- are those of the claim and of the log.
unfoldable pub claim_for : Environment → ℕ → Bool × Bool → Account → ℕ → Store → Store × Bool
unfolding claim_automatic_run add_log_for_user transact
claim_for env now (disk, log_disk) a revision s =
    let r = transact s disk (claim_automatic_run env a.id revision now s.current) in
    elim r.1 [
      | ok b ↦ (r.0, b)
      | err e ↦ (
        (transact r.0 log_disk
            (add_log_for_user now a.user_id "scheduler" failed_claim r.0.current)).0,
        false,
      )
    ]

abbrev pub add_chosen : Account → Store × Option (List Account) → Store × Option (List Account)
add_chosen a (s, none) = (s, none)
add_chosen a (s, some accounts) = (s, some (a ∷ accounts))

-- The loop of `begin`: the accounts chosen, or none where the caller chose one that is running.
unfoldable pub select :
    Environment
    → ℕ
    → (String → Bool × Bool)
    → Option (List String)
    → RunOptions
    → Runner
    → List Account
    → Store
    → Store × Option (List Account)
unfolding judge claim_for
select env now disk ids o r [] s = (s, some [])
select env now disk ids o r (x ∷ xs) s = elim (judge ids o r s.current x) [
  | pass_over ↦ select env now disk ids o r xs s
  | busy ↦ (s, none)
  | take a ↦ add_chosen a (select env now disk ids o r xs s)
  | ask a revision ↦
      let claimed = claim_for env now (disk a.id) a revision s in
      let rest = select env now disk ids o r xs claimed.0 in
      if claimed.1 then add_chosen a rest else rest
]

-- The writes of `begin` for one account.
abbrev pub reserve_account : ℕ → ℕ → Account → Runner → Runner
reserve_account now batch a r = record r {
  runs =
      keep_if (λ x. not (has_run a.id x)) r.runs
      ++ record { account_id = a.id; context = batch; cancelled = none } ∷ [];
  progress =
      keep_if (λ p. not (p.account_id == a.id)) r.progress
      ++ record { account_id = a.id; state = "queued"; current = "等待执行"; started_at = now } ∷ [];
}

unfoldable pub reserve_accounts : ℕ → ℕ → List Account → Runner → Runner
reserve_accounts now batch [] r = r
reserve_accounts now batch (a ∷ accounts) r =
    reserve_accounts now batch accounts (reserve_account now batch a r)

abbrev pub begin_chosen :
    ℕ → ℕ → Runner → Option (List Account) → Result RunErr (List Account × Runner)
begin_chosen now batch r none = err RunErr.busy_account
begin_chosen now batch r (some []) = err RunErr.no_tasks
begin_chosen now batch r (some (a ∷ accounts)) =
    let next = reserve_accounts now batch (a ∷ accounts) r in
    ok (a ∷ accounts, record next { batches = next.batches ++ batch ∷ [] })

-- `begin`, with the number of the new batch.
unfoldable pub begin_batch :
    Environment
    → ℕ
    → (String → Bool × Bool)
    → ℕ
    → Option (List String)
    → RunOptions
    → Runner
    → Store
    → Store × Result RunErr (List Account × Runner)
unfolding select reserve_accounts
begin_batch env now disk batch ids o r s =
    let found = select env now disk ids o r s.current.config.accounts s in
    if r.stopped
    then (s, err RunErr.stopping)
    else if s.current.config.enabled
    then (found.0, begin_chosen now batch r found.1)
    else (s, err RunErr.tasks_off)

abbrev pub is_run_of : String → ℕ → Run → Bool
is_run_of id context x = has_run id x && eqb x.context context

-- `releaseAccount`
unfoldable pub release_account : String → ℕ → Runner → Runner
release_account id context r =
    if any_of (is_run_of id context) r.runs
    then record r {
      runs = keep_if (λ x. not (has_run id x)) r.runs;
      progress = keep_if (λ p. not (p.account_id == id)) r.progress;
    }
    else r

-- The function that `begin` returns, which ends the batch.
unfoldable pub end_batch : ℕ → List Account → Runner → Runner
unfolding release_account
end_batch batch [] r = record r { batches = keep_if (λ b. not (eqb b batch)) r.batches }
end_batch batch (a ∷ accounts) r = end_batch batch accounts (release_account a.id batch r)

abbrev pub first_reason : Option String → String → Option String
first_reason none reason = some reason
first_reason (some old) reason = some old

abbrev pub reason_text : Option String → String
reason_text none = "用户主动停止任务"
reason_text (some text) = if blank text then "用户主动停止任务" else text

abbrev pub cancel_run : String → Run → Run
cancel_run reason x = record x { cancelled = first_reason x.cancelled reason }

-- `CancelAccount`; a context keeps the cause of its first cancellation.
unfoldable pub cancel_account : String → Option String → Runner → Runner
cancel_account id reason r = record r {
  runs = map (λ x. if has_run id x then cancel_run (reason_text reason) x else x) r.runs;
}

-- `Stop`, before it waits for the batches to end.
unfoldable pub stop : Runner → Runner
stop r = record r { stopped = true; runs = map (cancel_run "服务正在重启或关闭") r.runs }

-- `updateProgress`
unfoldable pub update_progress : String → String → String → Runner → Runner
update_progress id state current r = record r {
  progress =
      map (λ p. if p.account_id == id then record p { state = state; current = current } else p)
        r.progress;
}
