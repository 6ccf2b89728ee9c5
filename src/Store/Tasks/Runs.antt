-- ===== src/Store/Tasks/Runs.antt =====
-- internal/store/task_settings.go and internal/model: the claim of an automatic run, and the edit of an
-- account's tasks.
use miyohub.Base.{
  Bool, List, Option, String, [], any_of, eqb, false, find_first, if◌then◌else◌, length, none, not,
  replace_first, some, suc, true, ℕ, ◌&&◌, ◌==◌, ◌∷◌,
}
use miyohub.Base.Int.{eqb_ℤ, pos, ℤ}
use miyohub.Base.Result.{Result, err, ok, require, ◌>>=◌, ◌>>◌}
use miyohub.Model.{Config, State}
use miyohub.Model.Accounts.{Account}
use miyohub.Model.Schedules.{AccountSchedule, AccountTaskSettings, BbsConfig, Features, Schedule}
use miyohub.Store.Accounts.Batch.{same_bool, same_schedule}
use miyohub.Store.Accounts.Binding.{active_user, set_accounts}
use miyohub.Store.Accounts.Editing.{has_account_id, is_owned, write_account}
use miyohub.Store.Environment.{Environment}
use miyohub.Store.Errors.{Err}
use miyohub.Store.Lookup.{account_runnable, find_user}
use miyohub.Store.Tasks.Settings.{
  tasks_from_config, validate_account_schedule, validate_task_settings,
}
use miyohub.Store.Transaction.{Effect, keep, or_fail, write}

-- `EffectiveSchedule`
unfoldable pub effective_schedule : Account → Schedule → Schedule
effective_schedule a fallback = elim a.task_settings [
  | none ↦ fallback
  | some t ↦ elim t.schedule [
    | none ↦ fallback
    | some s ↦ record {
      enabled = true;
      time = s.time;
      timezone = s.timezone;
      jitter_mins = pos 0;
      run_on_start = false;
    }
  ]
]

-- `AutomaticDoneToday`
unfoldable pub automatic_done_today : Environment → Account → Schedule → ℕ → Bool
unfolding effective_schedule
automatic_done_today env a fallback now =
    let zone = (effective_schedule a fallback).timezone in
    env.zone_known zone
    && not (eqb a.last_automatic_at 0)
    && env.local_date zone a.last_automatic_at == env.local_date zone now

-- `Schedule{}`
abbrev pub no_schedule : Schedule
no_schedule = record {
  enabled = false;
  time = "";
  timezone = "";
  jitter_mins = pos 0;
  run_on_start = false;
}

abbrev pub is_valid : Result Err (Unit {0}) → Bool
is_valid (ok u) = true
is_valid (err e) = false

-- The test of `CustomRunDue` for the schedule that the account has.
abbrev pub schedule_due : Environment → Account → ℕ → Option AccountSchedule → Bool
unfolding validate_account_schedule automatic_done_today
schedule_due env a now none = false
schedule_due env a now (some s) =
    is_valid (validate_account_schedule env s)
    && env.local_clock s.timezone now == s.time
    && not (automatic_done_today env a no_schedule now)

-- `CustomRunDue`
unfoldable pub custom_run_due : Environment → Account → ℕ → Bool
unfolding schedule_due
custom_run_due env a now = elim a.task_settings [
  | none ↦ false
  | some t ↦ not a.disabled && t.automatic && schedule_due env a now t.schedule
]

-- The settings of an account that runs by itself, at the revision.
abbrev pub is_automatic_at : ℕ → Option AccountTaskSettings → Bool
is_automatic_at revision none = false
is_automatic_at revision (some t) = t.automatic && eqb t.revision revision

-- The guard of `ClaimAutomaticRun`.
unfoldable pub may_claim : Environment → String → ℕ → ℕ → State → Bool
unfolding account_runnable automatic_done_today
may_claim env id revision now d = elim (account_runnable d id) [
  | none ↦ false
  | some a ↦
      d.config.enabled
      && is_automatic_at revision a.task_settings
      && not (automatic_done_today env a d.config.schedule now)
]

abbrev pub stamped : Option Account → ℕ → String → State → Effect Bool
stamped none now id d = keep false
stamped (some a) now id d = write (write_account id (record a { last_automatic_at = now }) d) true

-- `ClaimAutomaticRun`
unfoldable pub claim_automatic_run : Environment → String → ℕ → ℕ → State → Result Err (Effect Bool)
unfolding may_claim
claim_automatic_run env id revision now d = ok (
    if may_claim env id revision now d
    then stamped (find_first (has_account_id id) d.config.accounts) now id d
    else keep false)

abbrev pub same_texts : List String → List String → Bool
same_texts [] [] = true
same_texts (x ∷ xs) (y ∷ ys) = x == y && same_texts xs ys
same_texts _ _ = false

abbrev pub same_numbers : List ℤ → List ℤ → Bool
same_numbers [] [] = true
same_numbers (x ∷ xs) (y ∷ ys) = eqb_ℤ x y && same_numbers xs ys
same_numbers _ _ = false

-- The entry of a key in a map.
abbrev pub excluded_of : String → List (String × List String) → Option (List String)
excluded_of key [] = none
excluded_of key ((k, uids) ∷ rest) = if k == key then some uids else excluded_of key rest

abbrev pub same_excluded : Option (List String) → List String → Bool
same_excluded none uids = false
same_excluded (some vs) uids = same_texts vs uids

-- A nil list and an empty one, which `reflect.DeepEqual` tells apart, are one list here.
-- `reflect.DeepEqual` of two maps: as many keys, and each with the same value.
abbrev pub same_blacklist : List (String × List String) → List (String × List String) → Bool
same_blacklist a b =
    eqb (length a) (length b) && not (any_of (λ e. not (same_excluded (excluded_of e.0 b) e.1)) a)

abbrev pub same_features : Features → Features → Bool
same_features a b =
    same_bool a.game_checkin b.game_checkin
    && same_bool a.cloud_game_checkin b.cloud_game_checkin
    && same_bool a.bbs_tasks b.bbs_tasks

abbrev pub same_bbs : BbsConfig → BbsConfig → Bool
same_bbs a b =
    same_bool a.run_all_selected b.run_all_selected
    && same_numbers a.forums b.forums
    && same_bool a.checkin b.checkin
    && same_bool a.read b.read
    && same_bool a.like b.like
    && same_bool a.share b.share
    && same_bool a.cancel_like b.cancel_like
    && eqb_ℤ a.post_limit b.post_limit
    && same_numbers a.delay_seconds b.delay_seconds

-- `SameWork`
unfoldable pub same_work : AccountTaskSettings → AccountTaskSettings → Bool
same_work a b =
    same_features a.features b.features
    && same_texts a.games.enabled b.games.enabled
    && same_blacklist a.games.blacklist b.games.blacklist
    && same_texts a.cloud_games.enabled b.cloud_games.enabled
    && same_bbs a.bbs b.bbs

-- The body of the loop of `UpdateAccountTasks` for the account, with its settings.
unfoldable pub replace_tasks :
    Environment
    → String
    → String
    → AccountTaskSettings
    → Account
    → State
    → AccountTaskSettings
    → Result Err (Effect Account)
unfolding validate_task_settings same_work
replace_tasks env user_id id p a d t = do
  require (eqb p.revision t.revision) Err.settings_changed
  validate_task_settings env p
  let b = record a { task_settings = some (record p { revision = suc p.revision }) }
  ok (
      if same_work p t && same_bool p.automatic t.automatic && same_schedule p.schedule t.schedule
      then keep a
      else write (set_accounts d (replace_first (is_owned user_id id) b d.config.accounts)) b)

-- `UpdateAccountTasks`
unfoldable pub update_account_tasks :
    Environment → String → String → AccountTaskSettings → State → Result Err (Effect Account)
unfolding replace_tasks
update_account_tasks env user_id id p d = do
  require (active_user (find_user d user_id)) Err.user_inactive
  a ← or_fail (find_first (is_owned user_id id) d.config.accounts) Err.account_gone
  t ← or_fail a.task_settings Err.settings_changed
  replace_tasks env user_id id p a d t

abbrev pub with_tasks : Config → AccountTaskSettings → Config
with_tasks c t = record c {
  features = t.features;
  games = t.games;
  cloud_games = t.cloud_games;
  bbs = t.bbs;
}

abbrev pub tasks_or : AccountTaskSettings → Option AccountTaskSettings → AccountTaskSettings
tasks_or t none = t
tasks_or t (some u) = u

-- `ConfigForAccount`, less the device and the captcha settings, which only the upstream clients read.
unfoldable pub config_for_account : String → State → Option Config
unfolding account_runnable tasks_from_config
config_for_account id d = elim (account_runnable d id) [
  | none ↦ none
  | some a ↦ some (with_tasks d.config (tasks_or (tasks_from_config d.config) a.task_settings))
]
