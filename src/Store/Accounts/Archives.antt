-- ===== src/Store/Accounts/Archives.antt =====
-- internal/store/archive.go and internal/model/archive.go: a user's accounts in a file that another
-- site can read.
use miyohub.Base.{
  Bool, List, Option, String, [], any_of, count_if, eqb, false, if◌then◌else◌, keep_if, leb, length,
  map, none, not, some, suc, true, ℕ, ◌&&◌, ◌++◌, ◌==◌, ◌||◌, ◌∷◌,
}
use miyohub.Base.Int.{pos}
use miyohub.Base.Result.{Result, ok, require, ◌>>=◌, ◌>>◌}
use miyohub.Base.Text.{is_uid, trim_space}
use miyohub.Model.{State}
use miyohub.Model.Accounts.{Account, Device}
use miyohub.Model.Schedules.{AccountTaskSettings}
use miyohub.Store.Accounts.Binding.{active_user, or_device, set_accounts}
use miyohub.Store.Accounts.Credentials.{cookie_fields, too_long, validate_account}
use miyohub.Store.Environment.{Environment}
use miyohub.Store.Errors.{Err}
use miyohub.Store.Lookup.{find_user}
use miyohub.Store.Tasks.Settings.{chosen, validate_task_settings}
use miyohub.Store.Transaction.{Effect, keep, write}

pub record PortableAccount : Type 0 where
  pub name : String
  pub group : String
  pub uid : String
  pub cookie : String
  pub stoken : String
  pub mid : String
  pub device : Device
  pub cloud_tokens : Option (List (String × String))
  pub task_settings : AccountTaskSettings

pub record AccountArchive : Type 0 where
  pub version : ℕ
  pub created_at : ℕ
  pub accounts : List PortableAccount

pub record ArchivePreview : Type 0 where
  pub names : List String
  pub add : ℕ
  pub skipped : ℕ

-- The settings of an account that has none are the zero value.
abbrev pub zero_tasks : AccountTaskSettings
zero_tasks = record {
  revision = 0;
  automatic = false;
  schedule = none;
  features = record { game_checkin = false; cloud_game_checkin = false; bbs_tasks = false };
  games = record { enabled = []; blacklist = [] };
  cloud_games = record { enabled = [] };
  bbs = record {
    run_all_selected = false;
    forums = [];
    checkin = false;
    read = false;
    like = false;
    share = false;
    cancel_like = false;
    post_limit = pos 0;
    delay_seconds = [];
  };
}

abbrev pub tasks_or_zero : Option AccountTaskSettings → AccountTaskSettings
tasks_or_zero none = zero_tasks
tasks_or_zero (some t) = t

-- The body of the loop of `ExportAccountArchive`.
unfoldable pub portable : Account → PortableAccount
portable a = record {
  name = a.name;
  group = a.group;
  uid = a.stuid;
  cookie = a.cookie;
  stoken = a.stoken;
  mid = a.mid;
  device = a.device;
  cloud_tokens = a.cloud_tokens;
  task_settings = tasks_or_zero a.task_settings;
}

-- The account of an entry, as it is before the checks.
unfoldable pub imported : PortableAccount → Account
imported p = record {
  disabled = true;
  status = "unchecked";
  checked_at = 0;
  device = p.device;
  shop_device_fp = "";
  task_results = [];
  last_task_at = 0;
  last_automatic_at = 0;
  id = "";
  user_id = "";
  name = trim_space p.name;
  group = trim_space p.group;
  cookie = p.cookie;
  stuid = p.uid;
  stoken = p.stoken;
  mid = p.mid;
  cloud_tokens = p.cloud_tokens;
  task_settings = none;
}

abbrev pub idle_tasks : AccountTaskSettings → AccountTaskSettings
idle_tasks t = record t { automatic = false; revision = 1 }

-- The body of the loop of `prepareArchive`, without the test for duplicates.
unfoldable pub prepare_account : Environment → PortableAccount → Result Err Account
unfolding imported cookie_fields validate_account validate_task_settings too_long
prepare_account env p = do
  a ← cookie_fields (imported p)
  require (is_uid a.stuid) Err.archive_without_uid
  validate_account env a
  require
      (not
        (any_of (too_long 128) (a.device.id ∷ a.device.fp ∷ a.device.name ∷ a.device.model ∷ [])))
      Err.bad_device
  let t = idle_tasks p.task_settings
  validate_task_settings env t
  ok (record a { task_settings = some t })

-- `uids[a.Stuid] || names[a.Name]`, with the accounts before for the two maps.
abbrev pub is_repeated : Account → List Account → Bool
is_repeated a before = any_of (λ b. b.stuid == a.stuid || b.name == a.name) before

-- The loop of `prepareArchive`.
unfoldable pub prepare_accounts :
    Environment → List Account → List PortableAccount → Result Err (List Account)
unfolding prepare_account
prepare_accounts env before [] = ok []
prepare_accounts env before (p ∷ ps) = do
  a ← prepare_account env p
  require (not (is_repeated a before)) Err.archive_duplicate
  rest ← prepare_accounts env (a ∷ before) ps
  ok (a ∷ rest)

-- `prepareArchive`
unfoldable pub prepare_archive : Environment → AccountArchive → Result Err (List Account)
unfolding prepare_accounts
prepare_archive env archive = do
  require
      (eqb archive.version 1
        && leb 1 (length archive.accounts)
        && leb (length archive.accounts) 100)
      Err.bad_archive
  prepare_accounts env [] archive.accounts

-- An account that the site has already.
abbrev pub is_present : String → List Account → Account → Bool
is_present user_id accounts a =
    any_of (λ old. a.stuid == old.stuid || (old.user_id == user_id && a.name == old.name)) accounts

-- `archiveCandidatesLocked`
unfoldable pub archive_candidates :
    String → List Account → State → Result Err (List Account × ArchivePreview)
archive_candidates user_id accounts d = do
  require (active_user (find_user d user_id)) Err.user_inactive
  let present = is_present user_id d.config.accounts
  let selected = keep_if (λ a. not (present a)) accounts
  ok (
    selected,
    record {
      names = map Account.name selected;
      add = length selected;
      skipped = count_if present accounts;
    },
  )

-- `PreviewAccountArchive`
unfoldable pub preview_account_archive :
    Environment → String → AccountArchive → State → Result Err ArchivePreview
unfolding prepare_archive archive_candidates
preview_account_archive env user_id archive d = do
  accounts ← prepare_archive env archive
  chosen ← archive_candidates user_id accounts d
  ok chosen.1

-- The loop of `ImportAccountArchive`, with the n-th random identifier and device.
unfoldable pub adopt : String → (ℕ → String × Device) → ℕ → List Account → List Account
adopt user_id fresh n [] = []
adopt user_id fresh n (a ∷ accounts) =
    record a { id = (fresh n).0; user_id = user_id; device = or_device a.device (fresh n).1 }
    ∷ adopt user_id fresh (suc n) accounts

-- `ImportAccountArchive`
unfoldable pub import_account_archive :
    Environment
    → String
    → (ℕ → String × Device)
    → AccountArchive
    → State
    → Result Err (Effect ArchivePreview)
unfolding prepare_archive archive_candidates adopt
import_account_archive env user_id fresh archive d = do
  accounts ← prepare_archive env archive
  chosen ← archive_candidates user_id accounts d
  ok (
      if eqb (length chosen.0) 0
      then keep chosen.1
      else write (set_accounts d (d.config.accounts ++ adopt user_id fresh 0 chosen.0)) chosen.1)
