-- ===== src/Model/Accounts.antt =====
-- internal/model/models.go: a bound game account. The fields of the public view are left out.
use miyohub.Base.{Bool, List, Option, String, ℕ}
use miyohub.Model.Schedules.{AccountTaskSettings}

pub record Device : Type 0 where
  pub id : String
  pub fp : String
  pub name : String
  pub model : String

pub record TaskSummary : Type 0 where
  pub success : ℕ
  pub failed : ℕ
  pub skipped : ℕ
  pub status : String
  pub reason : String
  pub details : List String

pub record Account : Type 0 where
  pub disabled : Bool
  pub status : String
  pub checked_at : ℕ
  pub device : Device
  pub shop_device_fp : String
  pub task_results : List (String × TaskSummary)
  pub last_task_at : ℕ
  pub last_automatic_at : ℕ
  pub id : String
  pub user_id : String
  pub name : String
  pub group : String
  pub cookie : String
  pub stuid : String
  pub stoken : String
  pub mid : String
  -- `none` is a nil map.
  pub cloud_tokens : Option (List (String × String))
  pub task_settings : Option AccountTaskSettings
