-- ===== src/Model/Schedules.antt =====
-- internal/model/models.go: the site's schedule and the work chosen for an account.
use miyohub.Base.{Bool, List, Option, String, ℕ}
use miyohub.Base.Int.{ℤ}

pub record Schedule : Type 0 where
  pub enabled : Bool
  pub time : String
  pub timezone : String
  pub jitter_mins : ℤ
  pub run_on_start : Bool

pub record AccountSchedule : Type 0 where
  pub time : String
  pub timezone : String

pub record Features : Type 0 where
  pub game_checkin : Bool
  pub cloud_game_checkin : Bool
  pub bbs_tasks : Bool

pub record GamesConfig : Type 0 where
  pub enabled : List String
  pub blacklist : List (String × List String)

pub record CloudGamesConfig : Type 0 where
  pub enabled : List String

pub record BbsConfig : Type 0 where
  pub run_all_selected : Bool
  pub forums : List ℤ
  pub checkin : Bool
  pub read : Bool
  pub like : Bool
  pub share : Bool
  pub cancel_like : Bool
  pub post_limit : ℤ
  pub delay_seconds : List ℤ

pub record AccountTaskSettings : Type 0 where
  pub revision : ℕ
  pub automatic : Bool
  pub schedule : Option AccountSchedule
  pub features : Features
  pub games : GamesConfig
  pub cloud_games : CloudGamesConfig
  pub bbs : BbsConfig
