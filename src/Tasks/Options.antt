-- ===== src/Tasks/Options.antt =====
-- internal/tasks/options.go: the options of a run.
use miyohub.Base.{Bool, List, String, any_of, false, if◌then◌else◌, keep_if, not, ◌&&◌, ◌==◌}
use miyohub.Base.Result.{Result, require, ◌>>◌}
use miyohub.Model.{Config}
use miyohub.Model.Schedules.{Features}
use miyohub.Store.Tasks.Settings.{chosen, has_tasks, is_game}

pub record RunOptions : Type 0 where
  pub automatic : Bool
  pub games_only : Bool
  pub bbs_only : Bool
  pub games : List String

pub data OptionsErr : Type 0 where
  both_only games_with_bbs unknown_game : OptionsErr

-- `Validate`
unfoldable pub validate_options : RunOptions → Result OptionsErr (Unit {0})
validate_options o = do
  require (not (o.games_only && o.bbs_only)) OptionsErr.both_only
  require (not (o.bbs_only && chosen o.games)) OptionsErr.games_with_bbs
  require (not (any_of (λ g. not (is_game g)) o.games)) OptionsErr.unknown_game

abbrev pub without_bbs : RunOptions → Features → Features
without_bbs o f = if o.games_only then record f { bbs_tasks = false } else f

abbrev pub without_games : RunOptions → Features → Features
without_games o f =
    if o.bbs_only then record f { game_checkin = false; cloud_game_checkin = false } else f

-- `filter`
abbrev pub filter_games : RunOptions → List String → List String
filter_games o keys =
    if chosen o.games then keep_if (λ key. any_of (λ g. g == key) o.games) keys else keys

-- `apply`
unfoldable pub apply_options : RunOptions → Config → Config
apply_options o c = record c {
  features = without_games o (without_bbs o c.features);
  games = record (c.games) { enabled = filter_games o c.games.enabled };
  cloud_games = record (c.cloud_games) { enabled = filter_games o c.cloud_games.enabled };
}

unfoldable pub config_tasks : Config → Bool
unfolding has_tasks
config_tasks c = has_tasks c.features c.games c.cloud_games c.bbs

-- `available`
unfoldable pub available : RunOptions → Config → Bool
unfolding apply_options config_tasks
available o c = config_tasks (apply_options o c)
