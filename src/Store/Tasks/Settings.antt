-- ===== src/Store/Tasks/Settings.antt =====
-- internal/store/task_settings.go, internal/model/schedule.go and task_settings.go: the validation of
-- the tasks of an account, and what two settings have in common.
use Prim.Native.Char.{Char, code}
use Prim.Native.String.{len}
use miyohub.Base.{
  Bool, List, Option, String, [], any_of, blank, eqb, false, leb, length, ltb, none, not, some,
  true, ℕ, ◌&&◌, ◌*◌, ◌+◌, ◌-◌, ◌==◌, ◌||◌, ◌∷◌,
}
use miyohub.Base.Int.{eqb_ℤ, leb_ℤ, pos, ℤ}
use miyohub.Base.Result.{Result, ok, require, ◌>>◌}
use miyohub.Base.Text.{chars, is_uid, trim_space}
use miyohub.Model.{Config}
use miyohub.Model.Schedules.{
  AccountSchedule, AccountTaskSettings, BbsConfig, CloudGamesConfig, Features, GamesConfig,
}
use miyohub.Store.Environment.{Environment}
use miyohub.Store.Errors.{Err}

abbrev pub is_digit : Char → Bool
is_digit c = leb b'0' (code c) && leb (code c) b'9'

abbrev pub digit : Char → ℕ
digit c = code c - b'0'

-- `time.Parse("15:04", s)` succeeds and prints `s` again.
unfoldable pub is_clock : List Char → Bool
is_clock (a ∷ b ∷ c ∷ d ∷ e ∷ []) =
    is_digit a
    && is_digit b
    && eqb (code c) b':'
    && is_digit d
    && is_digit e
    && ltb (10 * digit a + digit b) 24
    && ltb (10 * digit d + digit e) 60
is_clock _ = false

-- `ValidateAccountSchedule`
unfoldable pub validate_account_schedule : Environment → AccountSchedule → Result Err (Unit {0})
unfolding is_clock
validate_account_schedule env s = do
  require (is_clock (chars s.time)) Err.bad_clock
  require (not (blank s.timezone) && leb (len s.timezone) 64 && env.zone_known s.timezone)
      Err.bad_zone

-- The keys of `mihoyo.Games` and `mihoyo.BBSForums`.
abbrev pub games : List String
games = "genshin" ∷ "starrail" ∷ "zzz" ∷ "honkai3rd" ∷ "tears" ∷ "honkai2" ∷ []

abbrev pub forums : List ℤ
forums = pos 1 ∷ pos 2 ∷ pos 3 ∷ pos 4 ∷ pos 5 ∷ pos 6 ∷ pos 8 ∷ []

abbrev pub is_game : String → Bool
is_game key = any_of (λ g. g == key) games

abbrev pub is_cloud_game : String → Bool
is_cloud_game key = key == "genshin" || key == "zzz"

abbrev pub is_forum : ℤ → Bool
is_forum id = any_of (λ f. eqb_ℤ f id) forums

abbrev pub good_delay : List ℤ → Bool
good_delay (a ∷ b ∷ []) = leb_ℤ (pos 0) a && leb_ℤ a b && leb_ℤ b (pos 60)
good_delay _ = false

abbrev pub validate_optional : Environment → Option AccountSchedule → Result Err (Unit {0})
validate_optional env none = ok tt
validate_optional env (some s) = validate_account_schedule env s

-- The loop over the excluded roles of each game.
unfoldable pub validate_excluded : List (String × List String) → Result Err (Unit {0})
validate_excluded [] = ok tt
validate_excluded ((key, uids) ∷ rest) = do
  require (is_game key) Err.bad_game
  require (leb (length uids) 100) Err.bad_excluded
  require (not (any_of (λ u. not (is_uid (trim_space u))) uids)) Err.bad_excluded
  validate_excluded rest

-- `validateTaskSettings`
unfoldable pub validate_task_settings : Environment → AccountTaskSettings → Result Err (Unit {0})
unfolding validate_account_schedule validate_excluded
validate_task_settings env p = do
  validate_optional env p.schedule
  require
      (leb (length p.games.enabled) (length games)
        && leb (length p.cloud_games.enabled) 2
        && leb (length p.bbs.forums) (length forums))
      Err.bad_task_count
  require (not (any_of (λ g. not (is_game g)) p.games.enabled)) Err.bad_game
  validate_excluded p.games.blacklist
  require (not (any_of (λ g. not (is_cloud_game g)) p.cloud_games.enabled)) Err.bad_cloud_game
  require (not (any_of (λ f. not (is_forum f)) p.bbs.forums)) Err.bad_forum
  require (leb_ℤ (pos 1) p.bbs.post_limit && leb_ℤ p.bbs.post_limit (pos 20)) Err.bad_post_limit
  require (good_delay p.bbs.delay_seconds) Err.bad_delay

abbrev pub chosen {ℓ} : {A : Type ℓ} → List A → Bool
chosen [] = false
chosen (x ∷ xs) = true

-- `HasTasks`
unfoldable pub has_tasks : Features → GamesConfig → CloudGamesConfig → BbsConfig → Bool
has_tasks f g c b =
    (f.game_checkin && chosen g.enabled)
    || (f.cloud_game_checkin && chosen c.enabled)
    || (f.bbs_tasks && chosen b.forums && (b.checkin || b.read || b.like || b.share))

-- `tasksFromConfig`
unfoldable pub tasks_from_config : Config → AccountTaskSettings
tasks_from_config c = record {
  revision = 1;
  automatic = true;
  schedule = none;
  features = c.features;
  games = c.games;
  cloud_games = c.cloud_games;
  bbs = c.bbs;
}

-- The tasks of `defaultState().Config`.
abbrev pub default_tasks : AccountTaskSettings
default_tasks = record {
  revision = 1;
  automatic = true;
  schedule = none;
  features = record { game_checkin = true; cloud_game_checkin = false; bbs_tasks = false };
  games = record {
    enabled = "genshin" ∷ "starrail" ∷ "zzz" ∷ [];
    blacklist = ("genshin", []) ∷ ("starrail", []) ∷ ("zzz", []) ∷ [];
  };
  cloud_games = record { enabled = "genshin" ∷ "zzz" ∷ [] };
  bbs = record {
    run_all_selected = false;
    forums = pos 5 ∷ pos 2 ∷ [];
    checkin = true;
    read = false;
    like = false;
    share = false;
    cancel_like = true;
    post_limit = pos 5;
    delay_seconds = pos 1 ∷ pos 3 ∷ [];
  };
}
