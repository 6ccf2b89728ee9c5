-- ===== src/Model.antt =====
-- internal/model/models.go: the state of the site, which the store keeps in one file.
-- A map of the source is a list of entries with one entry for each key; a time is a number of
-- nanoseconds since Go's zero time, so that `IsZero` is the test for 0.
pub mod Accounts
pub mod Calendar
pub mod Captcha
pub mod Plans
pub mod Push
pub mod Schedules
pub mod Users
use miyohub.Base.{Bool, List}
use miyohub.Model.Accounts.{Account}
use miyohub.Model.Calendar.{CalendarReminder, CustomCalendarEvent}
use miyohub.Model.Captcha.{CaptchaActivity, CaptchaProbeEntry, UserCaptcha}
use miyohub.Model.Plans.{ShopConfig}
use miyohub.Model.Push.{PushDelivery, UserPush}
use miyohub.Model.Schedules.{BbsConfig, CloudGamesConfig, Features, GamesConfig, Schedule}
use miyohub.Model.Users.{InviteCode, LogEntry, RegistrationMode, Session, User}

-- `Config`, less the settings that only the upstream clients read.
pub record Config : Type 0 where
  pub enabled : Bool
  pub accounts : List Account
  pub features : Features
  pub games : GamesConfig
  pub cloud_games : CloudGamesConfig
  pub bbs : BbsConfig
  pub schedule : Schedule
  pub shop : ShopConfig

pub record State : Type 0 where
  pub config : Config
  pub users : List User
  pub sessions : List Session
  pub logs : List LogEntry
  pub invite_codes : List InviteCode
  pub registration_mode : RegistrationMode
  pub user_push : List UserPush
  pub user_captcha : List UserCaptcha
  pub captcha_activity : List CaptchaActivity
  pub captcha_probes : List CaptchaProbeEntry
  pub push_deliveries : List PushDelivery
  pub calendar_events : List CustomCalendarEvent
  pub calendar_reminders : List CalendarReminder
