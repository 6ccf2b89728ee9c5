-- ===== src/Model/Captcha.antt =====
-- internal/model/models.go: captcha settings of a user, attempts and background probes.
use miyohub.Base.{Bool, List, String, false, true, ℕ}
use miyohub.Base.Int.{ℤ}

pub record CaptchaChannel : Type 0 where
  pub id : String
  pub provider : String
  pub enabled : Bool
  pub user_key : String
  pub kind : String
  pub timeout : ℤ
  pub endpoint : String
  pub token : String

pub record UserCaptchaConfig : Type 0 where
  pub source : String
  pub revision : ℕ
  pub max_retries : ℤ
  pub channels : List CaptchaChannel

-- An entry of the map `State.UserCaptcha`, with its key.
pub record UserCaptcha : Type 0 where
  pub user_id : String
  pub captcha : UserCaptchaConfig

pub record CaptchaAttempt : Type 0 where
  pub at : ℕ
  pub source : String
  pub provider : String
  pub channel_id : String
  pub kind : String
  pub succeeded : Bool
  pub code : String
  pub duration_ms : ℤ

-- An entry of the map `State.CaptchaActivity`, with its key.
pub record CaptchaActivity : Type 0 where
  pub user_id : String
  pub attempts : List CaptchaAttempt

pub data ProbeStatus : Type 0 where
  unset running interrupted : ProbeStatus
  other : String → ProbeStatus

pub record CaptchaProbe : Type 0 where
  pub id : String
  pub status : ProbeStatus
  pub started_at : ℕ
  pub finished_at : ℕ
  pub retry_at : ℕ
  pub duration_ms : ℤ
  pub message : String

-- An entry of the map `State.CaptchaProbes`, with its key.
pub record CaptchaProbeEntry : Type 0 where
  pub user_id : String
  pub probe : CaptchaProbe

abbrev pub is_probing : ProbeStatus → Bool
is_probing ProbeStatus.running = true
is_probing _ = false
