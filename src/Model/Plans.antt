-- ===== src/Model/Plans.antt =====
-- internal/model/models.go and shop.go: exchange plans and the settings of the shop.
-- The states and phases of a plan are texts in the source; `unset` is the empty text of old files.
use miyohub.Base.{Bool, List, String, false, if◌then◌else◌, ltb, true, ℕ, ◌*◌, ◌+◌, ◌-◌, ◌/◌}
use miyohub.Base.Int.{neg_part, pos_part, sub_ℕ, ℤ}

pub data PlanState : Type 0 where
  unset pending running success failed unknown cancelled missed : PlanState
  other : String → PlanState

pub data Phase : Type 0 where
  idle preparing waiting exchanging : Phase
  other : String → Phase

pub record ExchangePlan : Type 0 where
  pub state : PlanState
  pub phase : Phase
  pub attempt : ℕ
  pub attempt_key : String
  pub revision : ℕ
  pub price : ℤ
  pub goods_type : ℤ
  pub id : String
  pub enabled : Bool
  pub auto : Bool
  pub account_id : String
  pub goods_id : String
  pub goods_name : String
  pub device_fp : String
  pub uid : String
  pub region : String
  pub game_biz : String
  pub address_id : String
  pub exchange_at : ℤ
  pub last_result : String
  pub last_run : String

-- The two float settings are whole numbers of nanoseconds.
pub record ShopConfig : Type 0 where
  pub enabled : Bool
  pub retry_window_ns : ℤ
  pub retry_interval_ns : ℤ
  pub push : Bool
  pub plans : List ExchangePlan

abbrev pub is_pending : PlanState → Bool
is_pending PlanState.pending = true
is_pending _ = false

abbrev pub is_running : PlanState → Bool
is_running PlanState.running = true
is_running _ = false

abbrev pub is_unset : PlanState → Bool
is_unset PlanState.unset = true
is_unset _ = false

-- A result that no operation changes again.
abbrev pub is_final : PlanState → Bool
is_final PlanState.success = true
is_final PlanState.failed = true
is_final PlanState.unknown = true
is_final PlanState.cancelled = true
is_final PlanState.missed = true
is_final _ = false

-- Before any request: the phases `preparing` and `waiting`.
abbrev pub is_before_request : Phase → Bool
is_before_request Phase.preparing = true
is_before_request Phase.waiting = true
is_before_request _ = false

abbrev pub second : ℕ
second = 1000000000

abbrev pub minute : ℕ
minute = 60 * second

-- Seconds from Go's zero time to the Unix epoch.
abbrev pub epoch_seconds : ℕ
epoch_seconds = 62135596800

-- `t.Unix()`
unfoldable pub unix : ℕ → ℤ
unix t = sub_ℕ (t / second) epoch_seconds

-- `time.Unix(s, 0)`, from Go's zero time on.
unfoldable pub of_unix : ℤ → ℕ
of_unix s = (epoch_seconds + pos_part s - neg_part s) * second

-- `RetryWindow`: the setting, held between 0 and 120 seconds.
unfoldable pub retry_window : ShopConfig → ℕ
retry_window c =
    if ltb (120 * second) (pos_part c.retry_window_ns)
    then 120 * second
    else pos_part c.retry_window_ns

-- `DispatchWindow`: one minute where no retry window is set.
unfoldable pub dispatch_window : ShopConfig → ℕ
unfolding retry_window
dispatch_window c = if ltb 0 (retry_window c) then retry_window c else minute
