-- ===== src/Model/Push.antt =====
-- internal/model/models.go: push settings and the deliveries of the outbox; notify/report.go and
-- notify/push.go: the event that asks for a delivery and the result of one.
use miyohub.Base.{Bool, List, String, false, true, ℕ}

pub data EventKind : Type 0 where
  task exchange calendar test : EventKind
  other : String → EventKind

pub data DeliveryStatus : Type 0 where
  pending sending accepted failed unknown skipped : DeliveryStatus
  other : String → DeliveryStatus

-- A channel, with its credentials as one list of fields.
pub record PushChannel : Type 0 where
  pub id : String
  pub name : String
  pub provider : String
  pub enabled : Bool
  pub credentials : List (String × String)

pub record PushConfig : Type 0 where
  pub enabled : Bool
  pub tasks : Bool
  pub exchange : Bool
  pub calendar : Bool
  pub revision : ℕ
  pub error_only : Bool
  pub channels : List PushChannel

-- An entry of the map `State.UserPush`, with its key.
pub record UserPush : Type 0 where
  pub user_id : String
  pub push : PushConfig

pub record PushDelivery : Type 0 where
  pub id : String
  pub user_id : String
  pub account_id : String
  pub channel_id : String
  pub channel_name : String
  pub provider : String
  pub kind : EventKind
  pub reference_id : String
  pub revision : ℕ
  pub title : String
  pub message : String
  pub success : Bool
  pub status : DeliveryStatus
  pub error : String
  pub created_at : ℕ
  pub updated_at : ℕ

-- `notify.Event`
pub record Event : Type 0 where
  pub kind : EventKind
  pub user_id : String
  pub account_id : String
  pub reference_id : String
  pub title : String
  pub message : String
  pub success : Bool

-- `notify.Result`, as far as the store reads it.
pub record SendResult : Type 0 where
  pub accepted : Bool
  pub error : String
  pub uncertain : Bool

abbrev pub is_waiting : DeliveryStatus → Bool
is_waiting DeliveryStatus.pending = true
is_waiting _ = false

abbrev pub is_sending : DeliveryStatus → Bool
is_sending DeliveryStatus.sending = true
is_sending _ = false

-- Pending or sending: an entry that the queue may not drop.
abbrev pub in_flight : DeliveryStatus → Bool
in_flight DeliveryStatus.pending = true
in_flight DeliveryStatus.sending = true
in_flight _ = false

abbrev pub is_calendar : EventKind → Bool
is_calendar EventKind.calendar = true
is_calendar _ = false

abbrev pub is_task : EventKind → Bool
is_task EventKind.task = true
is_task _ = false

abbrev pub is_exchange : EventKind → Bool
is_exchange EventKind.exchange = true
is_exchange _ = false
