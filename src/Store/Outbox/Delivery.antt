-- ===== src/Store/Outbox/Delivery.antt =====
-- internal/store/push_outbox.go: how the queue is read, and what becomes of each delivery.
use miyohub.Base.{
  Bool, List, Option, String, [], any_of, blank, eqb, false, find_first, if◌then◌else◌, none, not,
  replace_first, some, true, ℕ, ◌&&◌, ◌++◌, ◌==◌, ◌||◌, ◌∷◌,
}
use miyohub.Base.Result.{Result, ok, require, ◌>>◌}
use miyohub.Model.{State}
use miyohub.Model.Push.{
  DeliveryStatus, EventKind, PushChannel, PushDelivery, SendResult, is_calendar, is_sending,
  is_waiting,
}
use miyohub.Store.Errors.{Err}
use miyohub.Store.Outbox.Queue.{push_allowed, push_config, push_event_enabled, trim_push}
use miyohub.Store.Outbox.Reminders.{
  calendar_delivery_allowed, finish_calendar_reminder, set_deliveries,
}
use miyohub.Store.Transaction.{Effect, keep, write}
use Prim.Native.String.{◌++◌ as append}

-- The last enabled channel of the identifier.
unfoldable pub select_channel : String → List PushChannel → Option PushChannel → Option PushChannel
select_channel id [] found = found
select_channel id (c ∷ cs) found =
    select_channel id cs (if c.id == id && c.enabled then some c else found)

-- The test of an entry before it is sent.
unfoldable pub sendable : ℕ → PushDelivery → State → Bool
unfolding push_allowed push_event_enabled calendar_delivery_allowed
sendable now e d =
    let cfg = push_config d e.user_id in
    push_allowed d e.user_id e.account_id
    && eqb cfg.revision e.revision
    && push_event_enabled cfg e.kind e.success
    && (not (is_calendar e.kind) || calendar_delivery_allowed now e d)

-- What becomes of an entry when the queue is read.
pub data Verdict : Type 0 where
  pass skip : Verdict
  send : PushChannel → Verdict

abbrev pub channel_verdict : Option PushChannel → Verdict
channel_verdict none = skip
channel_verdict (some c) = if blank c.id then skip else send c

unfoldable pub verdict : ℕ → PushDelivery → State → Verdict
unfolding sendable select_channel
verdict now e d =
    if is_waiting e.status
    then (if sendable now e d
        then channel_verdict (select_channel e.channel_id (push_config d e.user_id).channels none)
        else skip)
    else pass

abbrev pub skipped_entry : ℕ → PushDelivery → PushDelivery
skipped_entry now e = record e {
  status = DeliveryStatus.skipped;
  error = "配置、账号或用户状态已变化，未发送";
  updated_at = now;
}

abbrev pub sending_entry : ℕ → PushDelivery → PushDelivery
sending_entry now e = record e { status = DeliveryStatus.sending; updated_at = now }

-- The loop of `ClaimPushDelivery`: `past` was read, `changed` tells whether an entry was skipped.
unfoldable pub claim_from :
    ℕ
    → State
    → List PushDelivery
    → List PushDelivery
    → Bool
    → Effect (Option (PushDelivery × PushChannel))
unfolding verdict finish_calendar_reminder
claim_from now d past [] changed = if changed then write d none else keep none
claim_from now d past (e ∷ es) changed = elim (verdict now e d) [
  | pass ↦ claim_from now d (past ++ e ∷ []) es changed
  | skip ↦
      let e' = skipped_entry now e in
      claim_from now (finish_calendar_reminder now e' (set_deliveries d (past ++ e' ∷ es)))
        (past ++ e' ∷ []) es true
  | send c ↦ write (set_deliveries d (past ++ sending_entry now e ∷ es)) (some (e, c))
]

-- `ClaimPushDelivery`
unfoldable pub claim_push_delivery :
    ℕ → State → Result Err (Effect (Option (PushDelivery × PushChannel)))
unfolding claim_from
claim_push_delivery now d = ok (claim_from now d [] d.push_deliveries false)

-- The status of a delivery by the provider's answer.
abbrev pub sent_status : SendResult → DeliveryStatus
sent_status r =
    if r.accepted
    then DeliveryStatus.accepted
    else (if r.uncertain then DeliveryStatus.unknown else DeliveryStatus.failed)

abbrev pub being_sent : String → PushDelivery → Bool
being_sent id e = e.id == id && is_sending e.status

-- `FinishPushDelivery`, less the log entry that follows the save.
unfoldable pub finish_push_delivery :
    ℕ → String → SendResult → State → Result Err (Effect (Unit {0}))
unfolding finish_calendar_reminder
finish_push_delivery now id r d = elim (find_first (being_sent id) d.push_deliveries) [
  | none ↦ ok (write d tt)
  | some e ↦
      let e' = record e { status = sent_status r; error = r.error; updated_at = now } in
      ok (
        write
          (finish_calendar_reminder now e'
            (set_deliveries d (replace_first (being_sent id) e' d.push_deliveries)))
          tt)
]

abbrev pub interrupted_entry : ℕ → PushDelivery → PushDelivery
interrupted_entry now e = record e {
  status = DeliveryStatus.unknown;
  error = "服务中断，送达状态未确认；为避免重复消息，未自动重发";
  updated_at = now;
}

-- The loop of `RecoverPushDeliveries`.
unfoldable pub recover_from : ℕ → State → List PushDelivery → List PushDelivery → State
unfolding finish_calendar_reminder
recover_from now d past [] = d
recover_from now d past (e ∷ es) = elim (is_sending e.status) [
  | false ↦ recover_from now d (past ++ e ∷ []) es
  | true ↦
      let e' = interrupted_entry now e in
      recover_from now (finish_calendar_reminder now e' (set_deliveries d (past ++ e' ∷ es)))
        (past ++ e' ∷ []) es
]

-- `RecoverPushDeliveries`
unfoldable pub recover_push_deliveries : ℕ → State → Result Err (Effect (Unit {0}))
unfolding recover_from
recover_push_deliveries now d =
    if any_of (λ e. is_sending e.status) d.push_deliveries
    then ok (write (recover_from now d [] d.push_deliveries) tt)
    else ok (keep tt)

-- `RecordPushTest`
unfoldable pub record_push_test :
    ℕ → String → String → PushChannel → SendResult → State → Result Err (Effect (Unit {0}))
unfolding push_allowed trim_push
record_push_test now fresh user_id c r d = do
  require (push_allowed d user_id "") Err.user_inactive
  let e : PushDelivery = record {
    id = append "delivery_" fresh;
    user_id = user_id;
    account_id = "";
    channel_id = c.id;
    channel_name = c.name;
    provider = c.provider;
    kind = EventKind.test;
    reference_id = "";
    revision = 0;
    title = "推送测试";
    message = "";
    success = false;
    status = sent_status r;
    error = r.error;
    created_at = now;
    updated_at = now;
  }
  ok (write (set_deliveries d (trim_push (d.push_deliveries ++ e ∷ []))) tt)
