-- ===== src/Store/Outbox/Queue.antt =====
-- internal/store/push_outbox.go: how notifications enter the queue. `now` is the server's time; the
-- identifiers of new deliveries come from `fresh`, one random text for each place in the queue.
use miyohub.Base.{
  Bool, List, Option, String, [], any_of, blank, count_if, false, find_first, if◌then◌else◌,
  keep_if, leb, length, none, not, some, suc, true, zero, ℕ, ◌&&◌, ◌++◌, ◌+◌, ◌-◌, ◌==◌, ◌||◌, ◌∷◌,
}
use miyohub.Base.Result.{Result, ok, require, ◌>>◌}
use miyohub.Model.{State}
use miyohub.Model.Accounts.{Account}
use miyohub.Model.Push.{
  DeliveryStatus, Event, EventKind, PushChannel, PushConfig, PushDelivery, UserPush, in_flight,
  is_calendar, is_exchange, is_task,
}
use miyohub.Model.Users.{User, is_active}
use miyohub.Store.Errors.{Err}
use miyohub.Store.Lookup.{find_user}
use miyohub.Store.Outbox.Reminders.{calendar_reference, set_deliveries}
use miyohub.Store.Transaction.{Effect, keep, write}
use Prim.Native.String.{◌++◌ as append}

abbrev pub find_push : State → String → Option UserPush
find_push d user_id = find_first (λ p. p.user_id == user_id) d.user_push

-- `pushConfigLocked`
abbrev pub push_config_of : Option UserPush → PushConfig
push_config_of (some p) = p.push
push_config_of none = record {
  enabled = false;
  tasks = true;
  exchange = true;
  calendar = false;
  revision = 1;
  error_only = false;
  channels = [];
}

abbrev pub push_config : State → String → PushConfig
push_config d user_id = push_config_of (find_push d user_id)

abbrev pub user_is_active : Option User → Bool
user_is_active none = false
user_is_active (some u) = is_active u.status

abbrev pub open_account : String → Option Account → Bool
open_account user_id none = false
open_account user_id (some a) = a.user_id == user_id && not a.disabled

-- `pushAllowedLocked`
unfoldable pub push_allowed : State → String → String → Bool
push_allowed d user_id account_id =
    user_is_active (find_user d user_id)
    && (blank account_id
        || open_account user_id (find_first (λ a. a.id == account_id) d.config.accounts))

-- `pushEventEnabled`
unfoldable pub push_event_enabled : PushConfig → EventKind → Bool → Bool
push_event_enabled c kind success =
    if is_calendar kind
    then c.enabled && c.calendar
    else c.enabled
      && (not c.error_only || not success)
      && ((is_task kind && c.tasks) || (is_exchange kind && c.exchange))

abbrev pub queue_limit : ℕ
queue_limit = 500

abbrev pub delivery_open : PushDelivery → Bool
delivery_open e = in_flight e.status

-- The loop of `trimPushLocked`: up to `excess` finished entries go, from the oldest on.
unfoldable pub trim_excess : ℕ → List PushDelivery → List PushDelivery
trim_excess excess [] = []
trim_excess zero (e ∷ es) = e ∷ es
trim_excess (suc n) (e ∷ es) =
    let rest = trim_excess (if delivery_open e then suc n else n) es in
    if delivery_open e then e ∷ rest else rest

-- `trimPushLocked`
unfoldable pub trim_push : List PushDelivery → List PushDelivery
unfolding trim_excess
trim_push es = trim_excess (length es - queue_limit) es

-- The delivery of an event to a channel.
unfoldable pub new_delivery : ℕ → String → PushConfig → Event → PushChannel → PushDelivery
new_delivery now id cfg ev c = record {
  id = append "delivery_" id;
  user_id = ev.user_id;
  account_id = ev.account_id;
  channel_id = c.id;
  channel_name = c.name;
  provider = c.provider;
  kind = ev.kind;
  reference_id = ev.reference_id;
  revision = cfg.revision;
  title = ev.title;
  message = ev.message;
  success = ev.success;
  status = DeliveryStatus.pending;
  error = "";
  created_at = now;
  updated_at = now;
}

unfoldable pub new_deliveries :
    ℕ → (ℕ → String) → PushConfig → Event → List PushChannel → List PushDelivery
unfolding new_delivery
new_deliveries now fresh cfg ev [] = []
new_deliveries now fresh cfg ev (c ∷ cs) =
    new_delivery now (fresh (length cs)) cfg ev c ∷ new_deliveries now fresh cfg ev cs

abbrev pub is_nil : List PushChannel → Bool
is_nil [] = true
is_nil (c ∷ cs) = false

-- The tests of `queuePushEventLocked` that make it return with nothing queued and no error.
unfoldable pub wanted : Event → State → Bool
unfolding push_allowed push_event_enabled calendar_reference
wanted ev d =
    push_allowed d ev.user_id ev.account_id
    && push_event_enabled (push_config d ev.user_id) ev.kind ev.success
    && (not (is_calendar ev.kind)
        || (calendar_reference d ev.user_id ev.account_id ev.reference_id
            && not (any_of (λ e. e.reference_id == ev.reference_id) d.push_deliveries)))
    && not (is_nil (keep_if (λ (c : PushChannel). c.enabled) (push_config d ev.user_id).channels))

-- `queuePushEventLocked` where the event is wanted, and the save by `QueuePushEvent`.
unfoldable pub queue_wanted :
    ℕ → (ℕ → String) → PushConfig → Event → State → Result Err (Effect Bool)
unfolding new_deliveries trim_push
queue_wanted now fresh cfg ev d = do
  let channels = keep_if (λ (c : PushChannel). c.enabled) cfg.channels
  require (leb (count_if delivery_open d.push_deliveries + length channels) queue_limit)
      Err.queue_full
  ok (
      write
        (set_deliveries d
          (trim_push (d.push_deliveries ++ new_deliveries now fresh cfg ev channels)))
        true)

-- `QueuePushEvent`
unfoldable pub queue_push_event : ℕ → (ℕ → String) → Event → State → Result Err (Effect Bool)
unfolding wanted queue_wanted
queue_push_event now fresh ev d =
    if wanted ev d then queue_wanted now fresh (push_config d ev.user_id) ev d else ok (keep false)
