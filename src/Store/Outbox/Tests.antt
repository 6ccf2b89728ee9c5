-- ===== src/Store/Outbox/Tests.antt =====
-- Runs of the queue at the sample site, and the theorems on them at work.
use miyohub.Base.{List, [], arith, false, map, refl, some, true, ◌∷◌, ◌≡◌}
use miyohub.Base.Result.{ok, ◌>>=◌}
use miyohub.Model.{State}
use miyohub.Model.Push.{
  DeliveryStatus, Event, EventKind, PushChannel, PushDelivery, SendResult, UserPush,
}
use miyohub.Store.Outbox.Advance.{perform_outbox-Progress}
use miyohub.Store.Outbox.Bounds.{IsBounded, perform_outboxes-IsBounded}
use miyohub.Store.Outbox.Delivery.{
  claim_from, claim_push_delivery, finish_push_delivery, recover_from, recover_push_deliveries,
  select_channel, sendable, sending_entry, verdict,
}
use miyohub.Store.Outbox.Dispatch.{IsAllowed, claim_push_delivery-IsAllowed}
use miyohub.Store.Outbox.Progress.{Progress}
use miyohub.Store.Outbox.Queue.{
  new_deliveries, new_delivery, push_allowed, push_event_enabled, queue_push_event, queue_wanted,
  trim_excess, trim_push, wanted,
}
use miyohub.Store.Outbox.Reminders.{finish_calendar_reminder, set_deliveries}
use miyohub.Store.Outbox.Requests.{
  OutboxRequest, dispatch, finish_delivery, perform_outbox, perform_outboxes, queue, recover,
}
use miyohub.Store.Samples.{sample_site}
use miyohub.Store.Transaction.{write}

abbrev phone : PushChannel
phone = record { id = "ch"; name = "phone"; provider = "bark"; enabled = true; credentials = [] }

abbrev bob_push : UserPush
bob_push = record {
  user_id = "usr_b";
  push = record {
    enabled = true;
    tasks = true;
    exchange = true;
    calendar = true;
    revision = 1;
    error_only = false;
    channels = phone ∷ [];
  };
}

abbrev push_site : State
push_site = record sample_site { user_push = bob_push ∷ [] }

abbrev task_event : Event
task_event = record {
  kind = EventKind.task;
  user_id = "usr_b";
  account_id = "acc_b";
  reference_id = "";
  title = "t";
  message = "m";
  success = true;
}

abbrev answered : SendResult
answered = record { accepted = true; error = ""; uncertain = false }

-- Two notifications: one is sent and answered, the other is being sent when the service stops.
abbrev push_day : List OutboxRequest
push_day =
    queue 10 (λ n. "x") task_event
    ∷ dispatch 11
    ∷ finish_delivery 12 "delivery_x" answered
    ∷ queue 13 (λ n. "y") task_event
    ∷ dispatch 14
    ∷ recover 15
    ∷ []

push_day-run :
    map (λ (e : PushDelivery). e.status) (perform_outboxes push_day push_site).push_deliveries
    ≡ DeliveryStatus.accepted ∷ DeliveryStatus.unknown ∷ []
unfolding perform_outboxes perform_outbox queue_push_event wanted queue_wanted new_deliveries
    new_delivery trim_push trim_excess push_allowed push_event_enabled claim_push_delivery
    claim_from verdict sendable select_channel finish_push_delivery finish_calendar_reminder
    recover_push_deliveries recover_from ◌>>=◌
push_day-run = refl

perform_outbox-Progress_example :
    Progress push_site.push_deliveries
      (perform_outbox (queue 10 (λ n. "x") task_event) push_site).push_deliveries
perform_outbox-Progress_example = perform_outbox-Progress (queue 10 (λ n. "x") task_event) push_site

perform_outboxes-IsBounded_example : IsBounded (perform_outboxes push_day push_site)
perform_outboxes-IsBounded_example = perform_outboxes-IsBounded push_day push_site (ground arith)

abbrev waiting_site : State
waiting_site = perform_outbox (queue 10 (λ n. "x") task_event) push_site

abbrev sent_event : PushDelivery
sent_event = new_delivery 10 "x" bob_push.push task_event phone

sent_event-run :
    claim_push_delivery 11 waiting_site
    ≡ ok (
        write
          (set_deliveries waiting_site (sending_entry 11 sent_event ∷ []))
          (some (sent_event, phone)))
unfolding perform_outbox queue_push_event wanted queue_wanted new_deliveries new_delivery trim_push
    trim_excess push_allowed push_event_enabled claim_push_delivery claim_from verdict sendable
    select_channel ◌>>=◌
sent_event-run = refl

claim_push_delivery-IsAllowed_example : IsAllowed waiting_site sent_event phone
claim_push_delivery-IsAllowed_example =
    claim_push_delivery-IsAllowed 11 waiting_site
      (set_deliveries waiting_site (sending_entry 11 sent_event ∷ [])) sent_event phone
      sent_event-run
