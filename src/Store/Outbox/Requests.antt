-- ===== src/Store/Outbox/Requests.antt =====
-- The operations on the queue as one type of requests.
use miyohub.Base.{List, String, [], ℕ, ◌∷◌}
use miyohub.Model.{State}
use miyohub.Model.Push.{Event, PushChannel, SendResult}
use miyohub.Store.Outbox.Delivery.{
  claim_push_delivery, finish_push_delivery, record_push_test, recover_push_deliveries,
}
use miyohub.Store.Outbox.Queue.{queue_push_event}
use miyohub.Store.Outbox.Reminders.{cancel_calendar_reminder, clear_calendar_reminder_history}
use miyohub.Store.Transaction.{after}

pub data OutboxRequest : Type 0 where
  queue : ℕ → (ℕ → String) → Event → OutboxRequest
  dispatch : ℕ → OutboxRequest
  finish_delivery : ℕ → String → SendResult → OutboxRequest
  recover : ℕ → OutboxRequest
  record_test : ℕ → String → String → PushChannel → SendResult → OutboxRequest
  cancel_reminder : ℕ → String → String → OutboxRequest
  clear_history : ℕ → String → String → String → OutboxRequest

-- The state after a request that could be saved.
unfoldable pub perform_outbox : OutboxRequest → State → State
perform_outbox (queue now fresh ev) d = after d (queue_push_event now fresh ev d)
perform_outbox (dispatch now) d = after d (claim_push_delivery now d)
perform_outbox (finish_delivery now id r) d = after d (finish_push_delivery now id r d)
perform_outbox (recover now) d = after d (recover_push_deliveries now d)
perform_outbox (record_test now fresh user_id c r) d =
    after d (record_push_test now fresh user_id c r d)
perform_outbox (cancel_reminder now user_id id) d =
    after d (cancel_calendar_reminder now user_id id d)
perform_outbox (clear_history now user_id account_id game) d =
    after d (clear_calendar_reminder_history now user_id account_id game d)

unfoldable pub perform_outboxes : List OutboxRequest → State → State
perform_outboxes [] d = d
perform_outboxes (r ∷ rs) d = perform_outboxes rs (perform_outbox r d)
