-- ===== src/Store/Outbox/Advance.antt =====
-- internal/store/push_outbox.go: what each request does to the deliveries in the queue.
use miyohub.Base.{
  List, Option-cases, String, [], any_of, arith, false, find_first, find_first-passes, inl, inr,
  keep_if, refl, replace_first, subst, sym, true, ℕ, ◌∷◌, ◌≡◌,
}
use miyohub.Base.Result.{ok}
use miyohub.Model.{State}
use miyohub.Model.Push.{Event, PushChannel, PushConfig, PushDelivery, SendResult, is_sending}
use miyohub.Store.Outbox.Delivery.{
  being_sent, claim_push_delivery, finish_push_delivery, record_push_test, recover_from,
  recover_push_deliveries, sent_status,
}
use miyohub.Store.Outbox.Loops.{
  Unsending, call_back, claim_from-Aligned, finish_calendar_reminder-deliveries,
  recover_from-Aligned, sending_moves, trim_append,
}
use miyohub.Store.Outbox.Progress.{
  Aligned, Aligned-Progress, Progress, idle-Aligned, idle_queue, none_read, replace_moves,
}
use miyohub.Store.Outbox.Queue.{
  new_deliveries, new_delivery, push_config, queue_push_event, queue_wanted, trim_push, wanted,
}
use miyohub.Store.Outbox.Reminders.{
  cancel_calendar_reminder, clear_calendar_reminder_history, set_deliveries,
}
use miyohub.Store.Outbox.Requests.{
  OutboxRequest, cancel_reminder, clear_history, dispatch, finish_delivery, perform_outbox, queue,
  record_test, recover,
}
use miyohub.Store.Transaction.{
  Ensures, Ensures-after, Ensures-find, Ensures-if, Ensures-require, Saves, does, keep, write,
}

-- Each operation lets the queue progress.
abbrev pub Advances : State → State → Type 0
Advances d e = Progress d.push_deliveries e.push_deliveries

-- The same deliveries, each as it was or moved.
abbrev pub Matches : State → State → Type 0
Matches d e = Aligned d.push_deliveries e.push_deliveries

pub new_deliveries-Unsending :
    (now : ℕ) (fresh : ℕ → String) (cfg : PushConfig) (ev : Event) (cs : List PushChannel)
    → Unsending (new_deliveries now fresh cfg ev cs)
unfolding new_deliveries new_delivery
new_deliveries-Unsending now fresh cfg ev [] = tt
new_deliveries-Unsending now fresh cfg ev (c ∷ cs) =
    (refl, new_deliveries-Unsending now fresh cfg ev cs)

pub sent-Unsending : (r : SendResult) → is_sending (sent_status r) ≡ false
sent-Unsending r = ground arith

pub queue_Advances :
    (now : ℕ) (fresh : ℕ → String) (ev : Event) (d : State)
    → Ensures (Saves (Advances d)) (queue_push_event now fresh ev d)
unfolding queue_push_event queue_wanted trim_push
queue_Advances now fresh ev d =
    let cfg = push_config d ev.user_id in
    let channels = keep_if (λ (c : PushChannel). c.enabled) cfg.channels in
    Ensures-if (wanted ev d) (queue_wanted now fresh cfg ev d) (ok (keep false))
      (λ _. Ensures-require _ _ _ λ _. does _ (
        trim_append _ d.push_deliveries (new_deliveries now fresh cfg ev channels)
          (new_deliveries-Unsending now fresh cfg ev channels)))
      λ _. does _ tt

pub dispatch_Matches :
    (now : ℕ) (d : State) → Ensures (Saves (Matches d)) (claim_push_delivery now d)
unfolding claim_push_delivery
dispatch_Matches now d =
    does _ (claim_from-Aligned now d [] [] d.push_deliveries false none_read refl)

pub finish_Matches :
    (now : ℕ) (id : String) (r : SendResult) (d : State)
    → Ensures (Saves (Matches d)) (finish_push_delivery now id r d)
unfolding finish_push_delivery
finish_Matches now id r d = elim (Option-cases (find_first (being_sent id) d.push_deliveries)) [
  | inl n ↦ rw (finish_push_delivery, n) (does _ (idle-Aligned d.push_deliveries))
  | inr (e, n) ↦
      let f : PushDelivery = record e {
        status = sent_status r;
        error = r.error;
        updated_at = now;
      } in
      let passed : being_sent id e ≡ true =
        find_first-passes (being_sent id) d.push_deliveries e n in
      rw (finish_push_delivery, n)
        (does _ (
          subst (Aligned d.push_deliveries)
            (sym (
              finish_calendar_reminder-deliveries now f
                (set_deliveries d (replace_first (being_sent id) f d.push_deliveries))))
            (replace_moves (being_sent id) d.push_deliveries n (record {
              same_id = refl;
              same_target = (refl, refl, refl);
              moves = (sending_moves e.status (ground arith) r).0;
            }))))
]

pub recover_Matches :
    (now : ℕ) (d : State) → Ensures (Saves (Matches d)) (recover_push_deliveries now d)
unfolding recover_push_deliveries
recover_Matches now d =
    Ensures-if (any_of (λ e. is_sending e.status) d.push_deliveries)
      (ok (write (recover_from now d [] d.push_deliveries) tt)) (ok (keep tt))
      (λ _. does _ (recover_from-Aligned now d [] [] d.push_deliveries none_read refl))
      λ _. does _ tt

pub test_Advances :
    (now : ℕ) (fresh user_id : String) (c : PushChannel) (r : SendResult) (d : State)
    → Ensures (Saves (Advances d)) (record_push_test now fresh user_id c r d)
unfolding record_push_test trim_push
test_Advances now fresh user_id c r d =
    Ensures-require _ _ _ λ _. does _ (trim_append _ d.push_deliveries _ (sent-Unsending r, tt))

pub cancel_Matches :
    (now : ℕ) (user_id id : String) (d : State)
    → Ensures (Saves (Matches d)) (cancel_calendar_reminder now user_id id d)
unfolding cancel_calendar_reminder
cancel_Matches now user_id id d = Ensures-find _ _ _ λ r _.
    Ensures-require _ _ _
      λ _. Ensures-require _ _ _ λ _. does _ (call_back now r.id d.push_deliveries)

pub clear_Matches :
    (now : ℕ) (user_id account_id game : String) (d : State)
    → Ensures (Saves (Matches d)) (clear_calendar_reminder_history now user_id account_id game d)
unfolding clear_calendar_reminder_history
clear_Matches now user_id account_id game d =
    Ensures-require _ _ _ λ _. does _ (idle-Aligned d.push_deliveries)

-- Every request on the queue lets each delivery in it stay, or move from `pending` to being sent or
-- skipped, or from being sent to a result; only finished ones go, and new ones are not being sent.
pub perform_outbox-Progress :
    (r : OutboxRequest) (d : State)
    → Progress d.push_deliveries (perform_outbox r d).push_deliveries
unfolding perform_outbox
perform_outbox-Progress (queue now fresh ev) d =
    Ensures-after (Advances d) (idle_queue d.push_deliveries) (queue_Advances now fresh ev d)
perform_outbox-Progress (dispatch now) d =
    Aligned-Progress
      (Ensures-after (Matches d) (idle-Aligned d.push_deliveries) (dispatch_Matches now d))
perform_outbox-Progress (finish_delivery now id r) d =
    Aligned-Progress
      (Ensures-after (Matches d) (idle-Aligned d.push_deliveries) (finish_Matches now id r d))
perform_outbox-Progress (recover now) d =
    Aligned-Progress
      (Ensures-after (Matches d) (idle-Aligned d.push_deliveries) (recover_Matches now d))
perform_outbox-Progress (record_test now fresh user_id c r) d =
    Ensures-after (Advances d) (idle_queue d.push_deliveries)
      (test_Advances now fresh user_id c r d)
perform_outbox-Progress (cancel_reminder now user_id id) d =
    Aligned-Progress
      (Ensures-after (Matches d) (idle-Aligned d.push_deliveries) (cancel_Matches now user_id id d))
perform_outbox-Progress (clear_history now user_id account_id game) d = Aligned-Progress (
    Ensures-after (Matches d) (idle-Aligned d.push_deliveries)
      (clear_Matches now user_id account_id game d))
