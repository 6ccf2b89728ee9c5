-- ===== src/Store/Outbox/Bounds.antt =====
-- internal/store/push_outbox.go: the length of the queue.
use miyohub.Base.{
  Bool-cases, List, String, [], ap, arith, count_if, count_if-append, count_if-le-length, false,
  inl, inr, keep_if, length, refl, subst, suc, sym, zero, ℕ, ◌++◌, ◌+◌, ◌-◌, ◌∷◌, ◌≡◌, ◌≤◌,
}
use miyohub.Base.Result.{Result, ok}
use miyohub.Model.{State}
use miyohub.Model.Push.{Event, PushChannel, PushConfig, PushDelivery, SendResult}
use miyohub.Store.Errors.{Err}
use miyohub.Store.Outbox.Advance.{
  Matches, cancel_Matches, clear_Matches, dispatch_Matches, finish_Matches, recover_Matches,
}
use miyohub.Store.Outbox.Delivery.{record_push_test}
use miyohub.Store.Outbox.Progress.{Aligned-length, idle-Aligned}
use miyohub.Store.Outbox.Queue.{
  delivery_open, new_deliveries, push_config, queue_limit, queue_push_event, queue_wanted,
  trim_excess, trim_push, wanted,
}
use miyohub.Store.Outbox.Requests.{
  OutboxRequest, cancel_reminder, clear_history, dispatch, finish_delivery, perform_outbox,
  perform_outboxes, queue, record_test, recover,
}
use miyohub.Store.Transaction.{
  Effect, Ensures, Ensures-after, Ensures-if, Ensures-require, Saves, after, does, keep,
}

trim_excess-length :
    (limit n : ℕ) (es : List PushDelivery)
    → length es ≤ limit + n
    → count_if delivery_open es ≤ limit
    → length (trim_excess n es) ≤ limit
unfolding trim_excess
trim_excess-length limit n [] h k = omega arith
trim_excess-length limit zero (e ∷ es) h k = omega (arith, h)
trim_excess-length limit (suc n) (e ∷ es) h k = elim (Bool-cases (delivery_open e)) [
  | inl o ↦
      let room : 1 + count_if delivery_open es ≤ limit = omega (arith, rw o at k) in
      let shorter =
        trim_excess-length (limit - 1) (suc n) es (omega (arith, h, room)) (omega (arith, room)) in
      rw o (omega (arith, room, shorter))
  | inr c ↦ rw c (trim_excess-length limit n es (omega (arith, h)) (omega (arith, rw c at k)))
]

-- The queue holds at most five hundred deliveries.
abbrev pub IsBounded : State → Type 0
IsBounded d = length d.push_deliveries ≤ queue_limit

trim_push-length :
    (es : List PushDelivery)
    → count_if delivery_open es ≤ queue_limit
    → length (trim_push es) ≤ queue_limit
unfolding trim_push
trim_push-length es h = trim_excess-length queue_limit (length es - queue_limit) es (omega arith) h

-- Where the queue is cut, it is cut to its limit.
tested_length :
    (es : List PushDelivery) (e : PushDelivery)
    → delivery_open e ≡ false
    → length es ≤ queue_limit
    → length (trim_push (es ++ e ∷ [])) ≤ queue_limit
tested_length es e h k = trim_push-length (es ++ e ∷ []) (
    rw (count_if-append delivery_open es (e ∷ []))
      (rw h (omega (arith, count_if-le-length delivery_open es))))

new_deliveries-length :
    (now : ℕ) (fresh : ℕ → String) (cfg : PushConfig) (ev : Event) (cs : List PushChannel)
    → length (new_deliveries now fresh cfg ev cs) ≡ length cs
unfolding new_deliveries
new_deliveries-length now fresh cfg ev [] = refl
new_deliveries-length now fresh cfg ev (c ∷ cs) = ap suc (new_deliveries-length now fresh cfg ev cs)

queue_IsBounded :
    (now : ℕ) (fresh : ℕ → String) (ev : Event) (d : State)
    → Ensures (Saves IsBounded) (queue_push_event now fresh ev d)
unfolding queue_push_event queue_wanted
queue_IsBounded now fresh ev d =
    let cfg = push_config d ev.user_id in
    let channels = keep_if (λ (c : PushChannel). c.enabled) cfg.channels in
    Ensures-if (wanted ev d) (queue_wanted now fresh cfg ev d) (ok (keep false))
      (λ _. Ensures-require _ _ _ λ room. does _ (
        trim_push-length (d.push_deliveries ++ new_deliveries now fresh cfg ev channels) (
          rw
            (count_if-append delivery_open d.push_deliveries
              (new_deliveries now fresh cfg ev channels))
            (ground (
              arith,
              room,
              new_deliveries-length now fresh cfg ev channels,
              count_if-le-length delivery_open (new_deliveries now fresh cfg ev channels),
            )))))
      λ _. does _ tt

test_IsBounded :
    (now : ℕ) (fresh user_id : String) (c : PushChannel) (r : SendResult) (d : State)
    → IsBounded d
    → Ensures (Saves IsBounded) (record_push_test now fresh user_id c r d)
unfolding record_push_test
test_IsBounded now fresh user_id c r d h =
    Ensures-require _ _ _ λ _. does _ (tested_length d.push_deliveries _ (ground arith) h)

matched :
    {A : Type 0} (d : State) {r : Result Err (Effect A)}
    → IsBounded d
    → Ensures (Saves (Matches d)) r
    → IsBounded (after d r)
matched d h m =
    subst (λ n. n ≤ queue_limit)
      (sym (Aligned-length (Ensures-after (Matches d) (idle-Aligned d.push_deliveries) m))) h

perform_outbox-IsBounded :
    (r : OutboxRequest) (d : State) → IsBounded d → IsBounded (perform_outbox r d)
unfolding perform_outbox
perform_outbox-IsBounded (queue now fresh ev) d h =
    Ensures-after IsBounded h (queue_IsBounded now fresh ev d)
perform_outbox-IsBounded (dispatch now) d h = matched d h (dispatch_Matches now d)
perform_outbox-IsBounded (finish_delivery now id r) d h = matched d h (finish_Matches now id r d)
perform_outbox-IsBounded (recover now) d h = matched d h (recover_Matches now d)
perform_outbox-IsBounded (record_test now fresh user_id c r) d h =
    Ensures-after IsBounded h (test_IsBounded now fresh user_id c r d h)
perform_outbox-IsBounded (cancel_reminder now user_id id) d h =
    matched d h (cancel_Matches now user_id id d)
perform_outbox-IsBounded (clear_history now user_id account_id game) d h =
    matched d h (clear_Matches now user_id account_id game d)

-- No requests on the queue of at most five hundred deliveries make it longer.
pub perform_outboxes-IsBounded :
    (rs : List OutboxRequest) (d : State) → IsBounded d → IsBounded (perform_outboxes rs d)
unfolding perform_outboxes
perform_outboxes-IsBounded [] d h = h
perform_outboxes-IsBounded (r ∷ rs) d h =
    perform_outboxes-IsBounded rs (perform_outbox r d) (perform_outbox-IsBounded r d h)
