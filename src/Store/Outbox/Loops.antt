-- ===== src/Store/Outbox/Loops.antt =====
-- internal/store/push_outbox.go: what the loops of the queue do to each delivery.
use miyohub.Base.{
  All, Bool, Bool-cases, List, Option-cases, String, [], ap, arith, blank, false, find_first, inl,
  inr, map, refl, subst, suc, sym, true, zero, ℕ, ◌&&◌, ◌++◌, ◌==◌, ◌∙◌, ◌∷◌, ◌≡◌, ◌⊎◌,
}
use miyohub.Model.{State}
use miyohub.Model.Push.{
  DeliveryStatus, PushChannel, PushDelivery, SendResult, is_sending, is_waiting,
}
use miyohub.Store.Outbox.Delivery.{
  Verdict, claim_from, interrupted_entry, pass, recover_from, send, sending_entry, sent_status,
  skip, skipped_entry, verdict,
}
use miyohub.Store.Outbox.Progress.{
  Aligned, Follows, Progress, StatusMove, ahead, answer, appends, done, drops, give_up, hand_over,
  idle-Aligned, interrupt, keeps, next_read, none_read, reads, unmoved,
}
use miyohub.Store.Outbox.Queue.{delivery_open, trim_excess}
use miyohub.Store.Outbox.Reminders.{
  called_back, finish_calendar_reminder, queued_reminder, set_deliveries,
}
use miyohub.Store.Transaction.{Saves}

pub finish_calendar_reminder-deliveries :
    (now : ℕ) (e : PushDelivery) (d : State)
    → (finish_calendar_reminder now e d).push_deliveries ≡ d.push_deliveries
unfolding finish_calendar_reminder
finish_calendar_reminder-deliveries now e d = elim (Bool-cases (blank e.reference_id)) [
  | inl k ↦ rw k refl
  | inr k ↦
      rw k (elim (Option-cases (find_first (queued_reminder e.reference_id) d.calendar_reminders)) [
        | inl n ↦ rw n refl
        | inr (r, n) ↦ rw n refl
      ])
]

pub waiting_moves :
    (s : DeliveryStatus)
    → is_waiting s ≡ true
    → StatusMove s DeliveryStatus.skipped × StatusMove s DeliveryStatus.sending
waiting_moves DeliveryStatus.pending h = (give_up, hand_over)
waiting_moves DeliveryStatus.sending h = absurd (cc h)
waiting_moves DeliveryStatus.accepted h = absurd (cc h)
waiting_moves DeliveryStatus.failed h = absurd (cc h)
waiting_moves DeliveryStatus.unknown h = absurd (cc h)
waiting_moves DeliveryStatus.skipped h = absurd (cc h)
waiting_moves (DeliveryStatus.other t) h = absurd (cc h)

pub sending_moves :
    (s : DeliveryStatus)
    → is_sending s ≡ true
    → (r : SendResult) → StatusMove s (sent_status r) × StatusMove s DeliveryStatus.unknown
sending_moves DeliveryStatus.sending h r = (answer r, interrupt)
sending_moves DeliveryStatus.pending h r = absurd (cc h)
sending_moves DeliveryStatus.accepted h r = absurd (cc h)
sending_moves DeliveryStatus.failed h r = absurd (cc h)
sending_moves DeliveryStatus.unknown h r = absurd (cc h)
sending_moves DeliveryStatus.skipped h r = absurd (cc h)
sending_moves (DeliveryStatus.other t) h r = absurd (cc h)

pub append_assoc :
    (ps qs : List PushDelivery) (e : PushDelivery) → (ps ++ e ∷ []) ++ qs ≡ ps ++ e ∷ qs
append_assoc [] qs e = refl
append_assoc (p ∷ ps) qs e = ap (λ rs. p ∷ rs) (append_assoc ps qs e)

pub verdict-pass :
    (now : ℕ) (e : PushDelivery) (d : State) → is_waiting e.status ≡ false → verdict now e d ≡ pass
unfolding verdict
verdict-pass now e d h = rw h refl

pub skip_Follows :
    (now : ℕ) (e : PushDelivery) → is_waiting e.status ≡ true → Follows e (skipped_entry now e)
skip_Follows now e h = record {
  same_id = refl;
  same_target = (refl, refl, refl);
  moves = (waiting_moves e.status h).0;
}

pub send_Follows :
    (now : ℕ) (e : PushDelivery) → is_waiting e.status ≡ true → Follows e (sending_entry now e)
send_Follows now e h = record {
  same_id = refl;
  same_target = (refl, refl, refl);
  moves = (waiting_moves e.status h).1;
}

pub Verdict-cases : (v : Verdict) → (v ≡ pass) ⊎ ((v ≡ skip) ⊎ ((c : PushChannel) × (v ≡ send c)))
Verdict-cases pass = inl refl
Verdict-cases skip = inr (inl refl)
Verdict-cases (send c) = inr (inr (c, refl))

-- The queue as it was read and is still to be read.
module _ (now : ℕ) where
  pub claim_from-Aligned :
      (d : State) (ps past es : List PushDelivery) (changed : Bool)
      → Aligned ps past
      → d.push_deliveries ≡ past ++ es
      → Saves (λ t. Aligned (ps ++ es) t.push_deliveries) (claim_from now d past es changed)
  unfolding claim_from
  claim_from-Aligned d ps past [] true a h = subst (Aligned (ps ++ [])) (sym h) (ahead a none_read)
  claim_from-Aligned d ps past [] false a h = tt
  claim_from-Aligned d ps past (e ∷ es) changed a h = elim (Bool-cases (is_waiting e.status)) [
    | inr k ↦
        rw (Saves, verdict-pass now e d k)
          (subst
            (λ q.
              Saves (λ t. Aligned q t.push_deliveries)
                (claim_from now d (past ++ e ∷ []) es changed))
            (append_assoc ps es e)
            (claim_from-Aligned d (ps ++ e ∷ []) (past ++ e ∷ []) es changed
              (next_read a (unmoved e)) (h ∙ sym (append_assoc past es e))))
    | inl k ↦ elim (Verdict-cases (verdict now e d)) [
      | inl v ↦
          rw (Saves, v)
            (subst
              (λ q.
                Saves (λ t. Aligned q t.push_deliveries)
                  (claim_from now d (past ++ e ∷ []) es changed))
              (append_assoc ps es e)
              (claim_from-Aligned d (ps ++ e ∷ []) (past ++ e ∷ []) es changed
                (next_read a (unmoved e)) (h ∙ sym (append_assoc past es e))))
      | inr (inl v) ↦
          let f = skipped_entry now e in
          let d' = finish_calendar_reminder now f (set_deliveries d (past ++ f ∷ es)) in
          rw (Saves, v)
            (subst
              (λ q.
                Saves (λ t. Aligned q t.push_deliveries)
                  (claim_from now d' (past ++ f ∷ []) es true))
              (append_assoc ps es e)
              (claim_from-Aligned d' (ps ++ e ∷ []) (past ++ f ∷ []) es true
                (next_read a (skip_Follows now e k))
                (finish_calendar_reminder-deliveries now f (set_deliveries d (past ++ f ∷ es))
                  ∙ sym (append_assoc past es f))))
      | inr (inr (c, v)) ↦ rw (Saves, v) (ahead a (reads (send_Follows now e k) (idle-Aligned es)))
    ]
  ]

  pub recover_from-Aligned :
      (d : State) (ps past es : List PushDelivery)
      → Aligned ps past
      → d.push_deliveries ≡ past ++ es
      → Aligned (ps ++ es) (recover_from now d past es).push_deliveries
  unfolding recover_from
  recover_from-Aligned d ps past [] a h = subst (Aligned (ps ++ [])) (sym h) (ahead a none_read)
  recover_from-Aligned d ps past (e ∷ es) a h = elim (Bool-cases (is_sending e.status)) [
    | inr k ↦
        rw (recover_from, k)
          (subst (λ q. Aligned q (recover_from now d (past ++ e ∷ []) es).push_deliveries)
            (append_assoc ps es e)
            (recover_from-Aligned d (ps ++ e ∷ []) (past ++ e ∷ []) es (next_read a (unmoved e))
              (h ∙ sym (append_assoc past es e))))
    | inl k ↦
        let f = interrupted_entry now e in
        let d' = finish_calendar_reminder now f (set_deliveries d (past ++ f ∷ es)) in
        rw (recover_from, k)
          (subst (λ q. Aligned q (recover_from now d' (past ++ f ∷ []) es).push_deliveries)
            (append_assoc ps es e)
            (recover_from-Aligned d' (ps ++ e ∷ []) (past ++ f ∷ []) es
              (next_read a (record {
                same_id = refl;
                same_target = (refl, refl, refl);
                moves =
                    (sending_moves e.status k
                      (record { accepted = false; error = ""; uncertain = true })).1;
              }))
              (finish_calendar_reminder-deliveries now f (set_deliveries d (past ++ f ∷ es))
                ∙ sym (append_assoc past es f))))
  ]

-- None of the entries is being sent.
abbrev pub Unsending : List PushDelivery → Type 0
Unsending = All λ e. is_sending e.status ≡ false

pub all_new : (gs : List PushDelivery) → Unsending gs → Progress [] gs
all_new [] h = done
all_new (g ∷ gs) h = appends h.0 (all_new gs h.1)

pub append_new : (es fs : List PushDelivery) → Unsending fs → Progress es (es ++ fs)
append_new [] fs h = all_new fs h
append_new (e ∷ es) fs h = keeps (unmoved e) (append_new es fs h)

pub trim_new : (n : ℕ) (fs : List PushDelivery) → Unsending fs → Progress [] (trim_excess n fs)
unfolding trim_excess
trim_new n [] h = done
trim_new zero (f ∷ fs) h = appends h.0 (all_new fs h.1)
trim_new (suc n) (f ∷ fs) h = elim (Bool-cases (delivery_open f)) [
  | inl k ↦ rw k (appends h.0 (trim_new (suc n) fs h.1))
  | inr k ↦ rw k (trim_new n fs h.1)
]

pub trim_append :
    (n : ℕ) (es fs : List PushDelivery) → Unsending fs → Progress es (trim_excess n (es ++ fs))
unfolding trim_excess
trim_append n [] fs h = trim_new n fs h
trim_append zero (e ∷ es) fs h = keeps (unmoved e) (append_new es fs h)
trim_append (suc n) (e ∷ es) fs h = elim (Bool-cases (delivery_open e)) [
  | inl k ↦ rw k (keeps (unmoved e) (trim_append (suc n) es fs h))
  | inr k ↦ rw k (drops k (trim_append n es fs h))
]

pub call_back :
    (now : ℕ) (id : String) (es : List PushDelivery) → Aligned es (map (called_back now id) es)
call_back now id [] = none_read
call_back now id (e ∷ es) =
    reads (follows (Bool-cases (e.reference_id == id && is_waiting e.status))) (call_back now id es)
  where
    follows :
        let b = e.reference_id == id && is_waiting e.status in
        (b ≡ true) ⊎ (b ≡ false) → Follows e (called_back now id e)
    follows (inr k) = rw k (unmoved e)
    follows (inl k) = rw k (record {
      same_id = refl;
      same_target = (refl, refl, refl);
      moves = (waiting_moves e.status (ground arith)).0;
    })
