-- ===== src/Store/Outbox/Dispatch.antt =====
-- internal/store/push_outbox.go: what `ClaimPushDelivery` may hand to a provider.
-- A delivery that may be sent through the channel, by the users and settings of the state.
use miyohub.Base.{
  Bool, Bool-cases, List, Option, Option-cases, String, [], ap, arith, blank, eqb, false,
  find_first, if◌then◌else◌, inl, inr, none, refl, some, subst, true, ℕ, ◌&&◌, ◌++◌, ◌==◌, ◌∷◌, ◌≡◌,
}
use miyohub.Base.Result.{ok}
use miyohub.Model.{State}
use miyohub.Model.Push.{PushChannel, PushDelivery, is_waiting}
use miyohub.Store.Outbox.Delivery.{
  channel_verdict, claim_from, claim_push_delivery, pass, select_channel, send, sendable, skip,
  skipped_entry, verdict,
}
use miyohub.Store.Outbox.Loops.{Verdict-cases}
use miyohub.Store.Outbox.Queue.{push_allowed, push_config, push_event_enabled}
use miyohub.Store.Outbox.Reminders.{finish_calendar_reminder, queued_reminder, set_deliveries}
use miyohub.Store.Transaction.{Effect, Ensures, Ensures-eq, does, keep, write, write_fail}

pub record IsAllowed (d : State) (e : PushDelivery) (c : PushChannel) : Type 0 where
  pub waiting : is_waiting e.status ≡ true
  pub owner : push_allowed d e.user_id e.account_id ≡ true
  pub current : eqb (push_config d e.user_id).revision e.revision ≡ true
  pub wanted_kind : push_event_enabled (push_config d e.user_id) e.kind e.success ≡ true
  pub channel : (c.id == e.channel_id && c.enabled) ≡ true

-- The parts of the state that the claim reads and never writes.
record SameSite (d t : State) : Type 0 where
  users : t.users ≡ d.users
  config : t.config ≡ d.config
  push : t.user_push ≡ d.user_push

some_same : {a b : PushChannel} → some a ≡ some b → a ≡ b
some_same k = cc k

select_channel-test :
    (id : String) (cs : List PushChannel) (found : Option PushChannel) (c : PushChannel)
    → ((x : PushChannel) → found ≡ some x → (x.id == id && x.enabled) ≡ true)
    → select_channel id cs found ≡ some c
    → (c.id == id && c.enabled) ≡ true
unfolding select_channel
select_channel-test id [] found c h e = h c e
select_channel-test id (x ∷ cs) found c h e =
    select_channel-test id cs (if x.id == id && x.enabled then some x else found) c step e
  where
    step :
        (y : PushChannel)
        → (if x.id == id && x.enabled then some x else found) ≡ some y
        → (y.id == id && y.enabled) ≡ true
    step y k = elim (Bool-cases (x.id == id && x.enabled)) [
      | inl t ↦
          subst (λ (z : PushChannel). (z.id == id && z.enabled) ≡ true) (some_same (rw t at k)) t
      | inr t ↦ h y (rw t at k)
    ]

channel_verdict-send :
    (o : Option PushChannel) (c : PushChannel) → channel_verdict o ≡ send c → o ≡ some c
channel_verdict-send none c h = absurd (cc h)
channel_verdict-send (some x) c h = elim (Bool-cases (blank x.id)) [
  | inl k ↦ absurd (skip_send (rw k at h))
  | inr k ↦ ap some (send_same (rw k at h))
]
  where
    skip_send : {x : PushChannel} → skip ≡ send x → ⊥
    skip_send h = cc h

    send_same : {x y : PushChannel} → send x ≡ send y → x ≡ y
    send_same h = cc h

verdict-IsAllowed :
    (now : ℕ) (e : PushDelivery) (t : State) (c : PushChannel)
    → verdict now e t ≡ send c
    → IsAllowed t e c
unfolding verdict sendable
verdict-IsAllowed now e t c h = elim (Bool-cases (is_waiting e.status)) [
  | inr w ↦ absurd (pass_send (rw w at h))
  | inl w ↦ elim (Bool-cases (sendable now e t)) [
    | inr n ↦ absurd (skip_sends (rw (w, n) at h))
    | inl n ↦ record {
      waiting = w;
      owner = ground (arith, n);
      current = ground (arith, n);
      wanted_kind = ground (arith, n);
      channel =
          select_channel-test e.channel_id (push_config t e.user_id).channels none c
            (λ x k. absurd (none_some k)) (channel_verdict-send _ c (rw (w, n) at h));
    }
  ]
]
  where
    pass_send : {x : PushChannel} → pass ≡ send x → ⊥
    pass_send h = cc h

    skip_sends : {x : PushChannel} → skip ≡ send x → ⊥
    skip_sends h = cc h

    none_some : {x : PushChannel} → none ≡ some x → ⊥
    none_some h = cc h

moved_site :
    (d t : State) (e : PushDelivery) (c : PushChannel)
    → SameSite d t
    → IsAllowed t e c
    → IsAllowed d e c
unfolding push_allowed
moved_site d t e c s a = record {
  waiting = a.waiting;
  owner = rw (s.users, s.config) at a.owner;
  current = rw s.push at a.current;
  wanted_kind = rw s.push at a.wanted_kind;
  channel = a.channel;
}

finish_SameSite :
    (now : ℕ) (e : PushDelivery) (d t : State)
    → SameSite d t
    → SameSite d (finish_calendar_reminder now e t)
unfolding finish_calendar_reminder
finish_SameSite now e d t s = elim (Bool-cases (blank e.reference_id)) [
  | inl k ↦ rw k s
  | inr k ↦ elim (Option-cases (find_first (queued_reminder e.reference_id) t.calendar_reminders)) [
    | inl n ↦ rw (k, n) s
    | inr (r, n) ↦ rw (k, n) (record { users = s.users; config = s.config; push = s.push })
  ]
]

-- What a claim says of the delivery that it hands over, if any.
abbrev Sends : State → Effect (Option (PushDelivery × PushChannel)) → Type 0
Sends d (keep none) = Unit
Sends d (keep (some r)) = ⊥
Sends d (write t none) = Unit
Sends d (write t (some (e, c))) = IsAllowed d e c
Sends d (write_fail t x) = ⊥

claim_from-Sends :
    (now : ℕ) (d t : State) (past es : List PushDelivery) (changed : Bool)
    → SameSite d t
    → Sends d (claim_from now t past es changed)
unfolding claim_from
claim_from-Sends now d t past [] true s = tt
claim_from-Sends now d t past [] false s = tt
claim_from-Sends now d t past (e ∷ es) changed s = elim (Verdict-cases (verdict now e t)) [
  | inl v ↦ rw (Sends, v) (claim_from-Sends now d t (past ++ e ∷ []) es changed s)
  | inr (inl v) ↦
      let f = skipped_entry now e in
      let t' = set_deliveries t (past ++ f ∷ es) in
      rw (Sends, v)
        (claim_from-Sends now d (finish_calendar_reminder now f t') (past ++ f ∷ []) es true (
          finish_SameSite now f d t'
            (record { users = s.users; config = s.config; push = s.push })))
  | inr (inr (c, v)) ↦ rw (Sends, v) (moved_site d t e c s (verdict-IsAllowed now e t c v))
]

claim_Sends : (now : ℕ) (d : State) → Ensures (Sends d) (claim_push_delivery now d)
unfolding claim_push_delivery
claim_Sends now d = does _ (
    claim_from-Sends now d d [] d.push_deliveries false
      (record { users = refl; config = refl; push = refl }))

-- A delivery is handed over for sending only while it is pending, its user is active and owns the
-- usable account it names, the user's settings are those of its revision and still want its kind,
-- and only to an enabled channel of its identifier.
pub claim_push_delivery-IsAllowed :
    (now : ℕ) (d t : State) (e : PushDelivery) (c : PushChannel)
    → claim_push_delivery now d ≡ ok (write t (some (e, c)))
    → IsAllowed d e c
claim_push_delivery-IsAllowed now d t e c h = Ensures-eq (Sends d) (claim_Sends now d) h
