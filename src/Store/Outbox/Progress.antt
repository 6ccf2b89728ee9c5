-- ===== src/Store/Outbox/Progress.antt =====
-- internal/store/push_outbox.go: the state diagram of a delivery. A notification leaves `pending`
-- once, and a finished one never changes, so that no message is sent twice.
use miyohub.Base.{
  Bool, Bool-cases, List, [], ap, false, find_first, inl, inr, length, refl, replace_first, some,
  subst, suc, ◌++◌, ◌∷◌, ◌≡◌,
}
use miyohub.Model.Push.{DeliveryStatus, PushDelivery, SendResult, is_sending}
use miyohub.Store.Outbox.Delivery.{sent_status}
use miyohub.Store.Outbox.Queue.{delivery_open}

-- What may happen to the status of one delivery.
pub data StatusMove : DeliveryStatus → DeliveryStatus → Type 0 where
  stay : (s : DeliveryStatus) → StatusMove s s
  hand_over : StatusMove DeliveryStatus.pending DeliveryStatus.sending
  give_up : StatusMove DeliveryStatus.pending DeliveryStatus.skipped
  answer : (r : SendResult) → StatusMove DeliveryStatus.sending (sent_status r)
  interrupt : StatusMove DeliveryStatus.sending DeliveryStatus.unknown

-- The same delivery, with another status at most.
pub record Follows (e f : PushDelivery) : Type 0 where
  pub same_id : f.id ≡ e.id
  pub same_target :
      (f.user_id ≡ e.user_id) × (f.channel_id ≡ e.channel_id) × (f.message ≡ e.message)
  pub moves : StatusMove e.status f.status

-- What may happen to the queue: each delivery moves or stays, a finished one may go, and new ones
-- that are not being sent are appended.
pub data Progress : List PushDelivery → List PushDelivery → Type 0 where
  done : Progress [] []
  keeps :
      {e f : PushDelivery} {es fs : List PushDelivery}
      → Follows e f
      → Progress es fs
      → Progress (e ∷ es) (f ∷ fs)
  drops :
      {e : PushDelivery} {es fs : List PushDelivery}
      → delivery_open e ≡ false
      → Progress es fs
      → Progress (e ∷ es) fs
  appends :
      {f : PushDelivery} {fs : List PushDelivery}
      → is_sending f.status ≡ false
      → Progress [] fs
      → Progress [] (f ∷ fs)

pub unmoved : (e : PushDelivery) → Follows e e
unmoved e = record { same_id = refl; same_target = (refl, refl, refl); moves = stay e.status }

pub idle_queue : (es : List PushDelivery) → Progress es es
idle_queue [] = done
idle_queue (e ∷ es) = keeps (unmoved e) (idle_queue es)

-- Two parts of the queue, of which each delivery of the second follows the one of the first.
pub data Aligned : List PushDelivery → List PushDelivery → Type 0 where
  none_read : Aligned [] []
  reads :
      {e f : PushDelivery} {es fs : List PushDelivery}
      → Follows e f
      → Aligned es fs
      → Aligned (e ∷ es) (f ∷ fs)

pub ahead :
    {ps qs es fs : List PushDelivery}
    → Aligned ps qs
    → Aligned es fs
    → Aligned (ps ++ es) (qs ++ fs)
ahead none_read p = p
ahead (reads m a) p = reads m (ahead a p)

pub idle-Aligned : (es : List PushDelivery) → Aligned es es
idle-Aligned [] = none_read
idle-Aligned (e ∷ es) = reads (unmoved e) (idle-Aligned es)

pub Aligned-Progress : {es fs : List PushDelivery} → Aligned es fs → Progress es fs
Aligned-Progress none_read = done
Aligned-Progress (reads m a) = keeps m (Aligned-Progress a)

pub Aligned-length : {es fs : List PushDelivery} → Aligned es fs → length fs ≡ length es
Aligned-length none_read = refl
Aligned-length (reads m a) = ap suc (Aligned-length a)

pub replace_moves :
    (p : PushDelivery → Bool) {e f : PushDelivery} (es : List PushDelivery)
    → find_first p es ≡ some e
    → Follows e f
    → Aligned es (replace_first p f es)
replace_moves p [] h m = absurd (cc h)
replace_moves p {e} {f} (x ∷ es) h m = elim (Bool-cases (p x)) [
  | inl k ↦ rw k (reads (subst (λ y. Follows y f) (some_same (rw k at h)) m) (idle-Aligned es))
  | inr k ↦ rw k (reads (unmoved x) (replace_moves p es (rw k at h) m))
]
  where
    some_same : {a b : PushDelivery} → some a ≡ some b → b ≡ a
    some_same h = cc h

pub next_read :
    {ps qs : List PushDelivery} {e f : PushDelivery}
    → Aligned ps qs
    → Follows e f
    → Aligned (ps ++ e ∷ []) (qs ++ f ∷ [])
next_read none_read m = reads m none_read
next_read (reads n a) m = reads n (next_read a m)
