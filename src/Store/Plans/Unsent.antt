-- ===== src/Store/Plans/Unsent.antt =====
-- internal/store/exchange.go: a plan that has sent a request never waits again, so that neither a
-- restart nor an edit leaves it to be claimed.
use miyohub.Base.{
  All, All-append, All-find_first, All-remove_first, All-replace_first, List, Option, String, [],
  ap, arith, false, inl, inr, some, sym, ℕ, ◌∙◌, ◌∷◌, ◌≡◌, ◌≢◌, ◌≤◌, ◌⊎◌,
}
use miyohub.Model.Plans.{ExchangePlan, is_pending, is_unset}
use miyohub.Store.Plans.Diagram.{
  AreRecovered, IsSamePlan, PlanChange, PlanMove, Recovery, add, advance, all_recovered,
  and_recovered, cut_short, edit, miss, move, reload, remove, requeue, resume, same, settle, stand,
  start, take_up,
}

-- A pending plan has sent no request.
abbrev pub IsUnsent : ExchangePlan → Type 0
IsUnsent p = (is_pending p.state ≡ false) ⊎ (p.attempt ≡ 0)

move-IsUnsent :
    {ps : List ExchangePlan} {p q : ExchangePlan} → PlanMove ps p q → IsUnsent p → IsUnsent q
move-IsUnsent (edit u v n) (inl h) = absurd (ground arith)
move-IsUnsent (edit u v n) (inr h) = inr (n ∙ h)
move-IsUnsent (start u v n ea eg alone) h = inr n
move-IsUnsent (miss u v) h = inl (ground arith)
move-IsUnsent (advance u v n ea eg) h = inl (ground arith)
move-IsUnsent (settle u v n) h = inl (ground arith)
move-IsUnsent (resume u v m n) h = inr n

-- Each plan is unsent while it is pending, and has a state of this version's.
abbrev pub IsSound : ExchangePlan → Type 0
IsSound p = (is_unset p.state ≡ false) × IsUnsent p

move-IsSound :
    {ps : List ExchangePlan} {p q : ExchangePlan} → PlanMove ps p q → IsSound p → IsSound q
move-IsSound m h = (state_known m, move-IsUnsent m h.1)
  where
    state_known :
        {ps : List ExchangePlan} {p q : ExchangePlan} → PlanMove ps p q → is_unset q.state ≡ false
    state_known (edit u v n) = ground arith
    state_known (start u v n ea eg alone) = ground arith
    state_known (miss u v) = ground arith
    state_known (advance u v n ea eg) = ground arith
    state_known (settle u v n) = ground arith
    state_known (resume u v m n) = ground arith

Recovery-IsSound : {p q : ExchangePlan} → IsSamePlan p q → Recovery p q → IsSound p → IsSound q
Recovery-IsSound k (stand r u e) (known, inl h) = (rw e known, inl (rw e h))
Recovery-IsSound k (stand r u e) (known, inr h) = (rw e known, inr (k.4 ∙ h))
Recovery-IsSound k (take_up u b e) (known, h) = absurd (ground arith)
Recovery-IsSound k (requeue r n early auto e) (known, h) = (ground arith, inr (k.4 ∙ n))
Recovery-IsSound k (cut_short r e) (known, h) = (ground arith, inl (ground arith))

AreRecovered-keeps :
    (P : ExchangePlan → Type 0)
    → ((p q : ExchangePlan) → IsSamePlan p q → Recovery p q → P p → P q)
    → {ps qs : List ExchangePlan} → AreRecovered ps qs
    → All P ps
    → All P qs
AreRecovered-keeps P step all_recovered h = tt
AreRecovered-keeps P step (and_recovered k r more) (h, rest_h) =
    (step _ _ k r h, AreRecovered-keeps P step more rest_h)

pub PlanChange-IsSound :
    {made : Option String} {ps qs : List ExchangePlan}
    → PlanChange made ps qs
    → All IsSound ps
    → All IsSound qs
PlanChange-IsSound same h = h
PlanChange-IsSound {ps = ps} (add q _ u n) h =
    All-append IsSound ps (q ∷ []) h ((ground arith, inr n), tt)
PlanChange-IsSound {ps = ps} (remove t p e r) h = All-remove_first IsSound t ps h
PlanChange-IsSound {ps = ps} (move t p q e _ m) h =
    All-replace_first IsSound t q ps (move-IsSound m (All-find_first IsSound t ps h e)) h
PlanChange-IsSound (reload r) h = AreRecovered-keeps IsSound (λ _ _. Recovery-IsSound) r h

-- The plans of the identifier `id` have sent `n` requests at least, and do not wait.
abbrev pub IsSpent : String → ℕ → ExchangePlan → Type 0
IsSpent id n p = p.id ≡ id → (is_pending p.state ≡ false) × (n ≤ p.attempt)

move-IsSpent :
    (id : String) (n : ℕ) {ps : List ExchangePlan} {p q : ExchangePlan}
    → 1 ≤ n
    → q.id ≡ p.id
    → PlanMove ps p q
    → IsSpent id n p
    → IsSpent id n q
move-IsSpent id n k i (edit u v e) h at = absurd (ground (arith, h (sym i ∙ at)))
move-IsSpent id n k i (start u v e ea eg alone) h at = absurd (ground (arith, h (sym i ∙ at)))
move-IsSpent id n k i (miss u v) h at = absurd (ground (arith, h (sym i ∙ at)))
move-IsSpent id n k i (advance u v e ea eg) h at = (ground arith, omega (arith, (h (sym i ∙ at)).1))
move-IsSpent id n k i (settle u v e) h at = (ground arith, omega (arith, (h (sym i ∙ at)).1))
move-IsSpent id n k i (resume u v e m) h at = absurd (omega (arith, (h (sym i ∙ at)).1))

-- Both halves, as one of them needs the other at a restart.
abbrev IsKept : String → ℕ → ExchangePlan → Type 0
IsKept id n p = IsSound p × IsSpent id n p

Recovery-IsKept :
    (id : String) (n : ℕ) {p q : ExchangePlan}
    → 1 ≤ n
    → IsSamePlan p q
    → Recovery p q
    → IsKept id n p
    → IsKept id n q
Recovery-IsKept id n {p} {q} one k r (sound, h) = (
  Recovery-IsSound k r sound,
  λ at. let (waits, sent) = h (sym k.0 ∙ at) in (ended r sound.0 waits sent, rw k.4 sent),
)
  where
    ended :
        Recovery p q
        → is_unset p.state ≡ false
        → is_pending p.state ≡ false
        → n ≤ p.attempt
        → is_pending q.state ≡ false
    ended (stand u v e) known waits sent = rw e waits
    ended (take_up u b e) known waits sent = absurd (ground arith)
    ended (requeue u z early auto e) known waits sent = absurd (omega arith)
    ended (cut_short u e) known waits sent = ground arith

All-zip {ℓ} :
    {A : Type ℓ} (P Q : A → Type 0) (xs : List A) → All P xs → All Q xs → All (λ x. P x × Q x) xs
All-zip P Q [] h k = tt
All-zip P Q (x ∷ xs) h k = ((h.0, k.0), All-zip P Q xs h.1 k.1)

All-second {ℓ} : {A : Type ℓ} (P Q : A → Type 0) (xs : List A) → All (λ x. P x × Q x) xs → All Q xs
All-second P Q [] h = tt
All-second P Q (x ∷ xs) h = (h.0.1, All-second P Q xs h.1)

pub PlanChange-IsSpent :
    (id : String) (n : ℕ) {made : Option String} {ps qs : List ExchangePlan}
    → 1 ≤ n
    → made ≢ some id
    → PlanChange made ps qs
    → All IsSound ps
    → All (IsSpent id n) ps
    → All (IsSpent id n) qs
PlanChange-IsSpent id n one other same sound h = h
PlanChange-IsSpent id n {ps = ps} one other (add q m u e) sound h =
    All-append (IsSpent id n) ps (q ∷ []) h ((λ at. absurd (other (m ∙ ap some at))), tt)
PlanChange-IsSpent id n {ps = ps} one other (remove t p e r) sound h =
    All-remove_first (IsSpent id n) t ps h
PlanChange-IsSpent id n {ps = ps} one other (move t p q e i m) sound h =
    All-replace_first (IsSpent id n) t q ps
      (move-IsSpent id n one i m (All-find_first (IsSpent id n) t ps h e)) h
PlanChange-IsSpent id n {ps = ps} {qs = qs} one other (reload r) sound h =
    All-second IsSound (IsSpent id n) qs (
      AreRecovered-keeps (IsKept id n) (λ _ _. Recovery-IsKept id n one) r
        (All-zip IsSound (IsSpent id n) ps sound h))
