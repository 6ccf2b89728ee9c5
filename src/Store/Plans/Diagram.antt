-- ===== src/Store/Plans/Diagram.antt =====
-- internal/store/exchange.go: the life of a plan as a transition diagram.
-- What one write may do to a plan, among the plans `ps` of the moment.
use miyohub.Base.{
  Bool, List, Option, String, [], any_of, blank, false, find_first, remove_first, replace_first,
  some, true, ◌++◌, ◌∷◌, ◌≡◌, ◌≤◌, ◌⊎◌,
}
use miyohub.Model.Plans.{
  ExchangePlan, is_before_request, is_final, is_pending, is_running, is_unset,
}
use miyohub.Store.Plans.Execution.{same_running}

pub data PlanMove (ps : List ExchangePlan) (p q : ExchangePlan) : Type 0 where
  edit :
      is_pending p.state ≡ true
      → is_pending q.state ≡ true
      → q.attempt ≡ p.attempt
      → PlanMove ps p q
  start :
      is_pending p.state ≡ true
      → is_running q.state ≡ true
      → q.attempt ≡ 0
      → q.account_id ≡ p.account_id
      → q.goods_id ≡ p.goods_id
      → any_of (same_running p.account_id p.goods_id) ps ≡ false
      → PlanMove ps p q
  miss : is_pending p.state ≡ true → is_final q.state ≡ true → PlanMove ps p q
  advance :
      is_running p.state ≡ true
      → is_running q.state ≡ true
      → p.attempt ≤ q.attempt
      → q.account_id ≡ p.account_id
      → q.goods_id ≡ p.goods_id
      → PlanMove ps p q
  settle :
      is_running p.state ≡ true → is_final q.state ≡ true → p.attempt ≤ q.attempt → PlanMove ps p q
  resume :
      is_running p.state ≡ true
      → is_pending q.state ≡ true
      → p.attempt ≡ 0
      → q.attempt ≡ 0
      → PlanMove ps p q

-- What a restart may do to the state of a plan: a plan that waits or has ended keeps it, one in the
-- middle of its run waits again only if no request was sent, one without a state only if it never ran,
-- and any other ends.
pub data Recovery (p q : ExchangePlan) : Type 0 where
  stand : is_running p.state ≡ false → is_unset p.state ≡ false → q.state ≡ p.state → Recovery p q
  take_up :
      is_unset p.state ≡ true → blank p.last_run ≡ true → is_pending q.state ≡ true → Recovery p q
  requeue :
      is_running p.state ≡ true
      → p.attempt ≡ 0
      → is_before_request p.phase ≡ true
      → p.auto ≡ true
      → is_pending q.state ≡ true
      → Recovery p q
  cut_short :
      ((is_running p.state ≡ true) ⊎ (is_unset p.state ≡ true))
      → is_final q.state ≡ true
      → Recovery p q

-- The same plan, with the same count of requests.
abbrev pub IsSamePlan : ExchangePlan → ExchangePlan → Type 0
IsSamePlan p q =
    (q.id ≡ p.id)
    × (q.account_id ≡ p.account_id)
    × (q.goods_id ≡ p.goods_id)
    × (q.exchange_at ≡ p.exchange_at)
    × (q.attempt ≡ p.attempt)

-- The plans before and after a restart, one by one.
pub data AreRecovered : List ExchangePlan → List ExchangePlan → Type 0 where
  all_recovered : AreRecovered [] []
  and_recovered :
      {p q : ExchangePlan} {ps qs : List ExchangePlan}
      → IsSamePlan p q
      → Recovery p q
      → AreRecovered ps qs
      → AreRecovered (p ∷ ps) (q ∷ qs)

-- What one operation may do to the list of plans; `made` is the identifier that it may add.
pub data PlanChange (made : Option String) (ps : List ExchangePlan)
    : List ExchangePlan → Type 0 where
  same : PlanChange made ps ps
  add :
      (q : ExchangePlan)
      → made ≡ some q.id
      → is_pending q.state ≡ true
      → q.attempt ≡ 0
      → PlanChange made ps (ps ++ q ∷ [])
  remove :
      (t : ExchangePlan → Bool) (p : ExchangePlan)
      → find_first t ps ≡ some p
      → is_running p.state ≡ false
      → PlanChange made ps (remove_first t ps)
  move :
      (t : ExchangePlan → Bool) (p q : ExchangePlan)
      → find_first t ps ≡ some p
      → q.id ≡ p.id
      → PlanMove ps p q
      → PlanChange made ps (replace_first t q ps)
  reload : {qs : List ExchangePlan} → AreRecovered ps qs → PlanChange made ps qs
