-- ===== src/Store/Plans/Exclusive.antt =====
-- internal/store/exchange.go: an account never exchanges one good twice at a time.
use miyohub.Base.{
  ==_sound, Bool-cases, List, Option, String, [], any_of, arith, count_if, count_if-append,
  count_if-none, count_if-remove_first-le, count_if-replace_first, false, inl, inr, refl, sym, true,
  weight, ◌+◌, ◌∙◌, ◌∷◌, ◌≡◌, ◌≤◌,
}
use miyohub.Model.Plans.{ExchangePlan, is_running}
use miyohub.Store.Plans.Diagram.{
  AreRecovered, PlanChange, PlanMove, Recovery, add, advance, all_recovered, and_recovered,
  cut_short, edit, miss, move, reload, remove, requeue, resume, same, settle, stand, start, take_up,
}
use miyohub.Store.Plans.Execution.{same_running}

-- For each account and good at most one plan is running.
abbrev pub IsExclusive : List ExchangePlan → Type 0
IsExclusive ps = (a g : String) → count_if (same_running a g) ps ≤ 1

-- The same plan, as far as `same_running` looks.
same_running-eq :
    (a g : String) (p q : ExchangePlan)
    → is_running p.state ≡ true
    → q.account_id ≡ p.account_id
    → q.goods_id ≡ p.goods_id
    → weight (same_running a g q) ≤ weight (same_running a g p)
same_running-eq a g p q r ea eg = rw (ea, eg, r) (ground arith)

-- A plan that starts where its twin does not run is alone.
start-alone :
    (a g : String) (ps : List ExchangePlan) (p q : ExchangePlan)
    → any_of (same_running p.account_id p.goods_id) ps ≡ false
    → q.account_id ≡ p.account_id
    → q.goods_id ≡ p.goods_id
    → count_if (same_running a g) ps ≤ 1
    → count_if (same_running a g) ps + weight (same_running a g q) ≤ 1
start-alone a g ps p q alone ea eg h = elim (Bool-cases (same_running a g q)) [
  | inl e ↦
      let none_running : count_if (same_running a g) ps ≡ 0 =
        rw (same_account e, same_good e) (count_if-none _ ps alone) in
      rw (e, none_running) (omega arith)
  | inr e ↦ rw e (omega arith)
]
  where
    same_account : same_running a g q ≡ true → a ≡ p.account_id
    same_account e = sym (==_sound q.account_id a (ground arith)) ∙ ea

    same_good : same_running a g q ≡ true → g ≡ p.goods_id
    same_good e = sym (==_sound q.goods_id g (ground arith)) ∙ eg

Recovery-not_running : {p q : ExchangePlan} → Recovery p q → is_running q.state ≡ false
Recovery-not_running (stand r u e) = rw e r
Recovery-not_running (take_up u b e) = ground arith
Recovery-not_running (requeue r n early auto e) = ground arith
Recovery-not_running (cut_short r e) = ground arith

-- No plan runs after a restart.
AreRecovered-idle :
    (a g : String) {ps qs : List ExchangePlan}
    → AreRecovered ps qs
    → count_if (same_running a g) qs ≡ 0
AreRecovered-idle a g all_recovered = refl
AreRecovered-idle a g (and_recovered k r more) =
    ground (arith, Recovery-not_running r, AreRecovered-idle a g more)

move-IsExclusive :
    (a g : String) (ps : List ExchangePlan) (p q : ExchangePlan)
    → PlanMove ps p q
    → count_if (same_running a g) ps ≤ 1
    → count_if (same_running a g) ps + weight (same_running a g q) ≤ 1 + weight (same_running a g p)
move-IsExclusive a g ps p q (edit u v n) h = ground arith
move-IsExclusive a g ps p q (start u v n ea eg alone) h =
    omega (arith, start-alone a g ps p q alone ea eg h)
move-IsExclusive a g ps p q (miss u v) h = ground arith
move-IsExclusive a g ps p q (advance u v n ea eg) h = omega (arith, same_running-eq a g p q u ea eg)
move-IsExclusive a g ps p q (settle u v n) h = ground arith
move-IsExclusive a g ps p q (resume u v m n) h = ground arith

-- Every change that the diagram allows keeps the exclusion.
pub PlanChange-IsExclusive :
    {made : Option String} {ps qs : List ExchangePlan}
    → PlanChange made ps qs
    → IsExclusive ps
    → IsExclusive qs
PlanChange-IsExclusive same h a g = h a g
PlanChange-IsExclusive {ps = ps} (add q _ u n) h a g =
    rw (count_if-append (same_running a g) ps (q ∷ [])) (ground (arith, h a g))
PlanChange-IsExclusive {ps = ps} (remove t p e r) h a g =
    omega (arith, count_if-remove_first-le (same_running a g) t ps, h a g)
PlanChange-IsExclusive {ps = ps} (move t p q e _ m) h a g = omega (
  arith,
  count_if-replace_first (same_running a g) t q p ps e,
  move-IsExclusive a g ps p q m (h a g),
)
PlanChange-IsExclusive (reload r) h a g = omega (arith, AreRecovered-idle a g r)
