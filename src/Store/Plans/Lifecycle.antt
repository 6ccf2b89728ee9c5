-- ===== src/Store/Plans/Lifecycle.antt =====
-- internal/store/exchange.go: every operation of the store as a change that the diagram of plans allows.
use miyohub.Base.{
  ==_sound, Bool, Bool-cases, List, Option, String, [], and_parts, arith, blank, eqb, find_first,
  find_first-passes, inl, inr, map, none, not, refl, replace_first, some, sym, true, ℕ, ◌&&◌, ◌==◌,
  ◌∙◌, ◌∷◌, ◌≡◌, ◌≤◌, ◌⊎◌,
}
use miyohub.Base.Int.{pos_part, ℤ}
use miyohub.Base.Result.{ok}
use miyohub.Model.{State}
use miyohub.Model.Accounts.{Account}
use miyohub.Model.Plans.{
  ExchangePlan, Phase, PlanState, is_before_request, is_pending, is_running, is_unset,
}
use miyohub.Store.Environment.{Environment}
use miyohub.Store.Errors.{Err}
use miyohub.Store.Plans.Diagram.{
  AreRecovered, PlanChange, PlanMove, Recovery, add, advance, all_recovered, and_recovered,
  cut_short, edit, miss, move, reload, remove, requeue, resume, same, settle, stand, start, take_up,
}
use miyohub.Store.Plans.Editing.{
  Caller, create_exchange_plan, delete_exchange_plan, edited_plan, new_plan, own_plan, plans,
  set_plans, update_exchange_plan,
}
use miyohub.Store.Plans.Execution.{
  claim_exchange_plan_at, exchange_phase, exchange_progress, exchange_result, finish_exchange,
  is_result, missed_plan, recover_exchange_plans, recover_plan, reserve_plan, window_open,
}
use miyohub.Store.Plans.Requests.{
  PlanRequest, claim, create, delete, finish, made_by, perform, phase, progress, restart, update,
}
use miyohub.Store.Transaction.{
  Ensures, Ensures-after, Ensures-bind, Ensures-find, Ensures-if, Ensures-require, Saves, does,
  write_fail,
}
use Prim.Native.String.{◌++◌ as append}

abbrev Changes : Option String → State → State → Type 0
Changes made d e = PlanChange made (plans d) (plans e)

recover_plan-Recovery : (p : ExchangePlan) → Recovery p (recover_plan p)
unfolding recover_plan
recover_plan-Recovery p = elim (Bool-cases (is_running p.state)) [
  | inr w ↦ elim (Bool-cases (is_unset p.state)) [
    | inr u ↦ stand w u (rw (w, u) refl)
    | inl u ↦ elim (Bool-cases (blank p.last_run)) [
      | inl b ↦ take_up u b (rw (w, u, b) refl)
      | inr b ↦ cut_short (inr u) (rw (w, u, b) refl)
    ]
  ]
  | inl r ↦ elim (Bool-cases (eqb p.attempt 0 && is_before_request p.phase && p.auto)) [
    | inr b ↦ cut_short (inl r) (rw (r, b) refl)
    | inl b ↦
        let (k, auto) = and_parts (eqb p.attempt 0 && is_before_request p.phase) p.auto b in
        let (none_sent, early) = and_parts (eqb p.attempt 0) (is_before_request p.phase) k in
        requeue r (ground (arith, none_sent)) early auto (rw (r, none_sent, early, auto) refl)
  ]
]

recover-AreRecovered : (ps : List ExchangePlan) → AreRecovered ps (map recover_plan ps)
unfolding recover_plan
recover-AreRecovered [] = all_recovered
recover-AreRecovered (p ∷ ps) =
    and_recovered (refl, refl, refl, refl, refl) (recover_plan-Recovery p) (recover-AreRecovered ps)

create_Changes :
    (env : Environment) (now : ℕ) (fresh : String) (c : Caller) (p : ExchangePlan) (d : State)
    → Ensures
        (Saves (Changes (some (append "plan_" fresh)) d))
        (create_exchange_plan env now fresh c p d)
unfolding create_exchange_plan new_plan
create_Changes env now fresh c p d =
    Ensures-bind _ _ λ _ _. Ensures-bind _ _ λ _ _. does _ (add _ refl refl refl)

update_Changes :
    (env : Environment) (now : ℕ) (c : Caller) (p : ExchangePlan) (d : State)
    → Ensures (Saves (Changes none d)) (update_exchange_plan env now c p d)
unfolding update_exchange_plan edited_plan
update_Changes env now c p d = Ensures-find _ _ _ λ old found. Ensures-require _ _ _ λ _.
    Ensures-bind _ _ λ _ _. Ensures-bind _ _ λ _ _. Ensures-require _ _ _ λ waiting.
      Ensures-bind _ _ λ _ _.
        let idle : is_pending old.state ≡ true = ground arith in
        let named : p.id ≡ old.id =
          sym (==_sound old.id p.id (find_first-passes (λ q. q.id == p.id) (plans d) old found)) in
        does _ (move _ old _ found named (edit idle idle refl))

delete_Changes :
    (c : Caller) (id : String) (d : State)
    → Ensures (Saves (Changes none d)) (delete_exchange_plan c id d)
unfolding delete_exchange_plan
delete_Changes c id d =
    Ensures-find _ _ _
      λ p found. Ensures-require _ _ _ λ idle. does _ (remove _ p found (ground arith))

reserve_Changes :
    (env : Environment) (now : ℕ) (fresh : String) (t : ExchangePlan → Bool) (p : ExchangePlan)
    (a : Account) (d : State)
    → find_first t (plans d) ≡ some p
    → is_pending p.state ≡ true
    → Ensures (Saves (Changes none d)) (reserve_plan env now fresh t p a d)
unfolding reserve_plan
reserve_Changes env now fresh t p a d found idle =
    Ensures-require _ _ _
      λ alone. does _ (move t p _ found refl (start idle refl refl refl refl (ground arith)))

claim_Changes :
    (env : Environment) (now : ℕ) (fresh : String) (c : Caller) (id : String) (scheduled : Bool)
    (clock lead : ℕ) (d : State)
    → Ensures
        (Saves (Changes none d))
        (claim_exchange_plan_at env now fresh c id scheduled clock lead d)
unfolding claim_exchange_plan_at
claim_Changes env now fresh c id scheduled clock lead d = Ensures-require _ _ _ λ _.
    Ensures-find _ _ _ λ p found. Ensures-require _ _ _ λ ready. Ensures-bind _ _ λ _ _.
      Ensures-find _ _ _ λ a _. Ensures-require _ _ _ λ _.
        let idle : is_pending p.state ≡ true = ground arith in
        Ensures-if (scheduled && not (window_open d clock p))
          (ok (
            write_fail (set_plans d (replace_first (own_plan d c id) (missed_plan p) (plans d)))
              Err.window_passed))
          (reserve_plan env now fresh (own_plan d c id) p a d)
          (λ _. does _ (move _ p (missed_plan p) found refl (miss idle refl)))
          (λ _. reserve_Changes env now fresh _ p a d found idle)

result_Move :
    (ps : List ExchangePlan) (p q : ExchangePlan) (state : PlanState) (attempt : ℕ)
    → is_running p.state ≡ true
    → p.attempt ≤ attempt
    → ((is_running state ≡ true) ⊎ (is_result state ≡ true))
    → (is_pending state ≡ true → (p.attempt ≡ 0) × (attempt ≡ 0))
    → q.state ≡ state
    → q.attempt ≡ attempt
    → q.account_id ≡ p.account_id
    → q.goods_id ≡ p.goods_id
    → PlanMove ps p q
result_Move ps p q PlanState.running n r le k u qs qn qa qg =
    advance r (ground arith) (omega arith) qa qg
result_Move ps p q PlanState.pending n r le k u qs qn qa qg =
    resume r (ground arith) ((u refl).0) (qn ∙ (u refl).1)
result_Move ps p q PlanState.unset n r le (inl k) u qs qn qa qg = absurd (cc k)
result_Move ps p q PlanState.unset n r le (inr k) u qs qn qa qg = absurd (cc k)
result_Move ps p q (PlanState.other t) n r le (inl k) u qs qn qa qg = absurd (cc k)
result_Move ps p q (PlanState.other t) n r le (inr k) u qs qn qa qg = absurd (cc k)
result_Move ps p q _ n r le k u qs qn qa qg = settle r (ground arith) (omega arith)

exchange_result-Changes :
    (id key : String) (state : PlanState) (attempt : ℤ) (message : String) (d : State)
    → ((is_running state ≡ true) ⊎ (is_result state ≡ true))
    → Ensures (Saves (Changes none d)) (exchange_result id key state attempt message d)
unfolding exchange_result
exchange_result-Changes id key state attempt message d known = Ensures-find _ _ _ λ p found.
    Ensures-require _ _ _ λ grows. Ensures-require _ _ _ λ fits.
      let going : is_running p.state ≡ true =
        ground (arith, find_first-passes _ (plans d) p found) in
      does _ (
        move _ p _ found refl (
          result_Move _ p _ state (pos_part attempt) going (ground arith) known
            (λ e. (ground arith, ground arith)) refl refl refl refl))

progress_Changes :
    (id key : String) (attempt : ℤ) (message : String) (d : State)
    → Ensures (Saves (Changes none d)) (exchange_progress id key attempt message d)
unfolding exchange_progress
progress_Changes id key attempt message d =
    exchange_result-Changes id key PlanState.running attempt message d (inl refl)

finish_Changes :
    (id key : String) (state : PlanState) (attempt : ℤ) (message : String) (d : State)
    → Ensures (Saves (Changes none d)) (finish_exchange id key state attempt message d)
unfolding finish_exchange
finish_Changes id key state attempt message d =
    Ensures-require _ _ _
      λ known. exchange_result-Changes id key state attempt message d (inr known)

phase_Changes :
    (id key : String) (ph : Phase) (message : String) (d : State)
    → Ensures (Saves (Changes none d)) (exchange_phase id key ph message d)
unfolding exchange_phase
phase_Changes id key ph message d = Ensures-find _ _ _ λ p found.
    let going : is_running p.state ≡ true = ground (arith, find_first-passes _ (plans d) p found) in
    does _ (move _ p _ found refl (advance going going (omega arith) refl refl))

pub perform-PlanChange :
    (r : PlanRequest) (d : State) → PlanChange (made_by r) (plans d) (plans (perform r d))
unfolding perform recover_exchange_plans
perform-PlanChange (create env now fresh c p) d =
    Ensures-after (Changes (some (append "plan_" fresh)) d) same
      (create_Changes env now fresh c p d)
perform-PlanChange (update env now c p) d =
    Ensures-after (Changes none d) same (update_Changes env now c p d)
perform-PlanChange (delete c id) d = Ensures-after (Changes none d) same (delete_Changes c id d)
perform-PlanChange (claim env now fresh c id scheduled clock lead) d =
    Ensures-after (Changes none d) same (claim_Changes env now fresh c id scheduled clock lead d)
perform-PlanChange (progress id key attempt message) d =
    Ensures-after (Changes none d) same (progress_Changes id key attempt message d)
perform-PlanChange (finish id key state attempt message) d =
    Ensures-after (Changes none d) same (finish_Changes id key state attempt message d)
perform-PlanChange (phase id key ph message) d =
    Ensures-after (Changes none d) same (phase_Changes id key ph message d)
perform-PlanChange restart d = reload (recover-AreRecovered (plans d))
