-- ===== src/Store/Plans/Execution.antt =====
-- internal/store/exchange.go: the execution of a plan: the claim, the results of an attempt, and the
-- recovery when the store is loaded.
use miyohub.Base.{
  Bool, String, any_of, blank, eqb, false, find_first, if◌then◌else◌, ltb, map, not, replace_first,
  true, ℕ, ◌&&◌, ◌+◌, ◌==◌, ◌||◌,
}
use miyohub.Base.Int.{leb_ℤ, ltb_ℤ, pos, pos_part, ℤ}
use miyohub.Base.Result.{Result, ok, require, ◌>>=◌, ◌>>◌}
use miyohub.Model.{State}
use miyohub.Model.Accounts.{Account}
use miyohub.Model.Plans.{
  ExchangePlan, Phase, PlanState, dispatch_window, is_before_request, is_pending, is_running,
  is_unset, of_unix, unix,
}
use miyohub.Store.Environment.{Environment}
use miyohub.Store.Errors.{Err}
use miyohub.Store.Lookup.{account_runnable, check_exchange_access}
use miyohub.Store.Plans.Editing.{Caller, own_plan, plans, set_plans}
use miyohub.Store.Transaction.{Effect, or_fail, write, write_fail}
use Prim.Native.String.{◌++◌ as append}

-- The test for the running attempt of a plan.
abbrev pub this_attempt : String → String → ExchangePlan → Bool
this_attempt id key p = p.id == id && p.attempt_key == key && is_running p.state

unfoldable pub claimed_plan : Environment → ℕ → String → ExchangePlan → ExchangePlan
claimed_plan env now fresh p = record p {
  state = PlanState.running;
  phase = Phase.preparing;
  attempt = 0;
  attempt_key = append "run_" fresh;
  last_run = env.format_time now;
  last_result = "准备兑换";
  revision = p.revision + 1;
}

unfoldable pub missed_plan : ExchangePlan → ExchangePlan
missed_plan p = record p { state = PlanState.missed; last_result = "已到达兑换窗口截止时间，请重新创建计划" }

-- Another running plan of the same account for the same good.
abbrev pub same_running : String → String → ExchangePlan → Bool
same_running account_id goods_id q =
    q.account_id == account_id && q.goods_id == goods_id && is_running q.state

-- The last part of `ClaimExchangePlanAt`: reserve the plan unless its twin is running.
unfoldable pub reserve_plan :
    Environment
    → ℕ
    → String
    → (ExchangePlan → Bool)
    → ExchangePlan
    → Account
    → State
    → Result Err (Effect (ExchangePlan × Account))
unfolding claimed_plan
reserve_plan env now fresh test p a d = do
  require (not (any_of (same_running p.account_id p.goods_id) (plans d))) Err.duplicate_running
  let q = claimed_plan env now fresh p
  ok (write (set_plans d (replace_first test q (plans d))) (q, a))

abbrev pub window_open : State → ℕ → ExchangePlan → Bool
window_open d now p = ltb now (of_unix p.exchange_at + dispatch_window d.config.shop)

-- `ClaimExchangePlanAt`: `clock` is the caller's time, `lead` the time that it may be early. A
-- scheduled plan whose window has passed is saved as missed, and the call fails all the same.
unfoldable pub claim_exchange_plan_at :
    Environment
    → ℕ
    → String
    → Caller
    → String
    → Bool
    → ℕ
    → ℕ
    → State
    → Result Err (Effect (ExchangePlan × Account))
unfolding check_exchange_access account_runnable reserve_plan missed_plan unix
claim_exchange_plan_at env now fresh c id scheduled clock lead d = do
  require d.config.shop.enabled Err.shop_disabled
  p ← or_fail (find_first (own_plan d c id) (plans d)) Err.no_such_plan
  require (p.enabled && is_pending p.state) Err.plan_not_ready
  check_exchange_access d c.user_id c.admin p.account_id
  a ← or_fail (account_runnable d p.account_id) Err.account_disabled
  require
      (not (
        scheduled
        && (not p.auto
            || leb_ℤ p.exchange_at (pos 0)
            || ltb_ℤ (unix (clock + lead)) p.exchange_at)))
      Err.not_due
  if scheduled && not (window_open d clock p)
      then ok (
          write_fail (set_plans d (replace_first (own_plan d c id) (missed_plan p) (plans d)))
            Err.window_passed)
      else reserve_plan env now fresh (own_plan d c id) p a d

abbrev pub result_phase : PlanState → ℕ → Phase → Phase
result_phase PlanState.running attempt phase = if ltb 0 attempt then Phase.exchanging else phase
result_phase _ attempt phase = Phase.idle

-- `exchangeResult`: the count of requests never falls, and only a scheduled plan that has sent no
-- request returns to `pending`.
unfoldable pub exchange_result :
    String → String → PlanState → ℤ → String → State → Result Err (Effect (Unit {0}))
exchange_result id key state attempt message d = do
  p ← or_fail (find_first (this_attempt id key) (plans d)) Err.execution_changed
  require (leb_ℤ (pos p.attempt) attempt) Err.attempt_went_back
  require
      (not (
        is_pending state
        && (not p.auto
            || ltb 0 (pos_part attempt)
            || ltb 0 p.attempt
            || not (is_before_request p.phase))))
      Err.not_resumable
  let q = record p {
    state = state;
    phase = result_phase state (pos_part attempt) p.phase;
    attempt = pos_part attempt;
    last_result = message;
  }
  ok (write (set_plans d (replace_first (this_attempt id key) q (plans d))) tt)

-- `ExchangeProgress`
unfoldable pub exchange_progress :
    String → String → ℤ → String → State → Result Err (Effect (Unit {0}))
unfolding exchange_result
exchange_progress id key attempt message d =
    exchange_result id key PlanState.running attempt message d

-- The states that `FinishExchange` accepts.
abbrev pub is_result : PlanState → Bool
is_result PlanState.success = true
is_result PlanState.failed = true
is_result PlanState.unknown = true
is_result PlanState.cancelled = true
is_result PlanState.pending = true
is_result PlanState.missed = true
is_result PlanState.unset = false
is_result PlanState.running = false
is_result (PlanState.other t) = false

-- `FinishExchange`
unfoldable pub finish_exchange :
    String → String → PlanState → ℤ → String → State → Result Err (Effect (Unit {0}))
unfolding exchange_result
finish_exchange id key state attempt message d = do
  require (is_result state) Err.bad_result_state
  exchange_result id key state attempt message d

-- `ExchangePhase`
unfoldable pub exchange_phase :
    String → String → Phase → String → State → Result Err (Effect (Unit {0}))
exchange_phase id key phase message d = do
  p ← or_fail (find_first test (plans d)) Err.plan_state_changed
  let q = record p { phase = phase; last_result = message }
  ok (write (set_plans d (replace_first test q (plans d))) tt)
  where
    test : ExchangePlan → Bool
    test p = this_attempt id key p && eqb p.attempt 0

-- One plan of `recoverExchangePlans`.
unfoldable pub recover_plan : ExchangePlan → ExchangePlan
recover_plan p = record p {
  revision = if eqb p.revision 0 then 1 else p.revision;
  state = recovered_state;
  last_result = recovered_text;
  device_fp = "";
  phase = Phase.idle;
}
  where
    resumes : Bool
    resumes = is_running p.state && eqb p.attempt 0 && is_before_request p.phase && p.auto

    interrupted : Bool
    interrupted = is_running p.state || (is_unset p.state && not (blank p.last_run))

    recovered_state : PlanState
    recovered_state =
        if resumes
        then PlanState.pending
        else (if interrupted
            then PlanState.unknown
            else (if is_unset p.state then PlanState.pending else p.state))

    recovered_text : String
    recovered_text =
        if resumes
        then "服务已恢复，等待重新准备兑换"
        else (if interrupted then "服务中断或旧版执行结果待确认，请先在米游社查看兑换记录" else p.last_result)

-- `recoverExchangePlans`, when the store is loaded.
unfoldable pub recover_exchange_plans : State → State
unfolding recover_plan
recover_exchange_plans d = set_plans d (map recover_plan (plans d))
