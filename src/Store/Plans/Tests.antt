-- ===== src/Store/Plans/Tests.antt =====
-- Runs of the operations on plans at the sample site, and the theorems on them at work.
use miyohub.Base.{All, Bool, List, [], arith, false, map, refl, true, ◌+◌, ◌∷◌, ◌≡◌}
use miyohub.Base.Int.{pos}
use miyohub.Base.Result.{ok, ◌>>=◌}
use miyohub.Model.{State}
use miyohub.Model.Plans.{
  ExchangePlan, PlanState, dispatch_window, minute, of_unix, retry_window, unix,
}
use miyohub.Model.Users.{can_exchange}
use miyohub.Store.Errors.{Err}
use miyohub.Store.Lookup.{account_can_exchange, account_runnable, check_exchange_access}
use miyohub.Store.Plans.Claims.{IsGranted, claim-IsGranted}
use miyohub.Store.Plans.Editing.{Caller, plans, set_plans}
use miyohub.Store.Plans.Exclusive.{IsExclusive}
use miyohub.Store.Plans.Execution.{
  claim_exchange_plan_at, claimed_plan, exchange_progress, exchange_result, finish_exchange,
  missed_plan, recover_exchange_plans, recover_plan, reserve_plan,
}
use miyohub.Store.Plans.Histories.{serve_all-IsExclusive, serve_all-IsSpent}
use miyohub.Store.Plans.Loading.{load}
use miyohub.Store.Plans.Ownership.{IsBy, foreign_plans, perform-foreign}
use miyohub.Store.Plans.Requests.{
  PlanRequest, claim, delete, finish, perform, progress, restart, serve, serve_all,
}
use miyohub.Store.Plans.Unsent.{IsSound, IsSpent}
use miyohub.Store.Samples.{
  bob_account, bob_plan, new_year, sample_environment, sample_site, sample_store,
}
use miyohub.Store.Transaction.{IsSynced, Store, save_locked, transact, write, write_fail}

abbrev by_bob : Caller
by_bob = record { user_id = "usr_b"; admin = false }

abbrev by_alice : Caller
by_alice = record { user_id = "usr_a"; admin = true }

-- The scheduler claims the plan of bob with no lead, at the time of the exchange.
abbrev bob_claim : PlanRequest
bob_claim = claim sample_environment new_year "k" by_bob "plan_1" true new_year 0

-- The plan is claimed, one request is sent, and the process dies and starts again.
abbrev bob_day : List (Bool × PlanRequest)
bob_day =
    (true, bob_claim)
    ∷ (true, progress "plan_1" "run_k" (pos 1) "sent")
    ∷ (false, finish "plan_1" "run_k" PlanState.pending (pos 1) "again")
    ∷ (true, restart)
    ∷ []

bob_day-run :
    map (λ (p : ExchangePlan). p.state) (plans (serve_all sample_store bob_day).current)
    ≡ PlanState.unknown ∷ []
unfolding serve_all serve transact save_locked load recover_exchange_plans claim_exchange_plan_at
    exchange_progress exchange_result finish_exchange reserve_plan check_exchange_access
    account_can_exchange account_runnable can_exchange ◌>>=◌ unix of_unix dispatch_window
    retry_window claimed_plan recover_plan
bob_day-run = refl

claim_late-run :
    claim_exchange_plan_at sample_environment new_year "k" by_bob "plan_1" true
      (new_year + minute)
      0
      sample_site
    ≡ ok (write_fail (set_plans sample_site (missed_plan bob_plan ∷ [])) Err.window_passed)
unfolding claim_exchange_plan_at reserve_plan check_exchange_access account_can_exchange
    account_runnable can_exchange ◌>>=◌ unix of_unix dispatch_window retry_window claimed_plan
claim_late-run = refl

sample-IsExclusive : IsExclusive (plans sample_site)
sample-IsExclusive a g = ground arith

bob_claim-run :
    claim_exchange_plan_at sample_environment new_year "k" by_bob "plan_1" true new_year 0
      sample_site
    ≡ ok (
        write
          (set_plans sample_site (claimed_plan sample_environment new_year "k" bob_plan ∷ []))
          (claimed_plan sample_environment new_year "k" bob_plan, bob_account))
unfolding claim_exchange_plan_at reserve_plan check_exchange_access account_can_exchange
    account_runnable can_exchange ◌>>=◌ unix of_unix dispatch_window retry_window claimed_plan
bob_claim-run = refl

serve_all-IsExclusive_example :
    IsSynced (serve_all sample_store bob_day)
    × IsExclusive (plans (serve_all sample_store bob_day).current)
serve_all-IsExclusive_example = serve_all-IsExclusive bob_day sample_store refl sample-IsExclusive

-- The plan of bob in the middle of its run, after one request.
abbrev spent_site : State
spent_site =
    set_plans sample_site
      (record bob_plan { state = PlanState.running; attempt = 1; auto = true } ∷ [])

abbrev spent_store : Store
spent_store = record { read_only = false; current = spent_site; committed = spent_site }

-- The process dies, and the scheduler claims the plan again.
abbrev next_day : List (Bool × PlanRequest)
next_day = (true, restart) ∷ (true, bob_claim) ∷ []

resumed-IsSound : All IsSound (plans spent_site)
resumed-IsSound = ground arith

resumed-IsSpent : All (IsSpent "plan_1" 1) (plans spent_site)
resumed-IsSpent = (λ h. (refl, omega arith), tt)

serve_all-IsSpent_example :
    IsSynced (serve_all spent_store next_day)
    × All IsSound (plans (serve_all spent_store next_day).current)
    × All (IsSpent "plan_1" 1) (plans (serve_all spent_store next_day).current)
serve_all-IsSpent_example =
    serve_all-IsSpent next_day spent_store "plan_1" 1 (omega arith)
      ((λ h. absurd (cc h)), ((λ h. absurd (cc h)), tt)) refl resumed-IsSound resumed-IsSpent

claim-IsGranted_example :
    (p : ExchangePlan) × IsGranted sample_site by_bob "plan_1" true new_year 0 p
      (claimed_plan sample_environment new_year "k" bob_plan)
      bob_account
claim-IsGranted_example =
    claim-IsGranted sample_environment new_year "k" by_bob "plan_1" true new_year 0 sample_site
      (set_plans sample_site (claimed_plan sample_environment new_year "k" bob_plan ∷ []))
      (claimed_plan sample_environment new_year "k" bob_plan) bob_account bob_claim-run

perform-foreign_example :
    foreign_plans sample_site "usr_a" (plans (perform (delete by_alice "plan_1") sample_site))
    ≡ foreign_plans sample_site "usr_a" (plans sample_site)
perform-foreign_example =
    perform-foreign sample_site by_alice (delete by_alice "plan_1") (IsBy.by_delete "plan_1") refl
