-- ===== src/Store/Plans/Requests.antt =====
-- The operations on exchange plans as one type of requests, so that a property can speak of all.
use miyohub.Base.{Bool, List, Option, String, [], none, some, ℕ, ◌∷◌}
use miyohub.Base.Int.{ℤ}
use miyohub.Model.{State}
use miyohub.Model.Plans.{ExchangePlan, Phase, PlanState}
use miyohub.Store.Environment.{Environment}
use miyohub.Store.Plans.Editing.{
  Caller, create_exchange_plan, delete_exchange_plan, update_exchange_plan,
}
use miyohub.Store.Plans.Execution.{
  claim_exchange_plan_at, exchange_phase, exchange_progress, finish_exchange,
  recover_exchange_plans,
}
use miyohub.Store.Plans.Loading.{load}
use miyohub.Store.Transaction.{Store, after, transact}
use Prim.Native.String.{◌++◌ as append}

pub data PlanRequest : Type 0 where
  create : Environment → ℕ → String → Caller → ExchangePlan → PlanRequest
  update : Environment → ℕ → Caller → ExchangePlan → PlanRequest
  delete : Caller → String → PlanRequest
  claim : Environment → ℕ → String → Caller → String → Bool → ℕ → ℕ → PlanRequest
  progress : String → String → ℤ → String → PlanRequest
  finish : String → String → PlanState → ℤ → String → PlanRequest
  phase : String → String → Phase → String → PlanRequest
  restart : PlanRequest

-- The identifier of the plan that a request may add.
abbrev pub made_by : PlanRequest → Option String
made_by (create env now fresh c p) = some (append "plan_" fresh)
made_by _ = none

-- The state after a request that could be saved.
unfoldable pub perform : PlanRequest → State → State
perform (create env now fresh c p) d = after d (create_exchange_plan env now fresh c p d)
perform (update env now c p) d = after d (update_exchange_plan env now c p d)
perform (delete c id) d = after d (delete_exchange_plan c id d)
perform (claim env now fresh c id scheduled clock lead) d =
    after d (claim_exchange_plan_at env now fresh c id scheduled clock lead d)
perform (progress id key attempt message) d = after d (exchange_progress id key attempt message d)
perform (finish id key state attempt message) d =
    after d (finish_exchange id key state attempt message d)
perform (phase id key ph message) d = after d (exchange_phase id key ph message d)
perform restart d = recover_exchange_plans d

-- A request against the store, with the outcome of its save; `restart` is the load of a new process.
unfoldable pub serve : Store → Bool → PlanRequest → Store
serve s disk (create env now fresh c p) =
    (transact s disk (create_exchange_plan env now fresh c p s.current)).0
serve s disk (update env now c p) = (transact s disk (update_exchange_plan env now c p s.current)).0
serve s disk (delete c id) = (transact s disk (delete_exchange_plan c id s.current)).0
serve s disk (claim env now fresh c id scheduled clock lead) =
    (transact s disk (claim_exchange_plan_at env now fresh c id scheduled clock lead s.current)).0
serve s disk (progress id key attempt message) =
    (transact s disk (exchange_progress id key attempt message s.current)).0
serve s disk (finish id key state attempt message) =
    (transact s disk (finish_exchange id key state attempt message s.current)).0
serve s disk (phase id key ph message) =
    (transact s disk (exchange_phase id key ph message s.current)).0
serve s disk restart = load s disk

unfoldable pub serve_all : Store → List (Bool × PlanRequest) → Store
serve_all s [] = s
serve_all s ((disk, r) ∷ rs) = serve_all (serve s disk r) rs
