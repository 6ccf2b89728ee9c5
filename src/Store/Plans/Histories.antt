-- ===== src/Store/Plans/Histories.antt =====
-- internal/store/exchange.go and store.go: what holds of the plans, in memory and in the file, after
-- any requests, whatever becomes of each save.
use miyohub.Base.{
  All, Bool, List, String, [], ap, false, refl, some, subst, sym, true, ℕ, ◌∙◌, ◌∷◌, ◌≡◌, ◌≢◌, ◌≤◌,
}
use miyohub.Base.Result.{Result}
use miyohub.Model.Plans.{ExchangePlan}
use miyohub.Store.Atomic.{Outcome, committed, transact-Outcome, unchanged}
use miyohub.Store.Errors.{Err}
use miyohub.Store.Plans.Diagram.{PlanChange}
use miyohub.Store.Plans.Editing.{plans}
use miyohub.Store.Plans.Exclusive.{IsExclusive, PlanChange-IsExclusive}
use miyohub.Store.Plans.Execution.{recover_exchange_plans}
use miyohub.Store.Plans.Lifecycle.{perform-PlanChange}
use miyohub.Store.Plans.Loading.{load, load_with}
use miyohub.Store.Plans.Requests.{
  PlanRequest, claim, create, delete, finish, made_by, perform, phase, progress, restart, serve,
  serve_all, update,
}
use miyohub.Store.Plans.Unsent.{IsSound, IsSpent, PlanChange-IsSound, PlanChange-IsSpent}
use miyohub.Store.Transaction.{Effect, IsSynced, Store, after}

-- The change of the store by a request: none, or the same one in memory and in the file.
data Served (r : PlanRequest) (s : Store) : Store → Type 0 where
  nothing : Served r s s
  served : {t : Store} → t.current ≡ perform r s.current → IsSynced t → Served r s t

of_Outcome {ℓ} :
    {A : Type ℓ} (s : Store) (disk : Bool) (q : Result Err (Effect A)) (r : PlanRequest) {t : Store}
    → perform r s.current ≡ after s.current q
    → Outcome s disk q t
    → Served r s t
of_Outcome s disk q r e (unchanged p) = subst (Served r s) (sym p) nothing
of_Outcome s disk q r e (committed _ _ p c) = served (p ∙ sym e) (p ∙ sym c)

load_with-Served :
    (s : Store) (flag disk : Bool) → IsSynced s → Served restart s (load_with flag disk s)
unfolding perform
load_with-Served s true disk h = subst (λ d. Served restart s (record s { current = d })) h nothing
load_with-Served s false true h = served (ap recover_exchange_plans (sym h)) refl
load_with-Served s false false h =
    subst (λ d. Served restart s (record s { current = d })) h nothing

serve-Served :
    (s : Store) (disk : Bool) (r : PlanRequest) → IsSynced s → Served r s (serve s disk r)
unfolding serve perform load
serve-Served s disk (create env now fresh c p) h =
    of_Outcome s disk _ (create env now fresh c p) refl (transact-Outcome s disk _ h)
serve-Served s disk (update env now c p) h =
    of_Outcome s disk _ (update env now c p) refl (transact-Outcome s disk _ h)
serve-Served s disk (delete c id) h =
    of_Outcome s disk _ (delete c id) refl (transact-Outcome s disk _ h)
serve-Served s disk (claim env now fresh c id scheduled clock lead) h =
    of_Outcome s disk _ (claim env now fresh c id scheduled clock lead) refl
      (transact-Outcome s disk _ h)
serve-Served s disk (progress id key attempt message) h =
    of_Outcome s disk _ (progress id key attempt message) refl (transact-Outcome s disk _ h)
serve-Served s disk (finish id key state attempt message) h =
    of_Outcome s disk _ (finish id key state attempt message) refl (transact-Outcome s disk _ h)
serve-Served s disk (phase id key ph message) h =
    of_Outcome s disk _ (phase id key ph message) refl (transact-Outcome s disk _ h)
serve-Served s disk restart h = load_with-Served s s.read_only disk h

-- What every allowed change by the requests of `Ok` keeps, in memory and in the file.
module _ (Ok : PlanRequest → Type 0) (P : List ExchangePlan → Type 0)
    (step : (r : PlanRequest)
      → Ok r
      → (ps qs : List ExchangePlan) → PlanChange (made_by r) ps qs
      → P ps
      → P qs) where
  Served-keeps :
      (r : PlanRequest)
      → Ok r
      → {s t : Store} → Served r s t
      → IsSynced s
      → P (plans s.current)
      → IsSynced t × P (plans t.current)
  Served-keeps r good nothing h p = (h, p)
  Served-keeps r good {s} (served e k) h p =
      (k, subst (λ d. P (plans d)) (sym e) (step r good _ _ (perform-PlanChange r s.current) p))

  serve_all-keeps :
      (rs : List (Bool × PlanRequest)) (s : Store)
      → All (λ x. Ok x.1) rs
      → IsSynced s
      → P (plans s.current)
      → IsSynced (serve_all s rs) × P (plans (serve_all s rs).current)
  unfolding serve_all
  serve_all-keeps [] s good h p = (h, p)
  serve_all-keeps ((disk, r) ∷ rs) s good h p =
      let kept = Served-keeps r good.0 (serve-Served s disk r h) h p in
      serve_all-keeps rs (serve s disk r) good.1 kept.0 kept.1

any_request : (rs : List (Bool × PlanRequest)) → All (λ x. Unit {0}) rs
any_request [] = tt
any_request (r ∷ rs) = (tt, any_request rs)

-- If memory and file agree and no account has two running plans for one good, the same holds
-- after any requests on plans, whoever made them and whatever became of each save and restart.
pub serve_all-IsExclusive :
    (rs : List (Bool × PlanRequest)) (s : Store)
    → IsSynced s
    → IsExclusive (plans s.current)
    → IsSynced (serve_all s rs) × IsExclusive (plans (serve_all s rs).current)
serve_all-IsExclusive rs s =
    serve_all-keeps (λ _. Unit {0}) IsExclusive (λ _ _ _ _ c h. PlanChange-IsExclusive c h) rs s
      (any_request rs)

-- The request does not add a plan of the identifier.
abbrev pub MakesOther : String → PlanRequest → Type 0
MakesOther id r = made_by r ≢ some id

-- If memory and file agree, every plan has a state, none that waits has sent a request, and the plans
-- of an identifier have sent `n` requests, one at least, and do not wait, then all of it holds after any
-- requests that add no plan of that identifier, failed saves and restarts: a plan that has sent
-- a request never waits to be claimed again, and its count of requests never falls.
pub serve_all-IsSpent :
    (rs : List (Bool × PlanRequest)) (s : Store) (id : String) (n : ℕ)
    → 1 ≤ n
    → All (λ x. MakesOther id x.1) rs
    → IsSynced s
    → All IsSound (plans s.current)
    → All (IsSpent id n) (plans s.current)
    → IsSynced (serve_all s rs)
      × All IsSound (plans (serve_all s rs).current)
      × All (IsSpent id n) (plans (serve_all s rs).current)
serve_all-IsSpent rs s id n one other h sound spent =
    let kept =
      serve_all-keeps (MakesOther id) (λ ps. All IsSound ps × All (IsSpent id n) ps)
        (λ r good ps qs c k. (PlanChange-IsSound c k.0, PlanChange-IsSpent id n one good c k.0 k.1))
        rs s other h (sound, spent) in
    (kept.0, kept.1.0, kept.1.1)
