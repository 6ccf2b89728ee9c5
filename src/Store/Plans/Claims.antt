-- ===== src/Store/Plans/Claims.antt =====
-- internal/store/exchange.go, permissions.go: what a granted claim says, since the exchange request
-- that spends the user's coins goes out for a granted claim only.
use miyohub.Base.{
  Bool, Bool-cases, Option, String, any_of, any_of_mono, arith, false, find_first, inl, inr, none,
  not, refl, replace_first, some, true, ℕ, ◌&&◌, ◌+◌, ◌<◌, ◌==◌, ◌≡◌, ◌⊎◌,
}
use miyohub.Base.Int.{leb_ℤ}
use miyohub.Base.Result.{ok, ◌>>=◌}
use miyohub.Model.{State}
use miyohub.Model.Accounts.{Account}
use miyohub.Model.Plans.{ExchangePlan, Phase, PlanState, dispatch_window, is_pending, of_unix, unix}
use miyohub.Model.Users.{User}
use miyohub.Store.Environment.{Environment}
use miyohub.Store.Errors.{Err}
use miyohub.Store.Lookup.{
  account_can_exchange, account_owned, account_runnable, caller_admin, calling_user,
  check_exchange_access, is_admin, may_see,
}
use miyohub.Store.Plans.Editing.{Caller, own_plan, plans, set_plans}
use miyohub.Store.Plans.Execution.{
  claim_exchange_plan_at, missed_plan, reserve_plan, same_running, window_open,
}
use miyohub.Store.Transaction.{
  Effect, Ensures, Ensures-bind, Ensures-eq, Ensures-find, Ensures-if, Ensures-require, does, keep,
  write, write_fail,
}

-- What `checkExchangeAccessLocked` guarantees when it lets a caller pass.
pub record HasAccess (d : State) (c : Caller) (account_id : String) : Type 0 where
  pub owned : account_owned d c.user_id c.admin account_id ≡ true
  pub allowed : account_can_exchange d account_id ≡ true

may_see-caller_admin :
    (u : String) (user : Option User) (admin : Bool) (id : String) (a : Account)
    → (a.id == id && may_see u (caller_admin user admin) a) ≡ true
    → (a.id == id && may_see u admin a) ≡ true
may_see-caller_admin u none admin id a h = h
may_see-caller_admin u (some user) false id a h = h
may_see-caller_admin u (some user) true id a h = elim (Bool-cases (is_admin user)) [
  | inl e ↦ rw e at h
  | inr e ↦ ground (arith, rw e at h)
]

pub check_exchange_access-HasAccess :
    (d : State) (c : Caller) (account_id : String) (u : Unit {0})
    → check_exchange_access d c.user_id c.admin account_id ≡ ok u
    → HasAccess d c account_id
unfolding check_exchange_access ◌>>=◌
check_exchange_access-HasAccess d c account_id u h = record {
  owned =
      any_of_mono _ _ d.config.accounts
        (may_see-caller_admin c.user_id (calling_user d c.user_id) c.admin account_id)
        (ground arith);
  allowed = ground arith;
}

-- The claim of the plan `p`, granted as `q` for the account `a`.
pub record IsGranted (d : State) (c : Caller) (id : String) (scheduled : Bool) (clock lead : ℕ)
    (p q : ExchangePlan) (a : Account) : Type 0 where
  pub found : find_first (own_plan d c id) (plans d) ≡ some p
  pub shop_open : d.config.shop.enabled ≡ true
  pub ready : (p.enabled && is_pending p.state) ≡ true
  pub access : HasAccess d c p.account_id
  pub account : account_runnable d p.account_id ≡ some a
  pub alone : any_of (same_running p.account_id p.goods_id) (plans d) ≡ false
  pub due :
      (scheduled ≡ false)
      ⊎ ((p.auto ≡ true)
          × (leb_ℤ p.exchange_at (unix (clock + lead)) ≡ true)
          × (clock < of_unix p.exchange_at + dispatch_window d.config.shop))
  pub prepared :
      (q.state ≡ PlanState.running) × (q.phase ≡ Phase.preparing) × (q.attempt ≡ 0) × (q.id ≡ p.id)

abbrev Grants : State → Caller → String → Bool → ℕ → ℕ → Effect (ExchangePlan × Account) → Type 0
Grants d c id scheduled clock lead (keep r) = ⊥
Grants d c id scheduled clock lead (write e (q, a)) =
    (p : ExchangePlan) × IsGranted d c id scheduled clock lead p q a
Grants d c id scheduled clock lead (write_fail e x) = (scheduled ≡ true) × (x ≡ Err.window_passed)

claim_Grants :
    (env : Environment) (now : ℕ) (fresh : String) (c : Caller) (id : String) (scheduled : Bool)
    (clock lead : ℕ) (d : State)
    → Ensures
        (Grants d c id scheduled clock lead)
        (claim_exchange_plan_at env now fresh c id scheduled clock lead d)
unfolding claim_exchange_plan_at reserve_plan
claim_Grants env now fresh c id scheduled clock lead d = Ensures-require _ _ _ λ shop.
    Ensures-find _ _ _ λ p found. Ensures-require _ _ _ λ ready. Ensures-bind _ _ λ u access.
      Ensures-find _ _ _ λ a runnable. Ensures-require _ _ _ λ due.
        Ensures-if (scheduled && not (window_open d clock p))
          (ok (
            write_fail (set_plans d (replace_first (own_plan d c id) (missed_plan p) (plans d)))
              Err.window_passed))
          (reserve_plan env now fresh (own_plan d c id) p a d) (λ late. does _ (ground arith, refl))
          (λ open_window. Ensures-require _ _ _ λ alone. does _ (
            p,
            record {
              found = found;
              shop_open = shop;
              ready = ready;
              access = check_exchange_access-HasAccess d c p.account_id u access;
              account = runnable;
              alone = ground arith;
              due = elim (Bool-cases scheduled) [
                | inl s ↦ inr (ground arith, ground arith, ground arith)
                | inr s ↦ inl s
              ];
              prepared = (refl, refl, refl, refl);
            },
          ))

-- A claim is granted only while the shop is open, to a caller with access to the plan's account, for
-- an enabled pending plan of a usable account with no running twin, and a scheduled claim only of an
-- automatic plan that is due within the lead and whose window has not passed. The plan is then
-- running with no request sent.
pub claim-IsGranted :
    (env : Environment) (now : ℕ) (fresh : String) (c : Caller) (id : String) (scheduled : Bool)
    (clock lead : ℕ) (d e : State) (q : ExchangePlan) (a : Account)
    → claim_exchange_plan_at env now fresh c id scheduled clock lead d ≡ ok (write e (q, a))
    → (p : ExchangePlan) × IsGranted d c id scheduled clock lead p q a
claim-IsGranted env now fresh c id scheduled clock lead d e q a h =
    Ensures-eq (Grants d c id scheduled clock lead)
      (claim_Grants env now fresh c id scheduled clock lead d) h
