-- ===== src/Store/Plans/Editing.antt =====
-- internal/store/exchange.go: how users make, edit and delete exchange plans, each operation over the
-- state under the lock. `now` is the server's time and `fresh` the random part of a new identifier.
use Prim.Native.String.{len}
use miyohub.Base.{
  Bool, List, String, [], blank, eqb, find_first, leb, not, remove_first, replace_first, ℕ, ◌&&◌,
  ◌++◌, ◌+◌, ◌==◌, ◌||◌, ◌∷◌,
}
use miyohub.Base.Int.{leb_ℤ, ltb_ℤ, pos}
use miyohub.Base.Result.{Result, ok, require, ◌>>=◌, ◌>>◌}
use miyohub.Model.{State}
use miyohub.Model.Plans.{ExchangePlan, Phase, PlanState, is_pending, is_running, unix}
use miyohub.Store.Environment.{Environment, has_control}
use miyohub.Store.Errors.{Err}
use miyohub.Store.Lookup.{account_owned, check_exchange_access}
use miyohub.Store.Transaction.{Effect, or_fail, write}
use Prim.Native.String.{◌++◌ as append}

-- A request of a user of the site, or of the engine itself with an empty user and the admin flag.
pub record Caller : Type 0 where
  pub user_id : String
  pub admin : Bool

-- The bounds and forbidden characters of the text fields of a plan.
abbrev pub good_field : String → Bool
unfolding has_control
good_field v = leb (len v) 512 && not (has_control v)

abbrev pub good_fields : ExchangePlan → Bool
good_fields p =
    good_field p.goods_id
    && good_field p.account_id
    && good_field p.goods_name
    && good_field p.uid
    && good_field p.region
    && good_field p.game_biz
    && good_field p.address_id

-- `validatePlan`
unfoldable pub validate_plan : Environment → ℕ → ExchangePlan → Result Err (Unit {0})
unfolding unix
validate_plan env now p = do
  require (not (blank p.account_id || blank p.goods_id)) Err.choose_account_and_goods
  require (good_fields p) Err.bad_plan_field
  require
      (not (
        p.auto
        && (leb_ℤ p.exchange_at (unix now) || ltb_ℤ (unix (env.year_later now)) p.exchange_at)))
      Err.not_within_year
  require (not (ltb_ℤ p.exchange_at (pos 0))) Err.bad_exchange_time

abbrev pub plans : State → List ExchangePlan
plans d = d.config.shop.plans

abbrev pub set_plans : State → List ExchangePlan → State
set_plans d ps = record d {
  config = record (d.config) { shop = record (d.config.shop) { plans = ps } };
}

-- The loop's test for the plan of an identifier that the caller may touch.
abbrev pub own_plan : State → Caller → String → ExchangePlan → Bool
own_plan d c id p = p.id == id && account_owned d c.user_id c.admin p.account_id

unfoldable pub new_plan : ExchangePlan → String → ExchangePlan
new_plan p id = record p {
  id = id;
  state = PlanState.pending;
  phase = Phase.idle;
  revision = 1;
  attempt = 0;
  attempt_key = "";
  last_run = "";
  last_result = "";
  device_fp = "";
}

-- `CreateExchangePlan`
unfoldable pub create_exchange_plan :
    Environment → ℕ → String → Caller → ExchangePlan → State → Result Err (Effect ExchangePlan)
unfolding check_exchange_access validate_plan new_plan
create_exchange_plan env now fresh c p d = do
  check_exchange_access d c.user_id c.admin p.account_id
  validate_plan env now p
  let q = new_plan p (append "plan_" fresh)
  ok (write (set_plans d (plans d ++ q ∷ [])) q)

unfoldable pub edited_plan : ExchangePlan → ExchangePlan → ExchangePlan
edited_plan old p = record p {
  state = old.state;
  phase = old.phase;
  revision = old.revision + 1;
  attempt = old.attempt;
  attempt_key = old.attempt_key;
  last_run = old.last_run;
  last_result = old.last_result;
  device_fp = "";
}

-- `UpdateExchangePlan`: an edit is taken from a pending plan of the revision that was read.
unfoldable pub update_exchange_plan :
    Environment → ℕ → Caller → ExchangePlan → State → Result Err (Effect ExchangePlan)
unfolding check_exchange_access validate_plan edited_plan
update_exchange_plan env now c p d = do
  old ← or_fail (find_first (λ q. q.id == p.id) (plans d)) Err.no_such_plan
  require
      (account_owned d c.user_id c.admin old.account_id
        && account_owned d c.user_id c.admin p.account_id)
      Err.no_such_plan
  check_exchange_access d c.user_id c.admin old.account_id
  check_exchange_access d c.user_id c.admin p.account_id
  require (is_pending old.state && eqb old.revision p.revision) Err.plan_changed
  validate_plan env now p
  let q = edited_plan old p
  ok (write (set_plans d (replace_first (λ r. r.id == p.id) q (plans d))) q)

-- `DeleteExchangePlan`
unfoldable pub delete_exchange_plan : Caller → String → State → Result Err (Effect (Unit {0}))
delete_exchange_plan c id d = do
  p ← or_fail (find_first (own_plan d c id) (plans d)) Err.no_such_plan
  require (not (is_running p.state)) Err.plan_running
  ok (write (set_plans d (remove_first (own_plan d c id) (plans d))) tt)
