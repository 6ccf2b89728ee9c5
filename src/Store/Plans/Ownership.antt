-- ===== src/Store/Plans/Ownership.antt =====
-- internal/store/exchange.go: a signed-in caller changes no plan of an account that is not its own,
-- whatever admin flag the request carries.
use miyohub.Base.{
  Bool, List, String, any_of-ext, arith, blank, false, find_first, find_first-passes, keep_if,
  keep_if-append_out, keep_if-remove_first_out, keep_if-replace_first_out, not, refl, replace_first,
  some, true, ℕ, ◌&&◌, ◌≡◌,
}
use miyohub.Base.Result.{ok}
use miyohub.Model.{State}
use miyohub.Model.Accounts.{Account}
use miyohub.Model.Plans.{ExchangePlan}
use miyohub.Store.Environment.{Environment}
use miyohub.Store.Errors.{Err}
use miyohub.Store.Lookup.{account_owned, check_exchange_access, may_see}
use miyohub.Store.Plans.Claims.{check_exchange_access-HasAccess}
use miyohub.Store.Plans.Editing.{
  Caller, create_exchange_plan, delete_exchange_plan, own_plan, plans, set_plans,
  update_exchange_plan,
}
use miyohub.Store.Plans.Execution.{claim_exchange_plan_at, missed_plan, reserve_plan, window_open}
use miyohub.Store.Plans.Requests.{PlanRequest, claim, create, delete, perform, update}
use miyohub.Store.Transaction.{
  Ensures, Ensures-after, Ensures-bind, Ensures-find, Ensures-if, Ensures-require, Saves, does,
  write_fail,
}

own_in_lem :
    (u : String) (admin : Bool) (a : Account)
    → blank u ≡ false
    → may_see u admin a ≡ may_see u false a
own_in_lem u true a h = rw h
own_in_lem u false a h = refl

-- The admin flag gives a signed-in caller nothing.
pub account_owned-admin :
    (d : State) (u : String) (admin : Bool) (id : String)
    → blank u ≡ false
    → account_owned d u admin id ≡ account_owned d u false id
account_owned-admin d u admin id h =
    any_of-ext _ _ d.config.accounts λ a. rw (own_in_lem u admin a h)

-- The plans that a user does not own.
abbrev pub foreign_plans : State → String → List ExchangePlan → List ExchangePlan
foreign_plans d u = keep_if (λ p. not (account_owned d u false p.account_id))

-- The requests that a caller makes; the rest are the engine's own.
pub data IsBy (c : Caller) : PlanRequest → Type 0 where
  by_create :
      (env : Environment) (now : ℕ) (fresh : String) (p : ExchangePlan)
      → IsBy c (create env now fresh c p)
  by_update : (env : Environment) (now : ℕ) (p : ExchangePlan) → IsBy c (update env now c p)
  by_delete : (id : String) → IsBy c (delete c id)
  by_claim :
      (env : Environment) (now : ℕ) (fresh id : String) (scheduled : Bool) (clock lead : ℕ)
      → IsBy c (claim env now fresh c id scheduled clock lead)

abbrev SameForeign : State → Caller → State → Type 0
SameForeign d c e = foreign_plans d c.user_id (plans e) ≡ foreign_plans d c.user_id (plans d)

module _ (d : State) (c : Caller) (signed_in : blank c.user_id ≡ false) where
  owned_out :
      (id : String)
      → account_owned d c.user_id c.admin id ≡ true
      → not (account_owned d c.user_id false id) ≡ false
  owned_out id h = rw (← account_owned-admin d c.user_id c.admin id signed_in, h)

  access_out :
      (id : String) (u : Unit {0})
      → check_exchange_access d c.user_id c.admin id ≡ ok u
      → not (account_owned d c.user_id false id) ≡ false
  access_out id u h = owned_out id (check_exchange_access-HasAccess d c id u h).owned

  create_SameForeign :
      (env : Environment) (now : ℕ) (fresh : String) (p : ExchangePlan)
      → Ensures (Saves (SameForeign d c)) (create_exchange_plan env now fresh c p d)
  unfolding create_exchange_plan
  create_SameForeign env now fresh p = Ensures-bind _ _ λ u access.
      Ensures-bind _ _
        λ _ _. does _ (keep_if-append_out _ _ (plans d) (access_out p.account_id u access))

  update_SameForeign :
      (env : Environment) (now : ℕ) (p : ExchangePlan)
      → Ensures (Saves (SameForeign d c)) (update_exchange_plan env now c p d)
  unfolding update_exchange_plan
  update_SameForeign env now p = Ensures-find _ _ _ λ old found. Ensures-require _ _ _ λ _.
      Ensures-bind _ _ λ u access. Ensures-bind _ _ λ v access_new. Ensures-require _ _ _ λ _.
        Ensures-bind _ _ λ _ _. does _ (
          keep_if-replace_first_out _ _ _ old (plans d) found (access_out old.account_id u access)
            (access_out p.account_id v access_new))

  own_plan_out :
      (id : String) (p : ExchangePlan)
      → find_first (own_plan d c id) (plans d) ≡ some p
      → not (account_owned d c.user_id false p.account_id) ≡ false
  own_plan_out id p found =
      owned_out p.account_id (ground (arith, find_first-passes _ (plans d) p found))

  delete_SameForeign :
      (id : String) → Ensures (Saves (SameForeign d c)) (delete_exchange_plan c id d)
  unfolding delete_exchange_plan
  delete_SameForeign id = Ensures-find _ _ _ λ p found.
      Ensures-require _ _ _
        λ _. does _ (keep_if-remove_first_out _ _ p (plans d) found (own_plan_out id p found))

  claim_SameForeign :
      (env : Environment) (now : ℕ) (fresh id : String) (scheduled : Bool) (clock lead : ℕ)
      → Ensures
          (Saves (SameForeign d c))
          (claim_exchange_plan_at env now fresh c id scheduled clock lead d)
  unfolding claim_exchange_plan_at reserve_plan
  claim_SameForeign env now fresh id scheduled clock lead = Ensures-require _ _ _ λ _.
      Ensures-find _ _ _ λ p found. Ensures-require _ _ _ λ _. Ensures-bind _ _ λ _ _.
        Ensures-find _ _ _ λ a _. Ensures-require _ _ _ λ _.
          let out = own_plan_out id p found in
          Ensures-if (scheduled && not (window_open d clock p))
            (ok (
              write_fail (set_plans d (replace_first (own_plan d c id) (missed_plan p) (plans d)))
                Err.window_passed))
            (reserve_plan env now fresh (own_plan d c id) p a d)
            (λ _. does _ (keep_if-replace_first_out _ _ _ p (plans d) found out out))
            (λ _.
              Ensures-require _ _ _
                λ _. does _ (keep_if-replace_first_out _ _ _ p (plans d) found out out))

-- No creation, edit, deletion or claim by a signed-in caller, whatever its admin flag, adds,
-- removes or changes a plan of an account that the caller does not own.
pub perform-foreign :
    (d : State) (c : Caller) (r : PlanRequest)
    → IsBy c r
    → blank c.user_id ≡ false
    → foreign_plans d c.user_id (plans (perform r d)) ≡ foreign_plans d c.user_id (plans d)
unfolding perform
perform-foreign d c _ (by_create env now fresh p) h =
    Ensures-after (SameForeign d c) refl (create_SameForeign d c h env now fresh p)
perform-foreign d c _ (by_update env now p) h =
    Ensures-after (SameForeign d c) refl (update_SameForeign d c h env now p)
perform-foreign d c _ (by_delete id) h =
    Ensures-after (SameForeign d c) refl (delete_SameForeign d c h id)
perform-foreign d c _ (by_claim env now fresh id scheduled clock lead) h =
    Ensures-after (SameForeign d c) refl
      (claim_SameForeign d c h env now fresh id scheduled clock lead)
