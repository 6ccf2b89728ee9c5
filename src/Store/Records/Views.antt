-- ===== src/Store/Records/Views.antt =====
-- internal/store/store.go: the reads that the API answers from, by user and admin flag.
-- `AccountsForUser`
use miyohub.Base.{
  Bool, Bool-cases, List, Option, String, [], any_of, ap, arith, find_first, if◌then◌else◌, inl,
  inr, keep_if, map, refl, ◌&&◌, ◌==◌, ◌∙◌, ◌∷◌, ◌≡◌,
}
use miyohub.Model.{State}
use miyohub.Model.Accounts.{Account}
use miyohub.Model.Plans.{ExchangePlan}
use miyohub.Model.Users.{User}
use miyohub.Store.Lookup.{account_owned, is_admin, may_see}
use miyohub.Store.Plans.Editing.{plans}
use miyohub.Store.Users.Deletion.{listed}
use miyohub.Store.Users.Sessions.{public_user}

unfoldable pub accounts_for_user : String → Bool → State → List Account
accounts_for_user user_id admin d = keep_if (may_see user_id admin) d.config.accounts

-- `AccountForUser`
unfoldable pub account_for_user : String → Bool → String → State → Option Account
account_for_user user_id admin id d =
    find_first (λ a. a.id == id && may_see user_id admin a) d.config.accounts

-- `HasAdmin`, which counts the active administrators.
unfoldable pub has_admin : State → Bool
has_admin d = any_of is_admin d.users

-- `ListUsers`
unfoldable pub list_users : State → List User
list_users d = map public_user d.users

-- The accounts that `ExchangePlansForUser` first puts in a map.
abbrev pub seen_ids : String → Bool → List Account → List String
seen_ids user_id admin [] = []
seen_ids user_id admin (a ∷ accounts) =
    if may_see user_id admin a
    then a.id ∷ seen_ids user_id admin accounts
    else seen_ids user_id admin accounts

-- `ExchangePlansForUser`
unfoldable pub exchange_plans_for_user : String → Bool → State → List ExchangePlan
exchange_plans_for_user user_id admin d =
    keep_if (λ p. listed p.account_id (seen_ids user_id admin d.config.accounts)) (plans d)

-- `ExchangePlanForUser`
unfoldable pub exchange_plan_for_user : String → Bool → String → State → Option ExchangePlan
exchange_plan_for_user user_id admin id d =
    find_first (λ p. p.id == id && account_owned d user_id admin p.account_id) (plans d)

seen_ids-owned :
    (user_id : String) (admin : Bool) (id : String) (accounts : List Account)
    → listed id (seen_ids user_id admin accounts)
      ≡ any_of (λ a. a.id == id && may_see user_id admin a) accounts
seen_ids-owned user_id admin id [] = refl
seen_ids-owned user_id admin id (a ∷ accounts) = elim (Bool-cases (may_see user_id admin a)) [
  | inl k ↦ ground (arith, k, seen_ids-owned user_id admin id accounts)
  | inr k ↦ ground (arith, k, seen_ids-owned user_id admin id accounts)
]

keep_if-same :
    {A : Type 0} (p q : A → Bool) (xs : List A)
    → ((x : A) → p x ≡ q x)
    → keep_if p xs ≡ keep_if q xs
keep_if-same p q [] h = refl
keep_if-same p q (x ∷ xs) h = elim (Bool-cases (q x)) [
  | inl k ↦ rw (h x ∙ k, k) (ap (λ ys. x ∷ ys) (keep_if-same p q xs h))
  | inr k ↦ rw (h x ∙ k, k) (keep_if-same p q xs h)
]

-- The list of plans that a user reads holds exactly the plans that the operations let the same
-- user touch: the two tests of ownership agree.
pub exchange_plans_for_user-owned :
    (user_id : String) (admin : Bool) (d : State)
    → exchange_plans_for_user user_id admin d
      ≡ keep_if (λ p. account_owned d user_id admin p.account_id) (plans d)
unfolding exchange_plans_for_user
exchange_plans_for_user-owned user_id admin d =
    keep_if-same _ _ (plans d) λ p. seen_ids-owned user_id admin p.account_id d.config.accounts
