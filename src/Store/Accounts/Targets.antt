-- ===== src/Store/Accounts/Targets.antt =====
-- internal/store/accounts.go: what the search for the account to bind again has found.
use miyohub.Base.{
  Bool-cases, List, Option, String, [], ap, arith, blank, count_if, find_first, if◌then◌else◌, inl,
  inr, none, not, refl, some, some-injective, subst, true, ◌==◌, ◌||◌, ◌∷◌, ◌≡◌, ◌≤◌, ◌⊎◌,
}
use miyohub.Base.Result.{Result, err, ok}
use miyohub.Model.Accounts.{Account}
use miyohub.Store.Accounts.Binding.{find_target, has_target, same_account}
use miyohub.Store.Errors.{Err}
use miyohub.Store.Transaction.{require-ok}

abbrev target_of : Result Err (Option Account) → Option Account
target_of (ok t) = t
target_of (err e) = none

module _ (a : Account) (user_id : String) where
  step :
      (target r : Option Account) (x : Account) (xs : List Account)
      → find_target a user_id target (x ∷ xs) ≡ ok r
      → ((not (same_account a x) || blank user_id || x.user_id == user_id) ≡ true)
        × ((not (same_account a x) || not (has_target target)) ≡ true)
        × (find_target a user_id (if same_account a x then some x else target) xs ≡ ok r)
  unfolding find_target
  step target r x xs h =
      let (p, h1) = require-ok _ _ _ _ h in
      let (q, h2) = require-ok _ _ _ _ h1 in let (s, h3) = require-ok _ _ _ _ h2 in (p, s, h3)

  -- With a target the rest has no match.
  found_before :
      (y : Account) (r : Option Account) (xs : List Account)
      → find_target a user_id (some y) xs ≡ ok r
      → (some y ≡ r) × (count_if (same_account a) xs ≡ 0)
  unfolding find_target
  found_before y r [] h = (ap target_of h, refl)
  found_before y r (x ∷ xs) h =
      let (p, s, rest) = step (some y) r x xs h in
      elim (Bool-cases (same_account a x)) [
        | inl e ↦ absurd (cc (rw e at s))
        | inr e ↦ let k = found_before y r xs (rw e at rest) in (k.0, rw e k.1)
      ]

  -- The target is the only match, and an account that the caller may bind.
  pub find_target-first :
      (r : Option Account) (xs : List Account)
      → find_target a user_id none xs ≡ ok r
      → (find_first (same_account a) xs ≡ r) × (count_if (same_account a) xs ≤ 1)
  unfolding find_target
  find_target-first r [] h = (ap target_of h, omega arith)
  find_target-first r (x ∷ xs) h =
      let (p, s, rest) = step none r x xs h in
      elim (Bool-cases (same_account a x)) [
        | inl e ↦ let k = found_before x r xs (rw e at rest) in rw (e, k.1) (k.0, omega arith)
        | inr e ↦ let k = find_target-first r xs (rw e at rest) in rw e k
      ]

  pub find_target-owner :
      (y : Account) (r : Option Account) (xs : List Account)
      → find_target a user_id r xs ≡ ok (some y)
      → (r ≡ some y) ⊎ ((blank user_id || y.user_id == user_id) ≡ true)
  unfolding find_target
  find_target-owner y r [] h = inl (ap target_of h)
  find_target-owner y r (x ∷ xs) h =
      let (p, s, rest) = step r (some y) x xs h in
      elim (Bool-cases (same_account a x)) [
        | inl e ↦ elim (find_target-owner y (some x) xs (rw e at rest)) [
          | inl f ↦ inr (
              subst (λ z. (blank user_id || z.user_id == user_id) ≡ true) (some-injective x y f)
                (rw e at p))
          | inr f ↦ inr f
        ]
        | inr e ↦ find_target-owner y r xs (rw e at rest)
      ]
