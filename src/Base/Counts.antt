-- ===== src/Base/Counts.antt =====
-- How a count of the elements that pass a test moves under the writes of Base/Lists.antt.
use Prim.Native.Nat.{ℕ, suc, ◌+◌, ◌≤◌, ◌<◌}
use mathlib.Core.Path.{◌≡◌, refl, ap, sym, ◌∙◌}
use mathlib.Core.Bool.{Bool, true, false, not, ◌&&◌}
use mathlib.Core.Option.{none, some, some-injective}
use mathlib.Core.List.{List, [], ◌∷◌, ◌++◌}
use native.Mathlib.Omega.{arith}
use mathlib.Core.Logic.{inl, inr}
use miyohub.Base.Tests.{Bool-cases}
use miyohub.Base.Lists.{
  find_first-passes, any_of, length, find_first, replace_first, remove_first, keep_if, count_if,
}

-- 1 where the test passes.
abbrev pub weight : Bool → ℕ
weight true = 1
weight false = 0

module _ {ℓ} {A : Type ℓ} (q : A → Bool) where
  pub count_if-append : (xs ys : List A) → count_if q (xs ++ ys) ≡ count_if q xs + count_if q ys
  count_if-append [] ys = omega arith
  count_if-append (x ∷ xs) ys = ground (arith, count_if-append xs ys)

  pub count_if-le-length : (xs : List A) → count_if q xs ≤ length xs
  count_if-le-length [] = omega arith
  count_if-le-length (x ∷ xs) = ground (arith, count_if-le-length xs)

  -- A write at the first match takes the old element out of the count and puts the new one in.
  pub count_if-replace_first :
      (t : A → Bool) (v a : A) (xs : List A)
      → find_first t xs ≡ some a
      → count_if q (replace_first t v xs) + weight (q a) ≡ count_if q xs + weight (q v)
  count_if-replace_first t v a [] h = cc
  count_if-replace_first t v a (x ∷ xs) h = ground (arith, count_if-replace_first t v a xs)

  pub count_if-remove_first :
      (t : A → Bool) (a : A) (xs : List A)
      → find_first t xs ≡ some a
      → count_if q (remove_first t xs) + weight (q a) ≡ count_if q xs
  count_if-remove_first t a [] h = cc
  count_if-remove_first t a (x ∷ xs) h = ground (arith, count_if-remove_first t a xs)

  pub count_if-remove_first-le :
      (t : A → Bool) (xs : List A) → count_if q (remove_first t xs) ≤ count_if q xs
  count_if-remove_first-le t [] = omega arith
  count_if-remove_first-le t (x ∷ xs) = ground (arith, count_if-remove_first-le t xs)

  pub count_if-keep_if-le : (t : A → Bool) (xs : List A) → count_if q (keep_if t xs) ≤ count_if q xs
  count_if-keep_if-le t [] = omega arith
  count_if-keep_if-le t (x ∷ xs) = ground (arith, count_if-keep_if-le t xs)

  -- An element of the count is present.
  pub count_if-pos :
      (t : A → Bool) (a : A) (xs : List A)
      → find_first t xs ≡ some a
      → q a ≡ true
      → 0 < count_if q xs
  count_if-pos t a [] h p = absurd (cc h)
  count_if-pos t a (x ∷ xs) h p = ground (arith, count_if-pos t a xs)

  pub count_if-none : (xs : List A) → any_of q xs ≡ false → count_if q xs ≡ 0
  count_if-none [] h = refl
  count_if-none (x ∷ xs) h = ground (arith, count_if-none xs)

-- Filtering by a test takes at least one element out of the count where one of it fails the test.
module _ {ℓ} {A : Type ℓ} (q t : A → Bool) where
  pub count_if-keep_if-lt :
      (xs : List A)
      → any_of (λ x. q x && not (t x)) xs ≡ true
      → suc (count_if q (keep_if t xs)) ≤ count_if q xs
  count_if-keep_if-lt [] h = cc
  count_if-keep_if-lt (x ∷ xs) h =
      ground (arith, count_if-keep_if-lt xs, count_if-keep_if-le q t xs)

  pub count_if-keep_if_none :
      (xs : List A) → ((x : A) → (q x && t x) ≡ false) → count_if q (keep_if t xs) ≡ 0
  count_if-keep_if_none [] h = refl
  count_if-keep_if_none (x ∷ xs) h = ground (arith, h x, count_if-keep_if_none xs h)

  pub count_if-le :
      ((x : A) → q x ≡ true → t x ≡ true) → (xs : List A) → count_if q xs ≤ count_if t xs
  count_if-le f [] = omega arith
  count_if-le f (x ∷ xs) = elim (Bool-cases (q x)) [
    | inl e ↦ rw (e, f x e) (omega (arith, count_if-le f xs))
    | inr e ↦ ground (arith, count_if-le f xs)
  ]

  pub count_if-none_found :
      (xs : List A)
      → ((x : A) → q x ≡ true → t x ≡ true)
      → find_first t xs ≡ none
      → count_if q xs ≡ 0
  count_if-none_found [] f e = refl
  count_if-none_found (x ∷ xs) f e = elim (Bool-cases (t x)) [
    | inl p ↦ absurd (cc (rw p at e))
    | inr p ↦ ground (arith, f x, count_if-none_found xs f)
  ]

pub any_of-never {ℓ} : {A : Type ℓ} (xs : List A) → any_of (λ x. false) xs ≡ false
any_of-never [] = refl
any_of-never (x ∷ xs) = any_of-never xs

-- Where nothing passes `r`, a test that is smaller but for `r`.
module _ {ℓ} {A : Type ℓ} (q r t : A → Bool) where
  count_if-le_but :
      (xs : List A)
      → ((x : A) → q x ≡ true → r x ≡ false → t x ≡ true)
      → any_of r xs ≡ false
      → count_if q xs ≤ count_if t xs
  count_if-le_but [] f n = omega arith
  count_if-le_but (x ∷ xs) f n = elim (Bool-cases (q x)) [
    | inl e ↦ ground (arith, f x e, count_if-le_but xs f)
    | inr e ↦ ground (arith, count_if-le_but xs f)
  ]

  -- It misses an element that passes the larger one.
  pub count_if-lt :
      (s : A → Bool) (a : A) (xs : List A)
      → ((x : A) → q x ≡ true → r x ≡ false → t x ≡ true)
      → any_of r xs ≡ false
      → find_first s xs ≡ some a
      → t a ≡ true
      → q a ≡ false
      → suc (count_if q xs) ≤ count_if t xs
  count_if-lt s a [] f n e h k = cc
  count_if-lt s a (x ∷ xs) f n e h k = elim (Bool-cases (s x)) [
    | inl p ↦
        let same = some-injective x a (rw p at e) in
        ground (arith, ap t same, ap q same, count_if-le_but xs f)
    | inr p ↦ ground (arith, f x, count_if-lt s a xs f)
  ]

-- A smaller test finds the only element that passes the larger one, also after a write there that
-- the smaller test does not see.
module _ {ℓ} {A : Type ℓ} (s t : A → Bool) where
  pub find_first-only :
      (a r v : A) (xs : List A)
      → ((x : A) → s x ≡ true → t x ≡ true)
      → count_if t xs ≤ 1
      → find_first t xs ≡ some a
      → find_first s xs ≡ some r
      → s v ≡ s a
      → (a ≡ r) × (find_first s (replace_first t v xs) ≡ some v)
  find_first-only a r v [] f c e g k = absurd (cc e)
  find_first-only a r v (x ∷ xs) f c e g k = elim (Bool-cases (t x)) [
    | inl p ↦
        let here : x ≡ a = some-injective x a (rw p at e) in
        elim (Bool-cases (s x)) [
          | inl q ↦
              let same : x ≡ r = some-injective x r (rw q at g) in
              rw (p, k ∙ ap s (sym here) ∙ q) (sym here ∙ same, refl)
          | inr q ↦
              let later : find_first s xs ≡ some r = rw q at g in
              let one : suc (count_if t xs) ≤ 1 = rw p at c in
              let some_more = count_if-pos t s r xs later (f r (find_first-passes s xs r later)) in
              absurd (omega (arith, one, some_more))
        ]
    | inr p ↦ elim (Bool-cases (s x)) [
      | inl q ↦ absurd (cc (p, f x q))
      | inr q ↦ rw (p, q) (find_first-only a r v xs f (rw p at c) (rw p at e) (rw q at g) k)
    ]
  ]
