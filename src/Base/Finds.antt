-- ===== src/Base/Finds.antt =====
-- What the first match of a test is after the writes of Base/Lists.antt.
use mathlib.Core.Path.{◌≡◌, refl, ap, ◌∙◌}
use mathlib.Core.Logic.{inl, inr}
use mathlib.Core.Bool.{Bool, true, false}
use mathlib.Core.Option.{none, some, some-injective}
use mathlib.Core.List.{List, [], ◌∷◌, ◌++◌}
use native.Mathlib.Omega.{arith}
use miyohub.Base.Tests.{Bool-cases}
use miyohub.Base.Lists.{any_of, find_first, replace_first, keep_if}

module _ {ℓ} {A : Type ℓ} (t : A → Bool) where
  pub find_first-any_of : (xs : List A) (a : A) → find_first t xs ≡ some a → any_of t xs ≡ true
  find_first-any_of [] a h = absurd (cc h)
  find_first-any_of (x ∷ xs) a h = ground (arith, find_first-any_of xs a)

  pub find_first-none : (xs : List A) → any_of t xs ≡ false → find_first t xs ≡ none
  find_first-none [] h = refl
  find_first-none (x ∷ xs) h = ground (arith, find_first-none xs)

  pub find_first-keep_if :
      (s : A → Bool) (a : A) (xs : List A)
      → find_first t xs ≡ some a
      → s a ≡ true
      → find_first t (keep_if s xs) ≡ some a
  find_first-keep_if s a [] h k = absurd (cc h)
  find_first-keep_if s a (x ∷ xs) h k = elim (Bool-cases (t x)) [
    | inl e ↦ let same = some-injective x a (rw e at h) in rw (ap s same ∙ k, e) (ap some same)
    | inr e ↦ elim (Bool-cases (s x)) [
      | inl f ↦ rw (f, e) (find_first-keep_if s a xs (rw e at h) k)
      | inr f ↦ rw f (find_first-keep_if s a xs (rw e at h) k)
    ]
  ]

  pub find_first-replace_first :
      (v : A) (xs : List A)
      → any_of t xs ≡ true
      → t v ≡ true
      → find_first t (replace_first t v xs) ≡ some v
  find_first-replace_first v [] h k = absurd (cc h)
  find_first-replace_first v (x ∷ xs) h k = elim (Bool-cases (t x)) [
    | inl e ↦ rw (e, k) refl
    | inr e ↦ rw (e, e) (find_first-replace_first v xs (rw e at h) k)
  ]

  pub find_first-replace_first_out :
      (s : A → Bool) (v : A) (xs : List A)
      → ((x : A) → s x ≡ true → t x ≡ false)
      → t v ≡ false
      → find_first t (replace_first s v xs) ≡ find_first t xs
  find_first-replace_first_out s v [] f k = refl
  find_first-replace_first_out s v (x ∷ xs) f k = elim (Bool-cases (s x)) [
    | inl e ↦ rw (e, k, f x e) refl
    | inr e ↦ rw (e, find_first-replace_first_out s v xs f k) refl
  ]

  pub find_first-append :
      (v : A) (xs : List A)
      → any_of t xs ≡ false
      → t v ≡ true
      → find_first t (xs ++ v ∷ []) ≡ some v
  find_first-append v [] h k = rw k refl
  find_first-append v (x ∷ xs) h k = elim (Bool-cases (t x)) [
    | inl e ↦ absurd (cc (rw e at h))
    | inr e ↦ rw e (find_first-append v xs (rw e at h) k)
  ]

  pub find_first-append_out :
      (v : A) (xs : List A) → t v ≡ false → find_first t (xs ++ v ∷ []) ≡ find_first t xs
  find_first-append_out v [] k = rw k refl
  find_first-append_out v (x ∷ xs) k = rw (find_first-append_out v xs k) refl

  pub any_of-find_first : (xs : List A) → find_first t xs ≡ none → any_of t xs ≡ false
  any_of-find_first [] h = refl
  any_of-find_first (x ∷ xs) h = elim (Bool-cases (t x)) [
    | inl e ↦ absurd (cc (rw e at h))
    | inr e ↦ rw e (any_of-find_first xs (rw e at h))
  ]

  pub find_first-keep_if-none :
      (s : A → Bool) (xs : List A) → find_first t xs ≡ none → find_first t (keep_if s xs) ≡ none
  find_first-keep_if-none s [] h = refl
  find_first-keep_if-none s (x ∷ xs) h = elim (Bool-cases (t x)) [
    | inl e ↦ absurd (cc (rw e at h))
    | inr e ↦ elim (Bool-cases (s x)) [
      | inl f ↦ rw (f, e) (find_first-keep_if-none s xs (rw e at h))
      | inr f ↦ rw f (find_first-keep_if-none s xs (rw e at h))
    ]
  ]

  -- A test that every element fails, after the writes.
  pub any_of-keep_if_out :
      (s : A → Bool) (xs : List A) → any_of t xs ≡ false → any_of t (keep_if s xs) ≡ false
  any_of-keep_if_out s [] h = refl
  any_of-keep_if_out s (x ∷ xs) h = ground (arith, any_of-keep_if_out s xs)

  pub any_of-replace_first_out :
      (s : A → Bool) (v : A) (xs : List A)
      → any_of t xs ≡ false
      → t v ≡ false
      → any_of t (replace_first s v xs) ≡ false
  any_of-replace_first_out s v [] h k = refl
  any_of-replace_first_out s v (x ∷ xs) h k = ground (arith, any_of-replace_first_out s v xs)

  pub any_of-append_out :
      (v : A) (xs : List A) → any_of t xs ≡ false → t v ≡ false → any_of t (xs ++ v ∷ []) ≡ false
  any_of-append_out v [] h k = rw k refl
  any_of-append_out v (x ∷ xs) h k = ground (arith, any_of-append_out v xs)

  -- Where every element fails a larger test, all are kept out of it.
  pub any_of-dropped :
      (s : A → Bool) (xs : List A)
      → ((x : A) → t x ≡ true → s x ≡ false)
      → any_of t (keep_if s xs) ≡ false
  any_of-dropped s [] f = refl
  any_of-dropped s (x ∷ xs) f = elim (Bool-cases (s x)) [
    | inr e ↦ rw e (any_of-dropped s xs f)
    | inl e ↦ elim (Bool-cases (t x)) [
      | inl p ↦ absurd (cc (e, f x p))
      | inr p ↦ rw (e, p) (any_of-dropped s xs f)
    ]
  ]

  pub any_of-member :
      (s : A → Bool) (a : A) (xs : List A)
      → find_first s xs ≡ some a
      → any_of t xs ≡ false
      → t a ≡ false
  any_of-member s a [] h k = absurd (cc h)
  any_of-member s a (x ∷ xs) h k = ground (arith, any_of-member s a xs, some-injective x a)

  pub any_of-found :
      (s : A → Bool) (a : A) (xs : List A)
      → find_first s xs ≡ some a
      → t a ≡ true
      → any_of t xs ≡ true
  any_of-found s a xs h k = elim (Bool-cases (any_of t xs)) [
    | inl e ↦ e
    | inr e ↦ absurd (cc (k, any_of-member s a xs h e))
  ]
