-- ===== src/Base/Lists.antt =====
-- Lists measured by native numbers, and the loops over slices that the program repeats: the first
-- match, a write at the first match, removal, filtering by a test, and quantifiers.
use Prim.Native.Nat.{ℕ, zero, suc, ◌+◌, ◌-◌, ◌≤◌}
use mathlib.Core.Path.{◌≡◌, refl, subst}
use mathlib.Core.Logic.{inl, inr}
use mathlib.Core.Bool.{Bool, true, false, ◌||◌}
use mathlib.Core.Option.{Option, none, some, some-injective}
use mathlib.Core.List.{List, [], ◌∷◌, ◌++◌}
use native.Mathlib.Omega.{arith}
use miyohub.Base.Tests.{if◌then◌else◌, Bool-cases}

module _ {ℓ} {A : Type ℓ} where
  abbrev pub length : List A → ℕ
  length [] = 0
  length (x ∷ xs) = suc (length xs)

  abbrev pub drop : ℕ → List A → List A
  drop zero xs = xs
  drop (suc n) [] = []
  drop (suc n) (x ∷ xs) = drop n xs

  -- `for _, x := range xs { if test(x) { return x } }`
  abbrev pub find_first : (A → Bool) → List A → Option A
  find_first t [] = none
  find_first t (x ∷ xs) = if t x then some x else find_first t xs

  -- `xs[i] = v` at the first index whose element passes the test.
  abbrev pub replace_first : (A → Bool) → A → List A → List A
  replace_first t v [] = []
  replace_first t v (x ∷ xs) = if t x then v ∷ xs else x ∷ replace_first t v xs

  -- `append(xs[:i], xs[i+1:]...)` at the first index whose element passes the test.
  abbrev pub remove_first : (A → Bool) → List A → List A
  remove_first t [] = []
  remove_first t (x ∷ xs) = if t x then xs else x ∷ remove_first t xs

  abbrev pub keep_if : (A → Bool) → List A → List A
  keep_if t [] = []
  keep_if t (x ∷ xs) = if t x then x ∷ keep_if t xs else keep_if t xs

  abbrev pub any_of : (A → Bool) → List A → Bool
  any_of t [] = false
  any_of t (x ∷ xs) = t x || any_of t xs

  abbrev pub count_if : (A → Bool) → List A → ℕ
  count_if t [] = 0
  count_if t (x ∷ xs) = if t x then suc (count_if t xs) else count_if t xs

  -- Every element has the property.
  abbrev pub All {κ} : (A → Type κ) → List A → Type κ
  All P [] = Unit
  All P (x ∷ xs) = P x × All P xs

  pub length-append : (xs ys : List A) → length (xs ++ ys) ≡ length xs + length ys
  length-append [] ys = omega arith
  length-append (x ∷ xs) ys = omega (arith, length-append xs ys)

  pub length-drop : (n : ℕ) (xs : List A) → length (drop n xs) ≡ length xs - n
  length-drop zero xs = omega arith
  length-drop (suc n) [] = omega arith
  length-drop (suc n) (x ∷ xs) = omega (arith, length-drop n xs)

  pub length-replace_first :
      (t : A → Bool) (v : A) (xs : List A) → length (replace_first t v xs) ≡ length xs
  length-replace_first t v [] = refl
  length-replace_first t v (x ∷ xs) = ground (arith, length-replace_first t v xs)

  pub length-keep_if-le : (t : A → Bool) (xs : List A) → length (keep_if t xs) ≤ length xs
  length-keep_if-le t [] = omega arith
  length-keep_if-le t (x ∷ xs) = ground (arith, length-keep_if-le t xs)

  pub find_first-passes :
      (t : A → Bool) (xs : List A) (a : A) → find_first t xs ≡ some a → t a ≡ true
  find_first-passes t [] a h = absurd (cc h)
  find_first-passes t (x ∷ xs) a h = ground (arith, find_first-passes t xs a, some-injective h)

module _ {ℓ} {A : Type ℓ} (s t : A → Bool) where
  pub any_of_mono :
      (xs : List A) → ((x : A) → s x ≡ true → t x ≡ true) → any_of s xs ≡ true → any_of t xs ≡ true
  any_of_mono [] f h = h
  any_of_mono (x ∷ xs) f h = elim (Bool-cases (s x)) [
    | inl e ↦ rw (f x e) refl
    | inr e ↦ ground (arith, any_of_mono xs f (rw e at h))
  ]

  pub any_of-ext : (xs : List A) → ((x : A) → s x ≡ t x) → any_of s xs ≡ any_of t xs
  any_of-ext [] f = refl
  any_of-ext (x ∷ xs) f = rw (f x, any_of-ext xs f) refl

-- What a write at an element outside a view leaves of the view.
module _ {ℓ} {A : Type ℓ} (q : A → Bool) where
  pub keep_if-append_out :
      (v : A) (xs : List A) → q v ≡ false → keep_if q (xs ++ v ∷ []) ≡ keep_if q xs
  keep_if-append_out v [] h = rw h
  keep_if-append_out v (x ∷ xs) h = ground (arith, keep_if-append_out v xs)

  pub keep_if-replace_first_out :
      (t : A → Bool) (v a : A) (xs : List A)
      → find_first t xs ≡ some a
      → q a ≡ false
      → q v ≡ false
      → keep_if q (replace_first t v xs) ≡ keep_if q xs
  keep_if-replace_first_out t v a [] e h k = refl
  keep_if-replace_first_out t v a (x ∷ xs) e h k =
      ground (arith, keep_if-replace_first_out t v a xs)

  pub keep_if-remove_first_out :
      (t : A → Bool) (a : A) (xs : List A)
      → find_first t xs ≡ some a
      → q a ≡ false
      → keep_if q (remove_first t xs) ≡ keep_if q xs
  keep_if-remove_first_out t a [] e h = refl
  keep_if-remove_first_out t a (x ∷ xs) e h = ground (arith, keep_if-remove_first_out t a xs)

module _ {ℓ κ} {A : Type ℓ} (P : A → Type κ) where
  pub All-append : (xs ys : List A) → All P xs → All P ys → All P (xs ++ ys)
  All-append [] ys h k = k
  All-append (x ∷ xs) ys h k = (h.0, All-append xs ys h.1 k)

  pub All-drop : (n : ℕ) (xs : List A) → All P xs → All P (drop n xs)
  All-drop zero xs h = h
  All-drop (suc n) [] h = tt
  All-drop (suc n) (x ∷ xs) h = All-drop n xs h.1

  pub All-replace_first :
      (t : A → Bool) (v : A) (xs : List A) → P v → All P xs → All P (replace_first t v xs)
  All-replace_first t v [] pv h = tt
  All-replace_first t v (x ∷ xs) pv h = elim (Bool-cases (t x)) [
    | inl e ↦ rw e (pv, h.1)
    | inr e ↦ rw e (h.0, All-replace_first t v xs pv h.1)
  ]

  pub All-remove_first : (t : A → Bool) (xs : List A) → All P xs → All P (remove_first t xs)
  All-remove_first t [] h = tt
  All-remove_first t (x ∷ xs) h = elim (Bool-cases (t x)) [
    | inl e ↦ rw e h.1
    | inr e ↦ rw e (h.0, All-remove_first t xs h.1)
  ]

  pub All-keep_if : (t : A → Bool) (xs : List A) → All P xs → All P (keep_if t xs)
  All-keep_if t [] h = tt
  All-keep_if t (x ∷ xs) h = elim (Bool-cases (t x)) [
    | inl e ↦ rw e (h.0, All-keep_if t xs h.1)
    | inr e ↦ rw e (All-keep_if t xs h.1)
  ]

  pub All-find_first :
      (t : A → Bool) (xs : List A) {a : A} → All P xs → find_first t xs ≡ some a → P a
  All-find_first t [] h e = absurd (cc e)
  All-find_first t (x ∷ xs) {a} h e = elim (Bool-cases (t x)) [
    | inl p ↦ subst P (cc (rw p at e)) h.0
    | inr p ↦ All-find_first t xs h.1 (rw p at e)
  ]
