-- ===== src/Base/Split.antt =====
-- Splitting a text that was put together from parts without the separator.
use Prim.Native.Char.{Char, code}
use Prim.Native.String.{String, ◌++◌ as append}
use Prim.Native.String.append.{nil, cons}
use Prim.Native.Nat.{ℕ}
use mathlib.Core.Path.{◌≡◌, refl, ap, ◌∙◌}
use mathlib.Core.Bool.{Bool, true, false}
use mathlib.Core.Logic.{inl, inr}
use mathlib.Core.List.{List, [], ◌∷◌, ◌++◌}
use miyohub.Base.Lists.{any_of}
use miyohub.Base.Tests.{Bool-cases, eqb}
use miyohub.Base.Text.{chars, of_chars, split_chars}

pub chars-append : (s t : String) → chars (append s t) ≡ chars s ++ chars t
chars-append String.[] t = ap chars (nil t)
chars-append (String.◌∷◌ c s) t = ap chars (cons c s t) ∙ ap (◌∷◌ c) (chars-append s t)

pub of_chars-chars : (s : String) → of_chars (chars s) ≡ s
of_chars-chars String.[] = refl
of_chars-chars (String.◌∷◌ c s) = ap (String.◌∷◌ c) (of_chars-chars s)

-- The separator does not occur.
abbrev pub has_char : ℕ → List Char → Bool
has_char sep s = any_of (λ c. eqb (code c) sep) s

pub split_chars-append :
    (sep : ℕ) (a : List Char) (c : Char) (s : List Char)
    → has_char sep a ≡ false
    → eqb (code c) sep ≡ true
    → split_chars sep (a ++ c ∷ s) ≡ a ∷ split_chars sep s
unfolding split_chars
split_chars-append sep [] c s h k = rw k refl
split_chars-append sep (x ∷ a) c s h k = elim (Bool-cases (eqb (code x) sep)) [
  | inl e ↦ absurd (cc (rw e at h))
  | inr e ↦ rw (e, split_chars-append sep a c s (rw e at h) k) refl
]

pub split_chars-last :
    (sep : ℕ) (a : List Char) → has_char sep a ≡ false → split_chars sep a ≡ a ∷ []
unfolding split_chars
split_chars-last sep [] h = refl
split_chars-last sep (x ∷ a) h = elim (Bool-cases (eqb (code x) sep)) [
  | inl e ↦ absurd (cc (rw e at h))
  | inr e ↦ rw (e, split_chars-last sep a (rw e at h)) refl
]
