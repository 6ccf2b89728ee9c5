-- ===== src/Base/Text.antt =====
-- Go's `strings` functions that the program calls, over texts as lists of characters.
use Prim.Native.Char.{Char, code}
use Prim.Native.String.{String}
use mathlib.Core.Bool.{Bool, not, ◌&&◌, ◌||◌}
use mathlib.Core.List.{List, [], ◌∷◌, map, reverse}
use mathlib.Core.Option.{Option, none, some}
use Prim.Native.Nat.{ℕ}
use miyohub.Base.Lists.{any_of, length}
use miyohub.Base.Tests.{leb, eqb, if◌then◌else◌}

abbrev pub chars : String → List Char
chars String.[] = []
chars (String.◌∷◌ c s) = c ∷ chars s

abbrev pub of_chars : List Char → String
of_chars [] = ""
of_chars (c ∷ s) = String.◌∷◌ c (of_chars s)

-- `unicode.IsSpace`
pub is_space : Char → Bool
is_space c =
    (leb 0x09 (code c) && leb (code c) 0x0d)
    || eqb (code c) 0x20
    || eqb (code c) 0x85
    || eqb (code c) 0xa0
    || eqb (code c) 0x1680
    || (leb 0x2000 (code c) && leb (code c) 0x200a)
    || eqb (code c) 0x2028
    || eqb (code c) 0x2029
    || eqb (code c) 0x202f
    || eqb (code c) 0x205f
    || eqb (code c) 0x3000

pub drop_spaces : List Char → List Char
unfolding is_space
drop_spaces [] = []
drop_spaces (c ∷ s) = if is_space c then drop_spaces s else c ∷ s

-- `strings.TrimSpace`
unfoldable pub trim_space : String → String
unfolding drop_spaces
trim_space s = of_chars (reverse (drop_spaces (reverse (drop_spaces (chars s)))))

-- `strings.Split` at a character.
abbrev pub push_front : Char → List (List Char) → List (List Char)
push_front c [] = (c ∷ []) ∷ []
push_front c (p ∷ ps) = (c ∷ p) ∷ ps

unfoldable pub split_chars : ℕ → List Char → List (List Char)
split_chars sep [] = [] ∷ []
split_chars sep (c ∷ s) =
    let rest = split_chars sep s in if eqb (code c) sep then [] ∷ rest else push_front c rest

unfoldable pub split_at : ℕ → String → List String
unfolding split_chars
split_at sep s = map of_chars (split_chars sep (chars s))

-- `strings.Cut` at a character.
abbrev pub cut_front : Char → Option (List Char × List Char) → Option (List Char × List Char)
cut_front c none = none
cut_front c (some (a, b)) = some (c ∷ a, b)

abbrev pub cut_text : Option (List Char × List Char) → Option (String × String)
cut_text none = none
cut_text (some (a, b)) = some (of_chars a, of_chars b)

pub cut_chars : ℕ → List Char → Option (List Char × List Char)
cut_chars sep [] = none
cut_chars sep (c ∷ s) =
    let rest = cut_chars sep s in if eqb (code c) sep then some ([], s) else cut_front c rest

unfoldable pub cut_at : ℕ → String → Option (String × String)
unfolding cut_chars
cut_at sep s = cut_text (cut_chars sep (chars s))

-- `strings.ContainsAny`, with the characters as code points.
unfoldable pub contains_any : List ℕ → String → Bool
contains_any bad s = any_of (λ c. any_of (eqb (code c)) bad) (chars s)

-- `^[0-9]{1,20}$`
unfoldable pub is_uid : String → Bool
is_uid s =
    leb 1 (length (chars s))
    && leb (length (chars s)) 20
    && not (any_of (λ c. not (leb b'0' (code c) && leb (code c) b'9')) (chars s))
