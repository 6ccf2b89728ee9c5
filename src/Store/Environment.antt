-- ===== src/Store/Environment.antt =====
-- What the store takes from code outside the repository: Unicode tables, the calendar and PBKDF2.
-- Nothing is assumed of these functions here; a theorem that needs a law says so.
use Prim.Native.Char.{Char, code}
use miyohub.Base.{Bool, String, any_of, eqb, map, ℕ, ◌==◌, ◌||◌}
use miyohub.Base.Text.{chars, of_chars}

pub record Environment : Type 0 where
  -- `unicode.IsLetter` or `unicode.IsDigit`
  pub is_letter_or_digit : Char → Bool
  -- `unicode.IsControl` and `unicode.IsPrint`
  pub is_control : Char → Bool
  pub is_print : Char → Bool
  -- The representative of a character's case-folding orbit, by `unicode.SimpleFold`.
  pub fold : Char → Char
  -- `unicode.ToUpper`
  pub to_upper : Char → Char
  -- `t.AddDate(1, 0, 0)`
  pub year_later : ℕ → ℕ
  -- `t.Format(time.RFC3339)`
  pub format_time : ℕ → String
  -- Whether `time.LoadLocation` knows the zone, and the date and the clock of a time in it.
  pub zone_known : String → Bool
  pub local_date : String → ℕ → String
  pub local_clock : String → ℕ → String
  -- `sha256.Sum256` and `hex.EncodeToString`, with a text for the bytes.
  pub sha256 : String → String
  pub hex : String → String
  -- With the salt in hexadecimal: the hexadecimal text of `pbkdf2.Key(sha256.New, password, salt, iterations, 32)`.
  pub pbkdf2 : String → String → ℕ → String

-- `strings.EqualFold`
unfoldable pub equal_fold : Environment → String → String → Bool
equal_fold env s t = of_chars (map env.fold (chars s)) == of_chars (map env.fold (chars t))

-- `strings.ContainsAny(s, "\r\n\x00")`
unfoldable pub has_control : String → Bool
has_control s = any_of (λ c. eqb (code c) 13 || eqb (code c) 10 || eqb (code c) 0) (chars s)
