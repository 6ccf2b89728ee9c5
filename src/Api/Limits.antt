-- ===== src/Api/Limits.antt =====
-- internal/api/security.go: the rate limits. The map of entries is a list of entries with one for
-- each key; `now` is the time of the call.
use miyohub.Base.{
  Bool, List, Option, String, [], any_of, false, find_first, if◌then◌else◌, keep_if, leb, length,
  ltb, none, not, replace_first, some, suc, true, ℕ, ◌&&◌, ◌++◌, ◌+◌, ◌==◌, ◌||◌, ◌∷◌,
}

pub record LimitEntry : Type 0 where
  pub key : String
  pub count : ℕ
  pub until : ℕ

abbrev pub has_limit_key : String → LimitEntry → Bool
has_limit_key key e = e.key == key

-- `limitEntry{}` for a missing key.
abbrev pub entry_or_zero : String → Option LimitEntry → LimitEntry
entry_or_zero key none = record { key = key; count = 0; until = 0 }
entry_or_zero key (some e) = e

abbrev pub entry_limit : ℕ
entry_limit = 4096

-- The entries after the sweep that makes room for a new key.
unfoldable pub sweep : ℕ → String → List LimitEntry → List LimitEntry
sweep now key entries =
    if any_of (has_limit_key key) entries || ltb (length entries) entry_limit
    then entries
    else keep_if (λ e. ltb now e.until) entries

-- The window of the key at the time.
abbrev pub window : ℕ → ℕ → LimitEntry → LimitEntry
window now period e = if ltb now e.until then e else record e { count = 0; until = now + period }

-- `l.entries[key] = entry`
abbrev pub put_entry : String → LimitEntry → List LimitEntry → List LimitEntry
put_entry key e entries =
    if any_of (has_limit_key key) entries
    then replace_first (has_limit_key key) e entries
    else entries ++ e ∷ []

-- The counting, with the entries after the sweep.
unfoldable pub grant : ℕ → String → ℕ → ℕ → List LimitEntry → Bool × List LimitEntry
grant now key limit period swept =
    let e = window now period (entry_or_zero key (find_first (has_limit_key key) swept)) in
    let full = not (any_of (has_limit_key key) swept) && leb entry_limit (length swept) in
    if full || leb limit e.count
    then (false, swept)
    else (true, put_entry key (record e { count = suc e.count }) swept)

-- `allow`
unfoldable pub allow : ℕ → String → ℕ → ℕ → List LimitEntry → Bool × List LimitEntry
unfolding sweep grant
allow now key limit period entries = grant now key limit period (sweep now key entries)

-- A call of the limiter.
pub record Call : Type 0 where
  pub at : ℕ
  pub name : String
  pub limit : ℕ
  pub period : ℕ

unfoldable pub allow_call : Call → List LimitEntry → Bool × List LimitEntry
unfolding allow
allow_call c entries = allow c.at c.name c.limit c.period entries

-- The entries after a sequence of calls.
unfoldable pub allow_all : List Call → List LimitEntry → List LimitEntry
allow_all [] entries = entries
allow_all (c ∷ calls) entries = allow_all calls (allow_call c entries).1

-- How many of the calls for the key are allowed.
unfoldable pub allowed_for : String → List Call → List LimitEntry → ℕ
allowed_for key [] entries = 0
allowed_for key (c ∷ calls) entries =
    let r = allow_call c entries in
    let more = allowed_for key calls r.1 in if c.name == key && r.0 then suc more else more
