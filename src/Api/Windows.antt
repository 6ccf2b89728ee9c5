-- ===== src/Api/Windows.antt =====
-- internal/api/security.go: how much the limiter keeps, and how much it allows.
use miyohub.Api.Limits.{
  Call, LimitEntry, allow_all, allow_call, entry_limit, entry_or_zero, grant, has_limit_key, sweep,
  window,
}
use miyohub.Base.{
  Bool-cases, List, String, [], any_of, arith, find_first, inl, inr, length, length-append,
  length-keep_if-le, length-replace_first, ltb, suc, ℕ, ◌∷◌, ◌≤◌,
}

sweep_bounded :
    (now : ℕ) (key : String) (entries : List LimitEntry)
    → length entries ≤ entry_limit
    → length (sweep now key entries) ≤ entry_limit
unfolding sweep
sweep_bounded now key entries h =
    ground (arith, length-keep_if-le (λ (e : LimitEntry). ltb now e.until) entries)

grant_bounded :
    (now : ℕ) (key : String) (limit period : ℕ) (swept : List LimitEntry)
    → length swept ≤ entry_limit
    → length (grant now key limit period swept).1 ≤ entry_limit
unfolding grant
grant_bounded now key limit period swept h =
    let e = window now period (entry_or_zero key (find_first (has_limit_key key) swept)) in
    let next = record e { count = suc e.count } in
    elim (Bool-cases (any_of (has_limit_key key) swept)) [
      | inl p ↦ rw p (ground (arith, h, length-replace_first (has_limit_key key) next swept))
      | inr p ↦ rw p (ground (arith, h, length-append swept (next ∷ [])))
    ]

-- The limiter never keeps more than 4,096 entries, whatever calls are made, if it kept no more before.
pub allow_all-bounded :
    (calls : List Call) (entries : List LimitEntry)
    → length entries ≤ entry_limit
    → length (allow_all calls entries) ≤ entry_limit
unfolding allow_all allow_call
allow_all-bounded [] entries h = h
allow_all-bounded (c ∷ calls) entries h = allow_all-bounded calls (allow_call c entries).1 (
    grant_bounded c.at c.name c.limit c.period (sweep c.at c.name entries)
      (sweep_bounded c.at c.name entries h))
