-- ===== src/Api/Allowance.antt =====
-- internal/api/security.go: a key is allowed no more often than its limit in one window.
-- An entry whose window is open stays through the sweep.
use miyohub.Api.Limits.{
  Call, LimitEntry, allow, allow_call, allowed_for, entry_limit, entry_or_zero, grant,
  has_limit_key, put_entry, sweep, window,
}
use miyohub.Base.{
  ==_refl, ==_sound, All, Bool-cases, List, Option-cases, String, [], any_of, arith, false,
  find_first, find_first-passes, inl, inr, leb, length, ltb, none, not, refl, some, subst, suc, sym,
  true, ℕ, ◌&&◌, ◌+◌, ◌==◌, ◌||◌, ◌∙◌, ◌∷◌, ◌≡◌, ◌≤◌, ◌⊎◌,
}
use miyohub.Base.Finds.{
  any_of-find_first, find_first-any_of, find_first-append, find_first-append_out,
  find_first-keep_if, find_first-keep_if-none, find_first-replace_first,
  find_first-replace_first_out,
}

sweep-open :
    (now : ℕ) (key name : String) (e : LimitEntry) (entries : List LimitEntry)
    → find_first (has_limit_key key) entries ≡ some e
    → ltb now e.until ≡ true
    → find_first (has_limit_key key) (sweep now name entries) ≡ some e
unfolding sweep
sweep-open now key name e entries h k =
    elim (Bool-cases (any_of (has_limit_key name) entries || ltb (length entries) entry_limit)) [
      | inl p ↦ rw p h
      | inr p ↦ rw p (find_first-keep_if (has_limit_key key) (λ x. ltb now x.until) e entries h k)
    ]

-- A call for the key in its window: refused, or counted.
grant-own :
    (now : ℕ) (key : String) (limit period : ℕ) (e : LimitEntry) (swept : List LimitEntry)
    → find_first (has_limit_key key) swept ≡ some e
    → ltb now e.until ≡ true
    → (((grant now key limit period swept).0 ≡ false)
        × (find_first (has_limit_key key) (grant now key limit period swept).1 ≡ some e))
      ⊎ (((grant now key limit period swept).0 ≡ true)
          × (suc e.count ≤ limit)
          × (find_first (has_limit_key key) (grant now key limit period swept).1
              ≡ some (record e { count = suc e.count })))
unfolding grant
grant-own now key limit period e swept h k =
    let here = find_first-any_of (has_limit_key key) swept e h in
    let own = find_first-passes (has_limit_key key) swept e h in
    elim (Bool-cases (leb limit e.count)) [
      | inl p ↦ rw (h, k, here, p) (inl (refl, h))
      | inr p ↦
          rw (h, k, here, p)
            (inr (
              refl,
              ground arith,
              find_first-replace_first (has_limit_key key) (record e { count = suc e.count }) swept
                  here own,
            ))
    ]

other_key :
    (key name : String) (x : LimitEntry)
    → (name == key) ≡ false
    → has_limit_key name x ≡ true
    → has_limit_key key x ≡ false
other_key key name x apart h = rw (==_sound _ _ h) apart

put-other :
    (key name : String) (e : LimitEntry) (entries : List LimitEntry)
    → (name == key) ≡ false
    → has_limit_key name e ≡ true
    → find_first (has_limit_key key) (put_entry name e entries)
      ≡ find_first (has_limit_key key) entries
put-other key name e entries apart h = elim (Bool-cases (any_of (has_limit_key name) entries)) [
  | inl p ↦ rw p (
      find_first-replace_first_out (has_limit_key key) (has_limit_key name) e entries
        (λ x k. other_key key name x apart k) (other_key key name e apart h))
  | inr p ↦
      rw p (find_first-append_out (has_limit_key key) e entries (other_key key name e apart h))
]

window_named :
    (now period : ℕ) (name : String) (e : LimitEntry)
    → has_limit_key name e ≡ true
    → has_limit_key name (window now period e) ≡ true
window_named now period name e h = elim (Bool-cases (ltb now e.until)) [
  | inl p ↦ rw p h
  | inr p ↦ rw p h
]

-- The entry that a call counts has the key of the call.
window-key :
    (now period : ℕ) (name : String) (entries : List LimitEntry)
    → has_limit_key name
        (window now period (entry_or_zero name (find_first (has_limit_key name) entries)))
      ≡ true
window-key now period name entries = elim (Option-cases (find_first (has_limit_key name) entries)) [
  | inl e ↦ rw e (window_named now period name (entry_or_zero name none) (==_refl name))
  | inr (x, e) ↦
      rw e (window_named now period name x (find_first-passes (has_limit_key name) entries x e))
]

-- A call for another key leaves the entry as it is.
grant-other :
    (now : ℕ) (key name : String) (limit period : ℕ) (swept : List LimitEntry)
    → (name == key) ≡ false
    → find_first (has_limit_key key) (grant now name limit period swept).1
      ≡ find_first (has_limit_key key) swept
unfolding grant
grant-other now key name limit period swept apart =
    let e = window now period (entry_or_zero name (find_first (has_limit_key name) swept)) in
    let next = record e { count = suc e.count } in
    let full = not (any_of (has_limit_key name) swept) && leb entry_limit (length swept) in
    elim (Bool-cases (full || leb limit e.count)) [
      | inl p ↦ rw p refl
      | inr p ↦ rw p (put-other key name next swept apart (window-key now period name swept))
    ]

-- A call before the end of a window, with at most the limit if it is for the key.
abbrev pub IsInWindow : String → ℕ → ℕ → Call → Type 0
IsInWindow key limit until c =
    (ltb c.at until ≡ true) × ((not (c.name == key) || leb c.limit limit) ≡ true)

-- In an open window the limit is for what the entry has counted and what it will.
allowed_for_open :
    (key : String) (limit : ℕ) (calls : List Call) (e : LimitEntry) (entries : List LimitEntry)
    → find_first (has_limit_key key) entries ≡ some e
    → e.count ≤ limit
    → All (IsInWindow key limit e.until) calls
    → e.count + allowed_for key calls entries ≤ limit
unfolding allowed_for allow_call allow
allowed_for_open key limit [] e entries h n k = omega (arith, n)
allowed_for_open key limit (c ∷ calls) e entries h n k =
    let swept = sweep c.at c.name entries in
    let kept : find_first (has_limit_key key) swept ≡ some e =
      sweep-open c.at key c.name e entries h k.0.0 in
    elim (Bool-cases (c.name == key)) [
      | inr p ↦
          let next : find_first (has_limit_key key) (grant c.at c.name c.limit c.period swept).1
              ≡ some e =
            grant-other c.at key c.name c.limit c.period swept p ∙ kept in
          rw p (allowed_for_open key limit calls e _ next n k.1)
      | inl p ↦
          let same : c.name ≡ key = ==_sound _ _ p in
          let mine : find_first (has_limit_key c.name) swept ≡ some e =
            subst (λ z. find_first (has_limit_key z) swept ≡ some e) (sym same) kept in
          let small : leb c.limit limit ≡ true = rw p at k.0.1 in
          elim (grant-own c.at c.name c.limit c.period e swept mine k.0.0) [
            | inl (r, f) ↦
                let next =
                  subst (λ z. find_first (has_limit_key z) (allow_call c entries).1 ≡ some e) same
                    f in
                rw (p, r) (allowed_for_open key limit calls e _ next n k.1)
            | inr (r, g, f) ↦
                let counted = record e { count = suc e.count } in
                let next =
                  subst (λ z. find_first (has_limit_key z) (allow_call c entries).1 ≡ some counted)
                    same f in
                let room : suc e.count ≤ limit = ground (arith, g, small) in
                rw (p, r) (omega (arith, allowed_for_open key limit calls counted _ next room k.1))
          ]
    ]

-- A call in the period from the start, of a limit for the key.
abbrev pub IsInPeriod : String → ℕ → ℕ → ℕ → Call → Type 0
IsInPeriod key limit start period c =
    (leb start c.at ≡ true)
    × (ltb c.at (start + period) ≡ true)
    × ((not (c.name == key) || (leb c.limit limit && leb period c.period)) ≡ true)

period-window :
    (key : String) (limit start period until : ℕ) (calls : List Call)
    → start + period ≤ until
    → All (IsInPeriod key limit start period) calls
    → All (IsInWindow key limit until) calls
period-window key limit start period until [] h k = tt
period-window key limit start period until (c ∷ calls) h k = (
  (ground (arith, h, k.0.1), ground (arith, k.0.2)),
  period-window key limit start period until calls h k.1,
)

sweep-absent :
    (now : ℕ) (key name : String) (entries : List LimitEntry)
    → find_first (has_limit_key key) entries ≡ none
    → find_first (has_limit_key key) (sweep now name entries) ≡ none
unfolding sweep
sweep-absent now key name entries h =
    elim (Bool-cases (any_of (has_limit_key name) entries || ltb (length entries) entry_limit)) [
      | inl p ↦ rw p h
      | inr p ↦ rw p (find_first-keep_if-none (has_limit_key key) (λ x. ltb now x.until) entries h)
    ]

-- The first call for the key: refused, or it opens the window.
grant-first :
    (now : ℕ) (key : String) (limit period : ℕ) (swept : List LimitEntry)
    → find_first (has_limit_key key) swept ≡ none
    → let r = grant now key limit period swept in
      ((r.0 ≡ false) × (find_first (has_limit_key key) r.1 ≡ none))
      ⊎ ((r.0 ≡ true)
          × (1 ≤ limit)
          × (find_first (has_limit_key key) r.1
              ≡ some (record { key = key; count = 1; until = now + period })))
unfolding grant
grant-first now key limit period swept h =
    let gone = any_of-find_first (has_limit_key key) swept h in
    let new : ltb now 0 ≡ false = ground arith in
    let e : LimitEntry = record { key = key; count = 1; until = now + period } in
    elim (Bool-cases (leb entry_limit (length swept) || leb limit 0)) [
      | inl p ↦ rw (h, gone, new, p) (inl (refl, h))
      | inr p ↦
          rw (h, gone, new, p)
            (inr (
              refl,
              ground (arith, p),
              find_first-append (has_limit_key key) e swept gone (==_refl key),
            ))
    ]

-- Calls for a key that the limiter does not keep, all within one period from a start, are allowed at
-- most the limit of them, whatever other calls come between; calls for the key have that limit, or a
-- lower one, and that period, or a longer one.
pub allowed_for-le_limit :
    (key : String) (limit start period : ℕ) (calls : List Call) (entries : List LimitEntry)
    → find_first (has_limit_key key) entries ≡ none
    → All (IsInPeriod key limit start period) calls
    → allowed_for key calls entries ≤ limit
unfolding allowed_for allow_call allow
allowed_for-le_limit key limit start period [] entries h k = omega arith
allowed_for-le_limit key limit start period (c ∷ calls) entries h k =
    let swept = sweep c.at c.name entries in
    let absent = sweep-absent c.at key c.name entries h in
    elim (Bool-cases (c.name == key)) [
      | inr p ↦
          let next = grant-other c.at key c.name c.limit c.period swept p ∙ absent in
          rw p (allowed_for-le_limit key limit start period calls _ next k.1)
      | inl p ↦
          let same : c.name ≡ key = ==_sound _ _ p in
          let mine : find_first (has_limit_key c.name) swept ≡ none =
            subst (λ z. find_first (has_limit_key z) swept ≡ none) (sym same) absent in
          let fits : (leb c.limit limit && leb period c.period) ≡ true = rw p at k.0.2 in
          elim (grant-first c.at c.name c.limit c.period swept mine) [
            | inl (r, f) ↦
                let next =
                  subst (λ z. find_first (has_limit_key z) (allow_call c entries).1 ≡ none) same
                    f in
                rw (p, r) (allowed_for-le_limit key limit start period calls _ next k.1)
            | inr (r, g, f) ↦
                let e : LimitEntry = record { key = c.name; count = 1; until = c.at + c.period } in
                let next =
                  subst (λ z. find_first (has_limit_key z) (allow_call c entries).1 ≡ some e) same
                    f in
                let room : 1 ≤ limit = ground (arith, g, fits) in
                let later : start + period ≤ c.at + c.period = ground (arith, fits, k.0.0) in
                rw (p, r)
                  (omega (
                    arith,
                    allowed_for_open key limit calls e _ next room
                        (period-window key limit start period (c.at + c.period) calls later k.1),
                  ))
          ]
    ]
