-- ===== src/Store/Accounts/Unique.antt =====
-- internal/store/accounts.go: no two accounts of the site have one UID, or one identifier.
use miyohub.Base.{
  ==_refl, ==_sound, Bool, Bool-cases, List, String, [], any_of, any_of-never, ap, arith, blank,
  count_if, count_if-append, count_if-lt, count_if-none_found, count_if-remove_first-le,
  count_if-replace_first, false, find_first, find_first-passes, inl, inr, none, remove_first,
  replace_first, some, subst, sym, true, weight, ℕ, ◌++◌, ◌==◌, ◌∙◌, ◌∷◌, ◌≡◌, ◌≤◌,
}
use miyohub.Model.Accounts.{Account}
use miyohub.Store.Accounts.Binding.{same_account}
use miyohub.Store.Accounts.Credentials.{or_else}
use miyohub.Store.Accounts.Editing.{has_account_id, is_taken_by}

abbrev pub has_uid : String → Account → Bool
has_uid uid a = a.stuid == uid

abbrev pub count_uid : String → List Account → ℕ
count_uid uid accounts = count_if (has_uid uid) accounts

abbrev pub count_id : String → List Account → ℕ
count_id id accounts = count_if (has_account_id id) accounts

-- Every UID but the unknown one, and every identifier, at most once.
pub record AreUnique (accounts : List Account) : Type 0 where
  pub uids : (u : String) → blank u ≡ false → count_uid u accounts ≤ 1
  pub ids : (i : String) → count_id i accounts ≤ 1

same_uid :
    (a x : Account) (u : String)
    → blank u ≡ false
    → a.stuid ≡ u
    → has_uid u x ≡ true
    → same_account a x ≡ true
same_uid a x u h e k = rw (e, h, ==_sound _ _ k, ==_refl u) (ground arith)

-- A write at the only match of the binding.
module _ (a v old : Account) (accounts : List Account) where
  rebind-uids :
      find_first (same_account a) accounts ≡ some old
      → count_if (same_account a) accounts ≤ 1
      → or_else a.stuid old.stuid ≡ v.stuid
      → (u : String) → blank u ≡ false
      → count_uid u accounts ≤ 1
      → count_uid u (replace_first (same_account a) v accounts) ≤ 1
  rebind-uids f c e u h k =
      let moved = count_if-replace_first (has_uid u) (same_account a) v old accounts f in
      elim (Bool-cases (has_uid u old)) [
        | inl p ↦ ground (arith, moved)
        | inr p ↦ elim (Bool-cases (has_uid u v)) [
          | inr q ↦ ground (arith, moved)
          | inl q ↦ elim (Bool-cases (blank a.stuid)) [
            | inl b ↦ absurd (cc (p, rw b at e))
            | inr b ↦
                let fewer =
                  count_if-lt (has_uid u) (λ x. false) (same_account a) (same_account a) old
                    accounts (λ x r _. same_uid a x u h ((rw b at e) ∙ ==_sound _ _ q) r)
                    (any_of-never accounts) f (find_first-passes (same_account a) accounts old f)
                    p in
                ground (arith, moved, fewer)
          ]
        ]
      ]

  rebind-ids :
      find_first (same_account a) accounts ≡ some old
      → v.id ≡ old.id
      → (i : String) → count_id i accounts ≤ 1
      → count_id i (replace_first (same_account a) v accounts) ≤ 1
  rebind-ids f e i k =
      let moved = count_if-replace_first (has_account_id i) (same_account a) v old accounts f in
      omega (arith, moved, ap (λ z. weight (z == i)) e)

-- A new account whose UID and identifier nobody has.
module _ (a b : Account) (fresh : String) (accounts : List Account) where
  bind-uids :
      find_first (same_account a) accounts ≡ none
      → b.stuid ≡ a.stuid
      → (u : String) → blank u ≡ false
      → count_uid u accounts ≤ 1
      → count_uid u (accounts ++ b ∷ []) ≤ 1
  bind-uids f e u h k = elim (Bool-cases (has_uid u b)) [
    | inr q ↦ ground (arith, count_if-append (has_uid u) accounts (b ∷ []))
    | inl q ↦ ground (
      arith,
      count_if-append (has_uid u) accounts (b ∷ []),
      count_if-none_found (has_uid u) (same_account a) accounts
          (λ x r. same_uid a x u h (sym e ∙ ==_sound _ _ q) r) f,
    )
  ]

  bind-ids :
      count_id fresh accounts ≡ 0
      → b.id ≡ fresh
      → (i : String) → count_id i accounts ≤ 1
      → count_id i (accounts ++ b ∷ []) ≤ 1
  bind-ids f e i k = elim (Bool-cases (has_account_id i b)) [
    | inr q ↦ ground (arith, count_if-append (has_account_id i) accounts (b ∷ []))
    | inl q ↦ ground (
      arith,
      count_if-append (has_account_id i) accounts (b ∷ []),
      subst (λ z. count_id z accounts ≡ 0) (sym e ∙ ==_sound _ _ q) f,
    )
  ]

-- Both ways to bind an account.
pub rebind-AreUnique :
    (a v old : Account) (accounts : List Account)
    → find_first (same_account a) accounts ≡ some old
    → count_if (same_account a) accounts ≤ 1
    → or_else a.stuid old.stuid ≡ v.stuid
    → v.id ≡ old.id
    → AreUnique accounts
    → AreUnique (replace_first (same_account a) v accounts)
rebind-AreUnique a v old accounts f c e g h = record {
  uids = λ u b. rebind-uids a v old accounts f c e u b (h.uids u b);
  ids = λ i. rebind-ids a v old accounts f g i (h.ids i);
}

pub bind-AreUnique :
    (a b : Account) (fresh : String) (accounts : List Account)
    → find_first (same_account a) accounts ≡ none
    → count_id fresh accounts ≡ 0
    → b.stuid ≡ a.stuid
    → b.id ≡ fresh
    → AreUnique accounts
    → AreUnique (accounts ++ b ∷ [])
bind-AreUnique a b fresh accounts f c e g h = record {
  uids = λ u n. bind-uids a b fresh accounts f e u n (h.uids u n);
  ids = λ i. bind-ids a b fresh accounts c g i (h.ids i);
}

-- A write that keeps the UID and the identifier.
pub keep-AreUnique :
    (t : Account → Bool) (v old : Account) (accounts : List Account)
    → find_first t accounts ≡ some old
    → v.stuid ≡ old.stuid
    → v.id ≡ old.id
    → AreUnique accounts
    → AreUnique (replace_first t v accounts)
keep-AreUnique t v old accounts f e g h = record {
  uids = λ u b. omega (
    arith,
    h.uids u b,
    count_if-replace_first (has_uid u) t v old accounts f,
    ap (λ z. weight (z == u)) e,
  );
  ids = λ i. omega (
    arith,
    h.ids i,
    count_if-replace_first (has_account_id i) t v old accounts f,
    ap (λ z. weight (z == i)) g,
  );
}

-- A write of a UID that no other account has.
module _ (t : Account → Bool) (v old : Account) (accounts : List Account) where
  pub change-AreUnique :
      find_first t accounts ≡ some old
      → v.id ≡ old.id
      → any_of (is_taken_by v) accounts ≡ false
      → AreUnique accounts
      → AreUnique (replace_first t v accounts)
  change-AreUnique f g n h = record { uids = change_uids; ids = change_ids }
    where
      change_ids : (i : String) → count_id i (replace_first t v accounts) ≤ 1
      change_ids i = omega (
        arith,
        h.ids i,
        count_if-replace_first (has_account_id i) t v old accounts f,
        ap (λ z. weight (z == i)) g,
      )

      same_id :
          (u : String)
          → blank u ≡ false
          → has_uid u v ≡ true
          → (x : Account) → has_uid u x ≡ true
          → is_taken_by v x ≡ false
          → has_account_id v.id x ≡ true
      same_id u b q x p r =
          let known : blank v.stuid ≡ false = rw (==_sound _ _ q) b in
          let same : (v.stuid == x.stuid) ≡ true =
            rw (==_sound _ _ q, ==_sound _ _ p) (==_refl u) in
          ground (arith, known, same, r)

      change_uids : (u : String) → blank u ≡ false → count_uid u (replace_first t v accounts) ≤ 1
      change_uids u b =
          let moved = count_if-replace_first (has_uid u) t v old accounts f in
          let one = h.uids u b in
          elim (Bool-cases (has_uid u old)) [
            | inl p ↦ ground (arith, moved, one)
            | inr p ↦ elim (Bool-cases (has_uid u v)) [
              | inr q ↦ ground (arith, moved, one)
              | inl q ↦
                  let fewer =
                    count_if-lt (has_uid u) (is_taken_by v) (has_account_id v.id) t old accounts
                      (same_id u b q) n f (rw g (==_refl old.id)) p in
                  ground (arith, moved, fewer, h.ids v.id)
            ]
          ]

pub drop-AreUnique :
    (t : Account → Bool) (accounts : List Account)
    → AreUnique accounts
    → AreUnique (remove_first t accounts)
drop-AreUnique t accounts h = record {
  uids = λ u b. omega (arith, h.uids u b, count_if-remove_first-le (has_uid u) t accounts);
  ids = λ i. omega (arith, h.ids i, count_if-remove_first-le (has_account_id i) t accounts);
}
