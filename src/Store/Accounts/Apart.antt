-- ===== src/Store/Accounts/Apart.antt =====
-- internal/store/account_batch.go and archive.go: what a batch of edits and an import do to the number
-- of accounts that have a UID or an identifier.
use miyohub.Base.{
  ==_refl, ==_sound, Bool, Bool-cases, List, String, [], any_of, any_of_mono, ap, arith, blank,
  count_if, count_if-append, count_if-keep_if-le, count_if-keep_if_none, count_if-none, false, inl,
  inr, keep_if, not, refl, subst, suc, sym, true, ℕ, ◌&&◌, ◌++◌, ◌<◌, ◌==◌, ◌||◌, ◌∷◌, ◌≡◌, ◌≤◌,
  ◌⊎◌,
}
use miyohub.Base.Result.{Result, err, ok}
use miyohub.Model.Accounts.{Account, Device}
use miyohub.Store.Accounts.Archives.{
  PortableAccount, adopt, is_present, is_repeated, prepare_accounts,
}
use miyohub.Store.Accounts.Batch.{AccountBatchPatch, edit_account, edit_accounts}
use miyohub.Store.Accounts.Editing.{has_account_id}
use miyohub.Store.Accounts.Unique.{AreUnique, count_id, count_uid, has_uid}
use miyohub.Store.Environment.{Environment}
use miyohub.Store.Errors.{Err}
use miyohub.Store.Transaction.{bind-ok, require-ok}

module _ (q : Account → Bool) (user_id : String) (p : AccountBatchPatch) where
  edit_accounts-count :
      ((a : Account) → q (edit_account p a) ≡ q a)
      → (accounts : List Account) (r : List Account × List Account)
      → edit_accounts user_id p accounts ≡ ok r
      → count_if q r.0 ≡ count_if q accounts
  unfolding edit_accounts
  edit_accounts-count k [] r h = ap (λ x. count_if q (next_of x)) (sym h)
    where
      next_of : Result Err (List Account × List Account) → List Account
      next_of (ok x) = x.0
      next_of (err e) = []
  edit_accounts-count k (a ∷ accounts) r h =
      let (_, h1) = require-ok _ _ _ _ h in
      let (rest, e, h2) = bind-ok _ _ _ h1 in
      let more = edit_accounts-count k accounts rest e in ground (arith, h2, more, k a)

pub edit-AreUnique :
    (user_id : String) (p : AccountBatchPatch) (accounts : List Account)
    (r : List Account × List Account)
    → edit_accounts user_id p accounts ≡ ok r
    → AreUnique accounts
    → AreUnique r.0
unfolding edit_account
edit-AreUnique user_id p accounts r e h = record {
  uids =
      λ u b. rw (edit_accounts-count (has_uid u) user_id p (λ a. refl) accounts r e) (h.uids u b);
  ids =
      λ i. rw (edit_accounts-count (has_account_id i) user_id p (λ a. refl) accounts r e) (h.ids i);
}

-- The UIDs of accounts that follow the ones before.
abbrev AreLater : String → List Account → List Account → Type 0
AreLater u before accounts =
    (count_uid u accounts ≤ 1) × ((any_of (has_uid u) before ≡ true) → count_uid u accounts ≡ 0)

later-cons :
    (u : String) (a : Account) (before rest : List Account)
    → not (is_repeated a before) ≡ true
    → AreLater u (a ∷ before) rest
    → AreLater u before (a ∷ rest)
later-cons u a before rest new h = elim (Bool-cases (has_uid u a)) [
  | inr e ↦ rw e (h.0, λ p. h.1 (rw (e, p) refl))
  | inl e ↦
      let alone : count_uid u rest ≡ 0 = h.1 (rw e refl) in
      rw (e, alone)
        (
          omega arith,
          λ p. absurd (
              cc (
                new,
                any_of_mono (has_uid u) (λ b. b.stuid == a.stuid || b.name == a.name) before
                    (λ x r. rw (==_sound _ _ e, ==_sound _ _ r, ==_refl u) refl) p,
              )),
        )
]

abbrev pub listing : Result Err (List Account) → List Account
listing (ok accounts) = accounts
listing (err e) = []

-- The accounts of a file have different UIDs, and none that an account before them has.
prepared-AreLater :
    (env : Environment) (u : String) (before : List Account) (ps : List PortableAccount)
    (accounts : List Account)
    → prepare_accounts env before ps ≡ ok accounts
    → AreLater u before accounts
unfolding prepare_accounts
prepared-AreLater env u before [] accounts h =
    subst (AreLater u before) (ap listing h) (omega arith, λ _. refl)
prepared-AreLater env u before (p ∷ ps) accounts h =
    let (a, e, h1) = bind-ok _ _ _ h in
    let (new, h2) = require-ok _ _ _ _ h1 in
    let (rest, f, h3) = bind-ok _ _ _ h2 in
    subst (AreLater u before) (ap listing h3)
      (later-cons u a before rest new (prepared-AreLater env u (a ∷ before) ps rest f))

adopt-uids :
    (u user_id : String) (fresh : ℕ → String × Device) (n : ℕ) (accounts : List Account)
    → count_uid u (adopt user_id fresh n accounts) ≡ count_uid u accounts
unfolding adopt
adopt-uids u user_id fresh n [] = refl
adopt-uids u user_id fresh n (a ∷ accounts) = rw (adopt-uids u user_id fresh (suc n) accounts) refl

-- Identifiers that are all different.
adopt-ids_before :
    (user_id : String) (fresh : ℕ → String × Device) (m n : ℕ) (accounts : List Account)
    → ((m n : ℕ) → (fresh m).0 ≡ (fresh n).0 → m ≡ n)
    → m < n
    → count_id (fresh m).0 (adopt user_id fresh n accounts) ≡ 0
unfolding adopt
adopt-ids_before user_id fresh m n [] apart less = refl
adopt-ids_before user_id fresh m n (a ∷ accounts) apart less =
    elim (Bool-cases ((fresh n).0 == (fresh m).0)) [
      | inl e ↦ absurd (omega (arith, apart n m (==_sound _ _ e)))
      | inr e ↦ rw e (adopt-ids_before user_id fresh m (suc n) accounts apart (omega arith))
    ]

adopt-ids :
    (i user_id : String) (fresh : ℕ → String × Device) (n : ℕ) (accounts : List Account)
    → ((m n : ℕ) → (fresh m).0 ≡ (fresh n).0 → m ≡ n)
    → (count_id i (adopt user_id fresh n accounts) ≡ 0)
      ⊎ ((count_id i (adopt user_id fresh n accounts) ≡ 1) × (m : ℕ) × ((fresh m).0 ≡ i))
unfolding adopt
adopt-ids i user_id fresh n [] apart = inl refl
adopt-ids i user_id fresh n (a ∷ accounts) apart = elim (Bool-cases ((fresh n).0 == i)) [
  | inl e ↦
      let same : (fresh n).0 ≡ i = ==_sound _ _ e in
      let less : n < suc n = omega arith in
      let rest = adopt-ids_before user_id fresh n (suc n) accounts apart less in
      inr (rw e (ap suc (rw same at rest)), n, same)
  | inr e ↦ rw e (adopt-ids i user_id fresh (suc n) accounts apart)
]

pub import-AreUnique :
    (env : Environment) (user_id : String) (fresh : ℕ → String × Device) (ps : List PortableAccount)
    (prepared accounts : List Account)
    → prepare_accounts env [] ps ≡ ok prepared
    → ((n : ℕ) → count_id (fresh n).0 accounts ≡ 0)
    → ((m n : ℕ) → (fresh m).0 ≡ (fresh n).0 → m ≡ n)
    → AreUnique accounts
    → AreUnique (
        accounts
        ++ adopt user_id fresh 0 (keep_if (λ a. not (is_present user_id accounts a)) prepared))
import-AreUnique env user_id fresh ps prepared accounts made new apart h = record {
  uids = import_uids;
  ids = import_ids;
}
  where
    selected : List Account
    selected = keep_if (λ a. not (is_present user_id accounts a)) prepared

    skipped :
        (u : String)
        → any_of (has_uid u) accounts ≡ true
        → (a : Account) → (has_uid u a && not (is_present user_id accounts a)) ≡ false
    skipped u p a = elim (Bool-cases (has_uid u a)) [
      | inr e ↦ rw e refl
      | inl e ↦
          let here : is_present user_id accounts a ≡ true =
            any_of_mono (has_uid u)
              (λ old. a.stuid == old.stuid || (old.user_id == user_id && a.name == old.name))
              accounts (λ x r. rw (==_sound _ _ e, ==_sound _ _ r, ==_refl u) refl) p in
          rw (e, here) refl
    ]

    import_uids :
        (u : String)
        → blank u ≡ false
        → count_uid u (accounts ++ adopt user_id fresh 0 selected) ≤ 1
    import_uids u b =
        let sum = count_if-append (has_uid u) accounts (adopt user_id fresh 0 selected) in
        let kept = adopt-uids u user_id fresh 0 selected in
        elim (Bool-cases (any_of (has_uid u) accounts)) [
          | inl p ↦ omega (
            arith,
            sum,
            kept,
            h.uids u b,
            count_if-keep_if_none (has_uid u) (λ a. not (is_present user_id accounts a)) prepared
                (skipped u p),
          )
          | inr p ↦ omega (
            arith,
            sum,
            kept,
            count_if-none (has_uid u) accounts p,
            count_if-keep_if-le (has_uid u) (λ a. not (is_present user_id accounts a)) prepared,
            (prepared-AreLater env u [] ps prepared made).0,
          )
        ]

    import_ids : (i : String) → count_id i (accounts ++ adopt user_id fresh 0 selected) ≤ 1
    import_ids i = elim (adopt-ids i user_id fresh 0 selected apart) [
      | inl e ↦ omega (
        arith,
        h.ids i,
        count_if-append (has_account_id i) accounts (adopt user_id fresh 0 selected),
      )
      | inr (e, m, same) ↦
          let absent : count_id i accounts ≡ 0 = rw same at (new m) in
          omega (
            arith,
            absent,
            count_if-append (has_account_id i) accounts (adopt user_id fresh 0 selected),
          )
    ]
