-- ===== src/Store/Atomic.antt =====
-- internal/store/store.go: `saveLocked` makes an operation all or nothing, in memory and on disk.
use miyohub.Base.{
  Bool, Option, ap, arith, false, inl, inr, none, refl, some, sym, true, ◌∙◌, ◌≡◌, ◌⊎◌,
}
use miyohub.Base.Result.{Result, err, ok}
use miyohub.Model.{State}
use miyohub.Store.Errors.{Err}
use miyohub.Store.Transaction.{
  Effect, IsSynced, Store, after, keep, save_locked, save_with, transact, write, write_fail,
}

-- What the store is after an operation: as before, or saved as the operation left the state.
pub data Outcome {ℓ} {A : Type ℓ} (s : Store) (disk : Bool) (r : Result Err (Effect A))
    : Store → Type ℓ where
  unchanged : {t : Store} → t ≡ s → Outcome s disk r t
  committed :
      {t : Store}
      → disk ≡ true
      → s.read_only ≡ false
      → t.current ≡ after s.current r
      → t.committed ≡ after s.current r
      → Outcome s disk r t

restored :
    (s : Store) (e : Err)
    → IsSynced s
    → ◌≡◌ {A = Store × Option Err} (record s { current = s.committed }, some e) (s, some e)
restored s e h = ap {B = Store × Option Err} (λ d. (record s { current = d }, some e)) (sym h)

-- The two ways in which a save ends, by the flag.
save_with_cases :
    (s : Store) (flag disk : Bool) (d : State)
    → IsSynced s
    → let r = save_with flag disk (record s { current = d }) in
      ((disk ≡ true) × (flag ≡ false) × (r ≡ (record s { current = d; committed = d }, none)))
      ⊎ ((e : Err) × (r ≡ (s, some e)))
save_with_cases s true disk d h = inr (Err.read_only_state, restored s _ h)
save_with_cases s false true d h = inl (refl, refl, refl)
save_with_cases s false false d h = inr (Err.write_failed, restored s _ h)

save_cases :
    (s : Store) (disk : Bool) (d : State)
    → IsSynced s
    → let r = save_locked (record s { current = d }) disk in
      ((disk ≡ true)
        × (s.read_only ≡ false)
        × (r ≡ (record s { current = d; committed = d }, none)))
      ⊎ ((e : Err) × (r ≡ (s, some e)))
unfolding save_locked
save_cases s disk d h = save_with_cases s s.read_only disk d h

module _ {ℓ} {A : Type ℓ} where
  -- An operation on a store whose memory and file agree changes both to the state that it computed,
  -- or neither: on an early error, on a failed write and on a read-only store nothing changes.
  pub transact-Outcome :
      (s : Store) (disk : Bool) (r : Result Err (Effect A))
      → IsSynced s
      → Outcome s disk r (transact s disk r).0
  unfolding transact save_locked
  transact-Outcome s disk (err e) h = unchanged refl
  transact-Outcome s disk (ok (keep a)) h = unchanged refl
  transact-Outcome s disk (ok (write d a)) h = elim (save_cases s disk d h) [
    | inl (e, f, g) ↦ rw g (committed e f refl refl)
    | inr (e, g) ↦ rw g (unchanged refl)
  ]
  transact-Outcome s disk (ok (write_fail d x)) h = elim (save_cases s disk d h) [
    | inl (e, f, g) ↦ rw g (committed e f refl refl)
    | inr (e, g) ↦ rw g (unchanged refl)
  ]

  -- So memory and file agree again.
  pub transact-IsSynced :
      (s : Store) (disk : Bool) (r : Result Err (Effect A))
      → IsSynced s
      → IsSynced (transact s disk r).0
  transact-IsSynced s disk r h = outcome_synced (transact-Outcome s disk r h)
    where
      outcome_synced : {t : Store} → Outcome s disk r t → IsSynced t
      outcome_synced (unchanged e) = rw e h
      outcome_synced (committed _ _ e f) = e ∙ sym f

  -- An operation that hands over a state to be saved replies with success only where that state
  -- is then the one on disk, and with the value that it computed.
  pub transact-ok :
      (s : Store) (disk : Bool) (d : State) (a b : A)
      → (transact s disk (ok (write d a))).1 ≡ ok b
      → ((transact s disk (ok (write d a))).0.committed ≡ d) × (b ≡ a)
  unfolding transact save_locked
  transact-ok s disk d a b h = ground arith
