-- ===== src/Store/Transaction.antt =====
-- internal/store/store.go: `Store`, `saveLocked` and the shape of an operation under the lock. An
-- operation reads the state and fails before any write, or hands over the state to be saved.
-- `disk` says whether the directory, the encoding and the atomic write of this save succeed.
use miyohub.Base.{Bool, Option, false, if◌then◌else◌, none, refl, some, subst, true, ◌≡◌}
use miyohub.Base.Result.{Result, err, ok, require, ◌>>=◌, ◌>>◌}
use miyohub.Model.{State}
use miyohub.Store.Errors.{Err}

pub record Store : Type 0 where
  pub read_only : Bool
  pub current : State
  pub committed : State

-- What an operation does with the lock held, if it does not fail at once.
pub data Effect {ℓ} (A : Type ℓ) : Type ℓ where
  -- return with no save
  keep : A → Effect A
  -- save, and return the value if the save succeeds
  write : State → A → Effect A
  -- save, and fail also if the save succeeds
  write_fail : State → Err → Effect A

-- The three ways of `saveLocked`: by the read-only flag, then by the disk.
abbrev pub save_with : Bool → Bool → Store → Store × Option Err
save_with true disk s = (record s { current = s.committed }, some Err.read_only_state)
save_with false true s = (record s { committed = s.current }, none)
save_with false false s = (record s { current = s.committed }, some Err.write_failed)

-- `saveLocked`
unfoldable pub save_locked : Store → Bool → Store × Option Err
save_locked s disk = save_with s.read_only disk s

module _ {ℓ} {A : Type ℓ} where
  saved : Result Err A → Store × Option Err → Store × Result Err A
  saved r (s, none) = (s, r)
  saved r (s, some e) = (s, err e)

  -- The operation on the store: its effect, then `saveLocked`.
  unfoldable pub transact : Store → Bool → Result Err (Effect A) → Store × Result Err A
  unfolding saved save_locked
  transact s disk (err e) = (s, err e)
  transact s disk (ok (keep a)) = (s, ok a)
  transact s disk (ok (write d a)) = saved (ok a) (save_locked (record s { current = d }) disk)
  transact s disk (ok (write_fail d e)) =
      saved (err e) (save_locked (record s { current = d }) disk)

  -- The state that an operation leaves behind where the save succeeds.
  abbrev pub after : State → Result Err (Effect A) → State
  after d (err e) = d
  after d (ok (keep a)) = d
  after d (ok (write d' a)) = d'
  after d (ok (write_fail d' e)) = d'

-- Between operations the state in memory is the one on disk.
abbrev pub IsSynced : Store → Type 0
IsSynced s = s.current ≡ s.committed

-- Whatever the operation does, if it does not fail, has the property: a family, so that its rules
-- apply by unification.
pub data Ensures {ℓ} {A : Type ℓ} (P : Effect A → Type 0) : Result Err (Effect A) → Type ℓ where
  fails : (e : Err) → Ensures P (err e)
  does : (x : Effect A) → P x → Ensures P (ok x)

-- A property of the state that is saved.
abbrev pub Saves {ℓ} : {A : Type ℓ} → (State → Type 0) → Effect A → Type 0
Saves P (keep a) = Unit
Saves P (write d a) = P d
Saves P (write_fail d e) = P d

module _ {ℓ κ} {A : Type ℓ} {B : Type κ} {P : Effect B → Type 0} where
  pub Ensures-bind :
      (m : Result Err A) (f : A → Result Err (Effect B))
      → ((a : A) → m ≡ ok a → Ensures P (f a))
      → Ensures P (m >>= f)
  unfolding ◌>>=◌
  Ensures-bind (ok a) f k = k a refl
  Ensures-bind (err e) f k = fails e

module _ {ℓ} {A : Type ℓ} where
  pub Ensures-after :
      (P : State → Type 0) {d : State} {r : Result Err (Effect A)}
      → P d
      → Ensures (Saves P) r
      → P (after d r)
  Ensures-after P h (fails e) = h
  Ensures-after P h (does (keep a) k) = h
  Ensures-after P h (does (write d a) k) = k
  Ensures-after P h (does (write_fail d e) k) = k

  -- What holds of the effect that a call is known to have.
  pub Ensures-eq :
      (P : Effect A → Type 0) {r : Result Err (Effect A)} {x : Effect A}
      → Ensures P r
      → r ≡ ok x
      → P x
  Ensures-eq P (fails e) h = absurd (cc h)
  Ensures-eq P (does x k) h = subst P (effect-eq h) k
    where
      effect-eq : {x y : Effect A} → ◌≡◌ {A = Result Err (Effect A)} (ok x) (ok y) → x ≡ y
      effect-eq h = cc

-- A guard that was passed, and a lookup that succeeded.
abbrev pub or_fail {ℓ} : {A : Type ℓ} → Option A → Err → Result Err A
or_fail none e = err e
or_fail (some a) e = ok a

module _ {ℓ κ} {A : Type ℓ} {B : Type κ} {P : Effect B → Type 0} where
  pub Ensures-find :
      (o : Option A) (e : Err) (f : A → Result Err (Effect B))
      → ((a : A) → o ≡ some a → Ensures P (f a))
      → Ensures P (or_fail o e >>= f)
  unfolding ◌>>=◌
  Ensures-find none e f k = fails e
  Ensures-find (some a) e f k = k a refl

-- What a call that succeeded has passed.
module _ {ℓ κ} {A : Type ℓ} {B : Type κ} where
  pub bind-ok :
      (m : Result Err A) (f : A → Result Err B) (b : B)
      → (m >>= f) ≡ ok b
      → (a : A) × (m ≡ ok a) × (f a ≡ ok b)
  unfolding ◌>>=◌
  bind-ok (ok a) f b h = (a, refl, h)
  bind-ok (err e) f b h = absurd (cc h)

module _ {ℓ κ} {A : Type ℓ} {B : Type κ} where
  pub find-ok :
      (o : Option A) (e : Err) (f : A → Result Err B) (b : B)
      → (or_fail o e >>= f) ≡ ok b
      → (a : A) × (o ≡ some a) × (f a ≡ ok b)
  unfolding ◌>>=◌
  find-ok none e f b h = absurd (cc h)
  find-ok (some a) e f b h = (a, refl, h)

pub require-ok {κ} :
    {B : Type κ} (t : Bool) (e : Err) (r : Result Err B) (b : B)
    → (require t e >> r) ≡ ok b
    → (t ≡ true) × (r ≡ ok b)
unfolding ◌>>=◌
require-ok true e r b h = (refl, h)
require-ok false e r b h = absurd (cc h)

module _ {ℓ} {A : Type ℓ} {P : Effect A → Type 0} where
  pub Ensures-require :
      (b : Bool) (e : Err) (r : Result Err (Effect A))
      → (b ≡ true → Ensures P r)
      → Ensures P (require b e >> r)
  unfolding ◌>>=◌
  Ensures-require true e r k = k refl
  Ensures-require false e r k = fails e

  pub Ensures-if :
      (b : Bool) (r s : Result Err (Effect A))
      → (b ≡ true → Ensures P r)
      → (b ≡ false → Ensures P s)
      → Ensures P (if b then r else s)
  Ensures-if true r s k l = k refl
  Ensures-if false r s k l = l refl

  -- The choice between two effects.
  pub Ensures-choice : (b : Bool) (x y : Effect A) → P x → P y → Ensures P (ok (if b then x else y))
  Ensures-choice true x y h k = does x h
  Ensures-choice false x y h k = does y k
