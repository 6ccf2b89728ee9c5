-- ===== src/Store/Users/Usable.antt =====
-- internal/store/store.go: which invite codes and session tokens are good for something.
-- An invite `old` that may be used at `now`; `i` is the same with one more use counted, and `is` the codes
-- with `i` in the place of `old`.
use miyohub.Base.{
  ==_sound, Bool, Bool-cases, List, Option, String, [], ap, arith, false, find_first,
  find_first-passes, inl, inr, ltb, none, refl, replace_first, some, some-injective, subst, sym,
  true, ℕ, ◌&&◌, ◌++◌, ◌+◌, ◌==◌, ◌∙◌, ◌∷◌, ◌≡◌, ◌≤◌, ◌⊎◌,
}
use miyohub.Base.Int.{leb_ℤ, ltb_ℤ, negsuc, pos, ℤ}
use miyohub.Base.Result.{Result, ok}
use miyohub.Base.Text.{trim_space}
use miyohub.Model.{State}
use miyohub.Model.Users.{InviteCode, Session, User, is_active}
use miyohub.Store.Environment.{Environment, equal_fold}
use miyohub.Store.Transaction.{find-ok, require-ok}
use miyohub.Store.Users.Invites.{consume_invite, issued_by_admin, not_expired, used_up}
use miyohub.Store.Users.Sessions.{public_option, public_user, session_user, user_by_session}

pub record IsUse (env : Environment) (now : ℕ) (given : String) (d : State) (old i : InviteCode)
    (is : List InviteCode) : Type 0 where
  pub found : find_first (λ j. equal_fold env j.code (trim_space given)) d.invite_codes ≡ some old
  pub enabled : old.disabled ≡ false
  pub issued : issued_by_admin d old.created_by ≡ true
  pub current : not_expired now old.expires_at ≡ true
  pub counted : i ≡ record old { used_count = old.used_count + 1 }
  pub before : List InviteCode
  pub after : List InviteCode
  pub parts : d.invite_codes ≡ before ++ old ∷ after
  pub stored : is ≡ before ++ i ∷ after
  pub bounded :
      (ltb_ℤ (pos 0) old.max_uses ≡ false) ⊎ (leb_ℤ (pos i.used_count) old.max_uses ≡ true)

used_up-bound :
    (i : InviteCode)
    → used_up i ≡ false
    → ltb_ℤ (pos 0) i.max_uses ≡ true
    → leb_ℤ (pos (i.used_count + 1)) i.max_uses ≡ true
used_up-bound i h k = by_limit i.max_uses i.used_count (ground arith) k
  where
    by_limit :
        (m : ℤ) (n : ℕ)
        → ltb_ℤ (pos n) m ≡ true
        → ltb_ℤ (pos 0) m ≡ true
        → leb_ℤ (pos (n + 1)) m ≡ true
    by_limit (pos m) n h k = ground arith
    by_limit (negsuc m) n h k = absurd (ground arith)

ok-first :
    {A B E : Type 0} {a c : A} {b d : B}
    → ◌≡◌ {A = Result E (A × B)} (ok (a, b)) (ok (c, d))
    → a ≡ c
ok-first h = cc h

ok-second :
    {A B E : Type 0} {a c : A} {b d : B}
    → ◌≡◌ {A = Result E (A × B)} (ok (a, b)) (ok (c, d))
    → b ≡ d
ok-second h = cc h

-- The list around its first match, and what the write of the match leaves of it.
find_first-parts {ℓ} :
    {A : Type ℓ} (t : A → Bool) (xs : List A) (x : A)
    → find_first t xs ≡ some x
    → (us : List A) × (vs : List A) × (xs ≡ us ++ x ∷ vs)
      × ((v : A) → replace_first t v xs ≡ us ++ v ∷ vs)
find_first-parts t [] x h = absurd (cc h)
find_first-parts t (y ∷ ys) x h = elim (Bool-cases (t y)) [
  | inl e ↦
      let same : y ≡ x = some-injective _ _ (rw e at h) in
      ([], ys, ap (λ z. z ∷ ys) same, λ v. rw e refl)
  | inr e ↦
      let (us, vs, p, q) = find_first-parts t ys x (rw e at h) in
      (y ∷ us, vs, ap (λ zs. y ∷ zs) p, λ v. rw e (ap (λ zs. y ∷ zs) (q v)))
]

-- An invite code is used only while it is enabled and has not expired, an administrator that issued
-- it is still an active one, and the uses counted stay within its limit, if it has one; the list of
-- codes has it in its place with one more use counted and no other change, and the other codes as they
-- were.
pub consume-IsUse :
    (env : Environment) (now : ℕ) (given : String) (d : State) (i : InviteCode)
    (is : List InviteCode)
    → consume_invite env now given d ≡ ok (i, is)
    → (old : InviteCode) × IsUse env now given d old i is
unfolding consume_invite
consume-IsUse env now given d i is h =
    let s1 = require-ok _ _ _ _ h in
    let (old, found, s2) = find-ok _ _ _ _ s1.1 in
    let s3 = require-ok _ _ _ _ s2 in
    let s4 = require-ok _ _ _ _ s3.1 in
    let s5 = require-ok _ _ _ _ s4.1 in
    let s6 = require-ok _ _ _ _ s5.1 in
    let used : InviteCode = record old { used_count = old.used_count + 1 } in
    let same : used ≡ i = ok-first s6.1 in
    let split =
      find_first-parts (λ j. equal_fold env j.code (trim_space given)) d.invite_codes old found in
    (
      old,
      record {
        found = found;
        enabled = ground (arith, s3.0);
        issued = s4.0;
        current = s5.0;
        counted = sym same;
        before = split.0;
        after = split.1;
        parts = split.2;
        stored = sym (ok-second s6.1) ∙ split.3 used ∙ ap (λ j. split.0 ++ j ∷ split.1) same;
        bounded = elim (Bool-cases (ltb_ℤ (pos 0) old.max_uses)) [
          | inr k ↦ inl k
          | inl k ↦ inr (
              subst (λ (j : InviteCode). leb_ℤ (pos j.used_count) old.max_uses ≡ true) same
                (used_up-bound old (ground (arith, s6.0)) k))
        ];
      },
    )

-- A session entry of the token that has not ended at `now`, of the active user `u`.
pub record IsLogin (now : ℕ) (token : String) (d : State) (u : User) : Type 0 where
  pub session : Session
  pub entered : find_first (λ (s : Session). s.token == token) d.sessions ≡ some session
  pub lasting : now ≤ session.expires_at
  pub owner : u.id ≡ session.user_id
  pub active : is_active u.status ≡ true

entry-IsLogin :
    (now : ℕ) (token : String) (d : State) (u : User) (o : Option Session)
    → find_first (λ (s : Session). s.token == token) d.sessions ≡ o
    → session_user now d o ≡ some u
    → IsLogin now token d u
entry-IsLogin now token d u none e h = absurd (cc h)
entry-IsLogin now token d u (some s) e h = elim (Bool-cases (ltb s.expires_at now)) [
  | inl k ↦ absurd (none_some (rw k at h))
  | inr k ↦ owner-IsLogin k (find_first test d.users) refl (rw k at h)
]
  where
    test : User → Bool
    test v = v.id == s.user_id && is_active v.status

    none_some : {A : Type 0} {a : A} → none ≡ some a → ⊥
    none_some h = cc h

    owner-IsLogin :
        ltb s.expires_at now ≡ false
        → (o : Option User) → find_first test d.users ≡ o
        → public_option o ≡ some u
        → IsLogin now token d u
    owner-IsLogin late none f h = absurd (cc h)
    owner-IsLogin late (some v) f h =
        let same : public_user v ≡ u = cc h in
        let passed : test v ≡ true = find_first-passes test d.users v f in
        record {
          session = s;
          entered = e;
          lasting = ground (arith, late);
          owner = sym (ap (λ (w : User). w.id) same) ∙ ==_sound v.id s.user_id (ground arith);
          active = subst (λ (w : User). is_active w.status ≡ true) same (ground arith);
        }

-- A token signs in only an active user, by an entry of that user under the token that has not ended.
pub user_by_session-IsLogin :
    (now : ℕ) (token : String) (d : State) (u : User)
    → user_by_session now token d ≡ some u
    → IsLogin now token d u
unfolding user_by_session
user_by_session-IsLogin now token d u h = entry-IsLogin now token d u _ refl h
