-- ===== src/Store/Users/Limits.antt =====
-- internal/store: what bounds sessions and invites, and what signs a user out.
use miyohub.Base.{
  ==_refl, ==_sound, Bool, Bool-cases, List, String, [], any_of, arith, count_if, count_if-append,
  count_if-keep_if-le, count_if-keep_if-lt, eqb, false, inl, inr, keep_if, leb, ltb, not, refl,
  subst, suc, sym, true, weight, ℕ, ◌&&◌, ◌+◌, ◌==◌, ◌||◌, ◌∷◌, ◌≡◌, ◌≤◌, ◌⊎◌,
}
use miyohub.Model.{State}
use miyohub.Model.Users.{Session}
use miyohub.Store.Users.Sessions.{
  create_session, make_room, of_user, oldest_token, session_limit, week, without_token,
}

-- A session of the user has the token.
abbrev held : String → String → List Session → Bool
held u t = any_of λ s. of_user u s && not (not (s.token == t))

-- What the loop knows of the token `t` that it ends with, from the best one so far.
abbrev Chosen : String → List Session → ℕ → String → String → Type 0
Chosen u ss oldest token t =
    (held u t ss ≡ true) ⊎ ((t ≡ token) × (oldest ≡ 0 → count_if (of_user u) ss ≡ 0))

abbrev earlier : String → ℕ → Session → Bool
earlier u oldest s = s.user_id == u && (eqb oldest 0 || ltb s.expires_at oldest)

Chosen-here :
    (u t : String) (s : Session) (ss : List Session) (oldest : ℕ) (token : String)
    → earlier u oldest s ≡ true
    → Chosen u ss s.expires_at s.token t
    → Chosen u (s ∷ ss) oldest token t
Chosen-here u t s ss oldest token e (inl k) = inl (ground arith)
Chosen-here u t s ss oldest token e (inr (k, n)) = inl (rw (k, ==_refl s.token) (ground arith))

Chosen-later :
    (u t : String) (s : Session) (ss : List Session) (oldest : ℕ) (token : String)
    → earlier u oldest s ≡ false
    → Chosen u ss oldest token t
    → Chosen u (s ∷ ss) oldest token t
Chosen-later u t s ss oldest token e (inl k) = inl (ground arith)
Chosen-later u t s ss oldest token e (inr (k, n)) = inr (k, λ z. ground (arith, n z))

-- The loop ends with the token of a session of the user, if the user has one.
oldest_token-Chosen :
    (u : String) (ss : List Session) (oldest : ℕ) (token : String)
    → Chosen u ss oldest token (oldest_token u oldest token ss)
unfolding oldest_token
oldest_token-Chosen u [] oldest token = inr (refl, λ _. refl)
oldest_token-Chosen u (s ∷ ss) oldest token = elim (Bool-cases (earlier u oldest s)) [
  | inl e ↦
      subst (Chosen u (s ∷ ss) oldest token) (rw e refl)
        (Chosen-here u _ s ss oldest token e (oldest_token-Chosen u ss s.expires_at s.token))
  | inr e ↦
      subst (Chosen u (s ∷ ss) oldest token) (rw e refl)
        (Chosen-later u _ s ss oldest token e (oldest_token-Chosen u ss oldest token))
]

make_room-lt :
    (u : String) (ss : List Session)
    → count_if (of_user u) ss ≤ session_limit
    → suc (count_if (of_user u) (make_room u ss)) ≤ session_limit
unfolding make_room
make_room-lt u ss h = elim (Bool-cases (leb session_limit (count_if (of_user u) ss))) [
  | inl e ↦ rw e (elim (oldest_token-Chosen u ss 0 "") [
    | inl k ↦ omega (arith, count_if-keep_if-lt (of_user u) _ ss k)
    | inr (k, n) ↦ absurd (ground (arith, n refl))
  ])
  | inr e ↦ rw e (ground arith)
]

make_room-le :
    (u v : String) (ss : List Session)
    → count_if (of_user v) (make_room u ss) ≤ count_if (of_user v) ss
unfolding make_room
make_room-le u v ss = elim (Bool-cases (leb session_limit (count_if (of_user u) ss))) [
  | inl e ↦ rw e (count_if-keep_if-le (of_user v) _ ss)
  | inr e ↦ rw e (omega arith)
]

-- A login of `u` leaves room for one more entry of `u`, and no more entries of anybody.
room_for :
    (u v token : String) (live : List Session)
    → count_if (of_user v) live ≤ session_limit
    → count_if (of_user v) (make_room u live) + weight (u == v) ≤ session_limit
room_for u v token live h = elim (Bool-cases (u == v)) [
  | inl e ↦
      subst (λ w. count_if (of_user w) (make_room u live) + weight (u == w) ≤ session_limit)
        (==_sound u v e)
        (rw (==_refl u) (
          omega (
            arith,
            make_room-lt u live
                (subst (λ w. count_if (of_user w) live ≤ session_limit) (sym (==_sound u v e)) h),
          )))
  | inr e ↦ rw e (omega (arith, make_room-le u v live))
]

-- A login, of any user, leaves no user with more than twenty sessions who had no more before, in
-- whatever order the map of sessions is read.
pub create_session-limit :
    (now : ℕ) (token u v : String) (d : State)
    → count_if (of_user v) d.sessions ≤ session_limit
    → count_if (of_user v) (create_session now token u d).sessions ≤ session_limit
unfolding create_session
create_session-limit now token u v d h =
    let live = keep_if (λ (s : Session). ltb now s.expires_at) d.sessions in
    let entry : Session = record { token = token; user_id = u; expires_at = now + week } in
    let live_le = count_if-keep_if-le (of_user v) (λ s. ltb now s.expires_at) d.sessions in
    rw (count_if-append (of_user v) (without_token token (make_room u live)) (entry ∷ [])) (
      ground (
        arith,
        room_for u v token live (omega (arith, h, live_le)),
        count_if-keep_if-le (of_user v) (λ s. not (s.token == token)) (make_room u live),
      ))
