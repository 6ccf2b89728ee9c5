-- ===== src/Api/Confirmed.antt =====
-- internal/api/archive.go: an import is confirmed at most once.
use miyohub.Api.Archives.{
  ArchiveSessions, PendingPreview, begin, cancel, clear, complete, consume, end, five_minutes,
  is_meant, is_usable, is_version_1, of_owner, put_preview, reserve, without_pending,
}
use miyohub.Api.Previews.{
  ArchiveCall, call_begin, call_cancel, call_clear, call_complete, call_consume, call_end,
  call_reserve, confirmed, is_confirmed, is_given_out, makes_other, perform_archive,
}
use miyohub.Base.{
  ==_sound, All, Bool, Bool-cases, List, Option-cases, String, [], and_parts, any_of, arith, false,
  find_first, find_first-passes, inl, inr, leb, length, none, not, refl, some, subst, true, ℕ, ◌&&◌,
  ◌+◌, ◌==◌, ◌||◌, ◌∷◌, ◌≡◌, ◌≤◌,
}
use miyohub.Base.Finds.{
  any_of-append_out, any_of-dropped, any_of-found, any_of-keep_if_out, any_of-member,
  any_of-replace_first_out,
}
use miyohub.Store.Accounts.Archives.{AccountArchive}
use miyohub.Store.Users.Login.{named}

abbrev is_that : String → String → PendingPreview → Bool
is_that user_id id p = p.user_id == user_id && p.id == id

abbrev IsGone : String → String → ArchiveSessions → Type 0
IsGone user_id id a = any_of (is_that user_id id) a.pending ≡ false

put_preview-IsGone :
    (user_id id : String) (p : PendingPreview) (a : ArchiveSessions)
    → is_that user_id id p ≡ false
    → IsGone user_id id a
    → IsGone user_id id (put_preview p a)
put_preview-IsGone user_id id p a k h = elim (Bool-cases (any_of (of_owner p.user_id) a.pending)) [
  | inl e ↦
      rw e (any_of-replace_first_out (is_that user_id id) (of_owner p.user_id) p a.pending h k)
  | inr e ↦ rw e (any_of-append_out (is_that user_id id) p a.pending h k)
]

module _ (user_id id : String) (a : ArchiveSessions) (h : IsGone user_id id a) where
  begin-IsGone : IsGone user_id id (begin a).1
  unfolding begin
  begin-IsGone = elim (Bool-cases (a.stopped || leb 2 a.active)) [ inl e ↦ rw e h | inr e ↦ rw e h ]

  cancel-IsGone : (u i : String) → IsGone user_id id (cancel u i a)
  unfolding cancel
  cancel-IsGone u i = elim (Bool-cases (any_of (is_meant u i) a.pending)) [
    | inl e ↦ rw e (any_of-keep_if_out (is_that user_id id) (λ p. not (of_owner u p)) a.pending h)
    | inr e ↦ rw e h
  ]

  reserve-IsGone :
      (now : ℕ) (fresh u : String)
      → not (fresh == id) ≡ true
      → IsGone user_id id (reserve now fresh u a).1
  unfolding reserve
  reserve-IsGone now fresh u m =
      let p : PendingPreview = record {
        user_id = u;
        id = fresh;
        expires = now + five_minutes;
        archive = none;
      } in
      elim (Bool-cases
        (a.stopped || (not (any_of (of_owner u) a.pending) && leb 100 (length a.pending)))) [
          | inl e ↦ rw e h
          | inr e ↦ rw e (put_preview-IsGone user_id id p a (ground arith) h)
        ]

  complete-IsGone :
      (now : ℕ) (u i : String) (archive : AccountArchive)
      → IsGone user_id id (complete now u i archive a).1
  unfolding complete
  complete-IsGone now u i archive = elim (Option-cases (find_first (of_owner u) a.pending)) [
    | inl e ↦ rw (complete, e) h
    | inr (p, e) ↦ elim (Bool-cases (a.stopped || not (is_usable now u i p))) [
      | inl q ↦ rw (complete, e, q) h
      | inr q ↦
          rw (complete, e, q)
            (put_preview-IsGone user_id id (record p { archive = some archive }) a
              (any_of-member (is_that user_id id) (of_owner u) p a.pending e h) h)
    ]
  ]

  consume-IsGone : (now : ℕ) (u i : String) → IsGone user_id id (consume now u i a).1
  unfolding consume
  consume-IsGone now u i = elim (Option-cases (find_first (of_owner u) a.pending)) [
    | inl e ↦ rw (consume, e) h
    | inr (p, e) ↦
        elim (Bool-cases (a.stopped || not (is_usable now u i p) || not (is_version_1 p.archive))) [
          | inl q ↦ rw (consume, e, q) h
          | inr q ↦
              rw (consume, e, q)
                (any_of-keep_if_out (is_that user_id id) (λ p. not (of_owner u p)) a.pending h)
        ]
  ]

perform_archive-IsGone :
    (user_id id : String) (c : ArchiveCall) (a : ArchiveSessions)
    → makes_other id c ≡ true
    → IsGone user_id id a
    → IsGone user_id id (perform_archive c a)
unfolding perform_archive end clear
perform_archive-IsGone user_id id call_begin a m h = begin-IsGone user_id id a h
perform_archive-IsGone user_id id call_end a m h = h
perform_archive-IsGone user_id id call_clear a m h = refl
perform_archive-IsGone user_id id (call_cancel u i) a m h = cancel-IsGone user_id id a h u i
perform_archive-IsGone user_id id (call_reserve now fresh u) a m h =
    reserve-IsGone user_id id a h now fresh u m
perform_archive-IsGone user_id id (call_complete now u i archive) a m h =
    complete-IsGone user_id id a h now u i archive
perform_archive-IsGone user_id id (call_consume now u i) a m h =
    consume-IsGone user_id id a h now u i

-- What a call that gives out an archive has found, and what it leaves.
consume_given :
    (now : ℕ) (u i : String) (a : ArchiveSessions)
    → is_given_out (consume now u i a).0 ≡ true
    → (p : PendingPreview) × (find_first (of_owner u) a.pending ≡ some p)
      × ((p.id == i) ≡ true)
      × ((consume now u i a).1 ≡ without_pending u a)
unfolding consume
consume_given now u i a h = elim (Option-cases (find_first (of_owner u) a.pending)) [
  | inl e ↦ absurd (cc (rw (consume, e) at h))
  | inr (p, e) ↦
      elim (Bool-cases (a.stopped || not (is_usable now u i p) || not (is_version_1 p.archive))) [
        | inl q ↦ absurd (cc (rw (consume, e, q) at h))
        | inr q ↦ (p, e, ground (arith, q), rw (consume, e, q) refl)
      ]
]

owner_that :
    (user_id id : String) (p : PendingPreview)
    → of_owner user_id p ≡ true
    → (p.id == id) ≡ true
    → is_that user_id id p ≡ true
owner_that user_id id p h k = rw (h, k) refl

-- A call that confirms a preview found it, and leaves none of the user.
confirmed_was :
    (user_id id : String) (c : ArchiveCall) (a : ArchiveSessions)
    → is_confirmed user_id id c a ≡ true
    → (any_of (is_that user_id id) a.pending ≡ true) × IsGone user_id id (perform_archive c a)
unfolding is_confirmed perform_archive consume
confirmed_was user_id id call_begin a h = absurd (cc h)
confirmed_was user_id id call_end a h = absurd (cc h)
confirmed_was user_id id call_clear a h = absurd (cc h)
confirmed_was user_id id (call_cancel u i) a h = absurd (cc h)
confirmed_was user_id id (call_reserve now fresh u) a h = absurd (cc h)
confirmed_was user_id id (call_complete now u i archive) a h = absurd (cc h)
confirmed_was user_id id (call_consume now u i) a h =
    let (both, given) =
      and_parts (u == user_id && i == id) (is_given_out (consume now u i a).0) h in
    let (by, same) = and_parts (u == user_id) (i == id) both in
    let who : u ≡ user_id = ==_sound u user_id by in
    let what : i ≡ id = ==_sound i id same in
    let (p, found, named, left) = consume_given now u i a given in
    let mine : of_owner user_id p ≡ true =
      subst (λ z. of_owner z p ≡ true) who (find_first-passes (of_owner u) a.pending p found) in
    let this : is_that user_id id p ≡ true =
      owner_that user_id id p mine (subst (λ z. (p.id == z) ≡ true) what named) in
    (
      any_of-found (is_that user_id id) (of_owner u) p a.pending found this,
      rw (left, who)
          (any_of-dropped (is_that user_id id) (λ x. not (of_owner user_id x)) a.pending
            (λ x k. ground (arith, k))),
    )

confirmed_none :
    (user_id id : String) (calls : List ArchiveCall) (a : ArchiveSessions)
    → All (λ c. makes_other id c ≡ true) calls
    → IsGone user_id id a
    → confirmed user_id id calls a ≡ 0
unfolding confirmed
confirmed_none user_id id [] a m h = refl
confirmed_none user_id id (c ∷ calls) a m h = elim (Bool-cases (is_confirmed user_id id c a)) [
  | inl e ↦ absurd (cc (h, (confirmed_was user_id id c a e).0))
  | inr e ↦ rw e (
      confirmed_none user_id id calls (perform_archive c a) m.1
        (perform_archive-IsGone user_id id c a m.0 h))
]

-- A preview of a user hands its archive to at most one import, whatever calls are made, in any order,
-- as long as its identifier is not made again.
pub confirmed-le_one :
    (user_id id : String) (calls : List ArchiveCall) (a : ArchiveSessions)
    → All (λ c. makes_other id c ≡ true) calls
    → confirmed user_id id calls a ≤ 1
unfolding confirmed
confirmed-le_one user_id id [] a m = omega arith
confirmed-le_one user_id id (c ∷ calls) a m = elim (Bool-cases (is_confirmed user_id id c a)) [
  | inr e ↦ rw e (confirmed-le_one user_id id calls (perform_archive c a) m.1)
  | inl e ↦
      let none_left =
        confirmed_none user_id id calls (perform_archive c a) m.1
          (confirmed_was user_id id c a e).1 in
      rw (e, none_left) (omega arith)
]
