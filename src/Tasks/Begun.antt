-- ===== src/Tasks/Begun.antt =====
-- internal/tasks/runner.go: the accounts that a batch reserves.
-- The account is among those that the caller named, may run, has work that the options leave, runs by
-- itself if the batch is the scheduler's, and nothing runs for it.
use miyohub.Base.{
  ==_sound, All, Bool, Bool-cases, List, Option, Option-cases, String, [], and_parts, ap, arith,
  false, find_first-passes, if◌then◌else◌, inl, inr, none, not, refl, some, subst, sym, true, ℕ,
  ◌&&◌, ◌==◌, ◌||◌, ◌∷◌, ◌≡◌,
}
use miyohub.Base.Result.{Result, err, ok}
use miyohub.Model.{State}
use miyohub.Model.Accounts.{Account}
use miyohub.Store.Environment.{Environment}
use miyohub.Store.Lookup.{account_runnable, owner_active}
use miyohub.Store.Tasks.Runs.{config_for_account}
use miyohub.Store.Transaction.{Store}
use miyohub.Tasks.Options.{RunOptions}
use miyohub.Tasks.Runner.{
  Judgement, RunErr, Runner, add_chosen, ask, begin_batch, begin_chosen, busy, claim_for, has_work,
  is_busy, is_wanted, judge, judge_runnable, pass_over, runs_itself, select, settings_revision,
  take,
}

pub record IsReady (ids : Option (List String)) (o : RunOptions) (r : Runner) (d : State)
    (a : Account) : Type 0 where
  wanted : is_wanted ids a.id ≡ true
  runnable : account_runnable d a.id ≡ some a
  work : has_work o (config_for_account a.id d) ≡ true
  by_itself : o.automatic ≡ true → runs_itself a.task_settings ≡ true
  free : is_busy r a.id ≡ false

-- What a verdict says of the account.
data Judged (ids : Option (List String)) (o : RunOptions) (r : Runner) (d : State)
    : Judgement → Type 0 where
  passed : Judged ids o r d pass_over
  was_busy : Judged ids o r d busy
  taken : {a : Account} → IsReady ids o r d a → Judged ids o r d (take a)
  asked : {a : Account} {n : ℕ} → IsReady ids o r d a → Judged ids o r d (ask a n)

busy-Judged :
    (ids : Option (List String)) (o : RunOptions) (r : Runner) (d : State) (automatic : Bool)
    → Judged ids o r d (if automatic then pass_over else busy)
busy-Judged ids o r d true = passed
busy-Judged ids o r d false = was_busy

free-Judged :
    (ids : Option (List String)) (o : RunOptions) (r : Runner) (d : State) (a : Account) (n : ℕ)
    (automatic : Bool)
    → IsReady ids o r d a
    → Judged ids o r d (if automatic then ask a n else take a)
free-Judged ids o r d a n true h = asked h
free-Judged ids o r d a n false h = taken h

judge_runnable-Judged :
    (ids : Option (List String)) (o : RunOptions) (r : Runner) (d : State) (a : Account)
    → is_wanted ids a.id ≡ true
    → account_runnable d a.id ≡ some a
    → Judged ids o r d (judge_runnable o r d a)
unfolding judge_runnable
judge_runnable-Judged ids o r d a w e =
    let idle = o.automatic && not (runs_itself a.task_settings) in
    elim (Bool-cases (idle || not (has_work o (config_for_account a.id d)))) [
      | inl p ↦ rw p passed
      | inr p ↦
          let works : has_work o (config_for_account a.id d) ≡ true = ground (arith, p) in
          let unless_idle : o.automatic ≡ true → runs_itself a.task_settings ≡ true =
            λ auto. ground (arith, p, auto) in
          elim (Bool-cases (is_busy r a.id)) [
            | inl b ↦ rw (p, b) (busy-Judged ids o r d o.automatic)
            | inr b ↦
                rw (p, b)
                  (free-Judged ids o r d a (settings_revision a.task_settings) o.automatic (record {
                    wanted = w;
                    runnable = e;
                    work = works;
                    by_itself = unless_idle;
                    free = b;
                  }))
          ]
    ]

runnable-id : (d : State) (id : String) (a : Account) → account_runnable d id ≡ some a → a.id ≡ id
unfolding account_runnable
runnable-id d id a e =
    ==_sound a.id id
      (and_parts _ _
        (and_parts _ _ (
          find_first-passes (λ x. x.id == id && not x.disabled && owner_active d x)
            d.config.accounts a e)).0).0

judge-Judged :
    (ids : Option (List String)) (o : RunOptions) (r : Runner) (d : State) (x : Account)
    → Judged ids o r d (judge ids o r d x)
unfolding judge account_runnable
judge-Judged ids o r d x = elim (Bool-cases (is_wanted ids x.id)) [
  | inr w ↦ rw w passed
  | inl w ↦ elim (Option-cases (account_runnable d x.id)) [
    | inl e ↦ rw (judge, w, e) passed
    | inr (a, e) ↦
        let named : a.id ≡ x.id = runnable-id d x.id a e in
        rw (judge, w, e)
          (judge_runnable-Judged ids o r d a (subst (λ z. is_wanted ids z ≡ true) (sym named) w)
            (subst (λ z. account_runnable d z ≡ some a) (sym named) e))
  ]
]

-- All the accounts of a choice have the property.
abbrev AllChosen {κ} : (Account → Type κ) → Option (List Account) → Type κ
AllChosen Q none = Unit
AllChosen Q (some accounts) = All Q accounts

add_chosen-AllChosen {κ} :
    (Q : Account → Type κ) (a : Account) (p : Store × Option (List Account))
    → Q a
    → AllChosen Q p.1
    → AllChosen Q (add_chosen a p).1
add_chosen-AllChosen Q a (s, none) q h = tt
add_chosen-AllChosen Q a (s, some accounts) q h = (q, h)

AllChosen-map {κ} :
    (Q R : Account → Type κ)
    → ((a : Account) → Q a → R a)
    → (found : Option (List Account)) → AllChosen Q found
    → AllChosen R found
AllChosen-map Q R f none h = tt
AllChosen-map Q R f (some accounts) h = go accounts h
  where
    go : (xs : List Account) → All Q xs → All R xs
    go [] h = tt
    go (x ∷ xs) h = (f x h.0, go xs h.1)

-- The stores that the batch makes out of one while it chooses: each claim is of an account that is
-- ready at the store before it.
pub data Claimed (env : Environment) (now : ℕ) (disk : String → Bool × Bool)
    (ids : Option (List String)) (o : RunOptions) (r : Runner) : Store → Store → Type 0 where
  unclaimed : {s : Store} → Claimed env now disk ids o r s s
  claimed :
      {s t : Store} (a : Account) (revision : ℕ)
      → IsReady ids o r s.current a
      → Claimed env now disk ids o r (claim_for env now (disk a.id) a revision s).0 t
      → Claimed env now disk ids o r s t

-- The account was ready at a store that the batch has made out of `s` by claims only.
abbrev pub WasReady :
    Environment
    → ℕ
    → (String → Bool × Bool)
    → Option (List String)
    → RunOptions
    → Runner
    → Store
    → Account
    → Type 0
WasReady env now disk ids o r s a =
    (t : Store) × (Claimed env now disk ids o r s t) × IsReady ids o r t.current a

select-WasReady :
    (env : Environment) (now : ℕ) (disk : String → Bool × Bool) (ids : Option (List String))
    (o : RunOptions) (r : Runner) (xs : List Account) (s : Store)
    → AllChosen (WasReady env now disk ids o r s) (select env now disk ids o r xs s).1
unfolding select
select-WasReady env now disk ids o r [] s = tt
select-WasReady env now disk ids o r (x ∷ xs) s =
    go (judge ids o r s.current x) refl (judge-Judged ids o r s.current x)
      (select-WasReady env now disk ids o r xs)
  where
    go :
        (v : Judgement)
        → judge ids o r s.current x ≡ v
        → Judged ids o r s.current v
        → ((t : Store)
            → AllChosen (WasReady env now disk ids o r t) (select env now disk ids o r xs t).1)
        → AllChosen (WasReady env now disk ids o r s) (select env now disk ids o r (x ∷ xs) s).1
    go pass_over e j more = rw (select, e) (more s)
    go busy e j more = rw (select, e) tt
    go (take a) e (taken ready) more =
        rw (select, e)
          (add_chosen-AllChosen (WasReady env now disk ids o r s) a _ (s, unclaimed, ready)
            (more s))
    go (ask a n) e (asked ready) more =
        let after_claim = claim_for env now (disk a.id) a n s in
        let found = select env now disk ids o r xs after_claim.0 in
        let later : AllChosen (WasReady env now disk ids o r s) found.1 =
          AllChosen-map (WasReady env now disk ids o r after_claim.0)
            (WasReady env now disk ids o r s) (λ b w. (w.0, claimed a n ready w.1, w.2)) found.1
            (more after_claim.0) in
        elim (Bool-cases after_claim.1) [
          | inl p ↦
              rw (select, e, p)
                (add_chosen-AllChosen (WasReady env now disk ids o r s) a _ (s, unclaimed, ready)
                  later)
          | inr p ↦ rw (select, e, p) later
        ]

chosen-All {κ} :
    (Q : Account → Type κ) (now batch : ℕ) (r next : Runner) (found : Option (List Account))
    (accounts : List Account)
    → begin_chosen now batch r found ≡ ok (accounts, next)
    → AllChosen Q found
    → All Q accounts
chosen-All Q now batch r next none accounts h all = absurd (cc h)
chosen-All Q now batch r next (some []) accounts h all = absurd (cc h)
chosen-All Q now batch r next (some (a ∷ rest)) accounts h all =
    subst (All Q) (ap (begun_of accounts) h) all
  where
    begun_of : List Account → Result RunErr (List Account × Runner) → List Account
    begun_of xs (ok p) = p.0
    begun_of xs (err e) = xs

-- The reply of `begin` behind its two guards.
abbrev guarded {κ} : {A : Type κ} → Bool → Bool → Store → Store × Result RunErr A → Result RunErr A
guarded {A} stopped enabled s found =
    let pair : Store × Result RunErr A =
      if stopped
      then (s, err RunErr.stopping)
      else if enabled
      then found
      else (s, err RunErr.tasks_off) in
    pair.1

guards_passed {κ} :
    {A : Type κ} (stopped enabled : Bool) (s t : Store) (found : Result RunErr A) (z : A)
    → guarded stopped enabled s (t, found) ≡ ok z
    → (stopped ≡ false) × (enabled ≡ true) × (found ≡ ok z)
guards_passed true enabled s t found z h = absurd (cc h)
guards_passed false true s t found z h = (refl, refl, h)
guards_passed false false s t found z h = absurd (cc h)

-- A batch begins only while the site's tasks are on and the runner is not stopping, and with accounts
-- only that the caller named, for which nothing was running, and that, at the store as the batch found
-- it or as its claims for accounts before had left it, could run, had work left by the options, and ran
-- by themselves if the batch is the scheduler's.
pub begin_batch-IsReady :
    (env : Environment) (now : ℕ) (disk : String → Bool × Bool) (batch : ℕ)
    (ids : Option (List String)) (o : RunOptions) (r next : Runner) (s : Store)
    (accounts : List Account)
    → (begin_batch env now disk batch ids o r s).1 ≡ ok (accounts, next)
    → (r.stopped ≡ false)
      × (s.current.config.enabled ≡ true)
      × All (WasReady env now disk ids o r s) accounts
unfolding begin_batch
begin_batch-IsReady env now disk batch ids o r next s accounts h =
    let found = select env now disk ids o r s.current.config.accounts s in
    let all = select-WasReady env now disk ids o r s.current.config.accounts s in
    let (on, enabled, picked) =
      guards_passed r.stopped s.current.config.enabled s found.0 (begin_chosen now batch r found.1)
        (accounts, next) h in
    (
      on,
      enabled,
      chosen-All (WasReady env now disk ids o r s) now batch r next found.1 accounts picked all,
    )
