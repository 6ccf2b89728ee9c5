-- ===== src/Store/Tasks/Daily.antt =====
-- internal/store/task_settings.go: the schedulers' claims of an account's automatic run on one day,
-- whatever else changes the state between them.
use miyohub.Base.{
  ==_refl, Bool, Bool-cases, List, Option-cases, String, [], arith, count_if-replace_first, eqb,
  false, find_first, find_first-only, find_first-passes, if◌then◌else◌, inl, inr, not, refl, some,
  subst, suc, true, ℕ, ◌&&◌, ◌==◌, ◌∷◌, ◌≡◌, ◌≤◌,
}
use miyohub.Base.Finds.{find_first-any_of, find_first-replace_first}
use miyohub.Base.Result.{Result, ok}
use miyohub.Model.{State}
use miyohub.Model.Accounts.{Account}
use miyohub.Store.Accounts.Editing.{has_account_id, write_account}
use miyohub.Store.Accounts.Unique.{count_id}
use miyohub.Store.Environment.{Environment}
use miyohub.Store.Errors.{Err}
use miyohub.Store.Lookup.{account_runnable, owner_active}
use miyohub.Store.Tasks.Runs.{
  automatic_done_today, claim_automatic_run, effective_schedule, may_claim,
}
use miyohub.Store.Transaction.{Effect, after, keep, write}

abbrev pub is_grant : Result Err (Effect Bool) → Bool
is_grant (ok (write d b)) = b
is_grant (ok (keep b)) = b
is_grant _ = false

-- A claim at a revision and a time, and the state in which it finds the site.
pub record Turn : Type 0 where
  pub site : State
  pub revision : ℕ
  pub now : ℕ

abbrev pub answer_to : Environment → String → Turn → Result Err (Effect Bool)
answer_to env id c = claim_automatic_run env id c.revision c.now c.site

-- The number of claims that are granted.
unfoldable pub granted : Environment → String → List Turn → ℕ
granted env id [] = 0
granted env id (c ∷ turns) =
    let more = granted env id turns in if is_grant (answer_to env id c) then suc more else more

-- The zone in which the days of the account are counted.
abbrev pub zone_of : State → Account → String
zone_of d a = (effective_schedule a d.config.schedule).timezone

-- The identifier is of one account, with its zone and the time of its last automatic run.
pub record HasRun (id zone : String) (last : ℕ) (d : State) : Type 0 where
  pub account : Account
  pub found : find_first (has_account_id id) d.config.accounts ≡ some account
  pub alone : count_id id d.config.accounts ≤ 1
  pub at : account.last_automatic_at ≡ last
  pub zoned : zone_of d account ≡ zone

-- The state changes between two claims in any way that keeps the account, its zone and the time of its
-- last automatic run.
abbrev pub IsQuiet : String → State → State → Type 0
IsQuiet id d e = (zone : String) (last : ℕ) → HasRun id zone last d → HasRun id zone last e

-- Claims on one local day of the zone, with such changes between them, from the state `d`.
abbrev pub AreOnDay : Environment → String → String → String → List Turn → State → Type 0
AreOnDay env id zone day [] d = Unit
AreOnDay env id zone day (c ∷ turns) d =
    IsQuiet id d c.site
    × (eqb c.now 0 ≡ false)
    × (env.local_date zone c.now ≡ day)
    × AreOnDay env id zone day turns (after c.site (answer_to env id c))

-- The account that runs is the one of the identifier.
HasRun-runnable :
    (id zone : String) (last : ℕ) (d : State) (r : Account) (h : HasRun id zone last d)
    → account_runnable d id ≡ some r
    → h.account ≡ r
unfolding account_runnable
HasRun-runnable id zone last d r h g =
    (find_first-only (λ x. x.id == id && not x.disabled && owner_active d x) (has_account_id id)
      h.account r h.account d.config.accounts (λ x k. ground arith) h.alone h.found g refl).0

-- What was done on the day is not claimed.
may_claim_done :
    (env : Environment) (id zone day : String) (last revision now : ℕ) (d : State)
    → HasRun id zone last d
    → env.zone_known zone ≡ true
    → eqb last 0 ≡ false
    → env.local_date zone last ≡ day
    → env.local_date zone now ≡ day
    → may_claim env id revision now d ≡ false
unfolding may_claim automatic_done_today
may_claim_done env id zone day last revision now d h z n l k =
    elim (Option-cases (account_runnable d id)) [
      | inl e ↦ rw (may_claim, e) refl
      | inr (r, e) ↦
          let same = HasRun-runnable id zone last d r h e in
          let zoned : zone_of d r ≡ zone = subst (λ x. zone_of d x ≡ zone) same h.zoned in
          let at : r.last_automatic_at ≡ last = subst (λ x. x.last_automatic_at ≡ last) same h.at in
          rw (may_claim, e, zoned, at, z, n, l, k, ==_refl day) (ground arith)
    ]

-- After a claim on the day no other is granted.
granted_done :
    (env : Environment) (id zone day : String) (last : ℕ) (turns : List Turn) (d : State)
    → HasRun id zone last d
    → env.zone_known zone ≡ true
    → eqb last 0 ≡ false
    → env.local_date zone last ≡ day
    → AreOnDay env id zone day turns d
    → granted env id turns ≡ 0
unfolding granted claim_automatic_run
granted_done env id zone day last [] d h z n l k = refl
granted_done env id zone day last (c ∷ turns) d h z n l (quiet, some_time, today, rest_days) =
    let kept = quiet zone last h in
    let no : may_claim env id c.revision c.now c.site ≡ false =
      may_claim_done env id zone day last c.revision c.now c.site kept z n l today in
    let later : AreOnDay env id zone day turns c.site = rw no at rest_days in
    rw no (granted_done env id zone day last turns c.site kept z n l later)

stamp-HasRun :
    (id zone : String) (last now : ℕ) (d : State) (h : HasRun id zone last d)
    → HasRun id zone now (write_account id (record (h.account) { last_automatic_at = now }) d)
unfolding effective_schedule
stamp-HasRun id zone last now d h =
    let v = record (h.account) { last_automatic_at = now } in
    let passes = find_first-passes (has_account_id id) d.config.accounts h.account h.found in
    record {
      account = v;
      found =
          find_first-replace_first (has_account_id id) v d.config.accounts
            (find_first-any_of (has_account_id id) d.config.accounts h.account h.found) passes;
      alone = omega (
        arith,
        h.alone,
        count_if-replace_first (has_account_id id) (has_account_id id) v h.account d.config.accounts
            h.found,
      );
      at = refl;
      zoned = h.zoned;
    }

-- On one local day of an account's zone at most one automatic run of the account is granted, however
-- often and at whatever revision it is claimed, if the zone is known, and whatever changes of the state come
-- between keep the account as the only one of its identifier, with its zone and the time of its last
-- automatic run.
pub granted_once :
    (env : Environment) (id zone day : String) (last : ℕ) (turns : List Turn) (d : State)
    → HasRun id zone last d
    → env.zone_known zone ≡ true
    → AreOnDay env id zone day turns d
    → granted env id turns ≤ 1
unfolding granted claim_automatic_run
granted_once env id zone day last [] d h z k = omega arith
granted_once env id zone day last (c ∷ turns) d h z (quiet, some_time, today, rest_days) =
    let kept = quiet zone last h in
    elim (Bool-cases (may_claim env id c.revision c.now c.site)) [
      | inr p ↦
          let later : AreOnDay env id zone day turns c.site = rw p at rest_days in
          rw p (granted_once env id zone day last turns c.site kept z later)
      | inl p ↦
          let v = record (kept.account) { last_automatic_at = c.now } in
          let later : AreOnDay env id zone day turns (write_account id v c.site) =
            rw (p, kept.found) at rest_days in
          let none_more : granted env id turns ≡ 0 =
            granted_done env id zone day c.now turns (write_account id v c.site)
              (stamp-HasRun id zone last c.now c.site kept) z some_time today later in
          rw (p, kept.found, none_more) (omega arith)
    ]
