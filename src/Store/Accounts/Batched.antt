-- ===== src/Store/Accounts/Batched.antt =====
-- internal/store/account_batch.go: what a saved batch of edits has done to each account.
use miyohub.Base.{
  ==_sound, Bool, Bool-cases, List, Option, Option-cases, String, [], and_parts, any_of, ap, arith,
  false, if◌then◌else◌, inl, inr, length, none, refl, some, subst, suc, sym, true, ◌&&◌, ◌==◌, ◌∙◌,
  ◌∷◌, ◌≡◌, ◌⊎◌,
}
use miyohub.Base.Result.{Result, err, ok}
use miyohub.Base.Text.{trim_space}
use miyohub.Model.{State}
use miyohub.Model.Accounts.{Account}
use miyohub.Model.Schedules.{AccountSchedule, AccountTaskSettings}
use miyohub.Store.Accounts.Batch.{
  AccountBatchPatch, at_revision, batch_update_accounts, edit_account, edit_accounts, edit_settings,
  is_selected, next_schedule, revision_of, same_bool, same_schedule, schedule_edit, unedited,
}
use miyohub.Store.Accounts.Binding.{set_accounts}
use miyohub.Store.Accounts.Editing.{or_bool, trimmed}
use miyohub.Store.Environment.{Environment}
use miyohub.Store.Errors.{Err}
use miyohub.Store.Transaction.{Effect, bind-ok, keep, require-ok, write}

-- The settings `u` after the batch, and `t` before it: a schedule that the batch gives, none if it follows
-- the site's, and a new revision unless nothing has changed.
pub record IsResettled (p : AccountBatchPatch) (t u : AccountTaskSettings) : Type 0 where
  others : u ≡ record t { automatic = u.automatic; schedule = u.schedule; revision = u.revision }
  automatic_kept : p.automatic ≡ none → u.automatic ≡ t.automatic
  automatic_given : (v : Bool) → p.automatic ≡ some v → u.automatic ≡ v
  schedule_given : (s : AccountSchedule) → p.schedule ≡ some s → u.schedule ≡ some s
  schedule_dropped : p.schedule ≡ none → p.follow_default ≡ true → u.schedule ≡ none
  schedule_kept : p.schedule ≡ none → p.follow_default ≡ false → u.schedule ≡ t.schedule
  counted : (u ≡ t) ⊎ (u.revision ≡ suc t.revision)

-- The account `b` after the batch, and `a` before it.
pub record IsEdited (p : AccountBatchPatch) (a b : Account) : Type 0 where
  others : b ≡ record a { group = b.group; disabled = b.disabled; task_settings = b.task_settings }
  group_kept : p.group ≡ none → b.group ≡ a.group
  group_given : (g : String) → p.group ≡ some g → b.group ≡ trim_space g
  disabled_kept : p.disabled ≡ none → b.disabled ≡ a.disabled
  disabled_given : (v : Bool) → p.disabled ≡ some v → b.disabled ≡ v
  tasks_kept : schedule_edit p ≡ false → b.task_settings ≡ a.task_settings
  tasks_edited :
      schedule_edit p ≡ true
      → (t : AccountTaskSettings) × (u : AccountTaskSettings) × (a.task_settings ≡ some t)
        × (b.task_settings ≡ some u)
        × (revision_of a.id p.revisions ≡ t.revision)
        × IsResettled p t u

-- The accounts before and after the batch, and those of the reply: an account of another user or
-- outside the list stays as it was, and every other one is edited and in the reply.
pub data AreEdited (user_id : String) (p : AccountBatchPatch)
    : List Account → List Account → List Account → Type 0 where
  all_edited : AreEdited user_id p [] [] []
  left_alone :
      {a : Account} {xs ys zs : List Account}
      → ((a.user_id == user_id) ≡ false) ⊎ (any_of (λ id. id == a.id) p.account_ids ≡ false)
      → AreEdited user_id p xs ys zs
      → AreEdited user_id p (a ∷ xs) (a ∷ ys) zs
  and_edited :
      {a b : Account} {xs ys zs : List Account}
      → a.user_id ≡ user_id
      → any_of (λ id. id == a.id) p.account_ids ≡ true
      → IsEdited p a b
      → AreEdited user_id p xs ys zs
      → AreEdited user_id p (a ∷ xs) (b ∷ ys) (b ∷ zs)

same_bool-eq : (a b : Bool) → same_bool a b ≡ true → b ≡ a
same_bool-eq true b h = h
same_bool-eq false true h = absurd (cc h)
same_bool-eq false false h = refl

same_schedule-eq : (x y : Option AccountSchedule) → same_schedule x y ≡ true → y ≡ x
same_schedule-eq none none h = refl
same_schedule-eq none (some t) h = absurd (cc h)
same_schedule-eq (some s) none h = absurd (cc h)
same_schedule-eq (some s) (some t) h =
    let (same_time, same_zone) = and_parts _ _ h in
    let time = ==_sound s.time t.time same_time in
    let zone = ==_sound s.timezone t.timezone same_zone in
    ap some
      (ap (λ z. record t { time = z }) (sym time) ∙ ap (λ z. record s { timezone = z }) (sym zone))

-- The fields of the new settings, whether they count as a change or not.
edit_settings-fields :
    (p : AccountBatchPatch) (t : AccountTaskSettings)
    → let u = edit_settings p t in
      (u.automatic ≡ or_bool p.automatic t.automatic)
      × (u.schedule ≡ next_schedule p t.schedule)
      × (u ≡ record t { automatic = u.automatic; schedule = u.schedule; revision = u.revision })
      × ((u ≡ t) ⊎ (u.revision ≡ suc t.revision))
unfolding edit_settings
edit_settings-fields p t =
    let b1 = same_bool t.automatic (or_bool p.automatic t.automatic) in
    let b2 = same_schedule t.schedule (next_schedule p t.schedule) in
    elim (Bool-cases (b1 && b2)) [
      | inl e ↦
          let (auto, at) = and_parts b1 b2 e in
          rw e (
            sym (same_bool-eq t.automatic _ auto),
            sym (same_schedule-eq t.schedule _ at),
            refl,
            inl refl,
          )
      | inr e ↦ rw e (refl, refl, refl, inr refl)
    ]

edit_settings-IsResettled :
    (p : AccountBatchPatch) (t : AccountTaskSettings) → IsResettled p t (edit_settings p t)
edit_settings-IsResettled p t =
    let (auto, at, rest, counts) = edit_settings-fields p t in
    record {
      others = rest;
      automatic_kept = λ e. auto ∙ ap (λ o. or_bool o t.automatic) e;
      automatic_given = λ v e. auto ∙ ap (λ o. or_bool o t.automatic) e;
      schedule_given = λ s e. at ∙ rw e refl;
      schedule_dropped = λ e k. at ∙ rw (e, k) refl;
      schedule_kept = λ e k. at ∙ rw (e, k) refl;
      counted = counts;
    }

edit_account-IsEdited :
    (p : AccountBatchPatch) (a : Account)
    → (schedule_edit p ≡ true → at_revision a.id p.revisions a.task_settings ≡ true)
    → IsEdited p a (edit_account p a)
unfolding edit_account
edit_account-IsEdited p a h = record {
  others = refl;
  group_kept = λ e. ap (λ o. trimmed o a.group) e;
  group_given = λ g e. ap (λ o. trimmed o a.group) e;
  disabled_kept = λ e. ap (λ o. or_bool o a.disabled) e;
  disabled_given = λ v e. ap (λ o. or_bool o a.disabled) e;
  tasks_kept = λ e. rw e refl;
  tasks_edited = λ e. elim (Option-cases a.task_settings) [
    | inl n ↦ absurd (no_settings (rw n at h e))
    | inr (t, some_t) ↦ (
      t,
      edit_settings p t,
      some_t,
      rw (e, some_t) refl,
      ground (arith, rw some_t at h e),
      edit_settings-IsResettled p t,
    )
  ];
}
  where
    no_settings : false ≡ true → ⊥
    no_settings k = cc k

abbrev first_of : List Account × List Account → List Account
first_of x = x.0

abbrev second_of : List Account × List Account → List Account
second_of x = x.1

abbrev edits_of :
    List Account × List Account
    → Result Err (List Account × List Account)
    → List Account × List Account
edits_of r (ok x) = x
edits_of r (err e) = r

edit_accounts-AreEdited :
    (user_id : String) (p : AccountBatchPatch) (accounts : List Account)
    (r : List Account × List Account)
    → edit_accounts user_id p accounts ≡ ok r
    → AreEdited user_id p accounts r.0 r.1
unfolding edit_accounts
edit_accounts-AreEdited user_id p [] r h =
    subst (λ z. AreEdited user_id p [] z.0 z.1) (ap (edits_of r) h) all_edited
edit_accounts-AreEdited user_id p (a ∷ accounts) r h =
    let (guard, h1) = require-ok _ _ _ _ h in
    let (rest, e, h2) = bind-ok _ _ _ h1 in
    let more = edit_accounts-AreEdited user_id p accounts rest e in
    let listed = any_of (λ id. id == a.id) p.account_ids in
    let P : List Account × List Account → Type 0 =
      λ z. AreEdited user_id p (a ∷ accounts) (first_of z) (second_of z) in
    elim (Bool-cases (is_selected user_id p.account_ids a)) [
      | inl q ↦
          let (inside, own) = and_parts listed (a.user_id == user_id) q in
          let current : schedule_edit p ≡ true
              → at_revision a.id p.revisions a.task_settings ≡ true =
            λ k. ground (arith, guard, q, k) in
          subst P (ap (edits_of r) (rw q at h2))
            (and_edited (==_sound _ _ own) inside (edit_account-IsEdited p a current) more)
      | inr q ↦
          subst P (ap (edits_of r) (rw q at h2))
            (left_alone (left_out listed (a.user_id == user_id) q) more)
    ]
  where
    left_out : (x y : Bool) → (x && y) ≡ false → (y ≡ false) ⊎ (x ≡ false)
    left_out true y k = inl k
    left_out false y k = inr refl

abbrev reply_of : State × List Account → Result Err (Effect (List Account)) → State × List Account
reply_of r (ok (write e result)) = (e, result)
reply_of r _ = r

saved_edits :
    (same : Bool) (x : List Account × List Account) (d e : State) (result : List Account)
    → ◌≡◌ {A = Result Err (Effect (List Account))}
        (ok (if same then keep x.1 else write (set_accounts d x.0) x.1))
        (ok (write e result))
    → (x.0 ≡ e.config.accounts) × (x.1 ≡ result)
saved_edits true x d e result h = absurd (cc h)
saved_edits false x d e result h =
    let same = ap (reply_of (d, [])) h in (ap (λ z. z.0.config.accounts) same, ap (λ z. z.1) same)

-- A batch that is saved leaves the accounts of other users and those outside its list as they were, and
-- edits all the others exactly as it asks: the group, the switch, the automatic run and the schedule that
-- it gives and nothing else, the settings only from the revision that it names and with a new one if
-- they change. It replies with the edited accounts, one for each identifier of the list.
pub batch_update_accounts-AreEdited :
    (env : Environment) (user_id : String) (p : AccountBatchPatch) (d e : State)
    (result : List Account)
    → batch_update_accounts env user_id p d ≡ ok (write e result)
    → AreEdited user_id p d.config.accounts e.config.accounts result
      × (length result ≡ length p.account_ids)
unfolding batch_update_accounts
batch_update_accounts-AreEdited env user_id p d e result h =
    let (_, _, h1) = bind-ok _ _ _ h in
    let (_, h2) = require-ok _ _ _ _ h1 in
    let (edited, made, h3) = bind-ok _ _ _ h2 in
    let (full, h4) = require-ok _ _ _ _ h3 in
    let last = saved_edits (unedited edited.0 d.config.accounts) edited d e result h4 in
    let all = edit_accounts-AreEdited user_id p d.config.accounts edited made in
    (
      subst (λ z. AreEdited user_id p d.config.accounts z result) last.0
          (subst (λ z. AreEdited user_id p d.config.accounts edited.0 z) last.1 all),
      subst (λ x. length x ≡ length p.account_ids) last.1 (ground (arith, full)),
    )
