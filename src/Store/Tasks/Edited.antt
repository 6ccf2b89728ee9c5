-- ===== src/Store/Tasks/Edited.antt =====
-- internal/store/task_settings.go: of two edits of one revision of an account's tasks, one is saved.
use miyohub.Base.{
  Bool, String, any_of, ap, arith, eqb, false, find_first-passes, if◌then◌else◌, refl,
  replace_first, some, subst, suc, true, ◌&&◌, ◌≡◌,
}
use miyohub.Base.Finds.{find_first-any_of, find_first-replace_first}
use miyohub.Base.Result.{Result, err, ok, ◌>>=◌}
use miyohub.Model.{State}
use miyohub.Model.Accounts.{Account}
use miyohub.Model.Schedules.{AccountTaskSettings}
use miyohub.Store.Accounts.Batch.{same_bool, same_schedule}
use miyohub.Store.Accounts.Binding.{active_user, set_accounts}
use miyohub.Store.Accounts.Editing.{is_owned}
use miyohub.Store.Environment.{Environment}
use miyohub.Store.Errors.{Err}
use miyohub.Store.Lookup.{find_user}
use miyohub.Store.Tasks.Runs.{replace_tasks, same_work, update_account_tasks}
use miyohub.Store.Transaction.{Effect, bind-ok, find-ok, keep, require-ok, write}

abbrev edited_state : State → Result Err (Effect Account) → State
edited_state d (ok (write e a)) = e
edited_state d _ = d

saved_tasks :
    (same : Bool) (d e f : State) (a b c : Account)
    → ◌≡◌ {A = Result Err (Effect Account)}
        (ok (if same then keep a else write e b))
        (ok (write f c))
    → e ≡ f
saved_tasks true d e f a b c h = absurd (cc h)
saved_tasks false d e f a b c h = ap (edited_state d) h

-- What an edit that was saved has written.
edit-written :
    (env : Environment) (user_id id : String) (p : AccountTaskSettings) (d e : State) (a : Account)
    → update_account_tasks env user_id id p d ≡ ok (write e a)
    → (active_user (find_user d user_id) ≡ true)
      × (b : Account) × (any_of (is_owned user_id id) d.config.accounts ≡ true)
      × (is_owned user_id id b ≡ true)
      × (b.task_settings ≡ some (record p { revision = suc p.revision }))
      × (set_accounts d (replace_first (is_owned user_id id) b d.config.accounts) ≡ e)
unfolding update_account_tasks replace_tasks
edit-written env user_id id p d e a h =
    let (active, h1) = require-ok _ _ _ _ h in
    let (old, found, h2) = find-ok _ _ _ _ h1 in
    let (t, settings, h3) = find-ok _ _ _ _ h2 in
    let (at, h4) = require-ok _ _ _ _ h3 in
    let (_, _, h5) = bind-ok _ _ _ h4 in
    let b = record old { task_settings = some (record p { revision = suc p.revision }) } in
    let next = set_accounts d (replace_first (is_owned user_id id) b d.config.accounts) in
    (
      active,
      b,
      find_first-any_of (is_owned user_id id) d.config.accounts old found,
      find_first-passes (is_owned user_id id) d.config.accounts old found,
      refl,
      saved_tasks
          (same_work p t
            && same_bool p.automatic t.automatic
            && same_schedule p.schedule t.schedule)
          d next e old b a h5,
    )

-- After an edit of the tasks was saved, no other edit from the revision that it was made from is: it
-- fails and asks to read the account again.
pub update_account_tasks_stale :
    (env : Environment) (user_id id : String) (p q : AccountTaskSettings) (d e : State)
    (a : Account)
    → update_account_tasks env user_id id p d ≡ ok (write e a)
    → q.revision ≡ p.revision
    → update_account_tasks env user_id id q e ≡ err Err.settings_changed
unfolding update_account_tasks replace_tasks ◌>>=◌
update_account_tasks_stale env user_id id p q d e a h same =
    let (active, b, some_own, own, tasks, next) = edit-written env user_id id p d e a h in
    let found = find_first-replace_first (is_owned user_id id) b d.config.accounts some_own own in
    let late : eqb q.revision (suc p.revision) ≡ false = ground (arith, same) in
    subst (λ z. update_account_tasks env user_id id q z ≡ err Err.settings_changed) next
      (rw (active, found, tasks, late) refl)
