-- ===== src/Store/Tasks/Quiet.antt =====
-- internal/store/accounts.go: operations that may come between two claims of an automatic run.
use miyohub.Base.{
  ==_refl, ==_sound, Bool-cases, List, String, ap, arith, count_if-replace_first, find_first,
  find_first-passes, inl, inr, refl, replace_first, some, some-injective, subst, sym, ℕ, ◌==◌, ◌∙◌,
  ◌≡◌, ◌≤◌,
}
use miyohub.Base.Finds.{find_first-any_of, find_first-replace_first, find_first-replace_first_out}
use miyohub.Model.{State}
use miyohub.Model.Accounts.{Account, TaskSummary}
use miyohub.Store.Accounts.Editing.{
  has_account_id, record_account_check, record_tasks, write_account,
}
use miyohub.Store.Accounts.Unique.{count_id}
use miyohub.Store.Tasks.Daily.{IsQuiet, zone_of}
use miyohub.Store.Tasks.Runs.{effective_schedule}
use miyohub.Store.Transaction.{Ensures-after, Ensures-find, after, does}

write-IsQuiet :
    (id other : String) (a v : Account) (d : State)
    → find_first (has_account_id other) d.config.accounts ≡ some a
    → v.id ≡ a.id
    → v.last_automatic_at ≡ a.last_automatic_at
    → v.task_settings ≡ a.task_settings
    → IsQuiet id d (write_account other v d)
unfolding effective_schedule
write-IsQuiet id other a v d found same at tasks zone last h =
    let named : a.id ≡ other =
      ==_sound a.id other (find_first-passes (has_account_id other) d.config.accounts a found) in
    let one : count_id id (write_account other v d).config.accounts ≤ 1 = ground (
      arith,
      h.alone,
      same,
      count_if-replace_first (has_account_id id) (has_account_id other) v a d.config.accounts found,
    ) in
    elim (Bool-cases (other == id)) [
      | inr differ ↦ record {
        account = h.account;
        found =
            find_first-replace_first_out (has_account_id id) (has_account_id other) v
              d.config.accounts (λ x k. rw (==_sound x.id other k) differ) (rw (same, named) differ)
            ∙ h.found;
        alone = one;
        at = h.at;
        zoned = h.zoned;
      }
      | inl e ↦
          let here : other ≡ id = ==_sound other id e in
          let mine : a ≡ h.account = some-injective a h.account (
            sym (subst (λ z. find_first (has_account_id z) d.config.accounts ≡ some a) here found)
            ∙ h.found) in
          record {
            account = v;
            found =
                subst
                  (λ z.
                    find_first (has_account_id z)
                      (replace_first (has_account_id other) v d.config.accounts)
                    ≡ some v)
                  here
                  (find_first-replace_first (has_account_id other) v d.config.accounts
                    (find_first-any_of (has_account_id other) d.config.accounts a found)
                    (rw (same, named) (==_refl other)));
            alone = one;
            at = at ∙ ap (λ (x : Account). x.last_automatic_at) mine ∙ h.at;
            zoned = rw tasks (subst (λ x. zone_of d x ≡ zone) (sym mine) h.zoned);
          }
    ]

-- The end of a run and the check of a cookie are quiet.
pub record_tasks-IsQuiet :
    (id other : String) (now : ℕ) (results : List (String × TaskSummary)) (d : State)
    → IsQuiet id d (after d (record_tasks now other results d))
unfolding record_tasks
record_tasks-IsQuiet id other now results d =
    Ensures-after (IsQuiet id d) (λ _ _ h. h)
      (Ensures-find _ _ _ λ a found. does _ (write-IsQuiet id other a _ d found refl refl refl))

pub record_account_check-IsQuiet :
    (id other status : String) (now : ℕ) (d : State)
    → IsQuiet id d (after d (record_account_check now other status d))
unfolding record_account_check
record_account_check-IsQuiet id other status now d =
    Ensures-after (IsQuiet id d) (λ _ _ h. h)
      (Ensures-find _ _ _ λ a found. does _ (write-IsQuiet id other a _ d found refl refl refl))
