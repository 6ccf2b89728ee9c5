-- ===== src/Store/Records/Logs.antt =====
-- internal/store/store.go: the log, of which the newest five hundred entries are kept.
use Prim.Native.String.{len}
use miyohub.Base.{
  Bool, Bool-cases, List, String, [], arith, blank, drop, false, if◌then◌else◌, inl, inr, keep_if,
  length, length-drop, ltb, not, subst, true, ℕ, ◌&&◌, ◌++◌, ◌-◌, ◌==◌, ◌||◌, ◌∷◌, ◌≡◌, ◌≤◌,
}
use miyohub.Base.Result.{Result, ok, require, ◌>>◌}
use miyohub.Model.{State}
use miyohub.Model.Users.{LogEntry}
use miyohub.Store.Errors.{Err}
use miyohub.Store.Lookup.{account_owned, find_user, no_user}
use miyohub.Store.Transaction.{Effect, keep, require-ok, write}

abbrev pub log_limit : ℕ
log_limit = 500

abbrev pub set_logs : State → List LogEntry → State
set_logs d ls = record d { logs = ls }

-- `appendLogLocked`
unfoldable pub append_log : LogEntry → State → State
append_log e d =
    let ls = d.logs ++ e ∷ [] in
    set_logs d (if ltb log_limit (length ls) then drop (length ls - log_limit) ls else ls)

-- `AddLogForUser`: nothing is kept for a user who is gone.
unfoldable pub add_log_for_user :
    ℕ → String → String → String → State → Result Err (Effect (Unit {0}))
unfolding append_log
add_log_for_user now user_id component message d =
    if not (blank user_id) && no_user (find_user d user_id)
    then ok (keep tt)
    else ok (
        write
          (append_log
            (record {
              at = now;
              component = component;
              message = message;
              user_id = user_id;
              account_id = "";
              run_id = "";
            })
            d)
          tt)

-- `AddTaskLogForUser`
unfoldable pub add_task_log_for_user :
    ℕ → String → String → String → String → String → State → Result Err (Effect (Unit {0}))
unfolding append_log
add_task_log_for_user now user_id account_id run_id component message d = do
  require
      (not (
        blank user_id
        || blank run_id
        || ltb 96 (len run_id)
        || no_user (find_user d user_id)
        || not (account_owned d user_id false account_id)))
      Err.bad_log_owner
  let e : LogEntry = record {
    at = now;
    component = component;
    message = message;
    user_id = user_id;
    account_id = account_id;
    run_id = run_id;
  }
  ok (write (append_log e d) tt)

-- The test of `LogsForUser`: an administrator also reads the entries of the site itself.
abbrev pub may_read : String → Bool → LogEntry → Bool
may_read user_id admin l = (admin && (blank user_id || blank l.user_id)) || l.user_id == user_id

-- `LogsForUser`
unfoldable pub logs_for_user : String → Bool → State → List LogEntry
logs_for_user user_id admin d = keep_if (may_read user_id admin) d.logs

-- The log never holds more than five hundred entries.
abbrev pub IsShort : State → Type 0
IsShort d = length d.logs ≤ log_limit

append_log-IsShort : (e : LogEntry) (d : State) → IsShort (append_log e d)
unfolding append_log
append_log-IsShort e d =
    let ls = d.logs ++ e ∷ [] in
    elim (Bool-cases (ltb log_limit (length ls))) [
      | inl k ↦ rw k (ground (arith, length-drop (length ls - log_limit) ls))
      | inr k ↦ rw k (ground arith)
    ]

-- A task's log entry is taken only for a user of the site who owns the account, and the log then
-- holds at most five hundred entries.
pub add_task_log-kept :
    (now : ℕ) (user_id account_id run_id component message : String) (d e : State)
    → add_task_log_for_user now user_id account_id run_id component message d ≡ ok (write e tt)
    → (account_owned d user_id false account_id ≡ true)
      × (no_user (find_user d user_id) ≡ false)
      × IsShort e
unfolding add_task_log_for_user
add_task_log-kept now user_id account_id run_id component message d e h =
    let passed = require-ok _ _ _ _ h in
    (
      ground (arith, passed.0),
      ground (arith, passed.0),
      subst IsShort (written passed.1) (append_log-IsShort _ d),
    )
  where
    written :
        {x y : State}
        → ◌≡◌ {A = Result Err (Effect (Unit {0}))} (ok (write x tt)) (ok (write y tt))
        → x ≡ y
    written h = cc h
