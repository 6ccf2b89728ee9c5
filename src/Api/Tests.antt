-- ===== src/Api/Tests.antt =====
-- A client logs in more often than it may, and Bob's archive is imported once.
use miyohub.Api.Allowance.{allowed_for-le_limit}
use miyohub.Api.Archives.{ArchiveSessions, begin, complete, consume, end, reserve}
use miyohub.Api.Confirmed.{confirmed-le_one}
use miyohub.Api.Limits.{Call, allow, allow_all, allow_call, allowed_for, entry_limit}
use miyohub.Api.Previews.{
  ArchiveCall, call_begin, call_complete, call_consume, call_end, call_reserve, confirmed,
  perform_archive,
}
use miyohub.Api.Windows.{allow_all-bounded}
use miyohub.Base.{List, [], arith, false, length, refl, ℕ, ◌*◌, ◌+◌, ◌∷◌, ◌≡◌, ◌≤◌}
use miyohub.Model.Plans.{minute, second}
use miyohub.Store.Accounts.Archives.{AccountArchive}
use miyohub.Store.Samples.{new_year}

abbrev login_call : ℕ → Call
login_call t = record { at = new_year + t; name = "auth:login"; limit = 2; period = minute }

abbrev image_call : Call
image_call = record { at = new_year; name = "images"; limit = 300; period = minute }

abbrev some_calls : List Call
some_calls = login_call 0 ∷ image_call ∷ login_call second ∷ login_call (2 * second) ∷ []

calls-run : allowed_for "auth:login" some_calls [] ≡ 2
unfolding allowed_for allow_call allow
calls-run = refl

allowed_for-le_limit_example : allowed_for "auth:login" some_calls [] ≤ 2
allowed_for-le_limit_example =
    allowed_for-le_limit "auth:login" 2 new_year minute some_calls [] refl
      ((refl, refl, refl), ((refl, refl, refl), ((refl, refl, refl), ((refl, refl, refl), tt))))

allow_all-bounded_example : length (allow_all some_calls []) ≤ entry_limit
allow_all-bounded_example = allow_all-bounded some_calls [] (omega arith)

abbrev file : AccountArchive
file = record { version = 1; created_at = 1; accounts = [] }

abbrev import_calls : List ArchiveCall
import_calls =
    call_begin
    ∷ call_complete new_year "usr_b" "prv_1" file
    ∷ call_end
    ∷ call_consume (new_year + second) "usr_b" "prv_1"
    ∷ call_consume (new_year + 2 * second) "usr_b" "prv_1"
    ∷ []

abbrev reserved : ArchiveSessions
reserved =
    perform_archive (call_reserve new_year "prv_1" "usr_b")
      (record { active = 0; stopped = false; pending = [] })

imports-run : confirmed "usr_b" "prv_1" import_calls reserved ≡ 1
unfolding confirmed perform_archive reserve begin end complete consume
imports-run = refl

confirmed-le_one_example : confirmed "usr_b" "prv_1" import_calls reserved ≤ 1
confirmed-le_one_example =
    confirmed-le_one "usr_b" "prv_1" import_calls reserved
      (refl, (refl, (refl, (refl, (refl, tt)))))
