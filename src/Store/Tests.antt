-- ===== src/Store/Tests.antt =====
-- Saves of the sample store: the theorems on transactions at work.
-- The state without its sessions, as an effect to be saved.
use miyohub.Base.{String, [], false, refl, true, ◌≡◌}
use miyohub.Base.Result.{Result, ok}
use miyohub.Model.{State}
use miyohub.Store.Atomic.{Outcome, transact-Outcome, transact-ok}
use miyohub.Store.Errors.{Err}
use miyohub.Store.Samples.{sample_site, sample_store}
use miyohub.Store.Transaction.{Effect, save_locked, transact, write}
use miyohub.Store.Users.Sessions.{set_sessions}

abbrev signed_out : State
signed_out = set_sessions sample_site []

abbrev sign_out_all : Result Err (Effect String)
sign_out_all = ok (write signed_out "done")

transact-Outcome_example :
    Outcome sample_store false sign_out_all (transact sample_store false sign_out_all).0
transact-Outcome_example = transact-Outcome sample_store false sign_out_all refl

saved-run : (transact sample_store true sign_out_all).1 ≡ ok "done"
unfolding transact save_locked
saved-run = refl

transact-ok_example :
    ((transact sample_store true sign_out_all).0.committed ≡ signed_out)
    × ◌≡◌ {A = String} "done" "done"
transact-ok_example = transact-ok sample_store true signed_out "done" "done" saved-run
