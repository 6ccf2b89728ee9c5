-- ===== src/Store/Probes/Tests.antt =====
-- A probe at the sample site.
use miyohub.Base.{[], refl, true, ◌*◌, ◌+◌, ◌∷◌, ◌≡◌}
use miyohub.Base.Result.{err, ok, ◌>>=◌}
use miyohub.Model.{State}
use miyohub.Model.Captcha.{CaptchaProbe, ProbeStatus}
use miyohub.Model.Plans.{second}
use miyohub.Store.Errors.{Err}
use miyohub.Store.Probes.Cooling.{IsStarted, begin_captcha_probe-IsStarted}
use miyohub.Store.Probes.Operations.{
  begin_after, begin_captcha_probe, end_probe, ended_probe, finish_captcha_probe, new_probe,
  put_probe, set_probes,
}
use miyohub.Store.Records.Logs.{append_log}
use miyohub.Store.Samples.{new_year, sample_site}
use miyohub.Store.Transaction.{after, write}

abbrev bob_probe : CaptchaProbe
bob_probe = new_probe new_year "x"

abbrev probing_site : State
probing_site = set_probes sample_site (record { user_id = "usr_b"; probe = bob_probe } ∷ [])

begin-run :
    begin_captcha_probe new_year "x" "usr_b" sample_site ≡ ok (write probing_site (bob_probe, true))
unfolding begin_captcha_probe begin_after put_probe ◌>>=◌
begin-run = refl

-- The probe ends after two seconds, and another one is refused half a minute later.
hurry-run :
    begin_captcha_probe (new_year + 30 * second) "y" "usr_b" (
      after probing_site (
        finish_captcha_probe
          (new_year + 2 * second)
          "usr_b"
          "probe_x"
          (ProbeStatus.other "success")
          "m"
          probing_site))
    ≡ err Err.probe_cooldown
unfolding begin_captcha_probe begin_after new_probe finish_captcha_probe end_probe ended_probe
    put_probe append_log ◌>>=◌
hurry-run = refl

begin_captcha_probe-IsStarted_example :
    IsStarted new_year "usr_b" sample_site probing_site bob_probe
begin_captcha_probe-IsStarted_example =
    begin_captcha_probe-IsStarted new_year "x" "usr_b" sample_site probing_site bob_probe begin-run
