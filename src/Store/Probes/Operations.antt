-- ===== src/Store/Probes/Operations.antt =====
-- internal/store/captcha_probe.go: one probe for each user, with a cool-down of a minute.
use miyohub.Base.{
  Bool, List, Option, String, [], any_of, false, find_first, if◌then◌else◌, ltb, none, some, true,
  ℕ, ◌&&◌, ◌+◌, ◌/◌, ◌==◌, ◌∷◌,
}
use miyohub.Base.Int.{neg_part, pos, pos_part, sub_ℕ, ℤ}
use miyohub.Base.Result.{Result, err, ok, require, ◌>>◌}
use miyohub.Model.{State}
use miyohub.Model.Captcha.{CaptchaProbe, CaptchaProbeEntry, ProbeStatus, is_probing}
use miyohub.Model.Plans.{minute}
use miyohub.Store.Errors.{Err}
use miyohub.Store.Lookup.{find_user}
use miyohub.Store.Outbox.Queue.{user_is_active}
use miyohub.Store.Records.Logs.{append_log}
use miyohub.Store.Transaction.{Effect, keep, write}
use Prim.Native.String.{◌++◌ as append}

abbrev pub set_probes : State → List CaptchaProbeEntry → State
set_probes d es = record d { captcha_probes = es }

abbrev pub probe_option : Option CaptchaProbeEntry → Option CaptchaProbe
probe_option none = none
probe_option (some e) = some e.probe

-- `CaptchaProbeForUser`
abbrev pub find_probe : String → State → Option CaptchaProbe
find_probe user_id d = probe_option (find_first (λ e. e.user_id == user_id) d.captcha_probes)

-- `s.data.CaptchaProbes[userID] = probe`
unfoldable pub put_probe : String → CaptchaProbe → List CaptchaProbeEntry → List CaptchaProbeEntry
put_probe user_id p [] = record { user_id = user_id; probe = p } ∷ []
put_probe user_id p (e ∷ es) =
    let rest = put_probe user_id p es in
    if e.user_id == user_id then record { user_id = user_id; probe = p } ∷ es else e ∷ rest

unfoldable pub new_probe : ℕ → String → CaptchaProbe
new_probe now fresh = record {
  id = append "probe_" fresh;
  status = ProbeStatus.running;
  started_at = now;
  finished_at = 0;
  retry_at = now + minute;
  duration_ms = pos 0;
  message = "正在后台获取匿名验证码并测试自定义服务，可离开此页面。";
}

abbrev pub start_probe : ℕ → String → String → State → Effect (CaptchaProbe × Bool)
start_probe now fresh user_id d =
    write (set_probes d (put_probe user_id (new_probe now fresh) d.captcha_probes))
      (new_probe now fresh, true)

-- The tests of the user's last probe, and the start of the next one.
unfoldable pub begin_after :
    ℕ → String → String → Option CaptchaProbe → State → Result Err (Effect (CaptchaProbe × Bool))
unfolding put_probe new_probe
begin_after now fresh user_id none d = ok (start_probe now fresh user_id d)
begin_after now fresh user_id (some p) d =
    if is_probing p.status
    then ok (keep (p, false))
    else (if ltb now p.retry_at
        then err Err.probe_cooldown
        else ok (start_probe now fresh user_id d))

-- `BeginCaptchaProbe`: a probe that runs is answered again.
unfoldable pub begin_captcha_probe :
    ℕ → String → String → State → Result Err (Effect (CaptchaProbe × Bool))
unfolding begin_after
begin_captcha_probe now fresh user_id d = do
  require (user_is_active (find_user d user_id)) Err.user_inactive
  begin_after now fresh user_id (find_probe user_id d) d

abbrev pub million : ℕ
million = 1000000

-- `b.Sub(a).Milliseconds()`
unfoldable pub milliseconds : ℕ → ℕ → ℤ
milliseconds a b = sub_ℕ (pos_part (sub_ℕ b a) / million) (neg_part (sub_ℕ b a) / million)

unfoldable pub ended_probe : ℕ → ProbeStatus → String → CaptchaProbe → CaptchaProbe
ended_probe now status message p = record p {
  status = status;
  message = message;
  finished_at = now;
  duration_ms = milliseconds p.started_at now;
}

-- `finishCaptchaProbeLocked`
unfoldable pub end_probe : ℕ → String → CaptchaProbe → ProbeStatus → String → State → State
unfolding put_probe ended_probe append_log
end_probe now user_id p status message d =
    append_log
      (record {
        at = now;
        component = "captcha";
        message = append "自定义服务后台测试 · " message;
        user_id = user_id;
        account_id = "";
        run_id = "";
      })
      (set_probes d (put_probe user_id (ended_probe now status message p) d.captcha_probes))

-- `FinishCaptchaProbe`
unfoldable pub finish_captcha_probe :
    ℕ → String → String → ProbeStatus → String → State → Result Err (Effect (Unit {0}))
unfolding end_probe
finish_captcha_probe now user_id id status message d = elim (find_probe user_id d) [
  | none ↦ ok (keep tt)
  | some p ↦
      if p.id == id && is_probing p.status
      then ok (write (end_probe now user_id p status message d) tt)
      else ok (keep tt)
]

-- The loop of `RecoverCaptchaProbes`.
unfoldable pub interrupt_probes : ℕ → List CaptchaProbeEntry → State → State
unfolding end_probe
interrupt_probes now [] d = d
interrupt_probes now (e ∷ es) d = interrupt_probes now es (
    if is_probing e.probe.status
    then end_probe now e.user_id e.probe ProbeStatus.interrupted "服务重启，测试已中断；未自动重试，请在冷却结束后手动测试。" d
    else d)

-- `RecoverCaptchaProbes`
unfoldable pub recover_captcha_probes : ℕ → State → Result Err (Effect (Unit {0}))
unfolding interrupt_probes
recover_captcha_probes now d =
    if any_of (λ e. is_probing e.probe.status) d.captcha_probes
    then ok (write (interrupt_probes now d.captcha_probes d) tt)
    else ok (keep tt)
