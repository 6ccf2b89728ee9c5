-- ===== src/Store/Probes/Cooling.antt =====
-- internal/store/captcha_probe.go: the cool-down between the probes of a user.
-- The user's last probe, if any, has ended and cooled down.
use miyohub.Base.{
  ==_refl, Bool, Bool-cases, List, Option, String, [], arith, false, find_first, if◌then◌else◌, inl,
  inr, leb, ltb, none, not, refl, some, true, ℕ, ◌&&◌, ◌+◌, ◌==◌, ◌∷◌, ◌≡◌,
}
use miyohub.Base.Result.{err, ok}
use miyohub.Model.{State}
use miyohub.Model.Captcha.{CaptchaProbe, CaptchaProbeEntry, is_probing}
use miyohub.Model.Plans.{minute}
use miyohub.Store.Errors.{Err}
use miyohub.Store.Lookup.{find_user}
use miyohub.Store.Outbox.Queue.{user_is_active}
use miyohub.Store.Probes.Operations.{
  begin_after, begin_captcha_probe, find_probe, new_probe, probe_option, put_probe, start_probe,
}
use miyohub.Store.Transaction.{
  Effect, Ensures, Ensures-eq, Ensures-if, Ensures-require, does, fails, keep, write, write_fail,
}

abbrev pub past_probe : ℕ → Option CaptchaProbe → Bool
past_probe now none = true
past_probe now (some p) = not (is_probing p.status) && leb p.retry_at now

-- What a started probe says of the user and of the user's last probe.
pub record IsStarted (now : ℕ) (user_id : String) (d e : State) (p : CaptchaProbe) : Type 0 where
  pub active : user_is_active (find_user d user_id) ≡ true
  pub cooled : past_probe now (find_probe user_id d) ≡ true
  pub stored : find_probe user_id e ≡ some p
  pub next : p.retry_at ≡ now + minute

find-put_probe :
    (user_id : String) (p : CaptchaProbe) (es : List CaptchaProbeEntry)
    → probe_option (find_first (λ e. e.user_id == user_id) (put_probe user_id p es)) ≡ some p
unfolding put_probe
find-put_probe user_id p [] = rw (==_refl user_id) refl
find-put_probe user_id p (e ∷ es) = elim (Bool-cases (e.user_id == user_id)) [
  | inl k ↦ rw k (rw (==_refl user_id) refl)
  | inr k ↦ rw k (rw k (find-put_probe user_id p es))
]

abbrev Starts : ℕ → String → State → Effect (CaptchaProbe × Bool) → Type 0
Starts now user_id d (write e (p, true)) = IsStarted now user_id d e p
Starts now user_id d (write e (p, false)) = ⊥
Starts now user_id d (keep (p, b)) = b ≡ false
Starts now user_id d (write_fail e x) = ⊥

begin_after-Starts :
    (now : ℕ) (fresh user_id : String) (d : State)
    → user_is_active (find_user d user_id) ≡ true
    → (o : Option CaptchaProbe) → find_probe user_id d ≡ o
    → Ensures (Starts now user_id d) (begin_after now fresh user_id o d)
unfolding begin_after new_probe
begin_after-Starts now fresh user_id d h none e = does _ (record {
  active = h;
  cooled = rw e refl;
  stored = find-put_probe user_id (new_probe now fresh) d.captcha_probes;
  next = refl;
})
begin_after-Starts now fresh user_id d h (some p) e =
    Ensures-if (is_probing p.status) (ok (keep (p, false)))
      (if ltb now p.retry_at then err Err.probe_cooldown else ok (start_probe now fresh user_id d))
      (λ _. does _ refl)
      λ n.
        Ensures-if (ltb now p.retry_at) (err Err.probe_cooldown)
          (ok (start_probe now fresh user_id d)) (λ _. fails _)
          λ k. does _ (record {
            active = h;
            cooled = rw (e, n) (ground arith);
            stored = find-put_probe user_id (new_probe now fresh) d.captcha_probes;
            next = refl;
          })

begin_Starts :
    (now : ℕ) (fresh user_id : String) (d : State)
    → Ensures (Starts now user_id d) (begin_captcha_probe now fresh user_id d)
unfolding begin_captcha_probe
begin_Starts now fresh user_id d =
    Ensures-require _ _ _ λ h. begin_after-Starts now fresh user_id d h _ refl

-- A probe is started only for an active user whose last probe has ended and cooled down, and it is
-- kept as the user's probe, which may be followed after a minute.
pub begin_captcha_probe-IsStarted :
    (now : ℕ) (fresh user_id : String) (d e : State) (p : CaptchaProbe)
    → begin_captcha_probe now fresh user_id d ≡ ok (write e (p, true))
    → IsStarted now user_id d e p
begin_captcha_probe-IsStarted now fresh user_id d e p h =
    Ensures-eq (Starts now user_id d) (begin_Starts now fresh user_id d) h
