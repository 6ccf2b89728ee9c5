-- ===== src/Store/Users/Invites.antt =====
-- internal/store/store.go: invite codes.
use Prim.Native.Char.{Char, code}
use Prim.Native.String.{len}
use miyohub.Base.{
  Bool, List, String, [], any_of, blank, eqb, false, find_first, if◌then◌else◌, leb, length, ltb,
  map, not, remove_first, replace_first, ℕ, ◌&&◌, ◌++◌, ◌+◌, ◌||◌, ◌∷◌,
}
use miyohub.Base.Int.{leb_ℤ, ltb_ℤ, pos, ℤ}
use miyohub.Base.Result.{Result, ok, require, ◌>>=◌, ◌>>◌}
use miyohub.Base.Text.{chars, of_chars, trim_space}
use miyohub.Model.{State}
use miyohub.Model.Users.{InviteCode, UserPermissions}
use miyohub.Store.Environment.{Environment, equal_fold}
use miyohub.Store.Errors.{Err}
use miyohub.Store.Lookup.{admin_option, find_user}
use miyohub.Store.Transaction.{Effect, or_fail, write}

abbrev pub set_invites : State → List InviteCode → State
set_invites d is = record d { invite_codes = is }

-- The character class of `invitePattern`.
abbrev pub invite_character : Char → Bool
invite_character c =
    (leb b'A' (code c) && leb (code c) b'Z')
    || (leb b'0' (code c) && leb (code c) b'9')
    || eqb (code c) b'_'
    || eqb (code c) b'-'

-- `invitePattern.MatchString`
unfoldable pub matches_invite_pattern : String → Bool
matches_invite_pattern s =
    let cs = chars s in
    leb 4 (length cs) && leb (length cs) 64 && not (any_of (λ c. not (invite_character c)) cs)

-- The creator is still an active administrator.
abbrev pub issued_by_admin : State → String → Bool
issued_by_admin d id = admin_option (find_user d id)

-- `t.IsZero() || t.After(now)`
abbrev pub not_expired : ℕ → ℕ → Bool
not_expired now t = eqb t 0 || ltb now t

abbrev pub used_up : InviteCode → Bool
used_up i = ltb_ℤ (pos 0) i.max_uses && leb_ℤ i.max_uses (pos i.used_count)

-- `consumeInviteCodeLocked`: the invite as it was used, and the list with its use counted.
unfoldable pub consume_invite :
    Environment → ℕ → String → State → Result Err (InviteCode × List InviteCode)
unfolding equal_fold
consume_invite env now given d = do
  let text = trim_space given
  let same = λ (i : InviteCode). equal_fold env i.code text
  require (not (blank text)) Err.bad_invite
  i ← or_fail (find_first same d.invite_codes) Err.no_such_invite
  require (not i.disabled) Err.invite_disabled
  require (issued_by_admin d i.created_by) Err.creator_not_admin
  require (not_expired now i.expires_at) Err.invite_expired
  require (not (used_up i)) Err.invite_used_up
  let used = record i { used_count = i.used_count + 1 }
  ok (used, replace_first same used d.invite_codes)

-- `ConsumeInviteCode`
unfoldable pub consume_invite_code :
    Environment → ℕ → String → State → Result Err (Effect (Unit {0}))
unfolding consume_invite
consume_invite_code env now given d = do
  (i, is) ← consume_invite env now given d
  ok (write (set_invites d is) tt)

-- `CreateInviteCode`, with the generated code for an empty one.
unfoldable pub create_invite_code :
    Environment
    → ℕ
    → String
    → String
    → ℕ
    → ℤ
    → String
    → String
    → UserPermissions
    → Bool
    → State
    → Result Err (Effect InviteCode)
unfolding equal_fold matches_invite_pattern
create_invite_code env now generated given expires_at max_uses note created_by permissions captcha
      d =
    do
      require (issued_by_admin d created_by) Err.creator_not_admin
      require (not (captcha && not permissions.site_captcha)) Err.captcha_grant_missing
      let upper = of_chars (map env.to_upper (chars (trim_space given)))
      let text = if blank upper then generated else upper
      require (matches_invite_pattern text) Err.bad_invite_code
      require (not_expired now expires_at) Err.invite_expired
      require (leb (len note) 512) Err.note_too_long
      require (leb_ℤ (pos 0) max_uses && leb_ℤ max_uses (pos 100000)) Err.bad_max_uses
      require (not (any_of (λ i. equal_fold env i.code text) d.invite_codes)) Err.invite_exists
      let item : InviteCode = record {
        permissions = permissions;
        use_site_captcha = captcha;
        code = text;
        created_at = now;
        expires_at = expires_at;
        max_uses = max_uses;
        used_count = 0;
        note = trim_space note;
        created_by = created_by;
        disabled = false;
      }
      ok (write (set_invites d (d.invite_codes ++ item ∷ [])) item)

-- `DeleteInviteCode`
unfoldable pub delete_invite_code : Environment → String → State → Result Err (Effect (Unit {0}))
unfolding equal_fold
delete_invite_code env given d = do
  let same = λ (i : InviteCode). equal_fold env i.code (trim_space given)
  i ← or_fail (find_first same d.invite_codes) Err.no_such_invite
  ok (write (set_invites d (remove_first same d.invite_codes)) tt)

-- `DisableInvite`
unfoldable pub disable_invite : Environment → String → Bool → State → Result Err (Effect (Unit {0}))
unfolding equal_fold
disable_invite env given disabled d = do
  let same = λ (i : InviteCode). equal_fold env i.code (trim_space given)
  i ← or_fail (find_first same d.invite_codes) Err.no_such_invite
  ok (
      write (set_invites d (replace_first same (record i { disabled = disabled }) d.invite_codes))
        tt)
