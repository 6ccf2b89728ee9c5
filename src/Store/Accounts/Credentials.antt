-- ===== src/Store/Accounts/Credentials.antt =====
-- internal/store/accounts.go and account_batch.go: the fields of a cookie and the checks of an account.
use Prim.Native.String.{count, len}
use miyohub.Base.{
  ==_sound, Bool, Bool-cases, List, Option, String, [], any_of, ap, blank, if◌then◌else◌, inl, inr,
  leb, ltb, map, none, not, some, sym, true, ℕ, ◌&&◌, ◌==◌, ◌||◌, ◌∙◌, ◌∷◌, ◌≡◌, ◌⊎◌,
}
use miyohub.Base.Result.{Result, err, ok, require, ◌>>=◌, ◌>>◌}
use miyohub.Base.Text.{chars, contains_any, cut_at, is_uid, split_at, trim_space}
use miyohub.Model.Accounts.{Account}
use miyohub.Store.Environment.{Environment, has_control}
use miyohub.Store.Errors.{Err}
use miyohub.Store.Transaction.{bind-ok, require-ok}

abbrev pub cookie_entry : Option (String × String) → List (String × String) → List (String × String)
cookie_entry none rest = rest
cookie_entry (some f) rest = f ∷ rest

-- The loop of `cookieFields` over the parts of a cookie.
unfoldable pub cookie_entries : List String → List (String × String)
unfolding cut_at
cookie_entries [] = []
cookie_entries (p ∷ ps) = cookie_entry (cut_at b'=' (trim_space p)) (cookie_entries ps)

-- `fields[key]`: the last entry of a key counts.
unfoldable pub last_value : String → String → List (String × String) → String
last_value key found [] = found
last_value key found ((k, v) ∷ rest) = last_value key (if k == key then v else found) rest

unfoldable pub cookie_value : String → String → String
unfolding cookie_entries last_value
cookie_value cookie key = last_value key "" (cookie_entries (split_at b';' cookie))

-- The loop over the five keys that may hold the UID.
unfoldable pub cookie_uid : String → List String → Result Err String
cookie_uid uid [] = ok uid
cookie_uid uid (v ∷ vs) = do
  require (blank v || blank uid || uid == v) Err.uid_conflict
  cookie_uid (if blank v then uid else v) vs

abbrev pub or_else : String → String → String
or_else a b = if blank a then b else a

-- `cookieFields`
unfoldable pub cookie_fields : Account → Result Err Account
unfolding cookie_value cookie_uid
cookie_fields a = do
  uid ← cookie_uid "" (
      map (cookie_value a.cookie)
        ("stuid" ∷ "ltuid" ∷ "ltuid_v2" ∷ "account_id" ∷ "account_id_v2" ∷ []))
  require (blank uid || blank a.stuid || a.stuid == uid) Err.uid_mismatch
  ok (record a {
    stuid = or_else uid a.stuid;
    stoken = or_else a.stoken (cookie_value a.cookie "stoken");
    mid = or_else a.mid (cookie_value a.cookie "mid");
  })

-- `validateAccountGroup`
unfoldable pub validate_account_group : Environment → String → Result Err (Unit {0})
validate_account_group env group = do
  require (leb (count group) 32 && trim_space group == group) Err.bad_group
  require (not (any_of (λ c. env.is_control c || not (env.is_print c)) (chars group))) Err.bad_group

unfoldable pub too_long : ℕ → String → Bool
unfolding has_control
too_long limit v = ltb limit (len v) || has_control v

-- The loop over the tokens of the cloud games.
unfoldable pub validate_tokens : List (String × String) → Result Err (Unit {0})
unfolding too_long
validate_tokens [] = ok tt
validate_tokens ((k, v) ∷ rest) = do
  require (k == "genshin" || k == "zzz") Err.bad_cloud_game
  require (not (too_long 8192 v)) Err.bad_cloud_token
  validate_tokens rest

abbrev pub tokens : Option (List (String × String)) → List (String × String)
tokens none = []
tokens (some ts) = ts

-- `validateAccount`
unfoldable pub validate_account : Environment → Account → Result Err (Unit {0})
unfolding validate_account_group validate_tokens too_long
validate_account env a = do
  validate_account_group env a.group
  require (blank a.stuid || is_uid a.stuid) Err.bad_uid
  require (not (any_of (contains_any (b';' ∷ 13 ∷ 10 ∷ 0 ∷ [])) (a.stuid ∷ a.stoken ∷ a.mid ∷ [])))
      Err.bad_credential
  require (not (blank (trim_space a.name)) && leb (count a.name) 64) Err.bad_account_name
  require (not (any_of (too_long 16384) (a.cookie ∷ a.stuid ∷ a.stoken ∷ a.mid ∷ a.name ∷ [])))
      Err.bad_account_field
  validate_tokens (tokens a.cloud_tokens)

uid_kept :
    (uid old new : String)
    → (blank uid || blank old || old == uid) ≡ true
    → or_else uid old ≡ new
    → (new ≡ old) ⊎ (old ≡ "")
uid_kept uid old new h e = elim (Bool-cases (blank old)) [
  | inl p ↦ inr (==_sound _ _ p)
  | inr p ↦ inl (elim (Bool-cases (blank uid)) [
    | inl q ↦ sym (rw q at e)
    | inr q ↦ sym (rw q at e) ∙ sym (==_sound _ _ (rw (p, q) at h))
  ])
]

-- A UID that is known is never changed by a cookie.
pub cookie_fields-stuid :
    (a b : Account) → cookie_fields a ≡ ok b → (b.stuid ≡ a.stuid) ⊎ (a.stuid ≡ "")
unfolding cookie_fields
cookie_fields-stuid a b h =
    let (uid, found, s1) = bind-ok _ _ _ h in
    let s2 = require-ok _ _ _ _ s1 in
    let same : (or_else uid a.stuid) ≡ b.stuid = ap stuid_of s2.1 in
    uid_kept uid a.stuid b.stuid s2.0 same
  where
    stuid_of : Result Err Account → String
    stuid_of (ok c) = c.stuid
    stuid_of (err e) = ""
