-- ===== src/Store/Files/Restored.antt =====
-- internal/store/encryption.go: what is encoded is decoded again.
-- A cipher has the key of the key file, which is 32 bytes long.
use Prim.Native.String.{len}
use miyohub.Base.{
  Bool, Bool-cases, Option, Option-cases, String, ap, arith, eqb, false, inl, inr, none, not, refl,
  some, subst, true, ◌&&◌, ◌||◌, ◌∙◌, ◌≡◌,
}
use miyohub.Base.Result.{Result, err, ok}
use miyohub.Store.Files.Cipher.{
  CipherErr, Creation, Crypto, KeyFile, KeyIo, Vault, absent, cipher_key, create_key, created,
  decode_envelope, decode_state, encode_state, exists, find_key, init_cipher, irregular, key,
  open_key, opened, refused, state_format, with_cipher,
}

abbrev pub IsKeyed : Vault → Type 0
IsKeyed v = (k : String) → v.cipher ≡ some k → (v.key_file ≡ key k) × (eqb (len k) 32 ≡ true)

abbrev pub is_success : Option CipherErr → Bool
is_success none = true
is_success (some e) = false

-- After a success there is a cipher, with the key of the file.
abbrev HasKey : Vault → Type 0
HasKey v = (k : String) × (v.cipher ≡ some k) × (v.key_file ≡ key k) × (eqb (len k) 32 ≡ true)

open_key-HasKey :
    (io : KeyIo) (k : String) (v : Vault)
    → v.key_file ≡ key k
    → is_success (open_key io k v).1 ≡ true
    → HasKey (open_key io k v).0
unfolding open_key
open_key-HasKey io k v f h = elim (Bool-cases (not v.read_only && not io.chmod)) [
  | inl p ↦ absurd (cc (rw p at h))
  | inr p ↦ elim (Bool-cases (not io.read)) [
    | inl q ↦ absurd (cc (rw (p, q) at h))
    | inr q ↦ elim (Bool-cases (eqb (len k) 32)) [
      | inl r ↦ rw (p, q, r) (k, refl, f, r)
      | inr r ↦ absurd (cc (rw (p, q, r) at h))
    ]
  ]
]

create_key-HasKey :
    (io : KeyIo) (v : Vault) (c : Creation)
    → is_success (create_key io v c).1 ≡ true
    → HasKey (create_key io v c).0
unfolding create_key
create_key-HasKey io v created h = elim (Bool-cases io.written) [
  | inr p ↦ absurd (cc (rw p at h))
  | inl p ↦
      rw p (open_key-HasKey io io.random (record v { key_file = key io.random }) refl (rw p at h))
]
create_key-HasKey io v refused h = absurd (cc h)
create_key-HasKey io v (exists absent next) h = create_key-HasKey io v next h
create_key-HasKey io v (exists irregular next) h = absurd (cc h)
create_key-HasKey io v (exists (key k) next) h =
    open_key-HasKey io k (record v { key_file = key k }) refl h

find_key-HasKey :
    (io : KeyIo) (required : Bool) (v : Vault) (f : KeyFile)
    → v.key_file ≡ f
    → is_success (find_key io required v f).1 ≡ true
    → HasKey (find_key io required v f).0
unfolding find_key
find_key-HasKey io true v absent e h = absurd (cc h)
find_key-HasKey io false v absent e h = elim (Bool-cases io.directory) [
  | inr p ↦ absurd (cc (rw p at h))
  | inl p ↦ rw p (create_key-HasKey io v io.creation (rw p at h))
]
find_key-HasKey io required v irregular e h = absurd (cc h)
find_key-HasKey io required v (key k) e h = open_key-HasKey io k v e h

init_cipher-HasKey :
    (io : KeyIo) (required : Bool) (v : Vault)
    → IsKeyed v
    → is_success (init_cipher io required v).1 ≡ true
    → HasKey (init_cipher io required v).0
unfolding init_cipher
init_cipher-HasKey io required v keyed h = elim (Option-cases v.cipher) [
  | inl e ↦
      rw (init_cipher, e) (find_key-HasKey io required v v.key_file refl (rw (init_cipher, e) at h))
  | inr (k, e) ↦ rw (init_cipher, e) (k, e, (keyed k e).0, (keyed k e).1)
]

-- What AES-GCM and the JSON of the envelope promise.
pub record IsCrypto (c : Crypto) : Type 0 where
  pub unsealed :
      (k nonce label plain : String)
      → c.open_sealed k label (c.seal k nonce label plain) ≡ some plain
  pub unmarshaled : (t : String) → c.unmarshal (c.marshal state_format t) ≡ some (state_format, t)

with_cipher-ok :
    (p : Vault × Option CipherErr) (f : String → Result CipherErr String) (y : String)
    → (with_cipher p f).1 ≡ ok y
    → (is_success p.1 ≡ true) × (f (cipher_key p.0) ≡ ok y) × ((with_cipher p f).0 ≡ p.0)
with_cipher-ok (v, none) f y h = (refl, h, refl)
with_cipher-ok (v, some e) f y h = absurd (cc h)

decode-sealed :
    (c : Crypto) (io : KeyIo) (nonce raw k : String) (w : Vault)
    → IsCrypto c
    → w.cipher ≡ none
    → w.key_file ≡ key k
    → eqb (len k) 32 ≡ true
    → (w.read_only || io.chmod) ≡ true
    → io.read ≡ true
    → (decode_state c io (c.marshal state_format (c.seal k nonce state_format raw)) w).1 ≡ ok raw
unfolding decode_state decode_envelope init_cipher find_key open_key
decode-sealed c io nonce raw k w laws e f l m r =
    let may : (not w.read_only && not io.chmod) ≡ false = ground (arith, m) in
    rw (laws.unmarshaled (c.seal k nonce state_format raw), init_cipher, e, f, l, r, may)
      (ap opened (laws.unsealed k nonce state_format raw))

abbrev text_of : String → Result CipherErr String → String
text_of old (ok file) = file
text_of old (err e) = old

-- A state that was encoded is decoded again by any process that finds the key file as the encoding left
-- it and can read it, if a cipher in memory had the key of the file, AES-GCM opens what it sealed, and
-- the envelope reads back.
pub decode_state-encode_state :
    (c : Crypto) (io later : KeyIo) (nonce raw file : String) (v w : Vault)
    → IsCrypto c
    → IsKeyed v
    → (encode_state c io nonce raw v).1 ≡ ok file
    → w.cipher ≡ none
    → w.key_file ≡ (encode_state c io nonce raw v).0.key_file
    → (w.read_only || later.chmod) ≡ true
    → later.read ≡ true
    → (decode_state c later file w).1 ≡ ok raw
unfolding encode_state
decode_state-encode_state c io later nonce raw file v w laws keyed h e f m r =
    let (success, made, left) =
      with_cipher-ok (init_cipher io false v)
        (λ k. ok (c.marshal state_format (c.seal k nonce state_format raw))) file h in
    let (k, has, stored, long) = init_cipher-HasKey io false v keyed success in
    let same : cipher_key (init_cipher io false v).0 ≡ k = rw (cipher_key, has) refl in
    let text : c.marshal state_format (c.seal k nonce state_format raw) ≡ file =
      subst (λ z. c.marshal state_format (c.seal z nonce state_format raw) ≡ file) same
        (ap (text_of file) made) in
    subst (λ z. (decode_state c later z w).1 ≡ ok raw) text
      (decode-sealed c later nonce raw k w laws e (f ∙ ap Vault.key_file left ∙ stored) long m r)
