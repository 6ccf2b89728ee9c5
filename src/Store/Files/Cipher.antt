-- ===== src/Store/Files/Cipher.antt =====
-- internal/store/encryption.go: the key file, and the text of the state file. AES-GCM and the JSON of
-- the envelope are functions of a record; a text stands for the bytes of a file.
use Prim.Native.String.{len}
use miyohub.Base.{
  Bool, Option, String, blank, eqb, false, if◌then◌else◌, none, not, some, true, ◌&&◌, ◌==◌,
}
use miyohub.Base.Result.{Result, err, ok}

pub record Crypto : Type 0 where
  -- `Seal` and `Open` with a key, a random nonce and the additional data
  pub seal : String → String → String → String → String
  pub open_sealed : String → String → String → Option String
  -- `json.MarshalIndent` and `json.Unmarshal` of a format and a ciphertext
  pub marshal : String → String → String
  pub unmarshal : String → Option (String × String)

pub data KeyFile : Type 0 where
  absent irregular : KeyFile
  key : String → KeyFile

-- What `os.OpenFile` with O_EXCL does for a key file that was absent.
pub data Creation : Type 0 where
  created refused : Creation
  -- Another process made the file in between. `initCipher` calls itself: what it finds then, and the
  -- outcome of its second creation if the file is gone again.
  exists : KeyFile → Creation → Creation

-- The outcomes of the calls of one `initCipher`.
pub record KeyIo : Type 0 where
  pub directory : Bool
  pub creation : Creation
  -- the random key, and what the file holds if it was not written in full
  pub random : String
  pub torn : String
  pub written : Bool
  pub chmod : Bool
  pub read : Bool

-- The part of `Store` that the encryption uses, with the key for the cipher, and the key file.
pub record Vault : Type 0 where
  pub read_only : Bool
  pub cipher : Option String
  pub key_file : KeyFile

pub data CipherErr : Type 0 where
  not_regular key_missing io_failed bad_key_length : CipherErr
  bad_state_file unknown_version not_decrypted : CipherErr

-- The end of `initCipher`, with the key file there.
unfoldable pub open_key : KeyIo → String → Vault → Vault × Option CipherErr
open_key io k v =
    if not v.read_only && not io.chmod
    then (v, some CipherErr.io_failed)
    else if not io.read
    then (v, some CipherErr.io_failed)
    else if eqb (len k) 32
    then (record v { cipher = some k }, none)
    else (v, some CipherErr.bad_key_length)

-- The creation of a key file, from the outcome of its `os.OpenFile`.
unfoldable pub create_key : KeyIo → Vault → Creation → Vault × Option CipherErr
unfolding open_key
create_key io v created =
    if io.written
    then open_key io io.random (record v { key_file = key io.random })
    else (record v { key_file = key io.torn }, some CipherErr.io_failed)
create_key io v refused = (v, some CipherErr.io_failed)
create_key io v (exists absent next) = create_key io v next
create_key io v (exists irregular next) =
    (record v { key_file = irregular }, some CipherErr.not_regular)
create_key io v (exists (key k) next) = open_key io k (record v { key_file = key k })

-- `initCipher` without a cipher.
unfoldable pub find_key : KeyIo → Bool → Vault → KeyFile → Vault × Option CipherErr
unfolding create_key open_key
find_key io required v absent =
    if required
    then (v, some CipherErr.key_missing)
    else if io.directory
    then create_key io v io.creation
    else (v, some CipherErr.io_failed)
find_key io required v irregular = (v, some CipherErr.not_regular)
find_key io required v (key k) = open_key io k v

-- `initCipher`
unfoldable pub init_cipher : KeyIo → Bool → Vault → Vault × Option CipherErr
unfolding find_key
init_cipher io required v = elim v.cipher [
  | some k ↦ (v, none)
  | none ↦ find_key io required v v.key_file
]

-- `stateFormat`
abbrev pub state_format : String
state_format = "miyohub-state-v1"

abbrev pub cipher_key : Vault → String
cipher_key v = elim v.cipher [ none ↦ "" | some k ↦ k ]

-- A result after `initCipher`, with the vault that it leaves.
abbrev pub with_cipher :
    Vault × Option CipherErr → (String → Result CipherErr String) → Vault × Result CipherErr String
with_cipher (v, some e) f = (v, err e)
with_cipher (v, none) f = (v, f (cipher_key v))

abbrev pub opened : Option String → Result CipherErr String
opened none = err CipherErr.not_decrypted
opened (some plain) = ok plain

-- The body of `decodeState`, with the envelope.
unfoldable pub decode_envelope :
    Crypto → KeyIo → String → Option (String × String) → Vault → Vault × Result CipherErr String
unfolding init_cipher
decode_envelope c io raw none v = (v, err CipherErr.bad_state_file)
decode_envelope c io raw (some (format, ciphertext)) v =
    if blank format
    then if v.read_only then (v, ok raw) else with_cipher (init_cipher io false v) (λ k. ok raw)
    else if format == state_format
    then with_cipher (init_cipher io true v) (λ k. opened (c.open_sealed k state_format ciphertext))
    else (v, err CipherErr.unknown_version)

-- `decodeState`
unfoldable pub decode_state : Crypto → KeyIo → String → Vault → Vault × Result CipherErr String
unfolding decode_envelope
decode_state c io raw v = decode_envelope c io raw (c.unmarshal raw) v

-- `encodeState`, with the random nonce.
unfoldable pub encode_state :
    Crypto → KeyIo → String → String → Vault → Vault × Result CipherErr String
unfolding init_cipher
encode_state c io nonce raw v =
    with_cipher (init_cipher io false v)
      (λ k. ok (c.marshal state_format (c.seal k nonce state_format raw)))
