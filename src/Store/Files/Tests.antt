-- ===== src/Store/Files/Tests.antt =====
-- A state is written by one process and read by the next, under a cipher that hides nothing.
use miyohub.Base.{String, false, none, refl, some, true, ◌≡◌}
use miyohub.Base.Result.{ok}
use miyohub.Store.Files.Cipher.{
  Crypto, KeyIo, Vault, absent, created, decode_state, encode_state, key, state_format,
}
use miyohub.Store.Files.Restored.{IsCrypto, decode_state-encode_state}

abbrev plain_crypto : Crypto
plain_crypto = record {
  seal = λ k nonce label plain. plain;
  open_sealed = λ k label sealed. some sealed;
  marshal = λ format text. text;
  unmarshal = λ text. some (state_format, text);
}

plain-IsCrypto : IsCrypto plain_crypto
plain-IsCrypto = record { unsealed = λ k nonce label plain. refl; unmarshaled = λ t. refl }

abbrev sample_key : String
sample_key = "0123456789abcdef0123456789abcdef"

abbrev first_io : KeyIo
first_io = record {
  directory = true;
  creation = created;
  random = sample_key;
  torn = "";
  written = true;
  chmod = true;
  read = true;
}

abbrev new_vault : Vault
new_vault = record { read_only = false; cipher = none; key_file = absent }

abbrev next_vault : Vault
next_vault = record { read_only = true; cipher = none; key_file = key sample_key }

decode_state-encode_state_example : (decode_state plain_crypto first_io "{}" next_vault).1 ≡ ok "{}"
unfolding encode_state
decode_state-encode_state_example =
    decode_state-encode_state plain_crypto first_io first_io "n" "{}" "{}" new_vault next_vault
      plain-IsCrypto (λ k h. absurd (cc h)) refl refl refl refl refl
