-- ===== src/Crypto.antt =====
-- src-tauri/src/crypto.rs: the master keys that seal secrets, where they are kept, and the sealing.
-- AES-256-GCM and base64 are the parameter `Cipher`; random bytes and the environment are arguments;
-- the keychain is state.
pub mod Seal
pub mod Keychain
pub mod Sample
mod Examples
use privacy_lodge.Prelude.{
  ℕ, ◌+◌, ◌≡◌, Bool, true, false, not, Option, none, some, List, [], ◌∷◌, ◌++◌, ltb, ◌==◌,
  if◌then◌else◌, Result, ok, err, ◌>>=◌, ok_or, length, take, drop,
}
use privacy_lodge.Text.{Str, codes, trim, str_eq, bytes}
use privacy_lodge.Text.Laws.{Solid}
use privacy_lodge.Text.Utf8.{from_utf8}
use privacy_lodge.EnvCompat as EnvCompat
use privacy_lodge.EnvCompat.{VarError, not_present, not_unicode}

abbrev pub nonce_len : ℕ
nonce_len = 12

abbrev pub tag_len : ℕ
tag_len = 16

-- What was sealed under a key and a nonce opens under them, and is longer by the tag.
pub record Cipher : Type 0 where
  pub seal : List ℕ → List ℕ → List ℕ → Option (List ℕ)
  pub unseal : List ℕ → List ℕ → List ℕ → Option (List ℕ)
  pub b64_encode : List ℕ → Str
  pub b64_decode : Str → Option (List ℕ)
  pub unseal-seal :
      (key nonce plain sealed : List ℕ)
      → seal key nonce plain ≡ some sealed
      → unseal key nonce sealed ≡ some plain
  pub length-seal :
      (key nonce plain sealed : List ℕ)
      → seal key nonce plain ≡ some sealed
      → length sealed ≡ length plain + tag_len
  pub b64_decode-encode : (b : List ℕ) → b64_decode (b64_encode b) ≡ some b
  pub b64-solid : (b : List ℕ) → Solid (b64_encode b)

pub data Error : Type 0 where
  bad_env_key env_not_text no_key : Error
  env_key_missing keychain_missing : Error
  not_encrypted too_short not_opened not_base64 not_text : Error

pub data KeySource : Type 0 where
  env keychain fallback : KeySource

unfoldable pub as_str : KeySource → Str
as_str env = codes "env"
as_str keychain = codes "keychain"
as_str fallback = codes "fallback"

-- `KeySource::parse`
unfoldable pub parse : Str → Option KeySource
parse s =
    if str_eq s (codes "env")
    then some env
    else if str_eq s (codes "keychain")
    then some keychain
    else if str_eq s (codes "fallback")
    then some fallback
    else none

-- One entry of the keychain: it cannot be reached, holds nothing, or holds a text.
pub data Entry : Type 0 where
  unavailable : Entry
  empty : Entry
  holds : Str → Entry

-- The entry under the new name, the one from before the rename, and whether a text can be stored
-- under the new name.
pub record Keyring : Type 0 where
  pub current : Entry
  pub legacy : Entry
  pub is_writable : Bool

-- `get_password().ok()`
abbrev pub password : Entry → Option Str
password unavailable = none
password empty = none
password (holds s) = some s

abbrev pub stored : Str → Keyring → Keyring
stored s k = if k.is_writable then record k { current = holds s } else k

-- The process's environment, SHA-256 of the build constant, and what `fill_bytes` gives.
pub record World : Type 0 where
  pub secrets_key : Result VarError Str
  pub fallback_key : List ℕ
  pub random_key : List ℕ

module _ (c : Cipher) where
  abbrev pub of_32_bytes : Option (List ℕ) → Option (List ℕ)
  of_32_bytes none = none
  of_32_bytes (some b) = if length b == 32 then some b else none

  unfoldable pub decode_key : Str → Option (List ℕ)
  decode_key s = of_32_bytes (c.b64_decode (trim s))

  abbrev pub decode_entry : Option Str → Option (List ℕ)
  decode_entry none = none
  decode_entry (some s) = decode_key s

  abbrev or_legacy : Option (List ℕ) → Keyring → Option (List ℕ)
  or_legacy (some k) ring = some k
  or_legacy none ring = decode_entry (password ring.legacy)

  abbrev keychain_from : Option Str → Keyring → Option (List ℕ)
  keychain_from none ring = none
  keychain_from (some s) ring = or_legacy (decode_key s) ring

  -- The `?` on the entry under the new name returns before the old name is tried.
  unfoldable pub keychain_get : Keyring → Option (List ℕ)
  keychain_get ring = keychain_from (password ring.current) ring

  abbrev pub created : List ℕ → Keyring → Option (List ℕ) × Keyring
  created key ring =
      if ring.is_writable then (some key, stored (c.b64_encode key) ring) else (none, ring)

  abbrev pub adopt_decoded : List ℕ → Str → Option (List ℕ) → Keyring → Option (List ℕ) × Keyring
  adopt_decoded random s none ring = created random ring
  adopt_decoded random s (some k) ring = (some k, stored s ring)

  -- A key that is there under the old name is copied to the new one, or else one is made.
  abbrev pub adopt : List ℕ → Option Str → Keyring → Option (List ℕ) × Keyring
  adopt random none ring = created random ring
  adopt random (some s) ring = adopt_decoded random s (decode_key s) ring

  abbrev pub get_or_create : List ℕ → Entry → Keyring → Option (List ℕ) × Keyring
  get_or_create random unavailable ring = (none, ring)
  get_or_create random (holds s) ring = (decode_key s, ring)
  get_or_create random empty ring = adopt random (password ring.legacy) ring

  unfoldable pub keychain_get_or_create : List ℕ → Keyring → Option (List ℕ) × Keyring
  keychain_get_or_create random ring = get_or_create random ring.current ring

  abbrev pub from_env : Option (List ℕ) → Result Error (List ℕ × KeySource)
  from_env none = err bad_env_key
  from_env (some key) = ok (key, env)

  abbrev pub from_keychain : Option (List ℕ) → Result Error (List ℕ × KeySource)
  from_keychain none = err no_key
  from_keychain (some key) = ok (key, keychain)

  abbrev pub encrypt_with :
      Result VarError Str → List ℕ → Keyring → Result Error (List ℕ × KeySource) × Keyring
  encrypt_with (ok value) random ring = (from_env (decode_key value), ring)
  encrypt_with (err not_unicode) random ring = (err env_not_text, ring)
  encrypt_with (err not_present) random ring =
      let (key, ring') = keychain_get_or_create random ring in (from_keychain key, ring')

  unfoldable pub key_for_encrypt : World → Keyring → Result Error (List ℕ × KeySource) × Keyring
  unfolding keychain_get_or_create
  key_for_encrypt w ring = encrypt_with w.secrets_key w.random_key ring

  abbrev pub env_key : Result VarError Str → Option (List ℕ)
  env_key (err e) = none
  env_key (ok s) = decode_key s

  unfoldable pub key_for_decrypt : World → Keyring → KeySource → Result Error (List ℕ)
  key_for_decrypt w ring env = ok_or (env_key w.secrets_key) env_key_missing
  key_for_decrypt w ring keychain = ok_or (keychain_get ring) keychain_missing
  key_for_decrypt w ring fallback = ok w.fallback_key

  abbrev sealed_after : List ℕ → Option (List ℕ) → Result Error (List ℕ)
  sealed_after nonce none = err not_encrypted
  sealed_after nonce (some ct) = ok (nonce ++ ct)

  -- The nonce is what `fill_bytes` gives.
  unfoldable pub seal_bytes : List ℕ → List ℕ → List ℕ → Result Error (List ℕ)
  seal_bytes nonce plain key = sealed_after nonce (c.seal key nonce plain)

  unfoldable pub open_bytes : List ℕ → List ℕ → Result Error (List ℕ)
  open_bytes sealed key =
      if ltb (length sealed) (nonce_len + tag_len)
      then err too_short
      else ok_or (c.unseal key (take nonce_len sealed) (drop nonce_len sealed)) not_opened

  unfoldable pub encrypt : List ℕ → Str → List ℕ → Result Error Str
  encrypt nonce plain key = seal_bytes nonce (bytes plain) key >>= λ out. ok (c.b64_encode out)

  -- Whatever `open_bytes` says, the error is that the key is wrong or the data damaged.
  abbrev opened : Result Error (List ℕ) → Result Error (List ℕ)
  opened (ok p) = ok p
  opened (err e) = err not_opened

  unfoldable pub decrypt : Str → List ℕ → Result Error Str
  decrypt blob key = ok_or (c.b64_decode (trim blob)) not_base64 >>= λ sealed.
      opened (open_bytes sealed key) >>= λ plain. ok_or (from_utf8 plain) not_text
