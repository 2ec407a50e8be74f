-- ===== src/State/Secrets.antt =====
-- secrets.json: `documents` and `load_secrets`. serde_json on the three documents is `Documents`.
use privacy_lodge.Prelude.{
  ℕ, ◌≡◌, Option, none, some, List, leb, if◌then◌else◌, Result, ok, err, ◌>>=◌, ok_or,
}
use privacy_lodge.Text.{Str}
use privacy_lodge.Crypto as Crypto
use privacy_lodge.Crypto.{
  Cipher, KeySource, Keyring, World, key_for_encrypt, key_for_decrypt, encrypt, decrypt, as_str,
  parse,
}
use privacy_lodge.State.{PersistedBox, PersistedSecrets, IdentitySnapshot}

pub data Error : Type 0 where
  unencodable : Error
  sealing : Crypto.Error → Error
  unknown_source not_secrets : Error
  not_located not_written not_finalized : Error

pub record SecretsFile : Type 0 where
  pub secrets_version : ℕ
  pub key_source : Str
  pub enc : Str

abbrev pub secrets_version : ℕ
secrets_version = 2

-- What is written reads back, and an envelope is no bare document of secrets.
pub record Documents : Type 0 where
  pub encode_box : PersistedBox → Option Str
  pub decode_box : Str → Option PersistedBox
  pub encode_secrets : PersistedSecrets → Option Str
  pub decode_secrets : Str → Option PersistedSecrets
  pub encode_file : SecretsFile → Option Str
  pub decode_file : Str → Option SecretsFile
  pub decode_box-encode :
      (b : PersistedBox) (s : Str) → encode_box b ≡ some s → decode_box s ≡ some b
  pub decode_secrets-encode :
      (p : PersistedSecrets) (s : Str) → encode_secrets p ≡ some s → decode_secrets s ≡ some p
  pub decode_file-encode :
      (f : SecretsFile) (s : Str) → encode_file f ≡ some s → decode_file s ≡ some f

pub data SecretsLoad : Type 0 where
  loaded : PersistedSecrets → SecretsLoad
  legacy : PersistedSecrets → SecretsLoad
  missing : SecretsLoad
  failed : Error → SecretsLoad

module _ {A : Type 0} where
  -- The error of another component, as one of this one.
  abbrev pub as_sealing : Result Crypto.Error A → Result Error A
  as_sealing (ok a) = ok a
  as_sealing (err e) = err (sealing e)

  abbrev pub or_err : Error → Option A → Result Error A
  or_err e o = ok_or o e

module _ (c : Cipher) (d : Documents) (w : World) where
  -- The envelope's secrets, or why they cannot be had.
  abbrev pub unsealed : Keyring → SecretsFile → Result Error PersistedSecrets
  unsealed ring file = or_err unknown_source (parse file.key_source) >>= λ source.
      as_sealing (key_for_decrypt c w ring source) >>= λ key.
      as_sealing (decrypt c file.enc key) >>= λ plain. or_err not_secrets (d.decode_secrets plain)

  abbrev pub of_result : Result Error PersistedSecrets → SecretsLoad
  of_result (ok s) = loaded s
  of_result (err e) = failed e

  abbrev pub of_legacy : Option PersistedSecrets → SecretsLoad
  of_legacy none = missing
  of_legacy (some s) = legacy s

  abbrev pub load_parsed : Keyring → Str → Option SecretsFile → SecretsLoad
  load_parsed ring raw none = of_legacy (d.decode_secrets raw)
  load_parsed ring raw (some file) =
      if leb secrets_version file.secrets_version
      then of_result (unsealed ring file)
      else of_legacy (d.decode_secrets raw)

  abbrev pub load_read : Keyring → Option Str → SecretsLoad
  load_read ring none = missing
  load_read ring (some raw) = load_parsed ring raw (d.decode_file raw)

  -- A file that cannot be read is `none`.
  unfoldable pub load_secrets : Keyring → Option Str → SecretsLoad
  load_secrets ring raw = load_read ring raw

  abbrev pub enveloped :
      List ℕ → IdentitySnapshot → Str → List ℕ × KeySource → Result Error (Str × Str)
  enveloped nonce snapshot plain (key, source) = as_sealing (encrypt c nonce plain key) >>= λ enc.
      or_err unencodable (d.encode_box snapshot.boxed) >>= λ boxed.
      or_err unencodable (
        d.encode_file
          (record { secrets_version = secrets_version; key_source = as_str source; enc = enc }))
      >>= λ file. ok (boxed, file)

  abbrev pub sealed_with :
      List ℕ
      → IdentitySnapshot
      → Str
      → Result Crypto.Error (List ℕ × KeySource)
      → Result Error (Str × Str)
  sealed_with nonce snapshot plain r = as_sealing r >>= λ k. enveloped nonce snapshot plain k

  abbrev pub documents_of :
      Keyring → List ℕ → IdentitySnapshot → Option Str → Result Error (Str × Str) × Keyring
  documents_of ring nonce snapshot none = (err unencodable, ring)
  documents_of ring nonce snapshot (some plain) =
      let (r, ring') = key_for_encrypt c w ring in (sealed_with nonce snapshot plain r, ring')

  -- box.json and secrets.json, and the keychain, in which a key may be new.
  unfoldable pub documents :
      Keyring → List ℕ → IdentitySnapshot → Result Error (Str × Str) × Keyring
  documents ring nonce snapshot =
      documents_of ring nonce snapshot (d.encode_secrets snapshot.secrets)
