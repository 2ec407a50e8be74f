-- ===== src/Backup.antt =====
-- src-tauri/src/backup.rs: the identity of a box, sealed under a passphrase. PBKDF2 is the
-- parameter `derive_key`; the salt, the nonce and the three files of the hidden service are
-- arguments.
pub mod RoundTrip
pub mod Restores
pub mod Restore
pub mod Sample
mod Examples
use privacy_lodge.Prelude.{
  ℕ, ◌*◌, ◌≡◌, Bool, true, false, not, ◌&&◌, ◌||◌, Option, none, some, List, [], ◌∷◌, map, ltb,
  ◌==◌, if◌then◌else◌, Result, ok, err, ◌>>=◌, ◌>>◌, ok_or, refuse_if, length,
}
use privacy_lodge.Text.{Str, codes, trim, str_eq, len}
use privacy_lodge.Text.Utf8.{from_utf8_lossy}
use privacy_lodge.Crypto as Crypto
use privacy_lodge.Crypto.{Cipher, encrypt, decrypt}
use privacy_lodge.Json.{Json, str_at, u64_at}
use privacy_lodge.State.{Inner}

abbrev pub kdf_iters : ℕ
kdf_iters = 200000

abbrev pub format_version : ℕ
format_version = 1

abbrev pub max_envelope_bytes : ℕ
max_envelope_bytes = 1024 * 1024

abbrev pub kdf_name : Str
kdf_name = codes "pbkdf2-hmac-sha256"

pub data Error : Type 0 where
  short_passphrase unreadable not_sealed : Error
  too_large not_a_backup unsupported_version no_salt unsupported_kdf no_blob bad_salt : Error
  salt_length wrong_passphrase bad_contents : Error

-- The files of the hidden service, as far as they can be read.
pub record HiddenService : Type 0 where
  pub hostname : Option (List ℕ)
  pub secret_key : Option (List ℕ)
  pub public_key : Option (List ℕ)

abbrev pub or_default : Option Str → Str
or_default none = []
or_default (some s) = s

module _ (J : Json) (C : Cipher) (derive_key : Str → List ℕ → List ℕ) where
  open J use {Value, string, number, array, object, to_string, from_str}

  -- The payload, in the clear.
  unfoldable pub payload : Str → List ℕ → List ℕ → Inner → List Str → Value
  payload hostname hs_secret hs_public i pairings = object (
      (codes "hostname", string hostname)
      ∷ (codes "hs_secret", string (C.b64_encode hs_secret))
      ∷ (codes "hs_public", string (C.b64_encode hs_public))
      ∷ (codes "box_name", string i.boxed.box_name)
      ∷ (codes "username", string i.boxed.username)
      ∷ (codes "created", string i.boxed.created)
      ∷ (codes "onion", string (or_default i.boxed.onion))
      ∷ (codes "phrase", array (map string i.secrets.phrase))
      ∷ (codes "token", string i.secrets.token)
      ∷ (codes "turn_secret", string i.secrets.turn_secret)
      ∷ (codes "join_token", string i.secrets.join_token)
      ∷ (codes "livekit_api_key", string i.secrets.livekit_api_key)
      ∷ (codes "livekit_api_secret", string i.secrets.livekit_api_secret)
      ∷ (codes "admin_password", string i.secrets.admin_password)
      ∷ (codes "pairings", array (map string pairings))
      ∷ [])

  -- The address and the date stand in the clear.
  unfoldable pub envelope : List ℕ → Str → Str → Str → Value
  envelope salt onion created sealed = object (
      (codes "v", number format_version)
      ∷ (codes "kdf", string kdf_name)
      ∷ (codes "iters", number kdf_iters)
      ∷ (codes "salt", string (C.b64_encode salt))
      ∷ (codes "onion", string onion)
      ∷ (codes "created", string created)
      ∷ (codes "blob", string sealed)
      ∷ [])

  abbrev pub sealing : Result Crypto.Error Str → Result Error Str
  sealing (ok s) = ok s
  sealing (err e) = err not_sealed

  abbrev pub sealed_envelope : List ℕ → List ℕ → Str → Inner → Value → Result Error Str
  sealed_envelope salt nonce passphrase i p =
      sealing (encrypt C nonce (to_string p) (derive_key passphrase salt)) >>= λ blob.
      ok (to_string (envelope salt (or_default i.boxed.onion) i.boxed.created blob))

  unfoldable pub create :
      List ℕ → List ℕ → Str → HiddenService → Inner → List Str → Result Error Str
  unfolding payload envelope
  create salt nonce passphrase hs i pairings =
      refuse_if (ltb (length passphrase) 8) short_passphrase
      >> ok_or hs.hostname unreadable
      >>= λ hostname. ok_or hs.secret_key unreadable >>= λ hs_secret.
          ok_or hs.public_key unreadable >>= λ hs_public.
          sealed_envelope salt nonce passphrase i
            (payload (trim (from_utf8_lossy hostname)) hs_secret hs_public i pairings)

  abbrev is_text : Option Str → Str → Bool
  is_text none s = false
  is_text (some t) s = str_eq t s

  abbrev is_number : Option ℕ → ℕ → Bool
  is_number none n = false
  is_number (some m) n = m == n

  abbrev or_zero : Option ℕ → ℕ
  or_zero none = 0
  or_zero (some n) = n

  abbrev opened : Result Crypto.Error Str → Result Error Str
  opened (ok s) = ok s
  opened (err e) = err wrong_passphrase

  abbrev pub is_our_kdf : Value → Bool
  is_our_kdf env =
      is_text (str_at J (codes "kdf") env) kdf_name
      && is_number (u64_at J (codes "iters") env) kdf_iters

  -- The checks stand before the derivation of the key, which takes long.
  unfoldable pub open_parsed : Str → Value → Result Error Value
  open_parsed passphrase env =
      refuse_if (not (or_zero (u64_at J (codes "v") env) == format_version)) unsupported_version
      >> ok_or (str_at J (codes "salt") env) no_salt
      >>= λ salt_b64.
          refuse_if (not (is_our_kdf env)) unsupported_kdf
          >> ok_or (str_at J (codes "blob") env) no_blob
          >>= λ blob. ok_or (C.b64_decode salt_b64) bad_salt >>= λ salt.
              refuse_if (not (length salt == 16)) salt_length
              >> opened (decrypt C blob (derive_key passphrase salt))
              >>= λ plain. ok_or (from_str plain) bad_contents

  -- `open`
  unfoldable pub open_backup : Str → Str → Result Error Value
  unfolding open_parsed
  open_backup envelope_json passphrase =
      refuse_if (ltb max_envelope_bytes (len envelope_json)) too_large
      >> ok_or (from_str envelope_json) not_a_backup
      >>= open_parsed passphrase
