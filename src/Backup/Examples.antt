-- ===== src/Backup/Examples.antt =====
-- Tests and instances for backups: a small complete box is backed up, opened and restored.
use privacy_lodge.Prelude.{
  ◌≡◌, refl, Option, none, some, List, [], ◌∷◌, ◌++◌, ok, if◌then◌else◌, ◌==◌,
}
use privacy_lodge.Text.{Str, codes, bytes, bytes_of_char, trim, is_whitespace}
use privacy_lodge.Text.Utf8.{from_utf8_lossy}
use privacy_lodge.Crypto.{encrypt, seal_bytes}
use privacy_lodge.Crypto.Sample.{sample}
use privacy_lodge.Json.{Json}
use privacy_lodge.Json.Sample.{Tree, tree_json}
use privacy_lodge.IdentityRestore.{validate, is_clamped}
use privacy_lodge.IdentityRestore.Sound.{validate_sound, IsWhole}
use privacy_lodge.Backup.{payload, envelope, create, open_backup}
use privacy_lodge.Backup.RoundTrip.{open_backup-create, payload_of}
use privacy_lodge.Backup.Restores.{validate-payload, restored}
use privacy_lodge.Backup.Sample.{
  repeated, hostname, secret_file, public_file, keys, den, derive_key, no_print, den-IsComplete,
  is_owner, den_validates, den_id, print, salt, nonce, no_string, no_text,
}

validate-payload_example :
    (peers : List Str) × (validate no_print keys
        (payload no_print sample derive_key hostname secret_file public_file den [])
      ≡ ok (record {
        inner = restored no_print sample derive_key keys hostname den;
        secret = secret_file;
        public = public_file;
        peers = peers;
      }))
unfolding is_clamped is_whitespace trim
validate-payload_example =
    validate-payload no_print sample derive_key keys hostname secret_file public_file den []
      den-IsComplete sample.b64_decode-encode refl refl refl refl is_owner

validate_sound_example :
    IsWhole no_print keys
      (payload no_print sample derive_key hostname secret_file public_file den [])
      den_id
validate_sound_example =
    validate_sound no_print keys
      (payload no_print sample derive_key hostname secret_file public_file den []) den_id
      (den_validates no_string no_text).1

abbrev small_payload : Tree
small_payload = payload (tree_json print (λ s. none)) sample derive_key (codes "h") [] [] den []

abbrev read : Str → Option Tree
read [] = none
read (c ∷ s) =
    if c == b'E'
    then some
        (envelope (tree_json print (λ s. none)) sample derive_key salt hostname (codes "today") s)
    else some small_payload

abbrev toy_json : Json
toy_json = tree_json print read

abbrev sealed : Str
sealed = b'E' ∷ sample.b64_encode (nonce ++ repeated 0 16 ++ b'P' ∷ [])

creates :
    create toy_json sample derive_key salt nonce
      (codes "passphrase")
      (record { hostname = some (b'h' ∷ []); secret_key = some []; public_key = some [] })
      den
      []
    ≡ ok sealed
unfolding create encrypt seal_bytes bytes bytes_of_char payload envelope trim is_whitespace
    from_utf8_lossy
creates = refl

open_backup-create_example :
    open_backup toy_json sample derive_key sealed (codes "passphrase")
    ≡ ok (payload_of toy_json sample derive_key (b'h' ∷ []) [] [] den [])
unfolding payload envelope trim is_whitespace from_utf8_lossy
open_backup-create_example =
    open_backup-create toy_json sample derive_key salt nonce (codes "passphrase") sealed (b'h' ∷ [])
      [] [] den [] refl refl refl (λ blob. refl) refl refl creates
