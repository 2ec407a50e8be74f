-- ===== src/Updater/Verify.antt =====
-- `verify_signature`, `verify_pq_signature`, `verify_manifest_hybrid` and `check`. The signature
-- schemes, base64 and JSON are libraries: `Libraries` is what the code calls.
pub mod Hybrid
use privacy_lodge.Prelude.{
  ℕ, ◌≡◌, ◌↔◌, refl, Bool, true, false, not, Option, none, some, List, arith, if◌then◌else◌, Result,
  ok, err, ◌>>=◌, ◌>>◌, refuse_if, ok_or, ◌==◌, length, Result-cases, Option-cases, Bool-cases,
}
use privacy_lodge.Text.{Str, codes, trim, is_empty, bytes, str_eq}
use privacy_lodge.Text.Utf8.{from_utf8}
use privacy_lodge.Updater.{
  Manifest, Error, no_pq_key, bad_key, bad_pq_key, pq_not_base64, pq_wrong_length, pq_mismatch,
  not_base64, not_64_bytes, mismatch, no_pq_signature, bad_json, no_version, sig_not_text,
  max_manifest_bytes,
}
use privacy_lodge.Updater.Version.{is_newer}
use privacy_lodge.Updater.Hex.{hex_to_32, hex_to_vec}
use privacy_lodge.Updater.Fetch.{Response, fetch_bounded}

abbrev pub update_pubkey_hex : Str
update_pubkey_hex = codes "3fe188d4120f10d5455bf6bed74b668af477959c3a9376701df2436c8f98ce7d"

abbrev pub update_pq_pubkey_hex : Str
update_pq_pubkey_hex = codes "b8bf68eb03c2418e93d363e8ce6cb08bfabf3988a19d338fa5be80043c539b1d"

abbrev pub require_pq_signature : Bool
require_pq_signature = not (is_empty update_pq_pubkey_hex)

pub record Libraries : Type 1 where
  -- ed25519_dalek: a key from its 32 bytes, if they are one, and the check of 64 bytes.
  pub Key : Type 0
  pub key_of : List ℕ → Option Key
  pub verify : Key → List ℕ → List ℕ → Bool
  -- fips205 with SLH-DSA-SHA2-128s
  pub PqKey : Type 0
  pub pk_len : ℕ
  pub sig_len : ℕ
  pub pq_key_of : List ℕ → Option PqKey
  pub pq_verify : PqKey → List ℕ → List ℕ → Bool
  -- base64's standard engine, and serde_json
  pub decode_base64 : Str → Option (List ℕ)
  pub from_json : List ℕ → Option Manifest

module _ (L : Libraries) where
  open L use {
    Key, key_of, verify, PqKey, pk_len, sig_len, pq_key_of, pq_verify, decode_base64, from_json,
  }

  abbrev of_length : ℕ → Option (List ℕ) → Option (List ℕ)
  of_length n none = none
  of_length n (some bs) = if length bs == n then some bs else none

  abbrev pub then_key : {K : Type 0} → (List ℕ → Option K) → Option (List ℕ) → Option K
  then_key f none = none
  then_key f (some bs) = f bs

  -- The key that is compiled in.
  unfoldable pub release_key : Option Key
  release_key = then_key key_of (hex_to_32 update_pubkey_hex)

  unfoldable pub release_pq_key : Option PqKey
  release_pq_key = then_key pq_key_of (of_length pk_len (hex_to_vec update_pq_pubkey_hex))

  unfoldable pub verify_signature : List ℕ → Str → Result Error (Unit {0})
  verify_signature payload sig_b64 = ok_or release_key bad_key >>= λ key.
      ok_or (decode_base64 (trim sig_b64)) not_base64 >>= λ raw.
      refuse_if (not (length raw == 64)) not_64_bytes
      >> refuse_if (not (verify key payload raw)) mismatch

  unfoldable pub verify_pq_signature : List ℕ → Str → Result Error (Unit {0})
  verify_pq_signature payload sig_b64 =
      refuse_if (is_empty update_pq_pubkey_hex) no_pq_key
      >> ok_or release_pq_key bad_pq_key
      >>= λ key. ok_or (decode_base64 (trim sig_b64)) pq_not_base64 >>= λ raw.
          refuse_if (not (length raw == sig_len)) pq_wrong_length
          >> refuse_if (not (pq_verify key payload raw)) pq_mismatch

  -- `pq.filter(|s| !s.trim().is_empty())`
  abbrev pub filled : Option Str → Option Str
  filled none = none
  filled (some s) = if not (is_empty (trim s)) then some s else none

  unfoldable pub verify_required_pq : List ℕ → Option Str → Result Error (Unit {0})
  unfolding verify_pq_signature
  verify_required_pq payload pq =
      if require_pq_signature
      then (ok_or (filled pq) no_pq_signature >>= λ s. verify_pq_signature payload s)
      else ok tt

  unfoldable pub parse_manifest : List ℕ → Result Error Manifest
  parse_manifest payload = ok_or (from_json payload) bad_json >>= λ m.
      refuse_if (is_empty (trim m.version)) no_version >> ok m

  unfoldable pub verify_manifest_hybrid : List ℕ → Str → Option Str → Result Error Manifest
  unfolding verify_signature verify_required_pq parse_manifest
  verify_manifest_hybrid payload sig_b64 pq_sig_b64 =
      verify_signature payload sig_b64
      >> verify_required_pq payload pq_sig_b64
      >> parse_manifest payload

  pub verify_manifest : List ℕ → Str → Result Error Manifest
  verify_manifest payload sig_b64 = verify_manifest_hybrid payload sig_b64 none

  abbrev pub text_or_none : Result Error (List ℕ) → Option Str
  text_or_none (err e) = none
  text_or_none (ok bs) = from_utf8 bs

  abbrev pub only_newer : Str → Manifest → Result Error (Option Manifest)
  only_newer current m = if not (is_newer m.version current) then ok none else ok (some m)

  -- What the three requests got, each `none` if there was no response, and the running version.
  unfoldable pub check :
      Option Response → Option Response → Option Response → Str → Result Error (Option Manifest)
  check json sig pq current = fetch_bounded max_manifest_bytes json >>= λ payload.
      fetch_bounded max_manifest_bytes sig >>= λ raw. ok_or (from_utf8 raw) sig_not_text >>= λ text.
      verify_manifest_hybrid payload text (text_or_none (fetch_bounded max_manifest_bytes pq))
      >>= only_newer current

  -- A raw signature that a base64 text stands for, and that a release key accepts.
  abbrev pub Signed : List ℕ → Str → Type 0
  Signed payload text =
      (key : Key) × (raw : List ℕ) × (release_key ≡ some key)
      × (decode_base64 (trim text) ≡ some raw)
      × (length raw ≡ 64)
      × (verify key payload raw ≡ true)

  abbrev pub PqSigned : List ℕ → Str → Type 0
  PqSigned payload text =
      (key : PqKey) × (raw : List ℕ) × (release_pq_key ≡ some key)
      × (decode_base64 (trim text) ≡ some raw)
      × (length raw ≡ sig_len)
      × (pq_verify key payload raw ≡ true)

  -- The manifest that a payload holds, and a signature of the payload by each release key.
  abbrev pub Authentic : List ℕ → Str → Option Str → Manifest → Type 0
  Authentic payload sig pq m =
      Signed payload sig
      × ((s : Str) × (pq ≡ some s) × (is_empty (trim s) ≡ false) × PqSigned payload s)
      × (from_json payload ≡ some m)
      × (is_empty (trim m.version) ≡ false)
