-- ===== src/Pairing.antt =====
-- src-tauri/src/pairing.rs: pair codes, and the allowlist of peers in `pairings.json`.
-- Here: the data and the address check. `Code` has the pair codes, `Store` the file.
pub mod Onion
pub mod Code
pub mod Store
pub mod Sample
pub mod Examples
use privacy_lodge.Prelude.{ℕ, Bool, false, ◌&&◌, ◌||◌, Option, none, some, List, leb, ◌==◌, all}
use privacy_lodge.Text.{Str, codes, strip_suffix, bytes, len}

pub record Pairing : Type 0 where
  pub onion : Str
  pub added_at : ℕ

pub record Pairings : Type 0 where
  pub peers : List Pairing

pub data Error : Type 0 where
  unreadable corrupt unencodable not_written not_saved : Error
  not_base64 malformed wrong_version expired bad_address : Error

-- The base32 alphabet of an onion label.
unfoldable pub is_base32 : ℕ → Bool
is_base32 b = (leb b'a' b && leb b b'z') || (leb b'2' b && leb b b'7')

abbrev valid_label : Option Str → Bool
valid_label none = false
valid_label (some label) = len label == 56 && all is_base32 (bytes label)

-- Exactly 56 characters of base32, then `.onion`.
unfoldable pub is_valid_onion : Str → Bool
unfolding is_base32
is_valid_onion s = valid_label (strip_suffix (codes ".onion") s)
