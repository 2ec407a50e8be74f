-- ===== src/OnionAddress.antt =====
-- The address of a hidden service: `onion` of src-tauri/src/identity_restore.rs. SHA3-256 is a
-- parameter.
pub mod Valid
mod Examples
use privacy_lodge.Prelude.{
  ℕ, zero, suc, ◌+◌, ◌-◌, ◌*◌, ◌/◌, ◌%◌, ◌^◌, List, [], ◌∷◌, ◌++◌, take, leb, ltb, if◌then◌else◌,
}
use privacy_lodge.Text.{Str, codes}

-- The alphabet `abcdefghijklmnopqrstuvwxyz234567` at an index below 32.
unfoldable pub letter : ℕ → ℕ
letter i = if ltb i 26 then b'a' + i else b'2' + (i - 26)

-- The loop `while bits >= 5`, at most `fuel` times; it takes five bits a time, so that `bits` times
-- are enough.
unfoldable pub emit : ℕ → ℕ → ℕ → Str × ℕ
unfolding letter
emit zero accumulator bits = ([], bits)
emit (suc fuel) accumulator bits =
    let rest = emit fuel accumulator (bits - 5) in
    if leb 5 bits then (letter (accumulator / 2 ^ (bits - 5) % 32) ∷ rest.0, rest.1) else ([], bits)

-- `accumulator << 8 | byte` on `u32`
abbrev pub shifted : ℕ → ℕ → ℕ
shifted accumulator byte = accumulator * 2 ^ 8 % 2 ^ 32 + byte

unfoldable pub encode_from : ℕ → ℕ → List ℕ → Str
unfolding emit
encode_from accumulator bits [] = []
encode_from accumulator bits (byte ∷ bytes) =
    let next = shifted accumulator byte in
    let (letters, left) = emit (bits + 8) next (bits + 8) in letters ++ encode_from next left bytes

module _ (sha3_256 : List ℕ → List ℕ) where
  abbrev pub checksum : List ℕ → List ℕ
  checksum public = sha3_256 (codes ".onion checksum" ++ public ++ 3 ∷ [])

  unfoldable pub onion : List ℕ → Str
  unfolding encode_from
  onion public = encode_from 0 0 (public ++ take 2 (checksum public) ++ 3 ∷ []) ++ codes ".onion"
