-- ===== src/Crypto/Sample.antt =====
-- A concrete cipher at which the laws hold: the tag is sixteen zeros before the text, and base64
-- moves every byte away from white space.
use privacy_lodge.Prelude.{
  ℕ, ◌+◌, ◌-◌, ◌≡◌, refl, ap, false, ltb, if◌then◌else◌, Option, some, List, [], ◌∷◌, ◌++◌, map,
  drop, length, arith,
}
use privacy_lodge.Text.{is_whitespace}
use privacy_lodge.Text.Laws.{Solid}
use privacy_lodge.Crypto.{Cipher, tag_len}

abbrev pub tag : List ℕ
tag = 0 ∷ 0 ∷ 0 ∷ 0 ∷ 0 ∷ 0 ∷ 0 ∷ 0 ∷ 0 ∷ 0 ∷ 0 ∷ 0 ∷ 0 ∷ 0 ∷ 0 ∷ 0 ∷ []

abbrev pub sealed_of : List ℕ → Option (List ℕ)
sealed_of plain = some (tag ++ plain)

pub opens :
    (key nonce plain sealed : List ℕ)
    → sealed_of plain ≡ some sealed
    → some (drop 16 sealed) ≡ some plain
opens key nonce plain sealed h = ground (arith, h)

pub longer :
    (key nonce plain sealed : List ℕ)
    → sealed_of plain ≡ some sealed
    → length sealed ≡ length plain + tag_len
longer key nonce plain sealed h = ground (arith, h)

abbrev pub up : ℕ → ℕ
up c = if ltb c 95 then c + 33 else if ltb c 1000 then c + 200 else c + 20000

abbrev pub down : ℕ → ℕ
down d = if ltb d 128 then d - 33 else if ltb d 1200 then d - 200 else d - 20000

down-up : (c : ℕ) → down (up c) ≡ c
down-up c = ground arith

up_solid : (c : ℕ) → is_whitespace (up c) ≡ false
unfolding is_whitespace
up_solid c = ground arith

pub shifts_back : (b : List ℕ) → map down (map up b) ≡ b
shifts_back [] = refl
shifts_back (c ∷ b) = rw (down-up c, shifts_back b)

pub shifted-Solid : (b : List ℕ) → Solid (map up b)
shifted-Solid [] = refl
shifted-Solid (c ∷ b) = rw (up_solid c) (shifted-Solid b)

abbrev pub sample : Cipher
sample = record {
  seal = λ key nonce plain. sealed_of plain;
  unseal = λ key nonce sealed. some (drop 16 sealed);
  b64_encode = map up;
  b64_decode = λ s. some (map down s);
  unseal-seal = opens;
  length-seal = longer;
  b64_decode-encode = λ b. ap some (shifts_back b);
  b64-solid = shifted-Solid;
}
