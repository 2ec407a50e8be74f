-- ===== src/Updater/Hex.antt =====
-- `hex_to_vec`, `hex_to_32` and `hex_lower`, with the numbers that `u8::from_str_radix` reads.
use privacy_lodge.Prelude.{
  ℕ, zero, suc, ◌+◌, ◌-◌, ◌*◌, ◌/◌, ◌%◌, ◌<◌, ◌≡◌, refl, true, false, not, ◌&&◌, Option, none, some,
  List, [], ◌∷◌, arith, ltb, leb, ◌==◌, if◌then◌else◌, all, length,
}
use privacy_lodge.Text.{
  Str, len, trim, split_at, eq_ignore_ascii_case, to_ascii_lower, is_whitespace,
}
use privacy_lodge.Text.Laws.{Solid, trim-Solid}

unfoldable pub hex_digit : ℕ → Option ℕ
hex_digit c =
    if leb b'0' c && leb c b'9'
    then some (c - b'0')
    else if leb b'a' c && leb c b'f'
    then some (c - b'a' + 10)
    else if leb b'A' c && leb c b'F'
    then some (c - b'A' + 10)
    else none

abbrev pair_digits : Option ℕ → Option ℕ → Option ℕ
pair_digits none o = none
pair_digits (some h) none = none
pair_digits (some h) (some l) = some (h * 16 + l)

-- `u8::from_str_radix(s, 16)` on a text of at most two bytes: a sign `+` is allowed.
unfoldable pub from_str_radix_16 : Str → Option ℕ
unfolding hex_digit
from_str_radix_16 [] = none
from_str_radix_16 (c ∷ []) = hex_digit c
from_str_radix_16 (c ∷ d ∷ []) =
    if c == b'+' then hex_digit d else pair_digits (hex_digit c) (hex_digit d)
from_str_radix_16 (c ∷ d ∷ e ∷ s) = none

abbrev cons_byte : Option ℕ → Option (List ℕ) → Option (List ℕ)
cons_byte none o = none
cons_byte (some b) none = none
cons_byte (some b) (some bs) = some (b ∷ bs)

-- The first bytes, each from a slice of two bytes; `none` where a slice ends inside a character.
unfoldable pub hex_pairs : ℕ → Str → Option (List ℕ)
unfolding from_str_radix_16
hex_pairs zero s = some []
hex_pairs (suc n) s = elim (split_at 2 s) [
  | none ↦ none
  | some (a, rest) ↦ cons_byte (from_str_radix_16 a) (hex_pairs n rest)
]

unfoldable pub hex_to_vec : Str → Option (List ℕ)
hex_to_vec s = let t = trim s in if not (len t % 2 == 0) then none else hex_pairs (len t / 2) t

unfoldable pub hex_to_32 : Str → Option (List ℕ)
hex_to_32 s = let t = trim s in if not (len t == 64) then none else hex_pairs 32 t

unfoldable pub lower_digit : ℕ → ℕ
lower_digit n = if ltb n 10 then b'0' + n else b'a' + (n - 10)

-- `format!("{b:02x}")` of each byte
unfoldable pub hex_lower : List ℕ → Str
unfolding lower_digit
hex_lower [] = []
hex_lower (b ∷ bs) = lower_digit (b / 16) ∷ lower_digit (b % 16) ∷ hex_lower bs

abbrev pub AreBytes : List ℕ → Type 0
AreBytes bs = all (λ b. ltb b 256) bs ≡ true

hex_digit-lower_digit : (n : ℕ) → n < 16 → hex_digit (lower_digit n) ≡ some n
unfolding hex_digit lower_digit
hex_digit-lower_digit n h = ground arith

lower_digit-ascii : (n : ℕ) → n < 16 → ltb (lower_digit n) 128 ≡ true
unfolding lower_digit
lower_digit-ascii n h = ground arith

lower_digit_not_plus : (n : ℕ) → n < 16 → (lower_digit n == b'+') ≡ false
unfolding lower_digit
lower_digit_not_plus n h = ground arith

lower_digit_solid : (n : ℕ) → n < 16 → is_whitespace (lower_digit n) ≡ false
unfolding lower_digit is_whitespace
lower_digit_solid n h = ground arith

hex_lower-Solid : (bs : List ℕ) → AreBytes bs → Solid (hex_lower bs)
unfolding hex_lower
hex_lower-Solid [] h = refl
hex_lower-Solid (b ∷ bs) h =
    ground (arith, lower_digit_solid (b / 16), lower_digit_solid (b % 16), hex_lower-Solid bs)

len-hex_lower : (bs : List ℕ) → AreBytes bs → len (hex_lower bs) ≡ 2 * length bs
unfolding hex_lower
len-hex_lower [] h = refl
len-hex_lower (b ∷ bs) h =
    ground (arith, lower_digit-ascii (b / 16), lower_digit-ascii (b % 16), len-hex_lower bs)

hex_pairs-hex_lower : (bs : List ℕ) → AreBytes bs → hex_pairs (length bs) (hex_lower bs) ≡ some bs
unfolding hex_pairs hex_lower split_at from_str_radix_16
hex_pairs-hex_lower [] h = refl
hex_pairs-hex_lower (b ∷ bs) h = ground (
  arith,
  lower_digit-ascii (b / 16),
  lower_digit-ascii (b % 16),
  lower_digit_not_plus (b / 16),
  hex_digit-lower_digit (b / 16),
  hex_digit-lower_digit (b % 16),
  hex_pairs-hex_lower bs,
)

-- What hex_lower writes of bytes, hex_to_vec reads back, and so does hex_to_32 if there are 32.
pub hex_to_vec-hex_lower :
    (bs : List ℕ)
    → AreBytes bs
    → (hex_to_vec (hex_lower bs) ≡ some bs) × (length bs ≡ 32 → hex_to_32 (hex_lower bs) ≡ some bs)
unfolding hex_to_vec hex_to_32
hex_to_vec-hex_lower bs h = (
  ground (
    arith,
    trim-Solid (hex_lower bs) (hex_lower-Solid bs h),
    len-hex_lower bs,
    hex_pairs-hex_lower bs,
  ),
  λ e. ground (
    arith,
    trim-Solid (hex_lower bs) (hex_lower-Solid bs h),
    len-hex_lower bs,
    hex_pairs-hex_lower bs,
  ),
)

lower_digit_inj :
    (m n : ℕ)
    → m < 16
    → n < 16
    → (to_ascii_lower (lower_digit m) == to_ascii_lower (lower_digit n)) ≡ true
    → m ≡ n
unfolding lower_digit
lower_digit_inj m n h k e = ground arith

-- A checksum that is compared without regard to case still determines the bytes.
pub hex_lower_inj :
    (a b : List ℕ)
    → AreBytes a
    → AreBytes b
    → eq_ignore_ascii_case (hex_lower a) (hex_lower b) ≡ true
    → a ≡ b
unfolding hex_lower eq_ignore_ascii_case
hex_lower_inj [] [] h k e = refl
hex_lower_inj [] (b ∷ bs) h k e = ground arith
hex_lower_inj (a ∷ xs) [] h k e = ground arith
hex_lower_inj (a ∷ xs) (b ∷ bs) h k e = ground (
  arith,
  lower_digit_inj (a / 16) (b / 16),
  lower_digit_inj (a % 16) (b % 16),
  hex_lower_inj xs bs,
)
