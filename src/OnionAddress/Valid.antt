-- ===== src/OnionAddress/Valid.antt =====
-- The address of every key is one that pairing accepts.
use privacy_lodge.Prelude.{
  ℕ, zero, suc, ◌+◌, ◌-◌, ◌*◌, ◌/◌, ◌%◌, ◌^◌, ◌≤◌, ◌<◌, ◌≡◌, refl, true, List, [], ◌∷◌, ◌++◌, take,
  arith, all, length, length-append, all-append,
}
use privacy_lodge.Pairing.{is_valid_onion, is_base32}
use privacy_lodge.Pairing.Onion.{is_valid_onion_iff}
use privacy_lodge.OnionAddress.{letter, emit, shifted, encode_from, checksum, onion}

letter-is_base32 : (i : ℕ) → i < 32 → is_base32 (letter i) ≡ true
unfolding letter is_base32
letter-is_base32 i h = ground arith

-- Enough fuel: a letter for each five bits, and what is left is less than five bits.
emit_count :
    (fuel accumulator bits : ℕ)
    → bits ≤ fuel
    → (length (emit fuel accumulator bits).0 ≡ bits / 5)
      × ((emit fuel accumulator bits).1 ≡ bits % 5)
unfolding emit
emit_count zero accumulator bits h = (omega arith, omega arith)
emit_count (suc fuel) accumulator bits h = ground (arith, emit_count fuel accumulator (bits - 5))

emit-is_base32 : (fuel accumulator bits : ℕ) → all is_base32 (emit fuel accumulator bits).0 ≡ true
unfolding emit
emit-is_base32 zero accumulator bits = refl
emit-is_base32 (suc fuel) accumulator bits = ground (
  arith,
  emit-is_base32 fuel accumulator (bits - 5),
  letter-is_base32 (accumulator / 2 ^ (bits - 5) % 32),
)

length-encode_from :
    (accumulator bits : ℕ) (bytes : List ℕ)
    → bits < 5
    → length (encode_from accumulator bits bytes) ≡ (bits + 8 * length bytes) / 5
unfolding encode_from
length-encode_from accumulator bits [] h = omega arith
length-encode_from accumulator bits (byte ∷ bytes) h =
    let next = shifted accumulator byte in
    let count = emit_count (bits + 8) next (bits + 8) (omega arith) in
    let left = (emit (bits + 8) next (bits + 8)).1 in
    omega (
      arith,
      length-append (emit (bits + 8) next (bits + 8)).0 (encode_from next left bytes),
      count.0,
      count.1,
      length-encode_from next left bytes (omega (arith, count.1)),
    )

encode_from-is_base32 :
    (accumulator bits : ℕ) (bytes : List ℕ)
    → all is_base32 (encode_from accumulator bits bytes) ≡ true
unfolding encode_from
encode_from-is_base32 accumulator bits [] = refl
encode_from-is_base32 accumulator bits (byte ∷ bytes) = rw (
  all-append is_base32 (emit (bits + 8) (shifted accumulator byte) (bits + 8)).0 (
      encode_from (shifted accumulator byte)
        (emit (bits + 8) (shifted accumulator byte) (bits + 8)).1 bytes),
  emit-is_base32 (bits + 8) (shifted accumulator byte) (bits + 8),
  encode_from-is_base32 (shifted accumulator byte)
      (emit (bits + 8) (shifted accumulator byte) (bits + 8)).1 bytes,
)

-- 35 bytes are 56 letters.
label_length :
    (public check : List ℕ)
    → length public ≡ 32
    → length check ≡ 2
    → length (encode_from 0 0 (public ++ check ++ 3 ∷ [])) ≡ 56
label_length public check h k = omega (
  arith,
  length-encode_from 0 0 (public ++ check ++ 3 ∷ []) (omega arith),
  length-append (public ++ check) (3 ∷ []),
  length-append public check,
)

length-take-two : (bs : List ℕ) → 2 ≤ length bs → length (take 2 bs) ≡ 2
length-take-two [] h = absurd (omega arith)
length-take-two (a ∷ []) h = absurd (omega arith)
length-take-two (a ∷ b ∷ bs) h = refl

-- The address of a public key of 32 bytes is one that pairing accepts, for any digest of two
-- bytes or more.
pub is_valid_onion-onion :
    (sha3_256 : List ℕ → List ℕ) (public : List ℕ)
    → ((bs : List ℕ) → 2 ≤ length (sha3_256 bs))
    → length public ≡ 32
    → is_valid_onion (onion sha3_256 public) ≡ true
unfolding onion
is_valid_onion-onion sha3_256 public d h =
    let check = take 2 (checksum sha3_256 public) in
    (is_valid_onion_iff (onion sha3_256 public)).1 (
      encode_from 0 0 (public ++ check ++ 3 ∷ []),
      refl,
      label_length public check h (length-take-two (checksum sha3_256 public) (d _)),
      encode_from-is_base32 0 0 (public ++ check ++ 3 ∷ []),
    )
