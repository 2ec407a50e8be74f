-- ===== src/Text/Utf8.antt =====
-- `String::from_utf8_lossy`: decoding UTF-8, with U+FFFD in place of each maximal ill-formed part.
use privacy_lodge.Prelude.{
  ℕ, ◌+◌, ◌-◌, ◌*◌, ◌/◌, ◌%◌, ◌≤◌, ◌<◌, ◌≡◌, refl, Bool, true, not, ◌&&◌, Option, none, some, ap,
  ◌∙◌, Bool-cases, inl, inr, List, [], ◌∷◌, ◌++◌, arith, ltb, leb, ◌==◌, if◌then◌else◌, all,
}
use privacy_lodge.Text.{Str, bytes, bytes_of_char, str_eq}

abbrev replacement : ℕ
replacement = 65533

-- Inside a character: the range of the next byte, how many more follow it, and the bits so far.
pub record Partial : Type 0 where
  pub low : ℕ
  pub high : ℕ
  pub more : ℕ
  pub bits : ℕ

pub data State : Type 0 where
  between : State
  within : Partial → State

abbrev expects : ℕ → ℕ → ℕ → ℕ → State
expects low high more bits = within (record { low = low; high = high; more = more; bits = bits })

-- A lead byte outside of every range is ill-formed by itself.
abbrev lead : ℕ → (Str → Str) × State
lead b =
    if ltb b 128
    then (◌∷◌ b, between)
    else if leb 194 b && leb b 223
    then (λ s. s, expects 128 191 0 (b - 192))
    else if b == 224
    then (λ s. s, expects 160 191 1 0)
    else if b == 237
    then (λ s. s, expects 128 159 1 13)
    else if leb 225 b && leb b 239
    then (λ s. s, expects 128 191 1 (b - 224))
    else if b == 240
    then (λ s. s, expects 144 191 2 0)
    else if b == 244
    then (λ s. s, expects 128 143 2 4)
    else if leb 241 b && leb b 243
    then (λ s. s, expects 128 191 2 (b - 240))
    else (◌∷◌ replacement, between)

abbrev followed : Partial → ℕ → (Str → Str) × State
followed p b =
    let bits = p.bits * 64 + (b - 128) in
    if p.more == 0 then (◌∷◌ bits, between) else (λ s. s, expects 128 191 (p.more - 1) bits)

-- A byte that does not fit ends the part before it, and is read anew.
abbrev feed : State → ℕ → (Str → Str) × State
feed between b = lead b
feed (within p) b =
    if leb p.low b && leb b p.high
    then followed p b
    else (let (out, next) = lead b in (λ s. replacement ∷ out s, next))

decode_from : State → List ℕ → Str
decode_from between [] = []
decode_from (within p) [] = replacement ∷ []
decode_from st (b ∷ bs) = let (out, next) = feed st b in out (decode_from next bs)

unfoldable pub from_utf8_lossy : List ℕ → Str
unfolding decode_from
from_utf8_lossy bs = decode_from between bs

decode_ascii : (bs : List ℕ) → all (λ b. ltb b 128) bs ≡ true → decode_from between bs ≡ bs
unfolding decode_from
decode_ascii [] h = refl
decode_ascii (b ∷ bs) h = ground (arith, decode_ascii bs)

-- ASCII bytes read as themselves.
pub from_utf8_lossy-ascii : (bs : List ℕ) → all (λ b. ltb b 128) bs ≡ true → from_utf8_lossy bs ≡ bs
unfolding from_utf8_lossy
from_utf8_lossy-ascii bs h = decode_ascii bs h

-- "é", a lone continuation byte, "€", and a character that is cut short.
decodes :
    from_utf8_lossy (195 ∷ 169 ∷ 191 ∷ 226 ∷ 130 ∷ 172 ∷ 240 ∷ 159 ∷ 65 ∷ [])
    ≡ 233 ∷ 65533 ∷ 8364 ∷ 65533 ∷ 65 ∷ []
unfolding from_utf8_lossy
decodes = refl

-- Unicode scalar values: the code points that are no surrogates.
abbrev pub is_scalar : ℕ → Bool
is_scalar c = ltb c 1114112 && not (leb 55296 c && leb c 57343)

decode_two :
    (c : ℕ) (bs : List ℕ)
    → 128 ≤ c
    → c < 2048
    → decode_from between ((192 + c / 64) ∷ (128 + c % 64) ∷ bs) ≡ c ∷ decode_from between bs
unfolding decode_from
decode_two c bs h k = ground arith

decode_three :
    (c : ℕ) (bs : List ℕ)
    → 2048 ≤ c
    → c < 65536
    → is_scalar c ≡ true
    → decode_from between ((224 + c / 4096) ∷ (128 + c / 64 % 64) ∷ (128 + c % 64) ∷ bs)
      ≡ c ∷ decode_from between bs
unfolding decode_from
decode_three c bs h k s = ground arith

decode_four :
    (c : ℕ) (bs : List ℕ)
    → 65536 ≤ c
    → is_scalar c ≡ true
    → decode_from between
        ((240 + c / 262144) ∷ (128 + c / 4096 % 64) ∷ (128 + c / 64 % 64) ∷ (128 + c % 64) ∷ bs)
      ≡ c ∷ decode_from between bs
unfolding decode_from
decode_four c bs h s = ground arith

decode_char :
    (c : ℕ) (bs : List ℕ)
    → is_scalar c ≡ true
    → decode_from between (bytes_of_char c ++ bs) ≡ c ∷ decode_from between bs
unfolding bytes_of_char decode_from
decode_char c bs s = elim (Bool-cases (ltb c 128)) [
  | inl a ↦ ground (arith, a)
  | inr a ↦ elim (Bool-cases (ltb c 2048)) [
    | inl b ↦ rw (a, b) (decode_two c bs (ground arith) (ground arith))
    | inr b ↦ elim (Bool-cases (ltb c 65536)) [
      | inl d ↦ rw (a, b, d) (decode_three c bs (ground arith) (ground arith) s)
      | inr d ↦ rw (a, b, d) (decode_four c bs (ground arith) s)
    ]
  ]
]

-- The bytes of a text of scalar values read as that text.
pub from_utf8_lossy-bytes : (s : Str) → all is_scalar s ≡ true → from_utf8_lossy (bytes s) ≡ s
unfolding from_utf8_lossy bytes
from_utf8_lossy-bytes [] h = unfold decode_from in refl
from_utf8_lossy-bytes (c ∷ s) h =
    decode_char c (bytes s) (ground arith) ∙ ap (◌∷◌ c) (from_utf8_lossy-bytes s (ground arith))

-- `String::from_utf8`: the text that has exactly these bytes.
unfoldable pub from_utf8 : List ℕ → Option Str
from_utf8 bs = let s = from_utf8_lossy bs in if str_eq (bytes s) bs then some s else none

pub from_utf8-bytes : (s : Str) → all is_scalar s ≡ true → from_utf8 (bytes s) ≡ some s
unfolding from_utf8
from_utf8-bytes s h = rw (from_utf8_lossy-bytes s h, eq_refl (bytes s))
  where
    eq_refl : (l : List ℕ) → str_eq l l ≡ true
    eq_refl [] = refl
    eq_refl (a ∷ l) = ground (arith, eq_refl l)
