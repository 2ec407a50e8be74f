-- ===== src/SetupForm/Tokens.antt =====
-- How a form is sent, byte by byte, and that `urldecode` reads it.
use privacy_lodge.Prelude.{
  ℕ, ◌+◌, ◌-◌, ◌*◌, ◌/◌, ◌%◌, ◌<◌, ◌≡◌, refl, ap, Bool, true, false, not, ◌&&◌, ◌||◌, some, List,
  [], ◌∷◌, ltb, ◌==◌, if◌then◌else◌, arith, all, any,
}
use privacy_lodge.Text.{Str, bytes}
use privacy_lodge.Text.Laws.{bytes-ascii}
use privacy_lodge.Text.Utf8.{is_scalar, from_utf8_lossy-ascii}
use privacy_lodge.SetupForm.{hex_val, decode_bytes, urldecode, plain}

-- How one byte is sent: as it is, a space as a plus, or escaped with two digits, each in upper or
-- in lower case.
pub data Token : Type 0 where
  literal : ℕ → Token
  plus : Token
  escape : Bool → Bool → ℕ → Token

abbrev pub digit : Bool → ℕ → ℕ
digit upper n = if ltb n 10 then b'0' + n else if upper then b'A' + (n - 10) else b'a' + (n - 10)

abbrev pub printed : List Token → Str
printed [] = []
printed (literal c ∷ ts) = c ∷ printed ts
printed (plus ∷ ts) = b'+' ∷ printed ts
printed (escape u v b ∷ ts) = b'%' ∷ digit u (b / 16) ∷ digit v (b % 16) ∷ printed ts

abbrev pub sent : List Token → List ℕ
sent [] = []
sent (literal c ∷ ts) = c ∷ sent ts
sent (plus ∷ ts) = b' ' ∷ sent ts
sent (escape u v b ∷ ts) = b ∷ sent ts

-- The characters that may stand for themselves: ASCII without `%`, `+`, `&` and `=`.
abbrev pub is_free : ℕ → Bool
is_free c = ltb c 128 && not (c == b'%' || (c == b'+' || (c == b'&' || c == b'=')))

abbrev pub is_token : Token → Bool
is_token (literal c) = is_free c
is_token plus = true
is_token (escape u v b) = ltb b 256

-- What is asked of the encoding, on Unicode text: each byte of UTF-8 is sent in one of the three
-- ways.
abbrev pub IsEncoding : (Str → Str) → Type 0
IsEncoding encode =
    (s : Str)
    → all is_scalar s ≡ true
    → (ts : List Token) × (all is_token ts ≡ true) × (encode s ≡ printed ts) × (bytes s ≡ sent ts)

hex_val-digit : (u : Bool) (n : ℕ) → n < 16 → hex_val (digit u n) ≡ some n
unfolding hex_val
hex_val-digit true n h = ground arith
hex_val-digit false n h = ground arith

decode_bytes-plain :
    (c : ℕ) (s : List ℕ) → (c == b'%') ≡ false → decode_bytes (c ∷ s) ≡ plain c ∷ decode_bytes s
unfolding decode_bytes
decode_bytes-plain c [] h = refl
decode_bytes-plain c (d ∷ []) h = refl
decode_bytes-plain c (d ∷ e ∷ s) h = rw h

decode_bytes-escape :
    (u v : Bool) (b : ℕ) (s : List ℕ)
    → b < 256
    → decode_bytes (b'%' ∷ digit u (b / 16) ∷ digit v (b % 16) ∷ s) ≡ b ∷ decode_bytes s
unfolding decode_bytes
decode_bytes-escape u v b s h =
    rw (hex_val-digit u (b / 16) (omega arith), hex_val-digit v (b % 16) (omega arith))
      (ap (λ c. c ∷ decode_bytes s) (whole b))
  where
    whole : (b : ℕ) → b / 16 * 16 + b % 16 ≡ b
    whole b = omega arith

pub decode_bytes-printed :
    (ts : List Token) → all is_token ts ≡ true → decode_bytes (printed ts) ≡ sent ts
decode_bytes-printed [] h = unfold decode_bytes in refl
decode_bytes-printed (literal c ∷ ts) h =
    ground (arith, decode_bytes-printed ts, decode_bytes-plain c (printed ts))
decode_bytes-printed (plus ∷ ts) h =
    ground (arith, decode_bytes-printed ts, decode_bytes-plain b'+' (printed ts))
decode_bytes-printed (escape u v b ∷ ts) h =
    ground (arith, decode_bytes-printed ts, decode_bytes-escape u v b (printed ts))

digit_free : (u : Bool) (n : ℕ) → n < 16 → is_free (digit u n) ≡ true
digit_free true n h = ground arith
digit_free false n h = ground arith

-- ASCII, and none of the two characters that structure a form.
abbrev is_inside : ℕ → Bool
is_inside c = ltb c 128 && not (c == b'&' || c == b'=')

pub printed_inside : (ts : List Token) → all is_token ts ≡ true → all is_inside (printed ts) ≡ true
printed_inside [] h = refl
printed_inside (literal c ∷ ts) h = ground (arith, printed_inside ts)
printed_inside (plus ∷ ts) h = ground (arith, printed_inside ts)
printed_inside (escape u v b ∷ ts) h =
    ground (arith, printed_inside ts, digit_free u (b / 16), digit_free v (b % 16))

pub inside_ascii : (s : Str) → all is_inside s ≡ true → all (λ c. ltb c 128) s ≡ true
inside_ascii [] h = refl
inside_ascii (c ∷ s) h = ground (arith, inside_ascii s)

pub inside-and : (s : Str) → all is_inside s ≡ true → any (λ c. c == b'&') s ≡ false
inside-and [] h = refl
inside-and (c ∷ s) h = ground (arith, inside-and s)

pub free_inside : (k : Str) → all is_free k ≡ true → all is_inside k ≡ true
free_inside [] h = refl
free_inside (c ∷ k) h = ground (arith, free_inside k)

pub free-equals : (k : Str) → all is_free k ≡ true → any (λ c. c == b'=') k ≡ false
free-equals [] h = refl
free-equals (c ∷ k) h = ground (arith, free-equals k)

decode_bytes-free : (k : Str) → all is_free k ≡ true → decode_bytes k ≡ k
decode_bytes-free [] h = unfold decode_bytes in refl
decode_bytes-free (c ∷ k) h = ground (arith, decode_bytes-free k, decode_bytes-plain c k)

pub urldecode-free : (k : Str) → all is_free k ≡ true → urldecode k ≡ k
unfolding urldecode
urldecode-free k h =
    let ascii = inside_ascii k (free_inside k h) in
    rw (bytes-ascii k ascii, decode_bytes-free k h) (from_utf8_lossy-ascii k ascii)
