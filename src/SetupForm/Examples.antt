-- ===== src/SetupForm/Examples.antt =====
-- Tests for the setup form, and an instance with an encoding like `encodeURIComponent`.
use privacy_lodge.Prelude.{
  ℕ, ◌≡◌, refl, Bool, true, ◌||◌, ◌&&◌, List, [], ◌∷◌, ◌++◌, map, some, leb, ltb, ◌==◌,
  if◌then◌else◌, all, arith,
}
use privacy_lodge.Text.{Str, codes, split_once, bytes, bytes_of_char}
use privacy_lodge.Text.Utf8.{from_utf8_lossy, is_scalar}
use privacy_lodge.SetupForm.{
  parse_form, split_pairs, urldecode, decode_bytes, hex_val, get, insert, collect,
}
use privacy_lodge.SetupForm.Tokens.{Token, literal, escape, printed, sent, is_token, IsEncoding}
use privacy_lodge.SetupForm.RoundTrip.{parse_form-print_form, print_form}

-- Letters, digits and `-_.!~*'()`.
abbrev is_unreserved : ℕ → Bool
is_unreserved c =
    (leb b'0' c && leb c b'9')
    || ((leb b'a' c && leb c b'z')
        || ((leb b'A' c && leb c b'Z')
            || (c == b'-'
                || (c == b'_'
                    || (c == b'.' || (c == b'!' || (c == b'~' || (leb 39 c && leb c 42))))))))

abbrev token_of : ℕ → Token
token_of b = if is_unreserved b then literal b else escape true true b

abbrev encode_component : Str → Str
encode_component s = printed (map token_of (bytes s))

abbrev are_bytes : List ℕ → Bool
are_bytes bs = all (λ b. ltb b 256) bs

are_bytes-of_char :
    (c : ℕ) (bs : List ℕ)
    → is_scalar c ≡ true
    → are_bytes bs ≡ true
    → are_bytes (bytes_of_char c ++ bs) ≡ true
unfolding bytes_of_char
are_bytes-of_char c bs h k = ground arith

are_bytes-bytes : (s : Str) → all is_scalar s ≡ true → are_bytes (bytes s) ≡ true
unfolding bytes
are_bytes-bytes [] h = refl
are_bytes-bytes (c ∷ s) h =
    are_bytes-of_char c (bytes s) (ground arith) (are_bytes-bytes s (ground arith))

tokens : (bs : List ℕ) → are_bytes bs ≡ true → all is_token (map token_of bs) ≡ true
tokens [] h = refl
tokens (b ∷ bs) h = ground (arith, tokens bs)

sent-token_of : (bs : List ℕ) → bs ≡ sent (map token_of bs)
sent-token_of [] = refl
sent-token_of (b ∷ bs) = ground (arith, sent-token_of bs)

encodes_component : IsEncoding encode_component
encodes_component s h =
    (map token_of (bytes s), tokens (bytes s) (are_bytes-bytes s h), refl, sent-token_of (bytes s))

abbrev user : Str × Str
user = (codes "username", codes "adé b")

abbrev pass : Str × Str
pass = (codes "password", codes "100%&=x")

parse_form-print_form_example :
    get (codes "password") (parse_form (print_form encode_component user (pass ∷ [])))
    ≡ some (codes "100%&=x")
parse_form-print_form_example =
    parse_form-print_form encode_component encodes_component user (pass ∷ []) (refl, refl)
      ((refl, refl), tt) (codes "password")

-- A percent sign at the end stands for itself, and the last of two entries is read.
reads_last : get (codes "a") (parse_form (codes "a=1&b&a=2%")) ≡ some (codes "2%")
unfolding get insert collect parse_form split_pairs urldecode decode_bytes hex_val split_once bytes
    from_utf8_lossy
reads_last = refl
