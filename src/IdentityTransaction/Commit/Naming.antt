-- ===== src/IdentityTransaction/Commit/Naming.antt =====
-- The journal of a commit is one that recovery accepts.
use privacy_lodge.Prelude.{
  ℕ, zero, suc, ◌+◌, ◌/◌, ◌%◌, ◌<◌, ◌≡◌, refl, ◌∙◌, Bool, true, false, not, ◌&&◌, some, List, [],
  ◌∷◌, ◌++◌, map, all, any, ltb, length, arith, ok, ==_refl,
}
use privacy_lodge.Text.{Str, str_eq, len, bytes, strip_prefix}
use privacy_lodge.Text.Laws.{bytes-ascii, len-ascii}
use privacy_lodge.IdentityTransaction.{
  Codec, hex_digits, hex_lower_digit, stage_prefix, is_hexdigit, allowed,
}
use privacy_lodge.IdentityTransaction.Recover.{check_journal, read_journal, is_bad_suffix}
use privacy_lodge.IdentityTransaction.Commit.{stage_name, journal_of}

strip_prefix-append : (p s : Str) → strip_prefix p (p ++ s) ≡ some s
unfolding strip_prefix
strip_prefix-append [] s = refl
strip_prefix-append (c ∷ p) s = rw (==_refl c) (strip_prefix-append p s)

digit_lem :
    (v : ℕ) → v < 16 → (is_hexdigit (hex_lower_digit v) && ltb (hex_lower_digit v) 128) ≡ true
digit_lem v h = ground (arith, h)

below : (v : ℕ) → v % 16 < 16
below v = omega arith

hexdigits :
    (n v : ℕ) (s : Str) → all is_hexdigit s ≡ true → all is_hexdigit (hex_digits n v s) ≡ true
unfolding hex_digits
hexdigits zero v s h = h
hexdigits (suc n) v s h =
    hexdigits n (v / 16) (hex_lower_digit (v % 16) ∷ s)
      (ground (arith, h, digit_lem (v % 16) (below v)))

ascii_digits :
    (n v : ℕ) (s : Str)
    → all (λ c. ltb c 128) s ≡ true
    → all (λ c. ltb c 128) (hex_digits n v s) ≡ true
unfolding hex_digits
ascii_digits zero v s h = h
ascii_digits (suc n) v s h =
    ascii_digits n (v / 16) (hex_lower_digit (v % 16) ∷ s)
      (ground (arith, h, digit_lem (v % 16) (below v)))

length-hex_digits : (n v : ℕ) (s : Str) → length (hex_digits n v s) ≡ n + length s
unfolding hex_digits
length-hex_digits zero v s = omega arith
length-hex_digits (suc n) v s =
    length-hex_digits n (v / 16) (hex_lower_digit (v % 16) ∷ s) ∙ omega arith

abbrev pub is_listed : Str × List ℕ → Bool
is_listed f = any (str_eq f.0) allowed

names_listed :
    (files : List (Str × List ℕ))
    → all is_listed files ≡ true
    → any (λ n. not (any (str_eq n) allowed)) (map (λ f. f.0) files) ≡ false
names_listed [] h = refl
names_listed (f ∷ files) h = ground (arith, h, names_listed files)

length-names : (files : List (Str × List ℕ)) → length (map (λ f. f.0) files) ≡ length files
length-names [] = refl
length-names (f ∷ files) = omega (arith, length-names files)

good_suffix :
    (st digits : Str) (files : List (Str × List ℕ)) (committed : Bool)
    → len digits ≡ 32
    → all is_hexdigit (bytes digits) ≡ true
    → ltb 6 (length files) ≡ false
    → all is_listed files ≡ true
    → is_bad_suffix (journal_of st files committed) digits ≡ false
good_suffix st digits files committed l h few listed =
    ground (arith, l, h, few, length-names files, names_listed files listed)

len-digits : (random : ℕ) → len (hex_digits 32 random []) ≡ 32
len-digits random =
    len-ascii (hex_digits 32 random []) (ascii_digits 32 random [] refl)
    ∙ (length-hex_digits 32 random [] ∙ omega arith)

hexdigits-bytes : (random : ℕ) → all is_hexdigit (bytes (hex_digits 32 random [])) ≡ true
hexdigits-bytes random =
    rw (bytes-ascii (hex_digits 32 random []) (ascii_digits 32 random [] refl))
      (hexdigits 32 random [] refl)

pub read_journal-journal_of :
    (c : Codec) (random : ℕ) (files : List (Str × List ℕ)) (committed : Bool) (b : List ℕ)
    → ltb 6 (length files) ≡ false
    → all is_listed files ≡ true
    → c.to_vec (journal_of (stage_name random) files committed) ≡ some b
    → read_journal c b ≡ ok (journal_of (stage_name random) files committed)
unfolding read_journal check_journal stage_name
read_journal-journal_of c random files committed b few listed e =
    let digits = hex_digits 32 random [] in
    rw
      (
        c.from_slice-to_vec (journal_of (stage_prefix ++ digits) files committed) b e,
        strip_prefix-append stage_prefix digits,
      )
      (ground (
        arith,
        good_suffix (stage_prefix ++ digits) digits files committed (len-digits random)
            (hexdigits-bytes random) few listed,
      ))
