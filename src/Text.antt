-- ===== src/Text.antt =====
-- Rust's `str`: a list of Unicode scalar values, with the operations of the standard library that
-- the program uses. Lengths and slices count bytes of UTF-8, as Rust's do.
pub mod Laws
pub mod Utf8
use Prim.Native.Char.{code}
use privacy_lodge.Prelude.{
  ℕ, zero, suc, ◌+◌, ◌-◌, ◌*◌, ◌/◌, ◌%◌, ◌≤◌, ◌<◌, String, ◌≡◌, refl, Bool, true, false, not, ◌&&◌,
  ◌||◌, Option, none, some, List, [], ◌∷◌, ◌++◌, arith, ltb, leb, ◌==◌, if◌then◌else◌,
}

abbrev pub Str : Type 0
Str = List ℕ

-- A literal of the source.
abbrev pub codes : String → Str
codes String.[] = []
codes (String.◌∷◌ c s) = code c ∷ codes s

-- The length in bytes of one character in UTF-8, and of a text (`str::len`).
abbrev pub len_utf8 : ℕ → ℕ
len_utf8 c = if ltb c 128 then 1 else if ltb c 2048 then 2 else if ltb c 65536 then 3 else 4

abbrev pub len : Str → ℕ
len [] = 0
len (c ∷ s) = len_utf8 c + len s

abbrev pub str_eq : Str → Str → Bool
str_eq [] [] = true
str_eq (a ∷ s) (b ∷ t) = a == b && str_eq s t
str_eq _ _ = false

-- `char::is_whitespace`: Unicode White_Space.
unfoldable pub is_whitespace : ℕ → Bool
is_whitespace c =
    (leb 9 c && leb c 13)
    || (c == 32
        || (c == 133
            || (c == 160
                || (c == 5760
                    || ((leb 8192 c && leb c 8202)
                        || (c == 8232
                            || (c == 8233 || (c == 8239 || (c == 8287 || c == 12288)))))))))

unfoldable pub trim_start : Str → Str
trim_start [] = []
trim_start (c ∷ s) = if is_whitespace c then trim_start s else c ∷ s

-- A character is kept if it is no white space, or if something kept stands behind it.
unfoldable pub trim_end : Str → Str
trim_end [] = []
trim_end (c ∷ s) = elim (trim_end s) [
  | [] ↦ if is_whitespace c then [] else c ∷ []
  | d ∷ t ↦ c ∷ d ∷ t
]

unfoldable pub trim : Str → Str
unfolding trim_start trim_end
trim s = trim_end (trim_start s)

abbrev pub is_empty : Str → Bool
is_empty [] = true
is_empty (c ∷ s) = false

abbrev pub to_ascii_lower : ℕ → ℕ
to_ascii_lower c = if leb b'A' c && leb c b'Z' then c + 32 else c

unfoldable pub eq_ignore_ascii_case : Str → Str → Bool
eq_ignore_ascii_case [] [] = true
eq_ignore_ascii_case (a ∷ s) (b ∷ t) =
    to_ascii_lower a == to_ascii_lower b && eq_ignore_ascii_case s t
eq_ignore_ascii_case _ _ = false

-- `str::split_once(c)`: before and behind the first `c`.
unfoldable pub split_once : ℕ → Str → Option (Str × Str)
split_once c [] = none
split_once c (d ∷ s) =
    if d == c
    then some ([], s)
    else elim (split_once c s) [ none ↦ none | some (a, b) ↦ some (d ∷ a, b) ]

-- `s[..n]` and `s[n..]`. A byte offset inside a character, or past the end, is a panic: `none`.
unfoldable pub split_at : ℕ → Str → Option (Str × Str)
split_at zero s = some ([], s)
split_at (suc n) [] = none
split_at (suc n) (c ∷ s) =
    let rest = split_at (suc n - len_utf8 c) s in
    if ltb (suc n) (len_utf8 c)
    then none
    else elim rest [ none ↦ none | some (a, b) ↦ some (c ∷ a, b) ]

unfoldable pub strip_prefix : Str → Str → Option Str
strip_prefix [] s = some s
strip_prefix (p ∷ ps) [] = none
strip_prefix (p ∷ ps) (c ∷ s) = if p == c then strip_prefix ps s else none

-- `str::strip_suffix`: what stands before the suffix, if the text ends with it.
unfoldable pub strip_suffix : Str → Str → Option Str
strip_suffix p [] = if str_eq [] p then some [] else none
strip_suffix p (c ∷ s) =
    if str_eq (c ∷ s) p
    then some []
    else elim (strip_suffix p s) [ none ↦ none | some t ↦ some (c ∷ t) ]

-- `str::bytes`
unfoldable pub bytes_of_char : ℕ → List ℕ
bytes_of_char c =
    if ltb c 128
    then c ∷ []
    else if ltb c 2048
    then (192 + c / 64) ∷ (128 + c % 64) ∷ []
    else if ltb c 65536
    then (224 + c / 4096) ∷ (128 + c / 64 % 64) ∷ (128 + c % 64) ∷ []
    else (240 + c / 262144) ∷ (128 + c / 4096 % 64) ∷ (128 + c / 64 % 64) ∷ (128 + c % 64) ∷ []

unfoldable pub bytes : Str → List ℕ
unfolding bytes_of_char
bytes [] = []
bytes (c ∷ s) = bytes_of_char c ++ bytes s
