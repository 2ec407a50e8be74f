-- ===== src/Updater/Version.antt =====
-- `is_newer`: dotted versions, part by part.
pub mod Order
use privacy_lodge.Prelude.{
  ℕ, zero, suc, ◌+◌, ◌-◌, ◌*◌, ◌^◌, ◌≡◌, refl, Bool, true, false, not, ◌&&◌, ◌||◌, Option, none,
  some, List, [], ◌∷◌, ◌++◌, map, ltb, leb, ◌==◌, if◌then◌else◌,
}
use privacy_lodge.Text.{Str, codes, trim, is_whitespace}

unfoldable pub is_separator : ℕ → Bool
is_separator c = c == b'.' || (c == b'-' || c == b'+')

-- `trim_start_matches('v')`
unfoldable pub drop_vs : Str → Str
drop_vs [] = []
drop_vs (c ∷ s) = if c == b'v' then drop_vs s else c ∷ s

abbrev pub cons_head : ℕ → List Str → List Str
cons_head c [] = (c ∷ []) ∷ []
cons_head c (p ∷ ps) = (c ∷ p) ∷ ps

-- `split(['.', '-', '+'])`
unfoldable pub split_parts : Str → List Str
unfolding is_separator
split_parts [] = [] ∷ []
split_parts (c ∷ s) =
    let rest = split_parts s in if is_separator c then [] ∷ rest else cons_head c rest

abbrev pub is_digit : ℕ → Bool
is_digit c = leb b'0' c && leb c b'9'

-- The digits of a number below 2^64, read from the left; anything else is an error.
unfoldable pub digits_from : ℕ → Str → Option ℕ
digits_from n [] = some n
digits_from n (c ∷ s) =
    let next = n * 10 + (c - b'0') in
    let rest = digits_from next s in if is_digit c && ltb next (2 ^ 64) then rest else none

-- `str::parse::<u64>`: a sign `+` is allowed before the digits.
unfoldable pub parse_u64 : Str → Option ℕ
unfolding digits_from
parse_u64 [] = none
parse_u64 (c ∷ []) = digits_from 0 (c ∷ [])
parse_u64 (c ∷ d ∷ s) = if c == b'+' then digits_from 0 (d ∷ s) else digits_from 0 (c ∷ d ∷ s)

abbrev pub or_zero : Option ℕ → ℕ
or_zero none = 0
or_zero (some n) = n

unfoldable pub parts : Str → List ℕ
unfolding drop_vs split_parts parse_u64
parts v = map (λ p. or_zero (parse_u64 p)) (split_parts (drop_vs (trim v)))

-- The loop over the longer of the two, with 0 for a part that is missing.
unfoldable pub newer : List ℕ → List ℕ → Bool
newer [] [] = false
newer (x ∷ a) [] = let rest = newer a [] in if not (x == 0) then ltb 0 x else rest
newer [] (y ∷ b) = let rest = newer [] b in if not (0 == y) then ltb y 0 else rest
newer (x ∷ a) (y ∷ b) = let rest = newer a b in if not (x == y) then ltb y x else rest

unfoldable pub is_newer : Str → Str → Bool
is_newer candidate current = newer (parts candidate) (parts current)
