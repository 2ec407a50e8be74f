-- ===== src/Updater/Version/Order.antt =====
-- The order of versions, and a version that is no number but counts as newer.
use privacy_lodge.Prelude.{
  ℕ, ◌≡◌, refl, Bool, true, false, not, ◌||◌, none, List, [], ◌∷◌, ◌++◌, map, arith, ◌==◌, any,
  if◌then◌else◌,
}
use privacy_lodge.Text.{Str, trim, trim_end, is_whitespace}
use privacy_lodge.Text.Laws.{trim_end-append, trim_start-cons}
use privacy_lodge.Updater.Version.{
  is_newer, newer, parts, split_parts, is_separator, drop_vs, parse_u64, digits_from, or_zero,
}

newer_asym : (a b : List ℕ) → newer a b ≡ true → newer b a ≡ false
unfolding newer
newer_asym [] [] h = refl
newer_asym [] (y ∷ b) h = ground (arith, newer_asym [] b)
newer_asym (x ∷ a) [] h = ground (arith, newer_asym a [])
newer_asym (x ∷ a) (y ∷ b) h = ground (arith, newer_asym a b)

newer_trans : (a b c : List ℕ) → newer a b ≡ true → newer b c ≡ true → newer a c ≡ true
unfolding newer
newer_trans [] [] c h k = ground arith
newer_trans [] (y ∷ b) [] h k = ground (arith, newer_trans [] b [])
newer_trans [] (y ∷ b) (z ∷ c) h k = ground (arith, newer_trans [] b c)
newer_trans (x ∷ a) [] [] h k = ground arith
newer_trans (x ∷ a) [] (z ∷ c) h k = ground (arith, newer_trans a [] c)
newer_trans (x ∷ a) (y ∷ b) [] h k = ground (arith, newer_trans a b [])
newer_trans (x ∷ a) (y ∷ b) (z ∷ c) h k = ground (arith, newer_trans a b c)

-- Part by part the same, where missing parts are 0.
abbrev pub same_parts : List ℕ → List ℕ → Bool
same_parts [] [] = true
same_parts (x ∷ a) [] = if x == 0 then same_parts a [] else false
same_parts [] (y ∷ b) = if y == 0 then same_parts [] b else false
same_parts (x ∷ a) (y ∷ b) = if x == y then same_parts a b else false

newer_total : (a b : List ℕ) → (newer a b || newer b a) ≡ not (same_parts a b)
unfolding newer
newer_total [] [] = refl
newer_total [] (y ∷ b) = ground (arith, newer_total [] b)
newer_total (x ∷ a) [] = ground (arith, newer_total a [])
newer_total (x ∷ a) (y ∷ b) = ground (arith, newer_total a b)

-- "Newer" is a strict order on versions: never both ways, transitive, and two versions that are not
-- ordered have the same parts, up to zeros at the end.
pub is_newer_order :
    (u v w : Str)
    → (is_newer u v ≡ true → is_newer v u ≡ false)
      × (is_newer u v ≡ true → is_newer v w ≡ true → is_newer u w ≡ true)
      × ((is_newer u v || is_newer v u) ≡ not (same_parts (parts u) (parts v)))
unfolding is_newer
is_newer_order u v w = (
  newer_asym (parts u) (parts v),
  newer_trans (parts u) (parts v) (parts w),
  newer_total (parts u) (parts v),
)

-- No separator in the text.
abbrev pub Whole : Str → Type 0
Whole s = any is_separator s ≡ false

split_parts-append : (a s : Str) → Whole a → split_parts (a ++ b'.' ∷ s) ≡ a ∷ split_parts s
unfolding split_parts is_separator
split_parts-append [] s h = refl
split_parts-append (c ∷ a) s h = ground (arith, split_parts-append a s)

trim-dotted :
    (c : ℕ) (a s : Str)
    → is_whitespace c ≡ false
    → trim (c ∷ a ++ b'.' ∷ s) ≡ c ∷ a ++ b'.' ∷ trim_end s
unfolding trim
trim-dotted c a s h =
    rw (trim_start-cons c (a ++ b'.' ∷ s) h)
      (trim_end-append (c ∷ a) b'.' s (unfold is_whitespace in refl))

parts-dotted :
    (c : ℕ) (a s : Str)
    → is_whitespace c ≡ false
    → (c == b'v') ≡ false
    → Whole (c ∷ a)
    → parts (c ∷ a ++ b'.' ∷ s)
      ≡ or_zero (parse_u64 (c ∷ a)) ∷ map (λ p. or_zero (parse_u64 p)) (split_parts (trim_end s))
unfolding parts drop_vs
parts-dotted c a s h k w = rw (trim-dotted c a s h, k, split_parts-append (c ∷ a) (trim_end s) w)

-- A first part that is no number, and does not begin with white space or v, counts as 0, so that a
-- version with it is newer than any that the version with 0 in its place is newer than.
pub is_newer-malformed :
    (c : ℕ) (a s v : Str)
    → is_whitespace c ≡ false
    → (c == b'v') ≡ false
    → Whole (c ∷ a)
    → parse_u64 (c ∷ a) ≡ none
    → is_newer (c ∷ a ++ b'.' ∷ s) v ≡ is_newer (b'0' ∷ b'.' ∷ s) v
unfolding is_newer
is_newer-malformed c a s v h k w n =
    rw
      (
        parts-dotted c a s h k w,
        n,
        parts-dotted b'0' [] s (unfold is_whitespace in refl) refl (unfold is_separator in refl),
      )
      (unfold parse_u64 digits_from in refl)
