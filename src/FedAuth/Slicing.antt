-- ===== src/FedAuth/Slicing.antt =====
-- The slice `auth[..8]` of `extract_origin`: harmless on ASCII, a panic inside a character.
use privacy_lodge.Prelude.{
  ℕ, suc, ◌+◌, ◌≤◌, ◌≡◌, refl, subst, Bool, true, false, not, none, some, [], ◌∷◌, ◌++◌, Option,
  arith, ltb, all, length, ok, err, Bool-cases, inl, inr, take, drop,
}
use privacy_lodge.Text.{
  Str, trim, trim_start, trim_end, split_at, is_whitespace, len, codes, eq_ignore_ascii_case,
}
use privacy_lodge.Text.Laws.{split_at-ascii, trim_start-cons, trim_end-append}
use privacy_lodge.FedAuth.{
  not_char_boundary, extract_origin, origin_of_split, first_origin, split_params,
}

abbrev pub is_ascii : Str → Bool
is_ascii s = all (λ c. ltb c 128) s

is_ascii-trim_start : (s : Str) → is_ascii s ≡ true → is_ascii (trim_start s) ≡ true
unfolding trim_start
is_ascii-trim_start [] h = refl
is_ascii-trim_start (c ∷ s) h = ground (arith, is_ascii-trim_start s)

is_ascii-trim_end : (s : Str) → is_ascii s ≡ true → is_ascii (trim_end s) ≡ true
unfolding trim_end
is_ascii-trim_end [] h = refl
is_ascii-trim_end (c ∷ s) h = ground (arith, is_ascii-trim_end s)

is_ascii-trim : (s : Str) → is_ascii s ≡ true → is_ascii (trim s) ≡ true
unfolding trim
is_ascii-trim s h = is_ascii-trim_end (trim_start s) (is_ascii-trim_start s h)

sliced : (a b : Str) → (o : Option Str) × (origin_of_split (some (a, b)) ≡ ok o)
sliced a b = elim (Bool-cases (not (eq_ignore_ascii_case a (codes "X-Matrix")))) [
  | inl other ↦ (none, rw other)
  | inr matrix ↦ (first_origin (split_params (trim_start b)), rw matrix)
]

-- A header value in ASCII never panics.
pub extract_origin-ascii :
    (auth : Str) → is_ascii auth ≡ true → (o : Option Str) × (extract_origin auth ≡ ok o)
unfolding extract_origin
extract_origin-ascii auth h = elim (Bool-cases (ltb (len (trim auth)) 8)) [
  | inl short ↦ (none, rw short)
  | inr long ↦
      let (o, e) = sliced (take 8 (trim auth)) (drop 8 (trim auth)) in
      let cut : split_at 8 (trim auth) ≡ some (take 8 (trim auth), drop 8 (trim auth)) =
        split_at-ascii 8 (trim auth) (is_ascii-trim auth h) (ground arith) in
      (o, rw (long, cut) e)
]

split_at-inside :
    (a : Str) (c : ℕ) (t : Str)
    → is_ascii a ≡ true
    → 128 ≤ c
    → split_at (suc (length a)) (a ++ c ∷ t) ≡ none
unfolding split_at
split_at-inside [] c t h k = ground arith
split_at-inside (b ∷ a) c t h k = ground (arith, split_at-inside a c t)

long_enough : (a : Str) (c : ℕ) (t : Str) → 128 ≤ c → length a + 2 ≤ len (a ++ c ∷ t)
long_enough [] c t k = ground arith
long_enough (b ∷ a) c t k = ground (arith, long_enough a c t k)

trim-inside :
    (b : ℕ) (a : Str) (c : ℕ) (s : Str)
    → is_whitespace b ≡ false
    → is_whitespace c ≡ false
    → trim (b ∷ a ++ c ∷ s) ≡ b ∷ a ++ c ∷ trim_end s
unfolding trim
trim-inside b a c s hb hc = rw (trim_start-cons b (a ++ c ∷ s) hb) (trim_end-append (b ∷ a) c s hc)

-- Seven ASCII characters and then one of several bytes: the slice ends inside that character, and
-- the task that answers the request panics.
pub extract_origin_panics :
    (b : ℕ) (a : Str) (c : ℕ) (s : Str)
    → is_ascii (b ∷ a) ≡ true
    → length a ≡ 6
    → is_whitespace b ≡ false
    → 128 ≤ c
    → is_whitespace c ≡ false
    → extract_origin (b ∷ a ++ c ∷ s) ≡ err not_char_boundary
unfolding extract_origin
extract_origin_panics b a c s ascii six hb multi hc =
    let cut : split_at 8 (b ∷ a ++ c ∷ trim_end s) ≡ none =
      subst (λ n. split_at n (b ∷ a ++ c ∷ trim_end s) ≡ none) (omega arith)
        (split_at-inside (b ∷ a) c (trim_end s) ascii multi) in
    let long : ltb (len (b ∷ a ++ c ∷ trim_end s)) 8 ≡ false =
      ground (arith, long_enough (b ∷ a) c (trim_end s) multi) in
    rw (trim-inside b a c s hb hc, long, cut)
