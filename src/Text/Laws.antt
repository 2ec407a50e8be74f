-- ===== src/Text/Laws.antt =====
-- Laws of the text operations.
use privacy_lodge.Prelude.{
  ℕ, zero, suc, ◌≤◌, ◌∙◌, take, drop, ◌≡◌, refl, ap, true, false, not, some, [], ◌∷◌, ◌++◌, arith,
  ltb, ◌==◌, ◌↔◌, all, any, length, length-append, ==_refl, Bool-cases, inl, inr,
}
use privacy_lodge.Text.{
  is_empty, Str, str_eq, is_whitespace, trim_start, trim_end, trim, split_once, strip_suffix, len,
  bytes, eq_ignore_ascii_case, split_at,
}

pub str_eq_sound : (s t : Str) → str_eq s t ≡ true → s ≡ t
str_eq_sound [] [] h = refl
str_eq_sound [] (b ∷ t) h = ground arith
str_eq_sound (a ∷ s) [] h = ground arith
str_eq_sound (a ∷ s) (b ∷ t) h = ground (arith, str_eq_sound s t)

pub str_eq_refl : (s : Str) → str_eq s s ≡ true
str_eq_refl [] = refl
str_eq_refl (a ∷ s) = ground (arith, str_eq_refl s)

pub str_eq_iff : (s t : Str) → (str_eq s t ≡ true) ↔ (s ≡ t)
str_eq_iff s t = (str_eq_sound s t, λ e. cc (str_eq_refl s, ap (str_eq s) e))

-- No white space in the text.
abbrev pub Solid : Str → Type 0
Solid s = all (λ c. not (is_whitespace c)) s ≡ true

pub trim_start-Solid : (s : Str) → Solid s → trim_start s ≡ s
unfolding trim_start
trim_start-Solid [] h = refl
trim_start-Solid (c ∷ s) h = ground arith

pub trim_end-Solid : (s : Str) → Solid s → trim_end s ≡ s
unfolding trim_end
trim_end-Solid [] h = refl
trim_end-Solid (c ∷ []) h = ground arith
trim_end-Solid (c ∷ d ∷ s) h = rw (trim_end-Solid (d ∷ s) (ground arith), trim_end)

pub trim-Solid : (s : Str) → Solid s → trim s ≡ s
unfolding trim
trim-Solid s h = rw (trim_start-Solid s h) (trim_end-Solid s h)

-- The first separator splits, whatever stands behind it.
pub split_once-append :
    (c : ℕ) (a b : Str) → any (λ d. d == c) a ≡ false → split_once c (a ++ c ∷ b) ≡ some (a, b)
unfolding split_once
split_once-append c [] b h = ground arith
split_once-append c (d ∷ a) b h = ground (arith, split_once-append c a b)

longer_ne : (c : ℕ) (s p : Str) → str_eq (c ∷ s ++ p) p ≡ false
longer_ne c s p = elim (Bool-cases (str_eq (c ∷ s ++ p) p)) [
  | inl h ↦ absurd (omega (arith, ap length (str_eq_sound (c ∷ s ++ p) p h), length-append s p))
  | inr h ↦ h
]

pub strip_suffix-append : (p s : Str) → strip_suffix p (s ++ p) ≡ some s
unfolding strip_suffix
strip_suffix-append [] [] = refl
strip_suffix-append (c ∷ p) [] = rw (str_eq_refl p, ==_refl c)
strip_suffix-append p (c ∷ s) = rw (longer_ne c s p, strip_suffix-append p s)

pub strip_suffix_sound : (p s t : Str) → strip_suffix p s ≡ some t → s ≡ t ++ p
unfolding strip_suffix
strip_suffix_sound p [] t h = ground (arith, str_eq_sound [] p)
strip_suffix_sound p (c ∷ s) [] h = ground (arith, str_eq_sound (c ∷ s) p)
strip_suffix_sound p (c ∷ s) (d ∷ t) h = ground (arith, strip_suffix_sound p s t)

-- `str::bytes` and `str::len` of an ASCII text.
pub bytes-ascii : (s : Str) → all (λ c. ltb c 128) s ≡ true → bytes s ≡ s
unfolding bytes
bytes-ascii [] h = refl
bytes-ascii (c ∷ s) h = ground (arith, bytes-ascii s)

pub len-ascii : (s : Str) → all (λ c. ltb c 128) s ≡ true → len s ≡ length s
len-ascii [] h = refl
len-ascii (c ∷ s) h = ground (arith, len-ascii s)

-- Behind a character that is no white space, `trim_end` reaches no further than that character.
pub trim_end-append :
    (s : Str) (c : ℕ) (t : Str)
    → is_whitespace c ≡ false
    → trim_end (s ++ c ∷ t) ≡ s ++ c ∷ trim_end t
unfolding trim_end
trim_end-append [] c t h = ground arith
trim_end-append (d ∷ []) c t h = rw (trim_end-append [] c t h)
trim_end-append (d ∷ e ∷ s) c t h = rw (trim_end-append (e ∷ s) c t h)

trim_end_step : (c : ℕ) (s t : Str) → trim_end s ≡ t → is_empty t ≡ false → trim_end (c ∷ s) ≡ c ∷ t
unfolding trim_end
trim_end_step c s [] e h = cc
trim_end_step c s (d ∷ t) e h = rw e

is_empty-append : (s t : Str) → is_empty t ≡ false → is_empty (s ++ t) ≡ false
is_empty-append [] t h = h
is_empty-append (c ∷ s) t h = refl

-- White space at the end is looked for in the last part only, if that is not blank.
pub trim_end-behind :
    (s t : Str) → is_empty (trim_end t) ≡ false → trim_end (s ++ t) ≡ s ++ trim_end t
trim_end-behind [] t h = refl
trim_end-behind (c ∷ s) t h =
    trim_end_step c (s ++ t) (s ++ trim_end t) (trim_end-behind s t h)
      (is_empty-append s (trim_end t) h)

pub trim_start-blank :
    (pad s : Str) → all is_whitespace pad ≡ true → trim_start (pad ++ s) ≡ trim_start s
unfolding trim_start
trim_start-blank [] s h = refl
trim_start-blank (c ∷ pad) s h = ground (arith, trim_start-blank pad s)

pub trim_start-cons : (c : ℕ) (s : Str) → is_whitespace c ≡ false → trim_start (c ∷ s) ≡ c ∷ s
unfolding trim_start
trim_start-cons c s h = rw h

-- A text between two characters that are no white space is trimmed already.
pub trim-enclosed :
    (c d : ℕ) (s : Str)
    → is_whitespace c ≡ false
    → is_whitespace d ≡ false
    → trim (c ∷ s ++ d ∷ []) ≡ c ∷ s ++ d ∷ []
unfolding trim
trim-enclosed c d s hc hd =
    rw (trim_start-cons c (s ++ d ∷ []) hc)
      (trim_end-append (c ∷ s) d [] hd ∙ (unfold trim_end in refl))

pub eq_ignore_ascii_case_refl : (s : Str) → eq_ignore_ascii_case s s ≡ true
unfolding eq_ignore_ascii_case
eq_ignore_ascii_case_refl [] = refl
eq_ignore_ascii_case_refl (a ∷ s) = ground (arith, eq_ignore_ascii_case_refl s)

-- An ASCII text is sliced everywhere.
pub split_at-ascii :
    (n : ℕ) (s : Str)
    → all (λ c. ltb c 128) s ≡ true
    → n ≤ len s
    → split_at n s ≡ some (take n s, drop n s)
unfolding split_at
split_at-ascii zero s h k = refl
split_at-ascii (suc n) [] h k = absurd (omega arith)
split_at-ascii (suc n) (c ∷ s) h k = ground (arith, split_at-ascii n s)
