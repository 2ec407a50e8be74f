-- ===== src/FedAuth/Values.antt =====
-- `unquote`: how the value of a parameter is written, and that it is read.
use privacy_lodge.Prelude.{
  ℕ, ◌≡◌, refl, ◌∙◌, Bool, true, false, not, ◌&&◌, ◌||◌, Option, none, some, [], ◌∷◌, ◌++◌,
  append-nil, arith, ◌==◌, any, all,
}
use privacy_lodge.Text.{Str, codes, trim, trim_end, is_empty, is_whitespace}
use privacy_lodge.Text.Laws.{
  trim-enclosed, trim_end-append, trim-Solid, trim_end-Solid, strip_suffix-append, Solid,
}
use privacy_lodge.FedAuth.{unquote, unquote_trimmed}
use privacy_lodge.FedAuth.Params.{scan}

abbrev pub quoted : Str → Str
quoted v = b'"' ∷ v ++ b'"' ∷ []

-- Neither white space, nor a quote, nor a comma.
abbrev pub is_bare : ℕ → Bool
is_bare c = not (is_whitespace c) && not (c == b'"' || c == b',')

-- How a value is written: in quotes, where it may have commas, spaces and `origin=` in it but no
-- quote, or bare.
abbrev pub value : Bool → Str → Str
value true v = quoted v
value false v = v

abbrev pub IsValue : Bool → Str → Type 0
IsValue true v = any (λ c. c == b'"') v ≡ false
IsValue false v = all is_bare v ≡ true

-- What follows a parameter: nothing, or a comma and anything.
abbrev pub ending : Option Str → Str
ending none = []
ending (some rest) = b',' ∷ rest

abbrev pub trimmed : Option Str → Option Str
trimmed none = none
trimmed (some rest) = some (trim_end rest)

scan-quoted : (v : Str) → IsValue true v → scan true (v ++ b'"' ∷ []) ≡ some false
scan-quoted [] h = refl
scan-quoted (c ∷ v) h = ground (arith, scan-quoted v)

pub scan-value : (b : Bool) (v : Str) → IsValue b v → scan false (value b v) ≡ some false
scan-value true v h = scan-quoted v h
scan-value false [] h = refl
scan-value false (c ∷ v) h = ground (arith, scan-value false v)

bare-Solid : (v : Str) → all is_bare v ≡ true → Solid v
bare-Solid [] h = refl
bare-Solid (c ∷ v) h = ground (arith, bare-Solid v)

trim_end-value : (b : Bool) (v : Str) → IsValue b v → trim_end (value b v) ≡ value b v
trim_end-value true v h =
    trim_end-append (b'"' ∷ v) b'"' [] (unfold is_whitespace in refl) ∙ (unfold trim_end in refl)
trim_end-value false v h = trim_end-Solid v (bare-Solid v h)

pub trim_end-ending :
    (b : Bool) (v : Str) (e : Option Str)
    → IsValue b v
    → trim_end (value b v ++ ending e) ≡ value b v ++ ending (trimmed e)
trim_end-ending b v none h = rw (append-nil (value b v)) (trim_end-value b v h)
trim_end-ending b v (some rest) h =
    trim_end-append (value b v) b',' rest (unfold is_whitespace in refl)

pub value_filled : (b : Bool) (v s : Str) → is_empty v ≡ false → is_empty (value b v ++ s) ≡ false
value_filled true v s h = refl
value_filled false [] s h = absurd (ground arith)
value_filled false (c ∷ v) s h = refl

pub unquote-value : (b : Bool) (v : Str) → IsValue b v → unquote (trim (value b v)) ≡ v
unfolding unquote
unquote-value true v h =
    let bare : trim (quoted v) ≡ quoted v =
      trim-enclosed b'"' b'"' v (unfold is_whitespace in refl) (unfold is_whitespace in refl) in
    rw (bare, bare) (rw (strip_suffix-append (codes "\"") v))
unquote-value false v h = let bare = trim-Solid v (bare-Solid v h) in rw (bare, bare) (plain v h)
  where
    plain : (v : Str) → all is_bare v ≡ true → unquote_trimmed v ≡ v
    plain [] h = refl
    plain (c ∷ v) h = ground arith
