-- ===== src/FedAuth/Origin.antt =====
-- `extract_origin`: which parameter decides.
use privacy_lodge.Prelude.{
  ◌≡◌, refl, sym, ap, ◌∙◌, Bool, true, false, Option, none, some, List, [], ◌∷◌, ◌++◌, append_assoc,
  arith, ◌==◌, All, ok, any, all, any-append,
}
use privacy_lodge.Text.{
  Str, codes, trim, trim_start, trim_end, is_empty, is_whitespace, split_once, split_at,
  eq_ignore_ascii_case,
}
use privacy_lodge.Text.Laws.{
  trim_end-append, trim_start-cons, trim-Solid, trim_end-behind, trim_start-blank,
  split_once-append,
}
use privacy_lodge.FedAuth.Values.{
  value, IsValue, ending, trimmed, scan-value, trim_end-ending, value_filled, unquote-value,
}
use privacy_lodge.FedAuth.{first_origin, split_params, unquote, extract_origin, value_or_none}
use privacy_lodge.FedAuth.Params.{
  scan, IsParam, with_commas, split_params-append, split_params-last, split_params-with_commas,
}

abbrev pub starts_blank : Str → Bool
starts_blank [] = false
starts_blank (c ∷ s) = is_whitespace c

-- A parameter that is not called `origin`.
abbrev key_is_origin : Option (Str × Str) → Bool
key_is_origin none = false
key_is_origin (some (key, val)) = eq_ignore_ascii_case (trim key) (codes "origin")

pub record IsOther (p : Str) : Type 0 where
  pub one : IsParam p
  pub key : key_is_origin (split_once b'=' p) ≡ false

first_origin-other :
    (p : Str) (ps : List Str)
    → key_is_origin (split_once b'=' p) ≡ false
    → first_origin (p ∷ ps) ≡ first_origin ps
unfolding first_origin
first_origin-other p ps h = ground arith

first_origin-append :
    (ps rest : List Str) → All IsOther ps → first_origin (ps ++ rest) ≡ first_origin rest
first_origin-append [] rest h = refl
first_origin-append (p ∷ ps) rest h =
    first_origin-other p (ps ++ rest) h.0.key ∙ first_origin-append ps rest h.1

first_origin-hit :
    (p key val : Str) (ps : List Str)
    → split_once b'=' p ≡ some (key, val)
    → eq_ignore_ascii_case (trim key) (codes "origin") ≡ true
    → first_origin (p ∷ ps) ≡ value_or_none (unquote (trim val))
unfolding first_origin
first_origin-hit p key val ps e h = ground arith

IsOther-IsParam : (ps : List Str) → All IsOther ps → All IsParam ps
IsOther-IsParam [] h = tt
IsOther-IsParam (p ∷ ps) h = (h.0.one, IsOther-IsParam ps h.1)

-- The parameter `origin`, with white space before it.
abbrev pub param_origin : Str → Bool → Str → Str
param_origin pad b v = pad ++ (codes "origin=" ++ value b v)

abbrev pub IsBlank : Str → Type 0
IsBlank pad = all is_whitespace pad ≡ true

scan-blank : (pad s : Str) → IsBlank pad → scan false (pad ++ s) ≡ scan false s
unfolding is_whitespace
scan-blank [] s h = refl
scan-blank (c ∷ pad) s h = ground (arith, scan-blank pad s)

blank-equals : (pad : Str) → IsBlank pad → any (λ c. c == b'=') pad ≡ false
unfolding is_whitespace
blank-equals [] h = refl
blank-equals (c ∷ pad) h = ground (arith, blank-equals pad)

param_origin-IsParam :
    (pad : Str) (b : Bool) (v : Str) → IsBlank pad → IsValue b v → IsParam (param_origin pad b v)
param_origin-IsParam pad b v blank written =
    scan-blank pad (codes "origin=" ++ value b v) blank ∙ scan-value b v written

trim-key : (pad : Str) → IsBlank pad → trim (pad ++ codes "origin") ≡ codes "origin"
unfolding trim
trim-key pad blank =
    ap trim_end (trim_start-blank pad (codes "origin") blank)
    ∙ trim-Solid (codes "origin") (unfold is_whitespace in refl)

split_once-param_origin :
    (pad : Str) (b : Bool) (v : Str)
    → IsBlank pad
    → split_once b'=' (param_origin pad b v) ≡ some (pad ++ codes "origin", value b v)
split_once-param_origin pad b v blank =
    ap (split_once b'=') (sym (append_assoc pad (codes "origin") (b'=' ∷ value b v)))
    ∙ split_once-append b'=' (pad ++ codes "origin") (value b v)
        (any-append (λ c. c == b'=') pad (codes "origin") ∙ rw (blank-equals pad blank))

first_origin-param_origin :
    (pad : Str) (b : Bool) (v : Str) (ps : List Str)
    → IsBlank pad
    → IsValue b v
    → is_empty v ≡ false
    → first_origin (param_origin pad b v ∷ ps) ≡ some v
first_origin-param_origin pad b v ps blank written h =
    first_origin-hit (param_origin pad b v) (pad ++ codes "origin") (value b v) ps
      (split_once-param_origin pad b v blank)
      (rw (trim-key pad blank) (unfold eq_ignore_ascii_case in refl))
    ∙ rw (unquote-value b v written, h)

param_origin_filled :
    (pad : Str) (b : Bool) (v : Str) → IsBlank pad → is_empty (trim (param_origin pad b v)) ≡ false
unfolding trim
param_origin_filled pad b v blank = rw (
  trim_start-blank pad (codes "origin=" ++ value b v) blank,
  trim_start-cons b'o' (codes "rigin=" ++ value b v) (unfold is_whitespace in refl),
  trim_end-append [] b'o' (codes "rigin=" ++ value b v) (unfold is_whitespace in refl),
)

-- The origin parameter is split off, whether it is the last one or not.
first_origin-split :
    (pad : Str) (b : Bool) (v : Str) (e : Option Str)
    → IsBlank pad
    → IsValue b v
    → is_empty v ≡ false
    → first_origin (split_params (param_origin pad b v ++ ending e)) ≡ some v
first_origin-split pad b v none blank written h =
    ap first_origin (
      split_params-last (param_origin pad b v) (param_origin-IsParam pad b v blank written)
        (param_origin_filled pad b v blank))
    ∙ first_origin-param_origin pad b v [] blank written h
first_origin-split pad b v (some rest) blank written h =
    ap first_origin
      (split_params-append (param_origin pad b v) rest (param_origin-IsParam pad b v blank written))
    ∙ first_origin-param_origin pad b v _ blank written h

-- What stands behind the scheme, with `front` before the name `origin`.
abbrev body_with : Str → Bool → Str → Option Str → Str
body_with front b v e = front ++ (codes "origin=" ++ (value b v ++ ending e))

trim_start-body_with :
    (front : Str) (b : Bool) (v : Str) (e : Option Str)
    → starts_blank front ≡ false
    → trim_start (body_with front b v e) ≡ body_with front b v e
trim_start-body_with [] b v e h = trim_start-cons b'o' _ (unfold is_whitespace in refl)
trim_start-body_with (c ∷ front) b v e h = trim_start-cons c _ h

-- The header with its trailing blanks gone.
trim-header_with :
    (front : Str) (b : Bool) (v : Str) (e : Option Str)
    → IsValue b v
    → is_empty v ≡ false
    → trim (codes "X-Matrix " ++ body_with front b v e)
      ≡ codes "X-Matrix " ++ body_with front b v (trimmed e)
unfolding trim
trim-header_with front b v e written h =
    let regroup : (t : Str)
        → codes "X-Matrix " ++ (front ++ (codes "origin=" ++ t))
          ≡ (codes "X-Matrix " ++ (front ++ codes "origin=")) ++ t =
      λ t. ap (λ s. codes "X-Matrix " ++ s) (sym (append_assoc front (codes "origin=") t)) in
    let tail = trim_end-ending b v e written in
    ap trim_end (
      trim_start-cons b'X' (codes "-Matrix " ++ body_with front b v e)
        (unfold is_whitespace in refl))
    ∙ ap trim_end (regroup (value b v ++ ending e))
    ∙ trim_end-behind (codes "X-Matrix " ++ (front ++ codes "origin=")) (value b v ++ ending e)
        (rw tail (value_filled b v (ending (trimmed e)) h))
    ∙ sym (regroup (trim_end (value b v ++ ending e)))
    ∙ ap (λ t. codes "X-Matrix " ++ (front ++ (codes "origin=" ++ t))) tail

-- What is left of the header behind the scheme.
origin_of_header_with :
    (front : Str) (b : Bool) (v : Str) (e : Option Str)
    → IsValue b v
    → is_empty v ≡ false
    → extract_origin (codes "X-Matrix " ++ body_with front b v e)
      ≡ ok (first_origin (split_params (trim_start (body_with front b v (trimmed e)))))
unfolding extract_origin split_at eq_ignore_ascii_case trim_start is_whitespace
origin_of_header_with front b v e written h =
    rw (trim-header_with front b v e written h) (ground arith)

-- In a header of the scheme `X-Matrix` and one blank, with no further blank behind it: the first
-- parameter called `origin` decides, whatever is in the parameters before it (quoted commas and
-- `origin=` included; their quotes are closed) and whatever comes behind a comma after it, if
-- anything does. Its name may have blanks before it; its value is not empty, and stands in quotes
-- without a quote in it, or bare, without blanks, quotes and commas.
pub extract_origin_first :
    (ps : List Str) (pad : Str) (b : Bool) (v : Str) (e : Option Str)
    → All IsOther ps
    → IsBlank pad
    → starts_blank (with_commas ps ++ pad) ≡ false
    → IsValue b v
    → is_empty v ≡ false
    → extract_origin (
        codes "X-Matrix "
        ++ ((with_commas ps ++ pad) ++ (codes "origin=" ++ (value b v ++ ending e))))
      ≡ ok (some v)
extract_origin_first ps pad b v e others blank start written given =
    let front = with_commas ps ++ pad in
    let rest = codes "origin=" ++ (value b v ++ ending (trimmed e)) in
    origin_of_header_with front b v e written given
    ∙ ap ok (
        ap (λ t. first_origin (split_params t))
          (trim_start-body_with front b v (trimmed e) start
            ∙ append_assoc (with_commas ps) pad rest
            ∙ ap (λ t. with_commas ps ++ t)
                (sym (append_assoc pad (codes "origin=" ++ value b v) (ending (trimmed e)))))
        ∙ ap first_origin (
            split_params-with_commas ps (param_origin pad b v ++ ending (trimmed e))
              (IsOther-IsParam ps others))
        ∙ first_origin-append ps _ others
        ∙ first_origin-split pad b v (trimmed e) blank written given)
