-- ===== src/SetupForm/RoundTrip.antt =====
-- What setup_page.html sends, 'username=' + encodeURIComponent(u) + '&password=' + ..., and that
-- parse_form reads the fields back. The encoding is the browser's: a parameter.
use privacy_lodge.Prelude.{
  ◌≡◌, refl, ap, ◌∙◌, true, false, Option, none, some, List, [], ◌∷◌, ◌++◌, map, ◌==◌,
  if◌then◌else◌, arith, all, any, any-append, All,
}
use privacy_lodge.Text.{Str, split_once, str_eq}
use privacy_lodge.Text.Laws.{bytes-ascii, split_once-append, str_eq_iff}
use privacy_lodge.Text.Utf8.{is_scalar, from_utf8_lossy-bytes}
use privacy_lodge.SetupForm.{
  Form, insert, get, collect, urldecode, split_pairs, key_value, parse_form,
}
use privacy_lodge.SetupForm.Tokens.{
  printed, is_free, IsEncoding, decode_bytes-printed, printed_inside, inside_ascii, inside-and,
  free_inside, free-equals, urldecode-free,
}

-- A field: a name that is sent as it is, and a value in Unicode.
abbrev pub IsField : Str × Str → Type 0
IsField (k, v) = (all is_free k ≡ true) × (all is_scalar v ≡ true)

abbrev pub print_pair : (Str → Str) → Str × Str → Str
print_pair encode (k, v) = k ++ b'=' ∷ encode v

abbrev pub print_form : (Str → Str) → Str × Str → List (Str × Str) → Str
print_form encode p [] = print_pair encode p
print_form encode p (q ∷ form) = print_pair encode p ++ b'&' ∷ print_form encode q form

-- The value of the last field with a name.
abbrev pub last_value : Str → List (Str × Str) → Option Str
last_value k [] = none
last_value k ((j, v) ∷ form) = elim (last_value k form) [
  | none ↦ if str_eq j k then some v else none
  | some w ↦ some w
]

split_pairs-whole : (s : Str) → any (λ c. c == b'&') s ≡ false → split_pairs s ≡ s ∷ []
unfolding split_pairs
split_pairs-whole [] h = refl
split_pairs-whole (c ∷ s) h = ground (arith, split_pairs-whole s)

split_pairs-append :
    (a s : Str) → any (λ c. c == b'&') a ≡ false → split_pairs (a ++ b'&' ∷ s) ≡ a ∷ split_pairs s
unfolding split_pairs
split_pairs-append [] s h = refl
split_pairs-append (c ∷ a) s h = ground (arith, split_pairs-append a s)

get-insert :
    (k j v : Str) (form : Form)
    → get k (insert j v form) ≡ (if str_eq j k then some v else get k form)
unfolding get insert
get-insert k j v [] = refl
get-insert k j v ((i, w) ∷ form) =
    ground (arith, get-insert k j v form, str_eq_iff i j, str_eq_iff i k, str_eq_iff j k)

nothing_or : (o : Option Str) → elim o [ none ↦ none | some v ↦ some v ] ≡ o
nothing_or none = refl
nothing_or (some v) = refl

get-collect :
    (k : Str) (form : Form) (pairs : List (Str × Str))
    → get k (collect form pairs) ≡ elim (last_value k pairs) [ none ↦ get k form | some v ↦ some v ]
unfolding collect
get-collect k form [] = refl
get-collect k form ((j, v) ∷ pairs) =
    ground (arith, get-collect k (insert j v form) pairs, get-insert k j v form)

module _ (encode : Str → Str) (encodes : IsEncoding encode) where
  urldecode-encode : (v : Str) → all is_scalar v ≡ true → urldecode (encode v) ≡ v
  unfolding urldecode
  urldecode-encode v h =
      let (ts, tokens, e, same) = encodes v h in
      rw
        (
          e,
          bytes-ascii (printed ts) (inside_ascii (printed ts) (printed_inside ts tokens)),
          decode_bytes-printed ts tokens,
          ← same,
        )
        (from_utf8_lossy-bytes v h)

  encode-and : (v : Str) → all is_scalar v ≡ true → any (λ c. c == b'&') (encode v) ≡ false
  encode-and v h =
      let (ts, tokens, e, same) = encodes v h in
      rw e (inside-and (printed ts) (printed_inside ts tokens))

  print_pair-and : (p : Str × Str) → IsField p → any (λ c. c == b'&') (print_pair encode p) ≡ false
  print_pair-and (k, v) h = rw (
    any-append (λ c. c == b'&') k (b'=' ∷ encode v),
    inside-and k (free_inside k h.0),
    encode-and v h.1,
  )

  key_value-print_pair :
      (p : Str × Str)
      → IsField p
      → key_value (print_pair encode p) (split_once b'=' (print_pair encode p)) ≡ p
  key_value-print_pair (k, v) h = rw (
    split_once-append b'=' k (encode v) (free-equals k h.0),
    urldecode-free k h.0,
    urldecode-encode v h.1,
  )

  pairs-print_form :
      (p : Str × Str) (form : List (Str × Str))
      → IsField p
      → All IsField form
      → map (λ kv. key_value kv (split_once b'=' kv)) (split_pairs (print_form encode p form))
        ≡ p ∷ form
  pairs-print_form p [] h k =
      rw (split_pairs-whole (print_pair encode p) (print_pair-and p h), key_value-print_pair p h)
  pairs-print_form p (q ∷ form) h k =
      rw
        (
          split_pairs-append (print_pair encode p) (print_form encode q form) (print_pair-and p h),
          key_value-print_pair p h,
        )
        (ap (◌∷◌ p) (pairs-print_form q form k.0 k.1))

-- Of a form of one field or more, as the page sends it, with plain names and values in Unicode: the
-- map that is parsed has for each name the value of the last field of that name, and no other name,
-- if the encoding sends each byte of UTF-8 as itself, as a plus for a space, or escaped in
-- hexadecimal.
pub parse_form-print_form :
    (encode : Str → Str)
    → IsEncoding encode
    → (p : Str × Str) (form : List (Str × Str)) → IsField p
    → All IsField form
    → (k : Str) → get k (parse_form (print_form encode p form)) ≡ last_value k (p ∷ form)
unfolding parse_form
parse_form-print_form encode encodes p form h hs k =
    rw (pairs-print_form encode encodes p form h hs)
      (get-collect k [] (p ∷ form) ∙ unfold get in nothing_or (last_value k (p ∷ form)))
