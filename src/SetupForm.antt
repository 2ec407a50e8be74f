-- ===== src/SetupForm.antt =====
-- src-tauri/src/setup_server.rs: the body of a POST of the setup page, `parse_form`.
pub mod Tokens
pub mod RoundTrip
mod Examples
use privacy_lodge.Prelude.{
  ℕ, ◌+◌, ◌-◌, ◌*◌, Bool, true, false, ◌&&◌, Option, none, some, List, [], ◌∷◌, map, leb, ◌==◌,
  if◌then◌else◌,
}
use privacy_lodge.Text.{Str, split_once, str_eq, bytes}
use privacy_lodge.Text.Utf8.{from_utf8_lossy}

unfoldable pub hex_val : ℕ → Option ℕ
hex_val b =
    if leb b'0' b && leb b b'9'
    then some (b - b'0')
    else if leb b'a' b && leb b b'f'
    then some (b - b'a' + 10)
    else if leb b'A' b && leb b b'F'
    then some (b - b'A' + 10)
    else none

-- Two digits that are both there.
abbrev pub escaped : Option ℕ → Option ℕ → Option ℕ
escaped none l = none
escaped (some h) none = none
escaped (some h) (some l) = some (h * 16 + l)

abbrev pub plain : ℕ → ℕ
plain c = if c == b'+' then b' ' else c

-- A percent sign without two hexadecimal digits behind it stands for itself.
unfoldable pub decode_bytes : List ℕ → List ℕ
decode_bytes [] = []
decode_bytes (c ∷ []) = plain c ∷ []
decode_bytes (c ∷ d ∷ []) = plain c ∷ plain d ∷ []
decode_bytes (c ∷ h ∷ l ∷ s) =
    let one = plain c ∷ decode_bytes (h ∷ l ∷ s) in
    let three = decode_bytes s in
    if c == b'%'
    then elim (escaped (hex_val h) (hex_val l)) [ none ↦ one | some b ↦ b ∷ three ]
    else one

unfoldable pub urldecode : Str → Str
unfolding decode_bytes
urldecode s = from_utf8_lossy (decode_bytes (bytes s))

abbrev pub cons_head : ℕ → List Str → List Str
cons_head c [] = (c ∷ []) ∷ []
cons_head c (p ∷ ps) = (c ∷ p) ∷ ps

-- `split('&')`
unfoldable pub split_pairs : Str → List Str
split_pairs [] = [] ∷ []
split_pairs (c ∷ s) = let rest = split_pairs s in if c == b'&' then [] ∷ rest else cons_head c rest

-- What stands before the first equals sign, and behind it: nothing if there is none.
abbrev pub key_value : Str → Option (Str × Str) → Str × Str
key_value kv none = (urldecode kv, urldecode [])
key_value kv (some (k, v)) = (urldecode k, urldecode v)

-- The map that is collected, as a list of its entries; its order shows nowhere.
abbrev pub Form : Type 0
Form = List (Str × Str)

-- An entry replaces the one with its key.
unfoldable pub insert : Str → Str → Form → Form
insert k v [] = (k, v) ∷ []
insert k v ((j, w) ∷ form) = if str_eq j k then (k, v) ∷ form else (j, w) ∷ insert k v form

-- `form.get(k)`
unfoldable pub get : Str → Form → Option Str
get k [] = none
get k ((j, v) ∷ form) = if str_eq j k then some v else get k form

unfoldable pub collect : Form → List (Str × Str) → Form
unfolding insert
collect form [] = form
collect form ((k, v) ∷ pairs) = collect (insert k v form) pairs

unfoldable pub parse_form : Str → Form
unfolding urldecode
parse_form body = collect [] (map (λ kv. key_value kv (split_once b'=' kv)) (split_pairs body))
