-- ===== src/Pairing/Onion.antt =====
-- What `is_valid_onion` accepts.
use privacy_lodge.Prelude.{
  ◌≡◌, ◌↔◌, all-append, refl, true, [], ◌∷◌, some, ◌++◌, arith, length, all, ltb, Option-cases, inl,
  inr,
}
use privacy_lodge.Text.{Str, codes, strip_suffix, bytes, bytes_of_char}
use privacy_lodge.Text.Laws.{strip_suffix-append, strip_suffix_sound, bytes-ascii, len-ascii}
use privacy_lodge.Pairing.{is_base32, valid_label, is_valid_onion}

base32_ascii : (s : Str) → all is_base32 s ≡ true → all (λ c. ltb c 128) s ≡ true
unfolding is_base32
base32_ascii [] h = refl
base32_ascii (c ∷ s) h = ground (arith, base32_ascii s)

-- A text whose bytes are all base32 characters has only such characters.
base32_bytes : (s : Str) → all is_base32 (bytes s) ≡ true → all is_base32 s ≡ true
unfolding is_base32 bytes
base32_bytes [] h = refl
base32_bytes (c ∷ s) h =
    ground (arith, all-append is_base32 (bytes_of_char c) (bytes s), base32_bytes s)

label_accepted :
    (label : Str) → length label ≡ 56 → all is_base32 label ≡ true → valid_label (some label) ≡ true
label_accepted label n h =
    let ascii = base32_ascii label h in rw (len-ascii label ascii, bytes-ascii label ascii, n, h)

accepted_label :
    (label : Str)
    → valid_label (some label) ≡ true
    → (length label ≡ 56) × (all is_base32 label ≡ true)
accepted_label label h =
    let chars : all is_base32 label ≡ true = base32_bytes label (ground arith) in
    (ground (arith, len-ascii label (base32_ascii label chars)), chars)

-- An address is valid exactly if it is 56 characters of the base32 alphabet and `.onion`.
pub is_valid_onion_iff :
    (s : Str)
    → (is_valid_onion s ≡ true) ↔ (
        (label : Str) × (s ≡ label ++ codes ".onion")
        × (length label ≡ 56)
        × (all is_base32 label ≡ true))
unfolding is_valid_onion
is_valid_onion_iff s = (
  λ h. elim (Option-cases (strip_suffix (codes ".onion") s)) [
    | inl e ↦ cc
    | inr (label, e) ↦
        let parts = accepted_label label (rw e at h) in
        (label, strip_suffix_sound (codes ".onion") s label e, parts.0, parts.1)
  ],
  λ (label, e, n, h). rw (e, strip_suffix-append (codes ".onion") label) (label_accepted label n h),
)
