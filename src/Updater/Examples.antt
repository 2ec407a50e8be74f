-- ===== src/Updater/Examples.antt =====
-- Tests and instances for the updater, with signature schemes of a few lines.
use privacy_lodge.Prelude.{
  ℕ, ◌≡◌, ◌↔◌, ◌⊎◌, ◌*◌, refl, Bool, true, false, not, ◌||◌, Option, none, some, List, [], ◌∷◌, ok,
  ◌==◌, ◌≤◌,
}
use privacy_lodge.Text.{Str, split_at, bytes, codes, trim, is_whitespace, eq_ignore_ascii_case}
use privacy_lodge.Text.Utf8.{from_utf8_lossy, from_utf8}
use privacy_lodge.Io.{crashes, works}
use privacy_lodge.Io.Laws.{Post}
use privacy_lodge.Updater.{Manifest, NativeRelease}
use privacy_lodge.Updater.Version.{
  is_newer, newer, is_separator, drop_vs, split_parts, parts, parse_u64, digits_from,
}
use privacy_lodge.Updater.Version.Order.{is_newer_order, is_newer-malformed, same_parts}
use privacy_lodge.Updater.Hex.{
  hex_lower, hex_pairs, from_str_radix_16, hex_digit, hex_to_vec, hex_to_32,
}
use privacy_lodge.Updater.Fetch.{
  Response, chunk, fetch_bounded, fetch_bounded_exact, read_bounded, read_parts, declared_too_large,
  body,
}
use privacy_lodge.Updater.Verify.{
  Libraries, release_key, release_pq_key, verify_manifest_hybrid, check, Authentic, text_or_none,
}
use privacy_lodge.Updater.Verify.Hybrid.{verify_manifest_hybrid_iff, check_sound}
use privacy_lodge.Updater.Build.{release_for, build_for, download}
use privacy_lodge.Updater.Install.{Dir, install_native, install_native_safe, Installed}

is_newer_order_example :
    (is_newer (codes "0.1.10") (codes "v0.1.9") ≡ true
      → is_newer (codes "v0.1.9") (codes "0.1.10") ≡ false)
    × (is_newer (codes "0.1.10") (codes "v0.1.9") ≡ true
        → is_newer (codes "v0.1.9") (codes "0.1.9-0") ≡ true
        → is_newer (codes "0.1.10") (codes "0.1.9-0") ≡ true)
    × ((is_newer (codes "0.1.10") (codes "v0.1.9") || is_newer (codes "v0.1.9") (codes "0.1.10"))
        ≡ not (same_parts (parts (codes "0.1.10")) (parts (codes "v0.1.9"))))
is_newer_order_example = is_newer_order (codes "0.1.10") (codes "v0.1.9") (codes "0.1.9-0")

is_newer-malformed_example :
    is_newer (codes "nightly.5") (codes "0.2.1") ≡ is_newer (codes "0.5") (codes "0.2.1")
unfolding parse_u64 digits_from is_whitespace is_separator
is_newer-malformed_example =
    is_newer-malformed b'n' (codes "ightly") (codes "5") (codes "0.2.1") refl refl refl refl

abbrev three : List ℕ
three = 0 ∷ 171 ∷ 255 ∷ []

abbrev one_byte : List ℕ
one_byte = 171 ∷ []

abbrev answer : List ℕ → Option Response
answer bs = some (record { is_success = true; content_length = none; parts = chunk bs ∷ [] })

fetch_bounded_exact_example : (fetch_bounded 5 (answer (7 ∷ 8 ∷ 9 ∷ [])) ≡ ok (7 ∷ 8 ∷ 9 ∷ [])) ↔ (
    (true ≡ true)
    × (declared_too_large 5 none ≡ false)
    × (body (chunk (7 ∷ 8 ∷ 9 ∷ []) ∷ []) ≡ some (7 ∷ 8 ∷ 9 ∷ []))
    × (3 ≤ 5))
fetch_bounded_exact_example =
    fetch_bounded_exact 5
      (record { is_success = true; content_length = none; parts = chunk (7 ∷ 8 ∷ 9 ∷ []) ∷ [] })
      (7 ∷ 8 ∷ 9 ∷ [])

-- A payload is its version; a signature begins with the payload's first byte.
abbrev native_build : NativeRelease
native_build = record { url = codes "u"; sha256 = codes " AB "; size = 3 }

abbrev named : Str → Manifest
named v = record {
  version = v;
  released = [];
  notes = [];
  docker = none;
  native = (codes "linux-x86_64", native_build) ∷ [];
}

abbrev starts_alike : List ℕ → List ℕ → Bool
starts_alike (a ∷ _) (b ∷ _) = a == b
starts_alike _ _ = false

abbrev toy : Libraries
toy = record {
  Key = List ℕ;
  key_of = λ bs. some bs;
  verify = λ _ payload raw. starts_alike payload raw;
  PqKey = List ℕ;
  pk_len = 32;
  sig_len = 2;
  pq_key_of = λ bs. some bs;
  pq_verify = λ _ payload raw. starts_alike payload raw;
  decode_base64 = λ s. some s;
  from_json = λ bs. some (named bs);
}

abbrev ed_sig : Str
ed_sig = codes "0123456789012345678901234567890123456789012345678901234567890123"

abbrev pq_sig : Str
pq_sig = codes "0z"

verify_manifest_hybrid_iff_example :
    (verify_manifest_hybrid toy (codes "0.2") ed_sig (some pq_sig) ≡ ok (named (codes "0.2")))
    ↔ Authentic toy (codes "0.2") ed_sig (some pq_sig) (named (codes "0.2"))
verify_manifest_hybrid_iff_example =
    verify_manifest_hybrid_iff toy (codes "0.2") ed_sig (some pq_sig) (named (codes "0.2"))

offered :
    check toy (answer (codes "0.2")) (answer ed_sig) (answer pq_sig) (codes "0.1.10")
    ≡ ok (some (named (codes "0.2")))
unfolding check fetch_bounded read_bounded declared_too_large read_parts from_utf8 bytes
    from_utf8_lossy verify_manifest_hybrid release_key hex_to_32 trim is_whitespace hex_pairs
    split_at release_pq_key hex_to_vec is_newer newer parts parse_u64 digits_from drop_vs
    split_parts from_str_radix_16 hex_digit
offered = refl

check_sound_example :
    (is_newer (codes "0.2") (codes "0.1.10") ≡ true)
    × ((payload : List ℕ) × (raw : List ℕ) × (text : Str) × (fetch_bounded
            (64 * 1024)
            (answer (codes "0.2"))
          ≡ ok payload)
        × (fetch_bounded (64 * 1024) (answer ed_sig) ≡ ok raw)
        × (from_utf8 raw ≡ some text)
        × Authentic toy payload text
            (text_or_none toy (fetch_bounded (64 * 1024) (answer pq_sig)))
            (named (codes "0.2")))
check_sound_example =
    check_sound toy (answer (codes "0.2")) (answer ed_sig) (answer pq_sig) (codes "0.1.10")
      (named (codes "0.2")) offered

abbrev box : Dir
box = record { exe = record { bytes = 9 ∷ []; executable = true }; staged = none; prev = none }

abbrev sha : List ℕ → List ℕ
sha _ = one_byte

abbrev serve : Str → Option Response
serve _ = answer three

abbrev linux : Str
linux = codes "linux-x86_64"

chosen : release_for (named (codes "0.2")) linux ≡ ok native_build
unfolding release_for build_for
chosen = refl

downloaded : download sha serve native_build ≡ ok three
unfolding download fetch_bounded read_bounded declared_too_large read_parts hex_lower trim
    is_whitespace eq_ignore_ascii_case
downloaded = refl

-- The process dies after the write of the staged file.
install_native_safe_example :
    Post
      (λ _. Installed (named (codes "0.2")) linux sha serve box.exe)
      (λ _ e. e.exe ≡ box.exe)
      (λ e. (e.exe ≡ box.exe) ⊎ Installed (named (codes "0.2")) linux sha serve box.exe e)
      (install_native sha serve (named (codes "0.2")) linux box (works ∷ works ∷ crashes 1 ∷ [])).0
      (install_native sha serve (named (codes "0.2")) linux box (works ∷ works ∷ crashes 1 ∷ [])).1
install_native_safe_example =
    install_native_safe sha serve (named (codes "0.2")) linux box (works ∷ works ∷ crashes 1 ∷ [])
