-- ===== src/Updater/Verify/Hybrid.antt =====
-- A manifest is accepted exactly if both release keys signed it, and `check` offers no other.
use privacy_lodge.Prelude.{
  ℕ, ◌≡◌, ◌≢◌, ◌↔◌, refl, ap, ◌∙◌, Bool, true, false, not, Option, none, some, List, arith, ok,
  ◌>>◌, refuse_if, ok_or, ◌==◌, length, Option-cases, Bool-cases, inl, inr, bind_ok, ok_or-some,
  not_refused, ==_iff, ==_refl,
}
use privacy_lodge.Text.{Str, trim, is_empty}
use privacy_lodge.Updater.{Manifest, max_manifest_bytes}
use privacy_lodge.Updater.Version.{is_newer}
use privacy_lodge.Text.Utf8.{from_utf8}
use privacy_lodge.Updater.Fetch.{Response, fetch_bounded}
use privacy_lodge.Updater.Verify.{
  Libraries, verify_signature, verify_pq_signature, verify_required_pq, parse_manifest,
  verify_manifest_hybrid, verify_manifest, check, Signed, PqSigned, Authentic, text_or_none,
  only_newer, release_key, release_pq_key,
}

not-false : (b : Bool) → not b ≡ false → b ≡ true
not-false true h = refl
not-false false h = cc

module _ (L : Libraries) where
  open L use {decode_base64, from_json, sig_len, verify, pq_verify}

  verify_signature_sound :
      (payload : List ℕ) (s : Str) → verify_signature L payload s ≡ ok tt → Signed L payload s
  unfolding verify_signature
  verify_signature_sound payload s h =
      let key = bind_ok (ok_or (release_key L) _) _ h in
      let raw = bind_ok (ok_or (decode_base64 (trim s)) _) _ key.2 in
      let sized = bind_ok (refuse_if (not (length raw.0 == 64)) _) _ raw.2 in
      (
        key.0,
        raw.0,
        ok_or-some _ _ key.1,
        ok_or-some _ _ raw.1,
        (==_iff (length raw.0) 64).0 (not-false _ (not_refused _ _ sized.1)),
        not-false _ (not_refused _ _ sized.2),
      )

  verify_signature_complete :
      (payload : List ℕ) (s : Str) → Signed L payload s → verify_signature L payload s ≡ ok tt
  unfolding verify_signature
  verify_signature_complete payload s (key, raw, k, r, l, v) = rw (k, r, l, v)

  verify_pq_signature_sound :
      (payload : List ℕ) (s : Str) → verify_pq_signature L payload s ≡ ok tt → PqSigned L payload s
  unfolding verify_pq_signature
  verify_pq_signature_sound payload s h =
      let key = bind_ok (ok_or (release_pq_key L) _) _ h in
      let raw = bind_ok (ok_or (decode_base64 (trim s)) _) _ key.2 in
      let sized = bind_ok (refuse_if (not (length raw.0 == sig_len)) _) _ raw.2 in
      (
        key.0,
        raw.0,
        ok_or-some _ _ key.1,
        ok_or-some _ _ raw.1,
        (==_iff (length raw.0) sig_len).0 (not-false _ (not_refused _ _ sized.1)),
        not-false _ (not_refused _ _ sized.2),
      )

  verify_pq_signature_complete :
      (payload : List ℕ) (s : Str) → PqSigned L payload s → verify_pq_signature L payload s ≡ ok tt
  unfolding verify_pq_signature
  verify_pq_signature_complete payload s (key, raw, k, r, l, v) = rw (k, r, l, ==_refl sig_len, v)

  verify_required_pq_sound :
      (payload : List ℕ) (pq : Option Str)
      → verify_required_pq L payload pq ≡ ok tt
      → (s : Str) × (pq ≡ some s) × (is_empty (trim s) ≡ false) × PqSigned L payload s
  unfolding verify_required_pq
  verify_required_pq_sound payload none h = cc
  verify_required_pq_sound payload (some s) h = elim (Bool-cases (is_empty (trim s))) [
    | inl e ↦ absurd (ground (arith, e, h))
    | inr e ↦ (s, refl, e, verify_pq_signature_sound payload s (ground (arith, e, h)))
  ]

  verify_required_pq_complete :
      (payload : List ℕ) (s : Str)
      → is_empty (trim s) ≡ false
      → PqSigned L payload s
      → verify_required_pq L payload (some s) ≡ ok tt
  unfolding verify_required_pq
  verify_required_pq_complete payload s e p = rw e (verify_pq_signature_complete payload s p)

  parse_manifest_iff :
      (payload : List ℕ) (m : Manifest)
      → (parse_manifest L payload ≡ ok m)
        ↔ ((from_json payload ≡ some m) × (is_empty (trim m.version) ≡ false))
  unfolding parse_manifest
  parse_manifest_iff payload m = ground (arith, Option-cases (from_json payload))

  hybrid_sound :
      (payload : List ℕ) (sig : Str) (pq : Option Str) (m : Manifest)
      → verify_manifest_hybrid L payload sig pq ≡ ok m
      → Authentic L payload sig pq m
  unfolding verify_manifest_hybrid
  hybrid_sound payload sig pq m h =
      let both = bind_ok (verify_signature L payload sig >> verify_required_pq L payload pq) _ h in
      let each = bind_ok (verify_signature L payload sig) _ both.1 in
      (
        verify_signature_sound payload sig each.1,
        verify_required_pq_sound payload pq each.2,
        ((parse_manifest_iff payload m).0 both.2).0,
        ((parse_manifest_iff payload m).0 both.2).1,
      )

  hybrid_complete :
      (payload : List ℕ) (sig : Str) (pq : Option Str) (m : Manifest)
      → Authentic L payload sig pq m
      → verify_manifest_hybrid L payload sig pq ≡ ok m
  unfolding verify_manifest_hybrid
  hybrid_complete payload sig pq m (one, (s, e, f, two), j, v) = rw (
    verify_signature_complete payload sig one,
    e,
    verify_required_pq_complete payload s f two,
    (parse_manifest_iff payload m).1 (j, v),
  )

  -- The hybrid check accepts a manifest exactly if it is what the payload holds, it names a
  -- version, and each of the two release keys accepts its signature of the payload; the
  -- post-quantum one is there and is not blank.
  pub verify_manifest_hybrid_iff :
      (payload : List ℕ) (sig : Str) (pq : Option Str) (m : Manifest)
      → (verify_manifest_hybrid L payload sig pq ≡ ok m) ↔ Authentic L payload sig pq m
  verify_manifest_hybrid_iff payload sig pq m =
      (hybrid_sound payload sig pq m, hybrid_complete payload sig pq m)

  -- verify_manifest, which passes no post-quantum signature, accepts nothing.
  pub verify_manifest_refuses :
      (payload : List ℕ) (sig : Str) (m : Manifest) → verify_manifest L payload sig ≢ ok m
  unfolding verify_manifest
  verify_manifest_refuses payload sig m h = ground (arith, hybrid_sound payload sig none m h)

  only_newer_sound :
      (current : Str) (m n : Manifest)
      → only_newer L current m ≡ ok (some n)
      → (m ≡ n) × (is_newer n.version current ≡ true)
  only_newer_sound current m n h = ground arith

  -- What check offers is newer than the running version, and authentic: it is what the payload
  -- that was fetched holds, and the signatures that were fetched are by the release keys.
  pub check_sound :
      (json sig pq : Option Response) (current : Str) (m : Manifest)
      → check L json sig pq current ≡ ok (some m)
      → (is_newer m.version current ≡ true)
        × ((payload : List ℕ) × (raw : List ℕ) × (text : Str) × (fetch_bounded max_manifest_bytes
                json
              ≡ ok payload)
            × (fetch_bounded max_manifest_bytes sig ≡ ok raw)
            × (from_utf8 raw ≡ some text)
            × Authentic L payload text (text_or_none L (fetch_bounded max_manifest_bytes pq)) m)
  unfolding check
  check_sound json sig pq current m h =
      let payload = bind_ok (fetch_bounded max_manifest_bytes json) _ h in
      let raw = bind_ok (fetch_bounded max_manifest_bytes sig) _ payload.2 in
      let text = bind_ok (ok_or (from_utf8 raw.0) _) _ raw.2 in
      let verified = bind_ok (verify_manifest_hybrid L payload.0 text.0 _) _ text.2 in
      let offered = only_newer_sound current verified.0 m verified.2 in
      (
        offered.1,
        (
          payload.0,
          raw.0,
          text.0,
          payload.1,
          raw.1,
          ok_or-some _ _ text.1,
          hybrid_sound payload.0 text.0 (text_or_none L (fetch_bounded max_manifest_bytes pq)) m
              (verified.1 ∙ ap ok offered.0),
        ),
      )
