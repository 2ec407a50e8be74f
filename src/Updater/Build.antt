-- ===== src/Updater/Build.antt =====
-- `install_native`, up to the disk: the build for this box, and its download with the checks.
use privacy_lodge.Prelude.{
  ℕ, ◌≡◌, ◌≤◌, Bool, true, false, not, ◌&&◌, Option, none, some, List, [], ◌∷◌, arith, ltb, ◌==◌,
  if◌then◌else◌, Result, ok, ◌>>=◌, ◌>>◌, refuse_if, ok_or, length, Result-cases, Option-cases,
  Bool-cases, inl, inr,
}
use privacy_lodge.Text.{Str, trim, str_eq, eq_ignore_ascii_case}
use privacy_lodge.Updater.{
  Manifest, NativeRelease, Error, no_build, implausible, wrong_size, bad_checksum, max_binary_bytes,
}
use privacy_lodge.Updater.Hex.{hex_lower}
use privacy_lodge.Updater.Fetch.{Response, fetch_bounded, fetch_bounded_le}

unfoldable pub build_for : Str → List (Str × NativeRelease) → Option NativeRelease
build_for target [] = none
build_for target ((k, r) ∷ m) = if str_eq k target then some r else build_for target m

abbrev pub limit_of : NativeRelease → ℕ
limit_of r = if r.size == 0 then max_binary_bytes else r.size

unfoldable pub release_for : Manifest → Str → Result Error NativeRelease
release_for m target = ok_or (build_for target m.native) no_build >>= λ r.
    refuse_if (ltb max_binary_bytes r.size) implausible >> ok r

-- SHA-256, and what the GET of a URL gives.
module _ (sha256 : List ℕ → List ℕ) (get : Str → Option Response) where
  abbrev pub has_wrong_size : NativeRelease → List ℕ → Bool
  has_wrong_size r bs = ltb 0 r.size && not (length bs == r.size)

  abbrev pub has_checksum : NativeRelease → List ℕ → Bool
  has_checksum r bs = eq_ignore_ascii_case (hex_lower (sha256 bs)) (trim r.sha256)

  unfoldable pub download : NativeRelease → Result Error (List ℕ)
  download r = fetch_bounded (limit_of r) (get r.url) >>= λ bs.
      refuse_if (has_wrong_size r bs) wrong_size
      >> refuse_if (not (has_checksum r bs)) bad_checksum
      >> ok bs

  -- The bytes are the build that the manifest names for the target.
  abbrev pub Checked : Manifest → Str → List ℕ → Type 0
  Checked m target bs =
      (r : NativeRelease) × (build_for target m.native ≡ some r)
      × (length bs ≤ limit_of r)
      × (has_wrong_size r bs ≡ false)
      × (has_checksum r bs ≡ true)

  chosen :
      (m : Manifest) (target : Str) (r : NativeRelease)
      → release_for m target ≡ ok r
      → build_for target m.native ≡ some r
  unfolding release_for
  chosen m target r h = ground (arith, Option-cases (build_for target m.native))

  passed :
      (r : NativeRelease) (bs : List ℕ)
      → download r ≡ ok bs
      → (fetch_bounded (limit_of r) (get r.url) ≡ ok bs)
        × (has_wrong_size r bs ≡ false)
        × (has_checksum r bs ≡ true)
  unfolding download
  passed r bs h = elim (Result-cases (fetch_bounded (limit_of r) (get r.url))) [
    | inl (got, e) ↦
        ground (arith, e, h, Bool-cases (has_checksum r got), Bool-cases (has_wrong_size r got))
    | inr (f, e) ↦ absurd (ground (arith, e, h))
  ]

  pub download-Checked :
      (m : Manifest) (target : Str) (r : NativeRelease) (bs : List ℕ)
      → release_for m target ≡ ok r
      → download r ≡ ok bs
      → Checked m target bs
  download-Checked m target r bs h k =
      let tests = passed r bs k in
      (
        r,
        chosen m target r h,
        fetch_bounded_le (limit_of r) (get r.url) bs tests.0,
        tests.1,
        tests.2,
      )
