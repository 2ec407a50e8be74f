-- ===== src/Updater/Install.antt =====
-- `install_native`: the download is checked, staged beside the running binary, and renamed over it.
use privacy_lodge.Prelude.{
  ℕ, ◌≡◌, refl, ap, Bool, true, false, Option, none, some, List, [], arith, ok, take, ◌⊎◌, inl, inr,
}
use privacy_lodge.Io.{
  Io, done, Fault, lift, query, write, atomic, best_effort, on_failure, ◌>>=◌, ◌>>◌,
}
use privacy_lodge.Io.Laws.{
  Post, Spec, Spec-query, Spec-bind, Spec-bind-lift, Spec-lift, Spec-atomic, Spec-syscall,
  Spec-best_effort, Spec-on_failure,
}
use privacy_lodge.Text.{Str}
use privacy_lodge.Updater.{
  Manifest, NativeRelease, Error, not_located, not_written, not_executable, not_replaced,
}
use privacy_lodge.Updater.Fetch.{Response}
use privacy_lodge.Updater.Build.{release_for, download, Checked, download-Checked}

pub record File : Type 0 where
  pub bytes : List ℕ
  pub executable : Bool

-- The directory of the running binary: the binary, the one that is staged, and the one before.
pub record Dir : Type 0 where
  pub exe : File
  pub staged : Option File
  pub prev : Option File

-- A file that is created is not executable; one that is overwritten keeps its mode.
abbrev mode_of : Option File → Bool
mode_of none = false
mode_of (some f) = f.executable

abbrev stage : List ℕ → Dir → Dir
stage bs d = record d { staged = some (record { bytes = bs; executable = mode_of d.staged }) }

abbrev runnable : Option File → Option File
runnable none = none
runnable (some f) = some (record f { executable = true })

abbrev swap : Dir → Dir
swap d = elim d.staged [ none ↦ d | some f ↦ record d { exe = f; staged = none } ]

abbrev copied : ℕ → Dir → Dir
copied n d = record d {
  prev = some (record { bytes = take n d.exe.bytes; executable = mode_of d.prev });
}

write_staged : List ℕ → Io Dir Error (Unit {0})
write_staged bs = write not_written (stage bs) (λ n. stage (take n bs))

set_executable : Io Dir Error (Unit {0})
set_executable = atomic not_executable (λ d. record d { staged = runnable d.staged })

-- Both failures are forgotten, so their errors do not matter.
keep_previous : Io Dir Error (Unit {0})
keep_previous =
    best_effort (atomic not_written (λ d. record d { prev = none }))
    >> best_effort (write not_written (λ d. record d { prev = some d.exe }) copied)

replace : Io Dir Error (Unit {0})
replace =
    on_failure (atomic not_replaced swap)
      (best_effort (atomic not_replaced (λ d. record d { staged = none })))

unfoldable pub swap_in : List ℕ → Io Dir Error (Unit {0})
unfolding write_staged set_executable keep_previous replace
swap_in bs = write_staged bs >> set_executable >> keep_previous >> replace

-- SHA-256, and what the GET of a URL gives.
module _ (sha256 : List ℕ → List ℕ) (get : Str → Option Response) where
  unfoldable pub install_native : Manifest → Str → Io Dir Error (Unit {0})
  install_native m target = lift (release_for m target) >>= λ r.
      query not_located (λ _. tt) >> lift (download sha256 get r) >>= swap_in

module _ (m : Manifest) (target : Str) (sha256 : List ℕ → List ℕ) (get : Str → Option Response)
    (old : File) where
  -- The binary is a build for the target that passed every check.
  abbrev pub Installed : Dir → Type 0
  Installed d =
      (bs : List ℕ) × Checked sha256 get m target bs
      × (d.exe ≡ record { bytes = bs; executable = true })

  abbrev Untouched : Dir → Type 0
  Untouched d = d.exe ≡ old

  abbrev EitherOr : Dir → Type 0
  EitherOr d = (d.exe ≡ old) ⊎ Installed d

  abbrev Staged : List ℕ → Bool → Dir → Type 0
  Staged bs x d = (d.exe ≡ old) × (d.staged ≡ some (record { bytes = bs; executable = x }))

  staging_Spec :
      (bs : List ℕ)
      → Spec Untouched
          (write_staged bs >> set_executable)
          (λ _. Staged bs true)
          (λ _. Untouched)
          EitherOr
  unfolding write_staged set_executable
  staging_Spec bs =
      Spec-bind {Q = λ _ d. (x : Bool) × Staged bs x d} _ _
        (Spec-syscall _ _ _ _ _ (λ s h. (mode_of s.staged, (h, refl))) (λ n s h. h)
          (λ n s h. inl h))
        (λ _.
          Spec-atomic _ _ (λ s h. (h.1.0, ap runnable h.1.1)) (λ s h. h.1.0) (λ s h. inl h.1.0)
            (λ s h. inl h.1.0))

  keeping_Spec :
      (bs : List ℕ)
      → Spec (Staged bs true) keep_previous (λ _. Staged bs true) (λ _. Untouched) EitherOr
  unfolding keep_previous
  keeping_Spec bs =
      Spec-bind {Q = λ _. Staged bs true} _ _
        (Spec-best_effort {Q = λ _. Staged bs true} {F = λ _. Staged bs true} _
          (Spec-atomic _ _ (λ s h. h) (λ s h. h) (λ s h. inl h.0) (λ s h. inl h.0)) (λ _ s h. h)
          (λ _ s h. h))
        (λ _.
          Spec-best_effort {Q = λ _. Staged bs true} {F = λ _. Staged bs true} _
            (Spec-syscall _ _ _ _ _ (λ s h. h) (λ n s h. h) (λ n s h. inl h.0)) (λ _ s h. h)
            (λ _ s h. h))

  swapped :
      (bs : List ℕ)
      → Checked sha256 get m target bs
      → (d : Dir) → Staged bs true d
      → Installed (swap d)
  swapped bs c d h = (bs, c, ground (arith, h.1))

  replacing_Spec :
      (bs : List ℕ)
      → Checked sha256 get m target bs
      → Spec (Staged bs true) replace (λ _. Installed) (λ _. Untouched) EitherOr
  unfolding replace
  replacing_Spec bs c =
      Spec-on_failure {F = λ _. Untouched} _ _
        (Spec-atomic _ _ (swapped bs c) (λ s h. h.0) (λ s h. inl h.0)
          (λ s h. inr (swapped bs c s h)))
        (λ _.
          Spec-best_effort {Q = λ _. Untouched} {F = λ _. Untouched} _
            (Spec-atomic _ _ (λ s h. h) (λ s h. h) (λ s h. inl h) (λ s h. inl h)) (λ _ s h. h)
            (λ _ s h. h))

  swap_in_Spec :
      (bs : List ℕ)
      → Checked sha256 get m target bs
      → Spec Untouched (swap_in bs) (λ _. Installed) (λ _. Untouched) EitherOr
  unfolding swap_in
  swap_in_Spec bs c =
      Spec-bind _ _ (Spec-bind _ _ (staging_Spec bs) (λ _. keeping_Spec bs))
        (λ _. replacing_Spec bs c)

  installing_Spec :
      Spec Untouched (install_native sha256 get m target) (λ _. Installed) (λ _. Untouched) EitherOr
  unfolding install_native
  installing_Spec =
      Spec-bind-lift _ _
        (λ r h.
          Spec-bind {Q = λ bs s. Checked sha256 get m target bs × Untouched s} _ _
            (Spec-bind {Q = λ _. Untouched} _ _
              (Spec-query _ _ (λ s h. h) (λ s h. h) (λ s h. inl h))
              (λ _.
                Spec-lift _ (λ bs k s u. (download-Checked sha256 get m target r bs h k, u))
                  (λ _ s u. u)))
            (λ bs. record { at = λ s fs p. (swap_in_Spec bs p.0).at s fs p.1 }))
        (λ _ _ s h. h)

-- Whatever operation of install_native fails or is the last of the process: if it returns, the
-- binary is one whose size and checksum are those of the manifest's build for the target, and may be
-- executed; if it fails, the binary is the one that ran; a crash leaves one of the two.
pub install_native_safe :
    (sha256 : List ℕ → List ℕ) (get : Str → Option Response) (m : Manifest) (target : Str) (d : Dir)
    (fs : List Fault)
    → Post
        (λ _. Installed m target sha256 get d.exe)
        (λ _ e. e.exe ≡ d.exe)
        (λ e. (e.exe ≡ d.exe) ⊎ Installed m target sha256 get d.exe e)
        (install_native sha256 get m target d fs).0
        (install_native sha256 get m target d fs).1
install_native_safe sha256 get m target d fs =
    (installing_Spec m target sha256 get d.exe).at d fs refl

-- On a disk that works, a build that passes every check replaces the binary, and the one that ran
-- is kept as the one before.
pub install_native_works :
    (sha256 : List ℕ → List ℕ) (get : Str → Option Response) (m : Manifest) (target : Str) (d : Dir)
    (r : NativeRelease) (bs : List ℕ)
    → release_for m target ≡ ok r
    → download sha256 get r ≡ ok bs
    → install_native sha256 get m target d [] ≡ (
      done tt,
      record { exe = record { bytes = bs; executable = true }; staged = none; prev = some d.exe },
      [],
    )
unfolding install_native swap_in write_staged set_executable keep_previous replace
install_native_works sha256 get m target d r bs h k = rw (h, k)
