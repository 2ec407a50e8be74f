-- ===== src/IdentityTransaction/Recover.antt =====
-- `recover`: what a journal lists is taken back, unless the journal is marked.
pub mod Rollback
pub mod Outcome
use privacy_lodge.Prelude.{
  ℕ, suc, ◌≡◌, refl, Bool, true, false, not, ◌&&◌, ◌||◌, Option, none, some, List, [], ◌∷◌, ltb,
  leb, ◌==◌, if◌then◌else◌, Result, ok, err, ok_or, all, any, length,
}
use privacy_lodge.Text.{Str, str_eq, len, bytes, strip_prefix}
use privacy_lodge.Io.{Io, pure, raise, lift, query, atomic, probe, ◌>>=◌, ◌>>◌}
use privacy_lodge.IdentityTransaction.{
  Node, absent, directory, other, file, Stage, no_stage, no_directory, staging, Disk, Journal,
  Codec, Error, journal_invalid, journal_unreadable, bad_stage, bad_stage_directory, conflicting,
  staged_missing, bad_staged, not_removed, not_cleaned, not_finished, allowed, sync_dir, item_of,
  target, remove_dir_all, unlink, stage_prefix, is_hexdigit,
}

-- Only an installed file with the number of the staged one is taken back.
abbrev pub unlink_linked : Str → ℕ → Node → Io Disk Error (Unit {0})
unlink_linked name ino absent = raise staged_missing
unlink_linked name ino (file ino' _) =
    if ino == ino' then atomic not_removed (unlink name) >> sync_dir else raise conflicting
unlink_linked name ino _ = raise bad_staged

abbrev pub take_back : Str → ℕ → Str → Node → Io Disk Error (Unit {0})
take_back st k name absent = pure tt
take_back st k name (file ino _) =
    query staged_missing (λ d. item_of (d.stages st) k) >>= unlink_linked name ino
take_back st k name _ = raise conflicting

unfoldable pub rollback_one : Str → ℕ → Str → Io Disk Error (Unit {0})
unfolding sync_dir
rollback_one st k name =
    target name false >> query conflicting (λ d. d.files name) >>= take_back st k name

unfoldable pub rollback : Str → ℕ → List Str → Io Disk Error (Unit {0})
unfolding rollback_one
rollback st k [] = pure tt
rollback st k (name ∷ names) = rollback_one st k name >> rollback st (suc k) names

abbrev is_other : Stage → Bool
is_other no_directory = true
is_other _ = false

abbrev exists : Stage → Bool
exists no_stage = false
exists _ = true

unfoldable pub check_stage : Str → Io Disk Error (Unit {0})
check_stage st = probe bad_stage_directory (λ d. is_other (d.stages st)) false >>= λ b.
    if b then raise bad_stage_directory else pure tt

unfoldable pub clean_stage : Str → Io Disk Error (Unit {0})
unfolding remove_dir_all
clean_stage st = probe not_cleaned (λ d. exists (d.stages st)) false >>= λ b.
    if b then remove_dir_all not_cleaned st else pure tt

unfoldable pub finish : Journal → Io Disk Error (Unit {0})
unfolding rollback check_stage clean_stage sync_dir
finish j =
    check_stage j.stage
    >> (if j.committed then pure tt else rollback j.stage 0 j.files)
    >> clean_stage j.stage
    >> atomic not_finished (λ d. record d { journal = absent })
    >> sync_dir

abbrev pub is_bad_suffix : Journal → Str → Bool
is_bad_suffix j suffix =
    not (j.version == 1)
    || (not (len suffix == 32)
        || (not (all is_hexdigit (bytes suffix))
            || (ltb 6 (length j.files) || any (λ n. not (any (str_eq n) allowed)) j.files)))

abbrev checked : Journal → Option Str → Result Error Journal
checked j none = err bad_stage
checked j (some suffix) = if is_bad_suffix j suffix then err journal_invalid else ok j

-- What recovery asks of a journal that it reads.
unfoldable pub check_journal : Journal → Result Error Journal
check_journal j = checked j (strip_prefix stage_prefix j.stage)

abbrev check_parsed : Option Journal → Result Error Journal
check_parsed none = err journal_invalid
check_parsed (some j) = check_journal j

module _ (c : Codec) where
  unfoldable pub read_journal : List ℕ → Result Error Journal
  unfolding check_journal
  read_journal b = check_parsed (c.from_slice b)

  abbrev pub recover_from : Node → Io Disk Error (Unit {0})
  recover_from absent = pure tt
  recover_from (file ino b) =
      if leb (length b) 4096
      then query journal_unreadable (λ _. tt) >> lift (read_journal b) >>= finish
      else raise journal_invalid
  recover_from _ = raise journal_invalid

  unfoldable pub recover : Io Disk Error (Unit {0})
  unfolding read_journal finish
  recover = query journal_invalid (λ d. d.journal) >>= recover_from
