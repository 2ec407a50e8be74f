-- ===== src/IdentityTransaction/Commit.antt =====
-- `prepare`, `install_one`, `save_journal` and `commit`.
pub mod Staging
pub mod Saving
pub mod Linking
pub mod Naming
use privacy_lodge.Prelude.{
  ℕ, suc, Bool, true, false, not, ◌||◌, Option, none, some, List, [], ◌∷◌, ◌++◌, map, ltb,
  if◌then◌else◌, Result, ok, err, ok_or, any, length,
}
use privacy_lodge.Text.{Str, codes, str_eq}
use privacy_lodge.Io.{
  Io, pure, raise, lift, query, attempt, probe, catch, best_effort, on_failure, ◌>>=◌, ◌>>◌,
}
use privacy_lodge.IdentityTransaction.{
  Node, absent, directory, other, file, Stage, Disk, Journal, Codec, Error, not_encoded,
  not_published, incomplete, already_there, not_installed, not_prepared, no_directory_made,
  journal_invalid, recovery_pending, sync_dir, write_item, write_next, target, publish, made_stage,
  remove_dir_all, link, hex_digits, stage_prefix, is_absent,
}
use privacy_lodge.IdentityTransaction.Recover.{recover}

-- The staging directory's name, of a random number below 2^128.
unfoldable pub stage_name : ℕ → Str
unfolding hex_digits
stage_name random = stage_prefix ++ hex_digits 32 random []

abbrev has_file : Str → List (Str × List ℕ) → Bool
has_file n files = any (str_eq n) (map (λ f. f.0) files)

abbrev pub is_incomplete : List (Str × List ℕ) → Bool
is_incomplete files =
    ltb 6 (length files)
    || (not (has_file (codes "box.json") files) || not (has_file (codes "secrets.json") files))

abbrev pub journal_of : Str → List (Str × List ℕ) → Bool → Journal
journal_of st files committed = record {
  version = 1;
  stage = st;
  files = map (λ f. f.0) files;
  committed = committed;
}

unfoldable pub stage_all : Str → ℕ → List (Str × List ℕ) → Io Disk Error (Unit {0})
unfolding write_item
stage_all st k [] = pure tt
stage_all st k ((_, b) ∷ files) = write_item st k b >> stage_all st (suc k) files

-- A name that is there twice or taken; where it cannot be told, the name counts as free.
unfoldable pub check_targets : List Str → List (Str × List ℕ) → Io Disk Error (Unit {0})
unfolding target
check_targets seen [] = pure tt
check_targets seen ((n, _) ∷ files) =
    target n false
    >> (if any (str_eq n) seen
        then pure true
        else probe already_there (λ d. not (is_absent (d.files n))) false)
    >>= λ taken. if taken then raise already_there else check_targets (n ∷ seen) files

unfoldable pub install_one : Str → ℕ → Str → Io Disk Error (Unit {0})
unfolding target sync_dir
install_one st k name = target name true >> attempt not_installed (link st k name) >> sync_dir

unfoldable pub install_all : Str → ℕ → List Str → Io Disk Error (Unit {0})
unfolding install_one
install_all st k [] = pure tt
install_all st k (name ∷ names) = install_one st k name >> install_all st (suc k) names

module _ (c : Codec) where
  unfoldable pub save_journal : Journal → Io Disk Error (Unit {0})
  unfolding write_next sync_dir
  save_journal j =
      lift (ok_or (c.to_vec j) not_encoded)
      >>= write_next j.stage
      >> attempt not_published (publish j.stage)
      >> sync_dir

  -- The staging directory of a failed attempt goes, unless the journal is there.
  abbrev pub discard : Str → Io Disk Error (Unit {0})
  discard st = probe journal_invalid (λ d. not (is_absent d.journal)) false >>= λ there.
      if there then pure tt else best_effort (remove_dir_all not_prepared st)

  unfoldable pub prepare : ℕ → List (Str × List ℕ) → Io Disk Error Journal
  unfolding recover check_targets stage_all save_journal stage_name remove_dir_all
  prepare random files =
      let st = stage_name random in
      let j = journal_of st files false in
      recover c
      >> (if is_incomplete files then raise incomplete else pure tt)
      >> check_targets [] files
      >> attempt no_directory_made (λ d. made_stage st (d.stages st) d)
      >> on_failure (stage_all st 0 files >> sync_dir >> save_journal j) (discard st)
      >> pure j

  -- What becomes of an error once recovery was tried.
  abbrev pub give_up : Error → Io Disk Error (Unit {0})
  give_up e = catch (recover c) (λ _. raise (recovery_pending e)) >> raise e

  unfoldable pub commit : ℕ → List (Str × List ℕ) → Io Disk Error (Unit {0})
  unfolding prepare install_all save_journal recover
  commit random files = prepare random files >>= λ j.
      catch (install_all j.stage 0 j.files >> save_journal (record j { committed = true })) give_up
      >> best_effort (recover c)
