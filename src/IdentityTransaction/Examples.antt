-- ===== src/IdentityTransaction/Examples.antt =====
-- Tests and instances for the transaction: two files are published.
use privacy_lodge.Prelude.{◌≡◌, refl, true, false, some, List, [], ◌∷◌, ◌⊎◌}
use privacy_lodge.Text.{strip_prefix, bytes, bytes_of_char}
use privacy_lodge.Io.{Fault, works, crashes, done}
use privacy_lodge.IdentityTransaction.{
  absent, Disk, sync_dir, write_item, write_next, walk, target, parents, remove_dir_all, hex_digits,
}
use privacy_lodge.IdentityTransaction.Recover.{
  recover, read_journal, check_journal, finish, rollback, rollback_one, check_stage, clean_stage,
}
use privacy_lodge.IdentityTransaction.Commit.{
  commit, journal_of, prepare, stage_name, stage_all, check_targets, install_one, install_all,
  save_journal,
}
use privacy_lodge.IdentityTransaction.Commit.Linking.{Complete}
use privacy_lodge.IdentityTransaction.Outcome.{NoneOf}
use privacy_lodge.IdentityTransaction.Sample.{two_files, two_codec, empty_disk}
use privacy_lodge.IdentityTransaction.AllOrNothing.{launches, commit-all_or_nothing, commit-durable}

encoded : two_codec.to_vec (journal_of (stage_name 7) two_files false) ≡ some (0 ∷ [])
unfolding stage_name hex_digits
encoded = refl

encoded_marked : two_codec.to_vec (journal_of (stage_name 7) two_files true) ≡ some (1 ∷ [])
unfolding stage_name hex_digits
encoded_marked = refl

commits : (commit two_codec 7 two_files empty_disk []).0 ≡ done tt
unfolding commit prepare stage_name hex_digits stage_all check_targets install_one install_all
    save_journal recover read_journal check_journal finish rollback rollback_one check_stage
    clean_stage sync_dir write_item write_next walk target parents remove_dir_all strip_prefix bytes
    bytes_of_char
commits = refl

-- The process dies in the middle of the installation.
abbrev dies : List Fault
dies =
    works
    ∷ works
    ∷ works
    ∷ works
    ∷ works
    ∷ works
    ∷ works
    ∷ works
    ∷ works
    ∷ works
    ∷ works
    ∷ works
    ∷ works
    ∷ works
    ∷ works
    ∷ works
    ∷ works
    ∷ crashes 1
    ∷ []

abbrev left : Disk
left = (commit two_codec 7 two_files empty_disk dies).1

recovers : (recover two_codec (launches two_codec ((crashes 0 ∷ []) ∷ []) left) []).0 ≡ done tt
unfolding commit prepare stage_name hex_digits stage_all check_targets install_one install_all
    save_journal recover read_journal check_journal finish rollback rollback_one check_stage
    clean_stage sync_dir write_item write_next walk target parents remove_dir_all strip_prefix bytes
    bytes_of_char
recovers = refl

commit-all_or_nothing_example :
    let after = (recover two_codec (launches two_codec ((crashes 0 ∷ []) ∷ []) left) []).1 in
    (after.journal ≡ absent) × (NoneOf two_files after.files ⊎ Complete two_files after.files)
commit-all_or_nothing_example =
    commit-all_or_nothing two_codec 7 two_files (0 ∷ []) (1 ∷ []) refl refl encoded encoded_marked
      refl refl empty_disk dies ((crashes 0 ∷ []) ∷ []) [] refl (refl, (refl, tt)) recovers

commit-durable_example :
    Complete two_files
      (launches two_codec
        ((crashes 0 ∷ []) ∷ [])
        (commit two_codec 7 two_files empty_disk []).1).files
commit-durable_example =
    commit-durable two_codec 7 two_files (0 ∷ []) (1 ∷ []) refl refl encoded encoded_marked refl
      refl empty_disk [] ((crashes 0 ∷ []) ∷ []) refl (refl, (refl, tt)) commits
