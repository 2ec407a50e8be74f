-- ===== src/IdentityTransaction/AllOrNothing.antt =====
-- A commit that anything interrupts, and the recoveries of the launches after it.
use privacy_lodge.Prelude.{
  ℕ, ◌≡◌, true, false, some, List, [], ◌∷◌, ◌⊎◌, inl, inr, all, leb, ltb, length,
}
use privacy_lodge.Text.{Str}
use privacy_lodge.Io.{Fault, done}
use privacy_lodge.Io.Handlers.{everywhere, returned}
use privacy_lodge.IdentityTransaction.{absent, Disk, Codec}
use privacy_lodge.IdentityTransaction.Recover.{recover}
use privacy_lodge.IdentityTransaction.Recover.Outcome.{At}
use privacy_lodge.IdentityTransaction.Commit.{stage_name, journal_of, commit}
use privacy_lodge.IdentityTransaction.Commit.Linking.{Complete}
use privacy_lodge.IdentityTransaction.Commit.Naming.{is_listed, read_journal-journal_of}
use privacy_lodge.IdentityTransaction.Outcome.{
  NoneOf, Journals, Settled, Recoverable, Whole, recover-Whole, recover-Recoverable,
}
use privacy_lodge.IdentityTransaction.Committed.{commit_lem}

module _ (c : Codec) where
  -- Launches after a commit, each with what befalls its recovery.
  abbrev pub launches : List (List Fault) → Disk → Disk
  launches [] d = d
  launches (fs ∷ rest) d = launches rest (recover c d fs).1

module _ (c : Codec) (random : ℕ) (files : List (Str × List ℕ))
    (js : Journals c (stage_name random) files) where
  abbrev st : Str
  st = stage_name random

  launches-Recoverable :
      (rs : List (List Fault)) (d : Disk)
      → Recoverable c st files js d
      → Recoverable c st files js (launches c rs d)
  launches-Recoverable [] d p = p
  launches-Recoverable (fs ∷ rs) d p = launches-Recoverable rs (recover c d fs).1 (
      everywhere (Recoverable c st files js) (λ _. Settled c st files js)
        (λ _. Recoverable c st files js) (Recoverable c st files js) (λ _ s h. inl h) (λ _ s h. h)
        (λ s h. h) (recover c d fs).0 (recover c d fs).1
        ((recover-Recoverable c st files js).at d fs p))

  launches-Whole :
      (rs : List (List Fault)) (d : Disk)
      → Whole c st files js d
      → Whole c st files js (launches c rs d)
  launches-Whole [] d p = p
  launches-Whole (fs ∷ rs) d p = launches-Whole rs (recover c d fs).1 (
      everywhere (Whole c st files js) (λ _. At absent (Complete files)) (λ _. Whole c st files js)
        (Whole c st files js) (λ _ s h. inr h) (λ _ s h. h) (λ s h. h) (recover c d fs).0
        (recover c d fs).1 ((recover-Whole c st files js).at d fs p))

  whole-Complete : (d : Disk) → Whole c st files js d → Complete files d.files
  whole-Complete d (inl p) = p.1.1
  whole-Complete d (inr p) = p.1

  -- A recovery that returns settles what can be recovered.
  pub Recoverable-settles :
      (rs : List (List Fault)) (gs : List Fault) (d : Disk)
      → Recoverable c st files js d
      → (recover c (launches c rs d) gs).0 ≡ done tt
      → let after = (recover c (launches c rs d) gs).1 in
        (after.journal ≡ absent) × (NoneOf files after.files ⊎ Complete files after.files)
  Recoverable-settles rs gs d p h =
      let q =
        returned (λ _. Settled c st files js) (λ _. Recoverable c st files js)
          (Recoverable c st files js) (recover c (launches c rs d) gs).0 tt
          (recover c (launches c rs d) gs).1 h
          ((recover-Recoverable c st files js).at (launches c rs d) gs
            (launches-Recoverable rs d p)) in
      elim q [ inl x ↦ (x.0, inl x.1) | inr x ↦ (x.0, inr x.1) ]

  -- What is whole stays whole.
  pub Whole-stays :
      (rs : List (List Fault)) (d : Disk)
      → Whole c st files js d
      → Complete files (launches c rs d).files
  Whole-stays rs d p = whole-Complete (launches c rs d) (launches-Whole rs d p)

  commit-Recoverable :
      (d : Disk) (fs : List Fault)
      → d.journal ≡ absent
      → NoneOf files d.files
      → Recoverable c st files js (commit c random files d fs).1
  commit-Recoverable d fs free none =
      everywhere (Recoverable c st files js) (λ _. Whole c st files js)
        (λ _. Recoverable c st files js) (Recoverable c st files js)
        (λ _ s h. elim h [ inl q ↦ inr (inr q) | inr q ↦ inl (inr q) ]) (λ _ s h. h) (λ s h. h)
        (commit c random files d fs).0 (commit c random files d fs).1
        ((commit_lem c random files js).at d fs (free, none))

-- Files of the names that are allowed, at most six, and the journals of their transaction as they
-- are written, within the limit that recovery has.
module _ (c : Codec) (random : ℕ) (files : List (Str × List ℕ)) (unmarked marked : List ℕ)
    (few : ltb 6 (length files) ≡ false) (listed : all is_listed files ≡ true)
    (to_unmarked : c.to_vec (journal_of (stage_name random) files false) ≡ some unmarked)
    (to_marked : c.to_vec (journal_of (stage_name random) files true) ≡ some marked)
    (short_unmarked : leb (length unmarked) 4096 ≡ true)
    (short_marked : leb (length marked) 4096 ≡ true) where
  abbrev pub js : Journals c (stage_name random) files
  js = record {
    unmarked = unmarked;
    marked = marked;
    to_unmarked = to_unmarked;
    to_marked = to_marked;
    short_unmarked = short_unmarked;
    short_marked = short_marked;
    reads_unmarked = read_journal-journal_of c random files false unmarked few listed to_unmarked;
    reads_marked = read_journal-journal_of c random files true marked few listed to_marked;
  }

  abbrev at_stage : Str
  at_stage = stage_name random

  -- At most six files of allowed names, whose journals have at most 4096 bytes, are committed to a
  -- disk with no journal and none of the files. Whatever operation of commit, and of the recoveries
  -- of later launches, fails or is the last of its process: once a recovery returns, there is no
  -- journal, and either all files are there with their bytes or none is.
  pub commit-all_or_nothing :
      (d : Disk) (fs : List Fault) (rs : List (List Fault)) (gs : List Fault)
      → d.journal ≡ absent
      → NoneOf files d.files
      → (recover c (launches c rs (commit c random files d fs).1) gs).0 ≡ done tt
      → let after = (recover c (launches c rs (commit c random files d fs).1) gs).1 in
        (after.journal ≡ absent) × (NoneOf files after.files ⊎ Complete files after.files)
  commit-all_or_nothing d fs rs gs free none h =
      Recoverable-settles c random files js rs gs (commit c random files d fs).1
        (commit-Recoverable c random files js d fs free none) h

  -- Once commit has returned for such files on such a disk, all of them are there with their bytes,
  -- and no recovery of a later launch takes them back, whatever befalls it.
  pub commit-durable :
      (d : Disk) (fs : List Fault) (rs : List (List Fault))
      → d.journal ≡ absent
      → NoneOf files d.files
      → (commit c random files d fs).0 ≡ done tt
      → Complete files (launches c rs (commit c random files d fs).1).files
  commit-durable d fs rs free none h =
      Whole-stays c random files js rs (commit c random files d fs).1 (
        returned (λ _. Whole c at_stage files js) (λ _. Recoverable c at_stage files js)
          (Recoverable c at_stage files js) (commit c random files d fs).0 tt
          (commit c random files d fs).1 h ((commit_lem c random files js).at d fs (free, none)))
