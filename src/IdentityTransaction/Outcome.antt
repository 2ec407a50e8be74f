-- ===== src/IdentityTransaction/Outcome.antt =====
-- What a commit and the recoveries after it leave.
use privacy_lodge.Prelude.{
  ℕ, ◌≡◌, true, false, some, List, map, All, leb, length, ◌⊎◌, inl, inr, ok,
}
use privacy_lodge.Text.{Str}
use privacy_lodge.Io.Laws.{Spec, Spec-pure, Spec-weaken}
use privacy_lodge.Io.Handlers.{Spec-or, Spec-exists}
use privacy_lodge.IdentityTransaction.{Node, absent, file, Disk, Codec}
use privacy_lodge.IdentityTransaction.Recover.{read_journal, recover}
use privacy_lodge.IdentityTransaction.Recover.Rollback.{rollback_removes}
use privacy_lodge.IdentityTransaction.Recover.Outcome.{At, recover-absent, recover-outcome}
use privacy_lodge.IdentityTransaction.Commit.{journal_of}
use privacy_lodge.IdentityTransaction.Commit.Linking.{Complete}

abbrev pub NoneOf : List (Str × List ℕ) → (Str → Node) → Type 0
NoneOf files f = All (λ n. f n ≡ absent) (map (λ x. x.0) files)

-- A codec, and the two journals of a transaction as they are written.
pub record Journals (c : Codec) (st : Str) (files : List (Str × List ℕ)) : Type 0 where
  pub unmarked : List ℕ
  pub marked : List ℕ
  pub to_unmarked : c.to_vec (journal_of st files false) ≡ some unmarked
  pub to_marked : c.to_vec (journal_of st files true) ≡ some marked
  pub short_unmarked : leb (length unmarked) 4096 ≡ true
  pub short_marked : leb (length marked) 4096 ≡ true
  pub reads_unmarked : read_journal c unmarked ≡ ok (journal_of st files false)
  pub reads_marked : read_journal c marked ≡ ok (journal_of st files true)

module _ (c : Codec) (st : Str) (files : List (Str × List ℕ)) (js : Journals c st files) where
  -- No journal, and none of the files, or all of them.
  abbrev pub Settled : Disk → Type 0
  Settled d = At absent (NoneOf files) d ⊎ At absent (Complete files) d

  -- The journal is there; if it is marked, all files are.
  abbrev pub Open : Disk → Type 0
  Open d =
      ((ino : ℕ) × At (file ino js.unmarked) (λ _. Unit {0}) d)
      ⊎ ((ino : ℕ) × At (file ino js.marked) (Complete files) d)

  abbrev pub Recoverable : Disk → Type 0
  Recoverable d = Settled d ⊎ Open d

  unmarked_recovers :
      (ino : ℕ)
      → Spec
          (At (file ino js.unmarked) (λ _. Unit {0}))
          (recover c)
          (λ _. Settled)
          (λ _. Recoverable)
          Recoverable
  unmarked_recovers ino =
      Spec-weaken _
        (recover-outcome c ino js.unmarked (λ _. Unit {0}) (NoneOf files) (λ f p. tt)
          js.short_unmarked (journal_of st files false) js.reads_unmarked
          (Spec-weaken _
            (rollback_removes {F = λ d. d.journal ≡ file ino js.unmarked} (λ d m p. p) (λ d n p. p)
              st 0 (map (λ x. x.0) files))
            (λ s p. p.0) (λ _ s p. p) (λ _ s p. (p, tt)) (λ s p. (p, tt))))
        (λ s p. p) (λ _ s p. inl p)
        (λ _ s p. elim p [ inl q ↦ inr (inl (ino, q)) | inr q ↦ inl (inl q) ])
        (λ s p. elim p [ inl q ↦ inr (inl (ino, q)) | inr q ↦ inl (inl q) ])

  -- All files are there, whatever interrupts recovery.
  abbrev pub Whole : Disk → Type 0
  Whole d = ((ino : ℕ) × At (file ino js.marked) (Complete files) d) ⊎ At absent (Complete files) d

  marked_recovers :
      (ino : ℕ)
      → Spec
          (At (file ino js.marked) (Complete files))
          (recover c)
          (λ _. At absent (Complete files))
          (λ _. Whole)
          Whole
  marked_recovers ino =
      Spec-weaken _
        (recover-outcome c ino js.marked (Complete files) (Complete files) (λ f p. p)
          js.short_marked (journal_of st files true) js.reads_marked (Spec-pure _ (λ s p. p)))
        (λ s p. p) (λ _ s p. p) (λ _ s p. elim p [ inl q ↦ inl (ino, q) | inr q ↦ inr q ])
        (λ s p. elim p [ inl q ↦ inl (ino, q) | inr q ↦ inr q ])

  abbrev whole_recoverable : (d : Disk) → Whole d → Recoverable d
  whole_recoverable d (inl p) = inr (inr p)
  whole_recoverable d (inr p) = inl (inr p)

  pub recover-Whole : Spec Whole (recover c) (λ _. At absent (Complete files)) (λ _. Whole) Whole
  recover-Whole = Spec-or (Spec-exists marked_recovers) (
      Spec-weaken _ (recover-absent c (Complete files)) (λ s p. p) (λ _ s p. p) (λ _ s p. inr p)
        (λ s p. inr p))

  pub recover-Recoverable :
      Spec Recoverable (recover c) (λ _. Settled) (λ _. Recoverable) Recoverable
  recover-Recoverable =
      Spec-or
        (Spec-or
          (Spec-weaken _ (recover-absent c (NoneOf files)) (λ s p. p) (λ _ s p. inl p)
            (λ _ s p. inl (inl p)) (λ s p. inl (inl p)))
          (Spec-weaken _ (recover-absent c (Complete files)) (λ s p. p) (λ _ s p. inr p)
            (λ _ s p. inl (inr p)) (λ s p. inl (inr p))))
        (Spec-or (Spec-exists unmarked_recovers) (
          Spec-weaken _ (Spec-exists marked_recovers) (λ s p. p) (λ _ s p. inr p)
            (λ _ s p. whole_recoverable s p) (λ s p. whole_recoverable s p)))
