-- ===== src/IdentityTransaction/Prepared.antt =====
-- What preparing a transaction leaves, whatever interrupts it.
use privacy_lodge.Prelude.{
  ℕ, ◌≡◌, refl, ap, subst, false, some, none, List, [], ◌∷◌, any, ◌⊎◌, inl, inr,
}
use privacy_lodge.Text.{Str, str_eq}
use privacy_lodge.Io.{pure, raise, ◌>>◌}
use privacy_lodge.Io.Laws.{
  Spec, Spec-bind, Spec-pure, Spec-raise, Spec-query, Spec-weaken, Spec-if, Spec-best_effort,
  Spec-on_failure,
}
use privacy_lodge.Io.Handlers.{Keeps, Spec-probe, Spec-attempt, Spec-or, Spec-exists}
use privacy_lodge.IdentityTransaction.{
  Node, absent, file, Stage, no_stage, no_directory, staging, Disk, Codec, made_stage, sync_dir,
  incomplete,
}
use privacy_lodge.IdentityTransaction.Recover.Rollback.{target-Keeps}
use privacy_lodge.IdentityTransaction.Recover.Outcome.{At, remove_dir_all-Keeps, recover-absent}
use privacy_lodge.IdentityTransaction.Commit.{
  stage_name, journal_of, check_targets, stage_all, save_journal, discard, prepare, is_incomplete,
}
use privacy_lodge.IdentityTransaction.Commit.Staging.{Stages, Staged, in_stage_same, stage_all_lem}
use privacy_lodge.IdentityTransaction.Commit.Saving.{Saved, OldOrNew, save_journal_lem}
use privacy_lodge.IdentityTransaction.Commit.Linking.{Complete}
use privacy_lodge.IdentityTransaction.Outcome.{NoneOf, Journals, Recoverable}

module _ (n : Node) (A : (Str → Node) → Type 0) where
  check_targets-Keeps :
      (seen : List Str) (files : List (Str × List ℕ)) → Keeps (At n A) (check_targets seen files)
  unfolding check_targets
  check_targets-Keeps seen [] = Spec-pure _ (λ s p. p)
  check_targets-Keeps seen ((name, _) ∷ files) =
      Spec-bind {Q = λ _. At n A} _ _
        (Spec-bind {Q = λ _. At n A} _ _ (target-Keeps {F = At n A} (λ d m p. p) name false) (λ _.
          Spec-if (any (str_eq name) seen) _ _ (λ _. Spec-pure _ (λ s p. p))
            (λ _. Spec-probe _ _ _ (λ s p. p) (λ s p. p) (λ s p. p))))
        (λ taken.
          Spec-if taken _ _ (λ _. Spec-raise _ (λ s p. p))
            (λ _. check_targets-Keeps (name ∷ seen) files))

  discard-Keeps : (c : Codec) (st : Str) → Keeps (At n A) (discard c st)
  discard-Keeps c st =
      Spec-bind {Q = λ _. At n A} _ _ (Spec-probe _ _ _ (λ s p. p) (λ s p. p) (λ s p. p)) (λ b.
        Spec-if b _ _ (λ _. Spec-pure _ (λ s p. p))
          (λ _. Spec-best_effort _ (remove_dir_all-Keeps n A _ st) (λ _ s p. p) (λ _ s p. p)))

  -- A new staging directory is empty.
  stage_made :
      (st : Str) (x : Stage) (s t : Disk)
      → made_stage st x s ≡ some t
      → At n A s
      → At n A t × Stages st absent (λ i. (k : ℕ) → i k ≡ absent) t
  stage_made st no_directory s t h p = cc
  stage_made st (staging _ _) s t h p = cc
  stage_made st no_stage s t h p =
      subst (λ d. At n A d × Stages st absent (λ i. (k : ℕ) → i k ≡ absent) d)
        (ap (λ o. elim o [ some x ↦ x | none ↦ t ]) h)
        (
          p,
          (
            (λ _. absent),
            in_stage_same st (λ _. staging (λ _. absent) absent) s (s.stages st) refl,
            (λ k. refl),
          ),
        )

module _ (c : Codec) (random : ℕ) (files : List (Str × List ℕ))
    (js : Journals c (stage_name random) files) where
  abbrev pub st : Str
  st = stage_name random

  abbrev pub Fresh : Disk → Type 0
  Fresh d = At absent (NoneOf files) d

  abbrev pub Rec : Disk → Type 0
  Rec d = Recoverable c st files js d

  abbrev pub Marked : Disk → Type 0
  Marked d = (ino : ℕ) × At (file ino js.marked) (Complete files) d

  abbrev pub Unmarked : Disk → Type 0
  Unmarked d = (ino : ℕ) × At (file ino js.unmarked) (λ _. Unit {0}) d

  -- The files are staged, and the journal is there.
  abbrev pub Ready : Disk → Type 0
  Ready d = Saved absent (NoneOf files) (Staged 0 files) st js.unmarked d

  discard_either : Keeps (λ d. Fresh d ⊎ Unmarked d) (discard c st)
  discard_either =
      Spec-or
        (Spec-weaken _ (discard-Keeps absent (NoneOf files) c st) (λ s p. p) (λ _ s p. inl p)
          (λ _ s p. inl p) (λ s p. inl p))
        (Spec-exists (λ ino.
          Spec-weaken _ (discard-Keeps (file ino js.unmarked) (λ _. Unit {0}) c st) (λ s p. p)
            (λ _ s p. inr (ino, p)) (λ _ s p. inr (ino, p)) (λ s p. inr (ino, p))))

  staged_and_saved :
      Spec
        (λ d. Fresh d × Stages st absent (λ i. (k : ℕ) → i k ≡ absent) d)
        (stage_all st 0 files >> sync_dir >> save_journal c (journal_of st files false))
        (λ _. Ready)
        (λ _ d. Fresh d ⊎ Unmarked d)
        (λ d. Fresh d ⊎ Unmarked d)
  unfolding sync_dir
  staged_and_saved =
      Spec-bind {Q = λ _ d. Fresh d × Stages st absent (Staged 0 files) d} _ _
        (Spec-bind {Q = λ _ d. Fresh d × Stages st absent (Staged 0 files) d} _ _
          (Spec-weaken _
            (stage_all_lem absent (NoneOf files) st 0 files (λ _. Unit {0}) (λ k f g e a p. p))
            (λ s p. (p.0, (p.1.0, p.1.1, tt))) (λ _ s p. (p.0, (p.1.0, p.1.1, p.1.2.1)))
            (λ _ s p. inl p) (λ s p. inl p))
          (λ _. Spec-query _ _ (λ s p. p) (λ s p. inl p.0) (λ s p. inl p.0)))
        (λ _.
          Spec-weaken _
            (save_journal_lem c (journal_of st files false) js.unmarked js.to_unmarked absent
              (NoneOf files) (Staged 0 files) (inl refl))
            (λ s p. p) (λ _ s p. p) (λ _ s p. saved s p) (λ s p. saved s p))
    where
      saved :
          (s : Disk)
          → OldOrNew absent (NoneOf files) (Staged 0 files) st js.unmarked s
          → Fresh s ⊎ Unmarked s
      saved s (inl p) = inl p
      saved s (inr (ino, p)) = inr (ino, (p.0, tt))

  either_Rec : (s : Disk) → Fresh s ⊎ Unmarked s → Rec s
  either_Rec s (inl p) = inl (inl p)
  either_Rec s (inr p) = inr (inl p)

  pub prepare_lem :
      Spec Fresh
        (prepare c random files)
        (λ j d. (j ≡ journal_of st files false) × Ready d)
        (λ _. Rec)
        Rec
  unfolding prepare
  prepare_lem =
      Spec-bind {Q = λ _. Ready} _ _
        (Spec-bind {Q = λ _ d. Fresh d × Stages st absent (λ i. (k : ℕ) → i k ≡ absent) d} _ _
          (Spec-bind {Q = λ _. Fresh} _ _
            (Spec-bind {Q = λ _. Fresh} _ _
              (Spec-bind {Q = λ _. Fresh} _ _
                (Spec-weaken _ (recover-absent c (NoneOf files)) (λ s p. p) (λ _ s p. p)
                  (λ _ s p. inl (inl p)) (λ s p. inl (inl p)))
                (λ _.
                  Spec-if (is_incomplete files) (raise incomplete) (pure tt)
                    (λ _. Spec-raise _ (λ s p. inl (inl p))) (λ _. Spec-pure _ (λ s p. p))))
              (λ _.
                Spec-weaken _ (check_targets-Keeps absent (NoneOf files) [] files) (λ s p. p)
                  (λ _ s p. p) (λ _ s p. inl (inl p)) (λ s p. inl (inl p))))
            (λ _.
              Spec-attempt _ (λ d. made_stage st (d.stages st) d)
                (λ s t h p.
                  let m = stage_made absent (NoneOf files) st (s.stages st) s t h p in
                  (m, inl (inl m.0)))
                (λ s p. inl (inl p)) (λ s p. inl (inl p))))
          (λ _.
            Spec-weaken _ (Spec-on_failure _ _ staged_and_saved (λ _. discard_either)) (λ s p. p)
              (λ _ s p. p) (λ _ s p. either_Rec s p) (λ s p. either_Rec s p)))
        (λ _. Spec-pure _ (λ s p. (refl, p)))
