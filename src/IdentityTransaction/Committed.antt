-- ===== src/IdentityTransaction/Committed.antt =====
-- What a commit leaves, whatever interrupts it.
use privacy_lodge.Prelude.{ℕ, ◌≡◌, refl, List, true, false, inl, inr, map}
use privacy_lodge.Text.{Str}
use privacy_lodge.Io.{catch, best_effort, ◌>>◌}
use privacy_lodge.Io.Laws.{Spec, Spec-bind, Spec-raise, Spec-weaken, Spec-best_effort, Spec-known}
use privacy_lodge.Io.Handlers.{Spec-catch, Spec-exists}
use privacy_lodge.IdentityTransaction.{Node, absent, file, Disk, Codec, Error}
use privacy_lodge.IdentityTransaction.Recover.{recover}
use privacy_lodge.IdentityTransaction.Recover.Outcome.{At}
use privacy_lodge.IdentityTransaction.Commit.{
  stage_name, journal_of, install_all, save_journal, give_up, commit,
}
use privacy_lodge.IdentityTransaction.Commit.Staging.{Staged, Stages}
use privacy_lodge.IdentityTransaction.Commit.Saving.{OldOrNew, save_journal_lem}
use privacy_lodge.IdentityTransaction.Commit.Linking.{Complete, On, install_all_lem}
use privacy_lodge.IdentityTransaction.Outcome.{
  NoneOf, Journals, Recoverable, Whole, recover-Whole, recover-Recoverable,
}
use privacy_lodge.IdentityTransaction.Prepared.{Fresh, Ready, Marked, prepare_lem}

module _ (c : Codec) (random : ℕ) (files : List (Str × List ℕ))
    (js : Journals c (stage_name random) files) where
  abbrev st : Str
  st = stage_name random

  abbrev Rec : Disk → Type 0
  Rec d = Recoverable c st files js d

  abbrev Done : Disk → Type 0
  Done d = Marked c random files js d

  installed :
      (ino : ℕ) (items : ℕ → Node)
      → Staged 0 files items
      → Spec
          (On (file ino js.unmarked) st items (NoneOf files))
          (install_all st 0 (map (λ f. f.0) files) >> save_journal c (journal_of st files true))
          (λ _. Done)
          (λ _. Rec)
          Rec
  installed ino items all =
      Spec-bind
        {Q = λ _ d.
          At (file ino js.unmarked) (Complete files) d × Stages st absent (λ _. Unit {0}) d}
        _ _
        (Spec-weaken _
          (install_all_lem (file ino js.unmarked) st items 0 files (λ _. Unit {0}) (λ m v f e p. p)
            all)
          (λ s p. ((p.0.0, tt), p.1)) (λ _ s p. ((p.0.0, p.0.1.1), (items, p.1, tt)))
          (λ _ s p. inr (inl (ino, p))) (λ s p. inr (inl (ino, p))))
        (λ _.
          Spec-weaken _
            (save_journal_lem c (journal_of st files true) js.marked js.to_marked
              (file ino js.unmarked) (Complete files) (λ _. Unit {0})
              (inr (ino, js.unmarked, refl)))
            (λ s p. p) (λ _ s p. (p.0, p.1)) (λ _ s p. saved s p) (λ s p. saved s p))
    where
      saved :
          (s : Disk)
          → OldOrNew (file ino js.unmarked) (Complete files) (λ _. Unit {0}) st js.marked s
          → Rec s
      saved s (inl p) = inr (inl (ino, (p.0, tt)))
      saved s (inr p) = inr (inr p)

  Ready-installs :
      Spec
        (Ready c random files js)
        (install_all st 0 (map (λ f. f.0) files) >> save_journal c (journal_of st files true))
        (λ _. Done)
        (λ _. Rec)
        Rec
  Ready-installs =
      Spec-weaken _
        (Spec-exists (λ ino.
          Spec-exists
            {P = λ items d.
              (Staged 0 files items) × On (file ino js.unmarked) st items (NoneOf files) d}
            (λ items. record { at = λ s fs p. (installed ino items p.0).at s fs p.1 })))
        (λ s p. (p.0, (p.2.0, (p.2.2, (p.1, p.2.1))))) (λ _ s p. p) (λ _ s p. p) (λ s p. p)

  give_up_lem : (e : Error) → Spec Rec (give_up c e) (λ _. Done) (λ _. Rec) Rec
  give_up_lem e =
      Spec-bind {Q = λ _. Rec} _ _
        (Spec-catch {G = λ _. Rec} _ _
          (Spec-weaken _ (recover-Recoverable c st files js) (λ s p. p) (λ _ s p. inl p)
            (λ _ s p. p) (λ s p. p))
          (λ _. Spec-raise _ (λ s p. p)))
        (λ _. Spec-raise e (λ s p. p))

  -- Behind each way that a commit ends.
  pub commit_lem :
      Spec
        (Fresh c random files js)
        (commit c random files)
        (λ _. Whole c st files js)
        (λ _. Rec)
        Rec
  unfolding commit
  commit_lem =
      Spec-bind {Q = λ j d. (j ≡ journal_of st files false) × Ready c random files js d} _ _
        (prepare_lem c random files js)
        (λ j.
          Spec-known
            (λ j.
              catch
                (install_all j.stage 0 j.files >> save_journal c (record j { committed = true }))
                (give_up c)
              >> best_effort (recover c))
            j (journal_of st files false)
            (Spec-bind {Q = λ _. Done} _ _ (Spec-catch _ _ Ready-installs give_up_lem) (λ _.
              Spec-best_effort _
                (Spec-weaken _ (recover-Whole c st files js) (λ s p. inl p) (λ _ s p. p)
                  (λ _ s p. p) (λ s p. elim p [ inl q ↦ inr (inr q) | inr q ↦ inl (inr q) ]))
                (λ _ s p. inr p) (λ _ s p. p))))
