-- ===== src/IdentityTransaction/Recover/Outcome.antt =====
-- The outcome of recovery: the journal that it found stands, or it is gone and the files are settled.
use privacy_lodge.Prelude.{
  ℕ, ◌≡◌, refl, sym, true, List, leb, length, arith, ok, ok_inj, ◌⊎◌, inl, inr, ◌∙◌, if◌then◌else◌,
}
use privacy_lodge.Text.{Str}
use privacy_lodge.Io.{pure}
use privacy_lodge.Io.Laws.{
  Spec, Spec-bind, Spec-pure, Spec-raise, Spec-query, Spec-atomic, Spec-if, Spec-syscall, Spec-lift,
  Spec-weaken, Spec-known,
}
use privacy_lodge.Io.Handlers.{Keeps, Spec-probe}
use privacy_lodge.IdentityTransaction.{
  Node, absent, file, Stage, no_stage, no_directory, staging, Disk, Journal, Codec, Error, sync_dir,
  remove_dir_all, remove_stage,
}
use privacy_lodge.IdentityTransaction.Recover.{
  rollback, check_stage, clean_stage, finish, read_journal, recover_from, recover,
}

-- The journal, and what holds of the files.
abbrev pub At : Node → ((Str → Node) → Type 0) → Disk → Type 0
At n A d = (d.journal ≡ n) × A d.files

module _ (n : Node) (A : (Str → Node) → Type 0) where
  remove_stage-Keeps : (e : Error) (st : Str) (s : Stage) → Keeps (At n A) (remove_stage e st s)
  remove_stage-Keeps e st no_directory = Spec-raise _ (λ s f. f)
  remove_stage-Keeps e st no_stage = Spec-syscall _ _ _ _ _ (λ s f. f) (λ k s f. f) (λ k s f. f)
  remove_stage-Keeps e st (staging _ _) =
      Spec-syscall _ _ _ _ _ (λ s f. f) (λ k s f. f) (λ k s f. f)

  pub remove_dir_all-Keeps : (e : Error) (st : Str) → Keeps (At n A) (remove_dir_all e st)
  unfolding remove_dir_all
  remove_dir_all-Keeps e st =
      Spec-bind {Q = λ _. At n A} _ _ (Spec-query _ _ (λ s f. f) (λ s f. f) (λ s f. f))
        (remove_stage-Keeps e st)

  check_stage-Keeps : (st : Str) → Keeps (At n A) (check_stage st)
  unfolding check_stage
  check_stage-Keeps st =
      Spec-bind {Q = λ _. At n A} _ _ (Spec-probe _ _ _ (λ s f. f) (λ s f. f) (λ s f. f))
        (λ b. Spec-if b _ _ (λ _. Spec-raise _ (λ s f. f)) (λ _. Spec-pure _ (λ s f. f)))

  clean_stage-Keeps : (st : Str) → Keeps (At n A) (clean_stage st)
  unfolding clean_stage
  clean_stage-Keeps st =
      Spec-bind {Q = λ _. At n A} _ _ (Spec-probe _ _ _ (λ s f. f) (λ s f. f) (λ s f. f))
        (λ b. Spec-if b _ _ (λ _. remove_dir_all-Keeps _ st) (λ _. Spec-pure _ (λ s f. f)))

-- The journal stands, or it is gone and the files are settled.
abbrev pub Either : Node → ((Str → Node) → Type 0) → ((Str → Node) → Type 0) → Disk → Type 0
Either n A B d = At n A d ⊎ At absent B d

module _ (n : Node) (A B : (Str → Node) → Type 0) (weaker : (f : Str → Node) → B f → A f) where
  finish_outcome :
      (j : Journal)
      → Spec
          (At n A)
          (if j.committed then pure tt else rollback j.stage 0 j.files)
          (λ _. At n B)
          (λ _. At n A)
          (At n A)
      → Spec (At n A) (finish j) (λ _. At absent B) (λ _. Either n A B) (Either n A B)
  unfolding finish sync_dir
  finish_outcome j middle =
      Spec-bind {Q = λ _. At absent B} _ _
        (Spec-bind {Q = λ _. At n B} _ _
          (Spec-bind {Q = λ _. At n B} _ _
            (Spec-bind {Q = λ _. At n A} _ _
              (Spec-weaken _ (check_stage-Keeps n A j.stage) (λ s f. f) (λ _ s f. f)
                (λ _ s f. inl f) (λ s f. inl f))
              (λ _. Spec-weaken _ middle (λ s f. f) (λ _ s f. f) (λ _ s f. inl f) (λ s f. inl f)))
            (λ _.
              Spec-weaken _ (clean_stage-Keeps n B j.stage) (λ s f. f) (λ _ s f. f)
                (λ _ s f. inl (f.0, weaker s.files f.1)) (λ s f. inl (f.0, weaker s.files f.1))))
          (λ _.
            Spec-atomic _ _ (λ s f. (refl, f.1)) (λ s f. inl (f.0, weaker s.files f.1))
              (λ s f. inl (f.0, weaker s.files f.1)) (λ s f. inr (refl, f.1))))
        (λ _. Spec-query _ _ (λ s f. f) (λ s f. inr f) (λ s f. inr f))

module _ (c : Codec) where
  -- Without a journal there is nothing to recover.
  pub recover-absent : (A : (Str → Node) → Type 0) → Keeps (At absent A) (recover c)
  unfolding recover
  recover-absent A =
      Spec-bind {Q = λ m d. (m ≡ absent) × At absent A d} _ _
        (Spec-query _ _ (λ s f. (f.0, f)) (λ s f. f) (λ s f. f))
        (λ m. Spec-known (recover_from c) m absent (Spec-pure _ (λ s f. f)))

  module _ (ino : ℕ) (b : List ℕ) (A B : (Str → Node) → Type 0)
      (weaker : (f : Str → Node) → B f → A f) (short : leb (length b) 4096 ≡ true) (j : Journal)
      (reads : read_journal c b ≡ ok j) where
    abbrev n : Node
    n = file ino b

    pub recover-outcome :
        Spec
          (At n A)
          (if j.committed then pure tt else rollback j.stage 0 j.files)
          (λ _. At n B)
          (λ _. At n A)
          (At n A)
        → Spec (At n A) (recover c) (λ _. At absent B) (λ _. Either n A B) (Either n A B)
    unfolding recover
    recover-outcome middle =
        Spec-bind {Q = λ m d. (m ≡ n) × At n A d} _ _
          (Spec-query _ _ (λ s f. (f.0, f)) (λ s f. inl f) (λ s f. inl f))
          (λ m. Spec-known (recover_from c) m n (
            Spec-if (leb (length b) 4096) _ _
              (λ _.
                Spec-bind {Q = λ i d. (i ≡ j) × At n A d} _ _
                  (Spec-bind {Q = λ _. At n A} _ _
                    (Spec-query _ _ (λ s f. f) (λ s f. inl f) (λ s f. inl f))
                    (λ _.
                      Spec-lift (read_journal c b) (λ i e s f. (ok_inj (sym e ∙ reads), f))
                        (λ e s f. inl f)))
                  (λ i. Spec-known finish i j (finish_outcome n A B weaker j middle)))
              (λ e. absurd (ground (arith, short, e)))))
