-- ===== src/IdentityTransaction/Recover/Rollback.antt =====
-- What recovery leaves, whatever interrupts it.
use privacy_lodge.Prelude.{
  ℕ, suc, ◌≡◌, refl, subst, Bool, true, false, List, [], ◌∷◌, ◌==◌, arith, if◌then◌else◌, some,
  none, not, any, All,
}
use privacy_lodge.Text.{Str, str_eq}
use privacy_lodge.Text.Laws.{str_eq_refl}
use privacy_lodge.Io.Laws.{
  Spec, Spec-bind, Spec-pure, Spec-raise, Spec-query, Spec-atomic, Spec-if, Spec-weaken,
}
use privacy_lodge.Io.Handlers.{Keeps, Spec-attempt}
use privacy_lodge.IdentityTransaction.{
  Node, absent, directory, other, file, Stage, Disk, sync_dir, target, walk, visit, make_dir,
  parents, unlink, set_at, is_absent, allowed,
}
use privacy_lodge.IdentityTransaction.Recover.{unlink_linked, take_back, rollback_one, rollback}

set_at_same : {A : Type 0} (k : Str) (a : A) (f : Str → A) → set_at k a f k ≡ a
set_at_same k a f = rw (str_eq_refl k)

-- What neither looks at the directories nor at the staging.
pub record IsFrame (F : Disk → Type 0) : Type 0 where
  pub dirs : (d : Disk) (m : Str → Node) → F d → F (record d { dirs = m })
  pub stages : (d : Disk) (m : Str → Stage) → F d → F (record d { stages = m })

module _ {F : Disk → Type 0}
    (closed : (d : Disk) (m : Str → Node) → F d → F (record d { dirs = m })) where
  made_keeps :
      (p : Str) (s t : Disk) (b : Bool)
      → (if b then some (record s { dirs = set_at p directory s.dirs }) else none) ≡ some t
      → F s
      → F t
  made_keeps p s t true h f = subst F (ground (arith, h)) (closed s (set_at p directory s.dirs) f)
  made_keeps p s t false h f = cc

  visit-Keeps : (create : Bool) (p : Str) (n : Node) → Keeps F (visit create p n)
  visit-Keeps create p directory = Spec-pure _ (λ s f. f)
  visit-Keeps create p other = Spec-raise _ (λ s f. f)
  visit-Keeps create p (file _ _) = Spec-raise _ (λ s f. f)
  visit-Keeps false p absent = Spec-pure _ (λ s f. f)
  visit-Keeps true p absent =
      Spec-bind {Q = λ _. F} _ _
        (Spec-attempt _ (make_dir p)
          (λ s t h f. let g = made_keeps p s t (is_absent (s.dirs p)) h f in (g, g)) (λ s f. f)
          (λ s f. f))
        (λ _. Spec-query _ _ (λ s f. f) (λ s f. f) (λ s f. f))

  walk-Keeps : (create : Bool) (ps : List Str) → Keeps F (walk create ps)
  unfolding walk
  walk-Keeps create [] = Spec-pure _ (λ s f. f)
  walk-Keeps create (p ∷ ps) =
      Spec-bind {Q = λ _. F} _ _
        (Spec-bind {Q = λ _. F} _ _ (Spec-query _ _ (λ s f. f) (λ s f. f) (λ s f. f))
          (λ n. visit-Keeps create p n))
        (λ _. walk-Keeps create ps)

  pub target-Keeps : (name : Str) (create : Bool) → Keeps F (target name create)
  unfolding target
  target-Keeps name create =
      Spec-if (not (any (str_eq name) allowed)) _ _ (λ _. Spec-raise _ (λ s f. f))
        (λ _. walk-Keeps create (parents [] name))

  module _ (unlinked : (d : Disk) (n : Str) → F d → F (unlink n d)) where
    unlink_linked_removes :
        (name : Str) (ino : ℕ) (n : Node)
        → Spec F (unlink_linked name ino n) (λ _ d. F d × (d.files name ≡ absent)) (λ _. F) F
    unfolding sync_dir
    unlink_linked_removes name ino absent = Spec-raise _ (λ s f. f)
    unlink_linked_removes name ino directory = Spec-raise _ (λ s f. f)
    unlink_linked_removes name ino other = Spec-raise _ (λ s f. f)
    unlink_linked_removes name ino (file ino' _) =
        Spec-if (ino == ino') _ _
          (λ _.
            Spec-bind {Q = λ _ d. F d × (d.files name ≡ absent)} _ _
              (Spec-atomic _ _ (λ s f. (unlinked s name f, set_at_same name absent s.files))
                (λ s f. f) (λ s f. f) (λ s f. unlinked s name f))
              (λ _. Spec-query _ _ (λ s h. h) (λ s h. h.0) (λ s h. h.0)))
          (λ _. Spec-raise _ (λ s f. f))

    take_back_removes :
        (st : Str) (k : ℕ) (name : Str) (n : Node)
        → Spec
            (λ d. F d × (d.files name ≡ n))
            (take_back st k name n)
            (λ _ d. F d × (d.files name ≡ absent))
            (λ _. F)
            F
    take_back_removes st k name absent = Spec-pure _ (λ s h. h)
    take_back_removes st k name directory = Spec-raise _ (λ s h. h.0)
    take_back_removes st k name other = Spec-raise _ (λ s h. h.0)
    take_back_removes st k name (file ino _) =
        Spec-bind {Q = λ _. F} _ _ (Spec-query _ _ (λ s h. h.0) (λ s h. h.0) (λ s h. h.0))
          (λ n. unlink_linked_removes name ino n)

    rollback_one_removes :
        (st : Str) (k : ℕ) (name : Str)
        → Spec F (rollback_one st k name) (λ _ d. F d × (d.files name ≡ absent)) (λ _. F) F
    unfolding rollback_one
    rollback_one_removes st k name =
        Spec-bind {Q = λ n d. F d × (d.files name ≡ n)} _ _
          (Spec-bind {Q = λ _. F} _ _ (target-Keeps name false)
            (λ _. Spec-query _ _ (λ s f. (f, refl)) (λ s f. f) (λ s f. f)))
          (λ n. take_back_removes st k name n)

-- None of the names is there.
abbrev pub Nothing : List Str → Disk → Type 0
Nothing names d = All (λ n. d.files n ≡ absent) names

unlinked_absent :
    (d : Disk) (n name : Str) (b : Bool)
    → d.files name ≡ absent
    → (if b then absent else d.files name) ≡ absent
unlinked_absent d n name true h = refl
unlinked_absent d n name false h = h

pub rollback_removes :
    {F : Disk → Type 0} (closed : (d : Disk) (m : Str → Node) → F d → F (record d { dirs = m }))
    (unlinked : (d : Disk) (n : Str) → F d → F (unlink n d)) (st : Str) (k : ℕ) (names : List Str)
    → Spec F (rollback st k names) (λ _ d. F d × Nothing names d) (λ _. F) F
unfolding rollback
rollback_removes closed unlinked st k [] = Spec-pure _ (λ s f. (f, tt))
rollback_removes {F} closed unlinked st k (name ∷ names) =
    Spec-bind {Q = λ _ d. F d × (d.files name ≡ absent)} _ _
      (rollback_one_removes closed unlinked st k name)
      (λ _.
        Spec-weaken _
          (rollback_removes {F = λ d. F d × (d.files name ≡ absent)}
            (λ d m f. (closed d m f.0, f.1))
            (λ d n f. (unlinked d n f.0, unlinked_absent d n name (str_eq name n) f.1)) st (suc k)
            names)
          (λ s f. f) (λ _ s h. (h.0.0, (h.0.1, h.1))) (λ e s f. f.0) (λ s f. f.0))
