-- ===== src/IdentityTransaction/Commit/Staging.antt =====
-- The files are written to the staging directory.
use privacy_lodge.Prelude.{
  ℕ, suc, ◌≡◌, refl, ap, subst, ◌∙◌, false, Bool-cases, ==_refl, ==_iff, some, none, List, [], ◌∷◌,
  ◌==◌, inl, inr,
}
use privacy_lodge.Text.{Str}
use privacy_lodge.Text.Laws.{str_eq_refl}
use privacy_lodge.Io.Laws.{Spec, Spec-bind, Spec-pure, Spec-query, Spec-syscall, Spec-weaken}
use privacy_lodge.Io.Handlers.{Spec-attempt}
use privacy_lodge.IdentityTransaction.{
  Node, absent, directory, other, file, Stage, staging, Disk, write_item, create_item, created,
  fill_item, set_number, in_stage, with_item, filled, item_of,
}
use privacy_lodge.IdentityTransaction.Recover.Outcome.{At}
use privacy_lodge.IdentityTransaction.Commit.{stage_all}

pub created_lem :
    (n : Node) (f : ℕ → Disk) (d t : Disk)
    → created n f d ≡ some t
    → (n ≡ absent) × (record (f d.next_ino) { next_ino = suc d.next_ino } ≡ t)
created_lem absent f d t h = (refl, ap (λ o. elim o [ some x ↦ x | none ↦ t ]) h)
created_lem directory f d t h = cc
created_lem other f d t h = cc
created_lem (file _ _) f d t h = cc

-- The same items, but for one.
abbrev pub Agree : ℕ → (ℕ → Node) → (ℕ → Node) → Type 0
Agree k f g = (x : ℕ) → (x == k) ≡ false → g x ≡ f x

abbrev pub Item : (ℕ → Node) → ℕ → List ℕ → Type 0
Item items k b = (ino : ℕ) × (items k ≡ file ino b)

-- What is kept when a number that is free is used.
abbrev pub IsGrowing : ((ℕ → Node) → Type 0) → Type 0
IsGrowing G = (k : ℕ) (f g : ℕ → Node) → f k ≡ absent → Agree k f g → G f → G g

-- The staging directory `st` has items of which `G` holds, and a journal.next.
abbrev pub Stages : Str → Node → ((ℕ → Node) → Type 0) → Disk → Type 0
Stages st next G d = (items : ℕ → Node) × (d.stages st ≡ staging items next) × G items

pub in_stage_same :
    (st : Str) (f : Stage → Stage) (d : Disk) (s : Stage)
    → d.stages st ≡ s
    → (in_stage st f d).stages st ≡ f s
in_stage_same st f d s h = rw (str_eq_refl st, h)

module _ (n : Node) (A : (Str → Node) → Type 0) (st : Str) where
  -- Item `k` is there, and was free before.
  abbrev Opened : ℕ → ((ℕ → Node) → Type 0) → Disk → Type 0
  Opened k G d =
      At n A d
      × (f : ℕ → Node) × (g : ℕ → Node) × (d.stages st ≡ staging g absent)
      × G f
      × (f k ≡ absent)
      × Agree k f g
      × Item g k []

  opens :
      (k : ℕ) (G : (ℕ → Node) → Type 0) (s t : Disk)
      → create_item st k (s.stages st) s ≡ some t
      → At n A s × Stages st absent G s
      → Opened k G t
  opens k G s t h (a, (f, e, g)) =
      let made =
        created_lem (f k) (λ ino. in_stage st (with_item k (file ino [])) s) s t (rw e at h) in
      subst (Opened k G) made.1 (
        a,
        f,
        set_number k (file s.next_ino []) f,
        in_stage_same st (with_item k (file s.next_ino [])) s (staging f absent) e,
        g,
        made.0,
        (λ x ne. rw ne refl),
        (s.next_ino, rw (==_refl k) refl),
      )

  fills :
      (k : ℕ) (b : List ℕ) (G : (ℕ → Node) → Type 0)
      → IsGrowing G
      → (s : Disk) → Opened k G s
      → At n A (fill_item st k b s) × Stages st absent (λ i. G i × Item i k b) (fill_item st k b s)
  fills k b G grows s (a, f, g, e, p, free, same, (ino, there)) =
      let node = filled b (g k) in
      let full : filled b (item_of (s.stages st) k) ≡ node = ap (λ x. filled b (item_of x k)) e in
      (
        a,
        (
          set_number k node g,
          in_stage_same st (with_item k (filled b (item_of (s.stages st) k))) s (staging g absent) e
              ∙ ap (λ x. staging (set_number k x g) absent) full,
          (
            grows k f (set_number k node g) free (λ x ne. rw ne (same x ne)) p,
            (ino, rw (==_refl k) (ap (filled b) there)),
          ),
        ),
      )

  write_item_lem :
      (k : ℕ) (b : List ℕ) (G : (ℕ → Node) → Type 0)
      → IsGrowing G
      → Spec
          (λ d. At n A d × Stages st absent G d)
          (write_item st k b)
          (λ _ d. At n A d × Stages st absent (λ i. G i × Item i k b) d)
          (λ _. At n A)
          (At n A)
  unfolding write_item
  write_item_lem k b G grows =
      Spec-bind {Q = λ _ d. At n A d × Stages st absent (λ i. G i × Item i k b) d} _ _
        (Spec-bind {Q = λ _. Opened k G} _ _
          (Spec-attempt _ (λ d. create_item st k (d.stages st) d)
            (λ s t h p. let o = opens k G s t h p in (o, o.0)) (λ s p. p.0) (λ s p. p.0))
          (λ _.
            Spec-syscall _ _ _ _ _ (λ s p. fills k b G grows s p) (λ m s p. p.0) (λ m s p. p.0)))
        (λ _. Spec-query _ _ (λ s p. p) (λ s p. p.0) (λ s p. p.0))

-- The staged files are those of the list, from number `k` on.
abbrev pub Staged : ℕ → List (Str × List ℕ) → (ℕ → Node) → Type 0
Staged k [] items = Unit
Staged k ((_, b) ∷ files) items = Item items k b × Staged (suc k) files items

Item-stays : (m : ℕ) (b : List ℕ) → IsGrowing (λ i. Item i m b)
Item-stays m b k f g free same (ino, there) = elim (Bool-cases (m == k)) [
  | inl e ↦ absurd (cc (there, free, ap f ((==_iff m k).0 e)))
  | inr e ↦ (ino, same m e ∙ there)
]

pub stage_all_lem :
    (n : Node) (A : (Str → Node) → Type 0) (st : Str) (k : ℕ) (files : List (Str × List ℕ))
    (G : (ℕ → Node) → Type 0)
    → IsGrowing G
    → Spec
        (λ d. At n A d × Stages st absent G d)
        (stage_all st k files)
        (λ _ d. At n A d × Stages st absent (λ i. G i × Staged k files i) d)
        (λ _. At n A)
        (At n A)
unfolding stage_all
stage_all_lem n A st k [] G grows = Spec-pure _ (λ s p. (p.0, (p.1.0, p.1.1, (p.1.2, tt))))
stage_all_lem n A st k ((_, b) ∷ files) G grows =
    Spec-bind {Q = λ _ d. At n A d × Stages st absent (λ i. G i × Item i k b) d} _ _
      (write_item_lem n A st k b G grows)
      (λ _.
        Spec-weaken _
          (stage_all_lem n A st (suc k) files (λ i. G i × Item i k b)
            (λ m f g free same p. (grows m f g free same p.0, Item-stays k b m f g free same p.1)))
          (λ s p. p) (λ _ s p. (p.0, (p.1.0, p.1.1, (p.1.2.0.0, (p.1.2.0.1, p.1.2.1)))))
          (λ _ s p. p) (λ s p. p))
