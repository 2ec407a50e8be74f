-- ===== src/IdentityTransaction/Commit/Linking.antt =====
-- The staged files are linked to their places.
use privacy_lodge.Prelude.{
  ℕ, suc, ◌≡◌, refl, ap, subst, true, some, none, List, [], ◌∷◌, map, Bool-cases, inl, inr,
}
use privacy_lodge.Text.{Str, str_eq}
use privacy_lodge.Text.Laws.{str_eq_refl, str_eq_sound}
use privacy_lodge.Io.Laws.{Spec, Spec-bind, Spec-pure, Spec-query, Spec-weaken}
use privacy_lodge.Io.Handlers.{Spec-attempt}
use privacy_lodge.IdentityTransaction.{
  Node, absent, directory, other, file, staging, Disk, set_at, sync_dir, link, linked_at,
}
use privacy_lodge.IdentityTransaction.Recover.Outcome.{At}
use privacy_lodge.IdentityTransaction.Recover.Rollback.{target-Keeps}
use privacy_lodge.IdentityTransaction.Commit.{install_one, install_all}
use privacy_lodge.IdentityTransaction.Commit.Staging.{Staged, Item}

linked_at_lem :
    (name : Str) (a b : Node) (d t : Disk)
    → linked_at name a b d ≡ some t
    → (b ≡ absent) × (record d { files = set_at name a d.files } ≡ t)
linked_at_lem name other absent d t h = (refl, ap (λ o. elim o [ some x ↦ x | none ↦ t ]) h)
linked_at_lem name (file _ _) absent d t h = (refl, ap (λ o. elim o [ some x ↦ x | none ↦ t ]) h)
linked_at_lem name absent absent d t h = cc
linked_at_lem name directory absent d t h = cc
linked_at_lem name absent directory d t h = cc
linked_at_lem name directory directory d t h = cc
linked_at_lem name other directory d t h = cc
linked_at_lem name (file _ _) directory d t h = cc
linked_at_lem name absent other d t h = cc
linked_at_lem name directory other d t h = cc
linked_at_lem name other other d t h = cc
linked_at_lem name (file _ _) other d t h = cc
linked_at_lem name absent (file _ _) d t h = cc
linked_at_lem name directory (file _ _) d t h = cc
linked_at_lem name other (file _ _) d t h = cc
linked_at_lem name (file _ _) (file _ _) d t h = cc

-- What is kept when a name that is free is taken.
abbrev pub IsClaiming : ((Str → Node) → Type 0) → Type 0
IsClaiming A =
    (name : Str) (v : Node) (f : Str → Node) → f name ≡ absent → A f → A (set_at name v f)

abbrev pub InPlace : (Str → Node) → Str → List ℕ → Type 0
InPlace f name b = (ino : ℕ) × (f name ≡ file ino b)

-- Every file is in its place, with its bytes.
abbrev pub Complete : List (Str × List ℕ) → (Str → Node) → Type 0
Complete [] f = Unit
Complete ((name, b) ∷ files) f = InPlace f name b × Complete files f

place_stays : (m : Str) (b : List ℕ) → IsClaiming (λ f. InPlace f m b)
place_stays m b name v f free (ino, there) = elim (Bool-cases (str_eq m name)) [
  | inl e ↦ absurd (cc (there, free, ap f (str_eq_sound m name e)))
  | inr e ↦ (ino, rw e there)
]

module _ (n : Node) (st : Str) (items : ℕ → Node) where
  abbrev pub On : ((Str → Node) → Type 0) → Disk → Type 0
  On A d = At n A d × (d.stages st ≡ staging items absent)

  abbrev Stands : Disk → Type 0
  Stands d = At n (λ _. Unit {0}) d

  links :
      (k : ℕ) (name : Str) (b : List ℕ) (A : (Str → Node) → Type 0)
      → IsClaiming A
      → Item items k b
      → (s t : Disk) → link st k name s ≡ some t
      → On A s
      → On (λ f. A f × InPlace f name b) t
  links k name b A claims it s t h (a, e) =
      let made = linked_at_lem name (items k) (s.files name) s t (rw e at h) in
      subst (On (λ f. A f × InPlace f name b)) made.1
        ((a.0, (claims name (items k) s.files made.0 a.1, (it.0, rw (str_eq_refl name) it.1))), e)

  install_one_lem :
      (k : ℕ) (name : Str) (b : List ℕ) (A : (Str → Node) → Type 0)
      → IsClaiming A
      → Item items k b
      → Spec
          (On A)
          (install_one st k name)
          (λ _. On (λ f. A f × InPlace f name b))
          (λ _. Stands)
          Stands
  unfolding install_one sync_dir
  install_one_lem k name b A claims it =
      Spec-bind {Q = λ _. On (λ f. A f × InPlace f name b)} _ _
        (Spec-bind {Q = λ _. On A} _ _
          (Spec-weaken _ (target-Keeps {F = On A} (λ d m p. p) name true) (λ s p. p) (λ _ s p. p)
            (λ _ s p. (p.0.0, tt)) (λ s p. (p.0.0, tt)))
          (λ _.
            Spec-attempt _ (link st k name)
              (λ s t h p. let o = links k name b A claims it s t h p in (o, (o.0.0, tt)))
              (λ s p. (p.0.0, tt)) (λ s p. (p.0.0, tt))))
        (λ _. Spec-query _ _ (λ s p. p) (λ s p. (p.0.0, tt)) (λ s p. (p.0.0, tt)))

  pub install_all_lem :
      (k : ℕ) (files : List (Str × List ℕ)) (A : (Str → Node) → Type 0)
      → IsClaiming A
      → Staged k files items
      → Spec
          (On A)
          (install_all st k (map (λ f. f.0) files))
          (λ _. On (λ f. A f × Complete files f))
          (λ _. Stands)
          Stands
  unfolding install_all
  install_all_lem k [] A claims all = Spec-pure _ (λ s p. ((p.0.0, (p.0.1, tt)), p.1))
  install_all_lem k ((name, b) ∷ files) A claims all =
      Spec-bind {Q = λ _. On (λ f. A f × InPlace f name b)} _ _
        (install_one_lem k name b A claims all.0)
        (λ _.
          Spec-weaken _
            (install_all_lem (suc k) files (λ f. A f × InPlace f name b)
              (λ m v f free p. (claims m v f free p.0, place_stays name b m v f free p.1)) all.1)
            (λ s p. p) (λ _ s p. ((p.0.0, (p.0.1.0.0, (p.0.1.0.1, p.0.1.1))), p.1)) (λ _ s p. p)
            (λ s p. p))
