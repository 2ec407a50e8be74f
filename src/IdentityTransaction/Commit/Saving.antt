-- ===== src/IdentityTransaction/Commit/Saving.antt =====
-- The journal is published.
use privacy_lodge.Prelude.{
  ℕ, ◌≡◌, refl, ap, subst, ◌∙◌, some, none, List, [], arith, inl, inr, ◌⊎◌, ok_or,
}
use privacy_lodge.Text.{Str}
use privacy_lodge.Io.{attempt}
use privacy_lodge.Io.Laws.{
  Spec, Spec-bind, Spec-query, Spec-syscall, Spec-weaken, Spec-lift, Spec-known,
}
use privacy_lodge.Io.Handlers.{Spec-attempt}
use privacy_lodge.IdentityTransaction.{
  Node, absent, directory, other, file, staging, Disk, Journal, Codec, Error, write_next,
  create_next, fill_next, publish, published, in_stage, with_next, filled, next_of, not_encoded,
  sync_dir,
}
use privacy_lodge.IdentityTransaction.Recover.Outcome.{At}
use privacy_lodge.IdentityTransaction.Commit.{save_journal}
use privacy_lodge.IdentityTransaction.Commit.Staging.{Stages, in_stage_same, created_lem}

-- What a rename replaces here.
abbrev pub IsReplaceable : Node → Type 0
IsReplaceable n = (n ≡ absent) ⊎ ((ino : ℕ) × (b : List ℕ) × (n ≡ file ino b))

module _ (n : Node) (A : (Str → Node) → Type 0) (G : (ℕ → Node) → Type 0) (st : Str) where
  abbrev Next : List ℕ → Disk → Type 0
  Next b d = At n A d × (ino : ℕ) × Stages st (file ino b) G d

  Next-opens :
      (s t : Disk)
      → create_next st (s.stages st) s ≡ some t
      → At n A s × Stages st absent G s
      → Next [] t
  Next-opens s t h (a, (f, e, g)) =
      let made =
        created_lem absent (λ ino. in_stage st (with_next (file ino [])) s) s t (rw e at h) in
      subst (Next []) made.1 (
        a,
        s.next_ino,
        (f, in_stage_same st (with_next (file s.next_ino [])) s (staging f absent) e, g),
      )

  Next-fills : (b : List ℕ) (s : Disk) → Next [] s → Next b (fill_next st b s)
  Next-fills b s (a, ino, (f, e, g)) = (
    a,
    ino,
    (
      f,
      in_stage_same st (with_next (filled b (next_of (s.stages st)))) s (staging f (file ino [])) e
          ∙ ap (λ x. staging f (filled b (next_of x))) e,
      g,
    ),
  )

  write_next_lem :
      (b : List ℕ)
      → Spec
          (λ d. At n A d × Stages st absent G d)
          (write_next st b)
          (λ _. Next b)
          (λ _. At n A)
          (At n A)
  unfolding write_next
  write_next_lem b =
      Spec-bind {Q = λ _. Next b} _ _
        (Spec-bind {Q = λ _. Next []} _ _
          (Spec-attempt _ (λ d. create_next st (d.stages st) d)
            (λ s t h p. let o = Next-opens s t h p in (o, o.0)) (λ s p. p.0) (λ s p. p.0))
          (λ _. Spec-syscall _ _ _ _ _ (λ s p. Next-fills b s p) (λ m s p. p.0) (λ m s p. p.0)))
        (λ _. Spec-query _ _ (λ s p. p) (λ s p. p.0) (λ s p. p.0))

  -- The journal is the new one, and journal.next is gone.
  abbrev pub Saved : List ℕ → Disk → Type 0
  Saved b d = (ino : ℕ) × At (file ino b) A d × Stages st absent G d

  -- It is the old one or the new one.
  abbrev pub OldOrNew : List ℕ → Disk → Type 0
  OldOrNew b d = At n A d ⊎ ((ino : ℕ) × At (file ino b) A d)

  publishes_to :
      (b : List ℕ) (s t : Disk) (ino : ℕ) (x : Node)
      → x ≡ file ino b
      → published st x s ≡ some t
      → A s.files
      → Stages st x G s
      → Saved b t
  publishes_to b s t ino absent q h a (f, e, g) = cc
  publishes_to b s t ino directory q h a (f, e, g) = cc
  publishes_to b s t ino other q h a (f, e, g) = cc
  publishes_to b s t ino (file i c) q h a (f, e, g) =
      let moved = in_stage st (with_next absent) (record s { journal = file i c }) in
      let same : moved ≡ t = ap (λ o. elim o [ some x ↦ x | none ↦ t ]) h in
      subst (Saved b) same (
        ino,
        (q, a),
        (
          f,
          in_stage_same st (with_next absent) (record s { journal = file i c })
              (staging f (file i c)) e,
          g,
        ),
      )

  publishes-At :
      IsReplaceable n
      → (b : List ℕ) (s t : Disk) (ino : ℕ) → publish st s ≡ some t
      → At n A s
      → Stages st (file ino b) G s
      → Saved b t
  publishes-At (inl q) b s t ino h a (f, e, g) =
      publishes_to b s t ino (file ino b) refl (rw (a.0, q, e) at h) a.1 (f, e, g)
  publishes-At (inr (i, c, q)) b s t ino h a (f, e, g) =
      publishes_to b s t ino (file ino b) refl (rw (a.0, q, e) at h) a.1 (f, e, g)

  publish_lem :
      IsReplaceable n
      → (e : Error) (b : List ℕ)
      → Spec (Next b) (attempt e (publish st)) (λ _. Saved b) (λ _. OldOrNew b) (OldOrNew b)
  publish_lem r e b =
      Spec-attempt _ (publish st)
        (λ s t h p. let o = publishes-At r b s t p.1 h p.0 p.2 in (o, inr (o.0, o.1)))
        (λ s p. inl p.0) (λ s p. inl p.0)

module _ (c : Codec) (j : Journal) (b : List ℕ) (encodes : c.to_vec j ≡ some b) where
  -- Publishing replaces the journal whole, and keeps the staged files.
  pub save_journal_lem :
      (n : Node) (A : (Str → Node) → Type 0) (G : (ℕ → Node) → Type 0)
      → IsReplaceable n
      → Spec
          (λ d. At n A d × Stages j.stage absent G d)
          (save_journal c j)
          (λ _. Saved n A G j.stage b)
          (λ _. OldOrNew n A G j.stage b)
          (OldOrNew n A G j.stage b)
  unfolding save_journal sync_dir
  save_journal_lem n A G r =
      Spec-bind {Q = λ _. Saved n A G j.stage b} _ _
        (Spec-bind {Q = λ _. Next n A G j.stage b} _ _
          (Spec-bind {Q = λ x d. (x ≡ b) × (At n A d × Stages j.stage absent G d)} _ _
            (Spec-lift (ok_or (c.to_vec j) not_encoded) (λ x e s p. (ground (arith, e, encodes), p))
              (λ e s p. inl p.0))
            (λ x. Spec-known (write_next j.stage) x b (
              Spec-weaken _ (write_next_lem n A G j.stage b) (λ s p. p) (λ _ s p. p)
                (λ _ s p. inl p) (λ s p. inl p))))
          (λ _. publish_lem n A G j.stage r _ b))
        (λ _. Spec-query _ _ (λ s p. p) (λ s p. inr (p.0, p.1)) (λ s p. inr (p.0, p.1)))
