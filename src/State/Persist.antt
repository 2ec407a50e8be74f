-- ===== src/State/Persist.antt =====
-- `persist`: both documents are written, secrets.json first.
use privacy_lodge.Prelude.{
  ℕ, ◌≡◌, refl, ap, arith, ◌∙◌, Option, some, List, Result, ok, ◌⊎◌, inl, inr,
}
use privacy_lodge.Text.{Str}
use privacy_lodge.Io.{Io, Fault, lift, query, zoom, ◌>>=◌, ◌>>◌}
use privacy_lodge.Io.Laws.{
  Post, Spec, Spec-bind, Spec-query, Spec-zoom, Spec-weaken, Spec-lift, Spec-known,
}
use privacy_lodge.Crypto.{Cipher, Keyring, World}
use privacy_lodge.PrivateFile.{Slot, write_private, write_private-atomic}
use privacy_lodge.State.{Inner, identity_snapshot}
use privacy_lodge.State.Secrets.{
  Error, not_located, not_written, not_finalized, Documents, documents,
}

pub record Disk : Type 0 where
  pub boxed : Slot
  pub secrets : Slot
  pub ring : Keyring

write_secrets : Str → Io Disk Error (Unit {0})
write_secrets s =
    zoom (λ d. d.secrets) (λ t d. record d { secrets = t })
      (write_private not_written not_finalized s)

write_box : Str → Io Disk Error (Unit {0})
write_box s =
    zoom (λ d. d.boxed) (λ t d. record d { boxed = t }) (write_private not_written not_finalized s)

abbrev write_both : Str × Str → Io Disk Error (Unit {0})
write_both (boxed, file) = write_secrets file >> write_box boxed

module _ (c : Cipher) (d : Documents) (w : World) where
  abbrev make_documents : List ℕ → Inner → Io Disk Error (Str × Str)
  make_documents nonce i s fs =
      let (r, ring') = documents c d w s.ring nonce (identity_snapshot i) in
      lift r (record s { ring = ring' }) fs

  unfoldable pub persist : List ℕ → Inner → Io Disk Error (Unit {0})
  unfolding write_secrets write_box
  persist nonce i = query not_located (λ _. tt) >> make_documents nonce i >>= write_both

module _ (old_box old_secrets : Option Str) (boxed file : Str) where
  abbrev pub Old : Disk → Type 0
  Old s = (s.boxed.file ≡ old_box) × (s.secrets.file ≡ old_secrets)

  abbrev pub New : Disk → Type 0
  New s = (s.boxed.file ≡ some boxed) × (s.secrets.file ≡ some file)

  -- secrets.json is written and box.json is not.
  abbrev pub Half : Disk → Type 0
  Half s = (s.boxed.file ≡ old_box) × (s.secrets.file ≡ some file)

  abbrev pub AnyOf : Disk → Type 0
  AnyOf s = Old s ⊎ (Half s ⊎ New s)

  abbrev either : {A B C : Type 0} → (A → C) → (B → C) → A ⊎ B → C
  either f g (inl a) = f a
  either f g (inr b) = g b

  write_both-Spec : Spec Old (write_both (boxed, file)) (λ _. New) (λ _ s. Old s ⊎ Half s) AnyOf
  unfolding write_secrets write_box
  write_both-Spec =
      Spec-bind {Q = λ _. Half} _ _
        (Spec-weaken _
          (Spec-zoom (λ s. s.boxed.file ≡ old_box) (λ s. s.secrets)
            (λ t s. record s { secrets = t }) _ (λ t s. refl) (λ t s h. h)
            (write_private-atomic not_written not_finalized old_secrets file))
          (λ s h. (h.1, h.0)) (λ _ s h. (h.1, h.0)) (λ e s h. inl (h.1, h.0))
          (λ s h. either (λ k. inl (h.1, k)) (λ k. inr (inl (h.1, k))) h.0))
        (λ _.
          Spec-weaken _
            (Spec-zoom (λ s. s.secrets.file ≡ some file) (λ s. s.boxed)
              (λ t s. record s { boxed = t }) _ (λ t s. refl) (λ t s h. h)
              (write_private-atomic not_written not_finalized old_box boxed))
            (λ s h. h) (λ _ s h. h) (λ e s h. inr h)
            (λ s h. either (λ k. inr (inl (k, h.1))) (λ k. inr (inr (k, h.1))) h.0))

ok_inj : {A : Type 0} (r : Result Error A) (a b : A) → r ≡ ok a → r ≡ ok b → a ≡ b
ok_inj r a b h k = ground (arith, h, k)

module _ (c : Cipher) (d : Documents) (w : World) (nonce : List ℕ) (i : Inner) (ring : Keyring)
    (old_box old_secrets : Option Str) (boxed file : Str) where
  made-Spec :
      (documents c d w ring nonce (identity_snapshot i)).0 ≡ ok (boxed, file)
      → Spec
          (λ s. (s.ring ≡ ring) × Old old_box old_secrets boxed file s)
          (make_documents c d w nonce i)
          (λ x s. (x ≡ (boxed, file)) × Old old_box old_secrets boxed file s)
          (λ _ s. Old old_box old_secrets boxed file s ⊎ Half old_box old_secrets boxed file s)
          (AnyOf old_box old_secrets boxed file)
  made-Spec h = record {
    at = λ s fs p.
        let r = documents c d w s.ring nonce (identity_snapshot i) in
        (Spec-lift {P = Old old_box old_secrets boxed file} r.0
            (λ x e t o. (
              ok_inj r.0 x (boxed, file) e
                  (ap (λ k. (documents c d w k nonce (identity_snapshot i)).0) p.0 ∙ h),
              o,
            ))
            (λ e t o. inl o)).at
          (record s { ring = r.1 }) fs p.1;
  }

  persist-Spec :
      (documents c d w ring nonce (identity_snapshot i)).0 ≡ ok (boxed, file)
      → Spec
          (λ s. (s.ring ≡ ring) × Old old_box old_secrets boxed file s)
          (persist c d w nonce i)
          (λ _. New old_box old_secrets boxed file)
          (λ _ s. Old old_box old_secrets boxed file s ⊎ Half old_box old_secrets boxed file s)
          (AnyOf old_box old_secrets boxed file)
  unfolding persist
  persist-Spec h =
      Spec-bind _ _
        (Spec-bind {Q = λ _ s. (s.ring ≡ ring) × Old old_box old_secrets boxed file s} _ _
          (Spec-query _ _ (λ s p. p) (λ s p. inl p.1) (λ s p. inl p.1)) (λ _. made-Spec h))
        (λ x.
          Spec-known write_both x (boxed, file) (write_both-Spec old_box old_secrets boxed file))

-- Whichever operation of persist fails or is the last of the process: when it returns, both files
-- are the new documents; otherwise each is the old or the new one, and box.json is new only where
-- secrets.json is.
pub persist_ordered :
    (c : Cipher) (d : Documents) (w : World) (nonce : List ℕ) (i : Inner) (boxed file : Str)
    (s : Disk) (fs : List Fault)
    → (documents c d w s.ring nonce (identity_snapshot i)).0 ≡ ok (boxed, file)
    → Post
        (λ _. New s.boxed.file s.secrets.file boxed file)
        (λ _ t.
          Old s.boxed.file s.secrets.file boxed file t
          ⊎ Half s.boxed.file s.secrets.file boxed file t)
        (AnyOf s.boxed.file s.secrets.file boxed file)
        (persist c d w nonce i s fs).0
        (persist c d w nonce i s fs).1
persist_ordered c d w nonce i boxed file s fs h =
    (persist-Spec c d w nonce i s.ring s.boxed.file s.secrets.file boxed file h).at s fs
      (refl, (refl, refl))
