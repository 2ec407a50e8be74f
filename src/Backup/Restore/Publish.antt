-- ===== src/Backup/Restore/Publish.antt =====
-- What a restore leaves, whatever interrupts it.
use privacy_lodge.Prelude.{
  ℕ, ◌≡◌, refl, sym, ap, ◌∙◌, subst, false, Option, some, List, ◌⊎◌, inl, inr, ok,
}
use privacy_lodge.Text.{Str}
use privacy_lodge.Io.{Fault, lift, ◌>>=◌}
use privacy_lodge.Io.Laws.{
  Post, Spec, Spec-bind, Spec-pure, Spec-raise, Spec-query, Spec-weaken, Spec-if, Spec-zoom,
  Spec-known,
}
use privacy_lodge.Io.Handlers.{Spec-probe, Spec-catch, Spec-assign, Spec-map_failure}
use privacy_lodge.Crypto.{Cipher, World}
use privacy_lodge.Json.{Json}
use privacy_lodge.Pairing.{Pairings}
use privacy_lodge.State.{Inner, broken, identity_snapshot}
use privacy_lodge.State.Secrets.{Documents, documents}
use privacy_lodge.IdentityRestore.{Keys, Identity, validate}
use privacy_lodge.IdentityTransaction.{Codec, absent}
use privacy_lodge.IdentityTransaction.Commit.{stage_name}
use privacy_lodge.IdentityTransaction.Outcome.{NoneOf, Journals, Recoverable, Whole}
use privacy_lodge.IdentityTransaction.Prepared.{Fresh}
use privacy_lodge.IdentityTransaction.Committed.{commit_lem}
use privacy_lodge.Backup.{open_backup}
use privacy_lodge.Backup.Restore.{
  Error, Box, has_identity, paired, files_of, make_documents, packed, fail_with, publish, pack,
  restore_identity, restore,
}

module _ (c : Codec) (message : Error → Str) (random : ℕ) (files : List (Str × List ℕ))
    (js : Journals c (stage_name random) files) (old : Inner) where
  abbrev pub Rec : Box → Type 0
  Rec b = Recoverable c (stage_name random) files js b.disk

  abbrev pub Restored : Inner → Box → Type 0
  Restored i b = Whole c (stage_name random) files js b.disk × (b.inner ≡ i)

  -- The state in memory is the old one, or says that there is an error.
  abbrev pub Failed : Box → Type 0
  Failed b = Rec b × ((b.inner ≡ old) ⊎ (b.inner.phase ≡ broken))

  fail_with_lem :
      {Q : Unit {0} → Box → Type 0} (e : Error)
      → Spec (λ b. Rec b × (b.inner ≡ old)) (fail_with c message e) Q (λ _. Failed) Rec
  fail_with_lem e =
      Spec-bind {Q = λ _. Failed} _ _
        (Spec-bind {Q = λ _ b. Rec b × (b.inner ≡ old)} _ _
          (Spec-bind {Q = λ _ b. Rec b × (b.inner ≡ old)} _ _
            (Spec-probe _ _ _ (λ s p. p) (λ s p. p) (λ s p. p.0))
            (λ journal.
              Spec-if journal _ _ (λ _. Spec-pure _ (λ s p. p))
                (λ _. Spec-probe _ _ _ (λ s p. p) (λ s p. p) (λ s p. p.0))))
          (λ there.
            Spec-if there _ _ (λ _. Spec-assign _ (λ s p. (p.0, inr refl)))
              (λ _. Spec-pure _ (λ s p. (p.0, inl p.1)))))
        (λ _. Spec-raise e (λ s p. p))

  publish_lem :
      (i : Inner)
      → Spec
          (λ b. Fresh c random files js b.disk × (b.inner ≡ old))
          (publish c message random i files)
          (λ _. Restored i)
          (λ _. Failed)
          Rec
  unfolding publish
  publish_lem i =
      Spec-bind {Q = λ _ b. Whole c (stage_name random) files js b.disk} _ _
        (Spec-catch {G = λ _ b. Rec b × (b.inner ≡ old)} _ _
          (Spec-map_failure _ _ (
            Spec-weaken _
              (Spec-zoom (λ b. b.inner ≡ old) (λ b. b.disk) (λ d b. record b { disk = d }) _
                (λ t s. refl) (λ t s h. h) (commit_lem c random files js))
              (λ s p. p) (λ _ s p. p.0) (λ _ s p. p) (λ s p. p.0)))
          fail_with_lem)
        (λ _. Spec-assign _ (λ s p. (p, refl)))

module _ (J : Json) (C : Cipher) (derive_key : Str → List ℕ → List ℕ) (K : Keys) (D : Documents)
    (w : World) (c : Codec) (encode_pairings : Pairings → Option (List ℕ))
    (message : Error → Str) where
  open J use {Value}

  module _ (b : Box) (nonce : List ℕ) (random now : ℕ) (id : Identity) (d : Str × Str)
      (pairings : List ℕ) (onion : Str)
      (sealed : (documents C D w b.ring nonce (identity_snapshot id.inner)).0 ≡ ok d)
      (encoded : encode_pairings (paired now id) ≡ some pairings)
      (named : id.inner.boxed.onion ≡ some onion)
      (js : Journals c (stage_name random) (files_of id d pairings onion)) where
    abbrev files : List (Str × List ℕ)
    files = files_of id d pairings onion

    -- The box as it was, but for the keychain.
    abbrev Before : Box → Type 0
    Before s = Fresh c random files js s.disk × (s.inner ≡ b.inner)

    abbrev Start : Box → Type 0
    Start s = Before s × (s.ring ≡ b.ring)

    before_Failed : (s : Box) → Before s → Failed c message random files js b.inner s
    before_Failed s p = (inl (inl p.0), inl p.1)

    documents_made :
        Spec Start
          (make_documents D C w nonce id.inner)
          (λ x s. (x ≡ d) × Before s)
          (λ _. Before)
          Before
    documents_made = record { at = made }
      where
        made :
            (s : Box) (fs : List Fault)
            → Start s
            → Post
                (λ x s. (x ≡ d) × Before s)
                (λ _. Before)
                Before
                (make_documents D C w nonce id.inner s fs).0
                (make_documents D C w nonce id.inner s fs).1
        made s fs p = rw (p.1, sealed) (refl, p.0)

    packs : pack J C derive_key K D w c encode_pairings message now id d ≡ ok files
    packs =
        ap (λ o. packed id d o id.inner.boxed.onion) encoded
        ∙ ap (packed id d (some pairings)) named

    restored :
        Spec Start
          (restore_identity J C derive_key K D w c encode_pairings message nonce random now id)
          (λ _. Restored c message random files js b.inner id.inner)
          (λ _. Failed c message random files js b.inner)
          (Rec c message random files js b.inner)
    restored =
        Spec-bind {Q = λ x s. (x ≡ d) × Before s} _ _
          (Spec-bind {Q = λ _. Start} _ _
            (Spec-query _ _ (λ s p. p) (λ s p. before_Failed s p.0) (λ s p. inl (inl p.0.0)))
            (λ _.
              Spec-weaken _ documents_made (λ s p. p) (λ _ s p. p) (λ _ s p. before_Failed s p)
                (λ s p. inl (inl p.0))))
          (λ x.
            Spec-known
              (λ x.
                lift (pack J C derive_key K D w c encode_pairings message now id x)
                >>= publish c message random id.inner)
              x d
              (subst
                (λ r.
                  Spec Before (lift r >>= publish c message random id.inner)
                    (λ _. Restored c message random files js b.inner id.inner)
                    (λ _. Failed c message random files js b.inner)
                    (Rec c message random files js b.inner))
                (sym packs) (publish_lem c message random files js b.inner id.inner)))

    -- Behind each way that a restore ends.
    pub restore_lem :
        (envelope passphrase : Str) (p : Value) (fs : List Fault)
        → has_identity b.inner ≡ false
        → open_backup J C derive_key envelope passphrase ≡ ok p
        → validate J K p ≡ ok id
        → b.disk.journal ≡ absent
        → NoneOf files b.disk.files
        → Post
            (λ _. Restored c message random files js b.inner id.inner)
            (λ _. Failed c message random files js b.inner)
            (Rec c message random files js b.inner)
            (restore J C derive_key K D w c encode_pairings message nonce random now envelope
              passphrase b fs).0
            (restore J C derive_key K D w c encode_pairings message nonce random now envelope
              passphrase b fs).1
    unfolding restore
    restore_lem envelope passphrase p fs fresh o v free empty =
        rw (fresh, o, v) (restored.at b fs (((free, empty), refl), refl))
