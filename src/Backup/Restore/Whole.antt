-- ===== src/Backup/Restore/Whole.antt =====
-- A restore that anything interrupts, and the launches after it.
use privacy_lodge.Prelude.{
  ℕ, ◌≡◌, refl, true, false, Option, some, List, ◌⊎◌, inl, inr, leb, length, ok,
}
use privacy_lodge.Text.{Str}
use privacy_lodge.Io.{Fault, done}
use privacy_lodge.Io.Handlers.{everywhere, returned}
use privacy_lodge.Crypto.{Cipher, World}
use privacy_lodge.Json.{Json}
use privacy_lodge.Pairing.{Pairings}
use privacy_lodge.State.{identity_snapshot}
use privacy_lodge.State.Secrets.{Documents, documents}
use privacy_lodge.IdentityRestore.{Keys, Identity, validate}
use privacy_lodge.IdentityTransaction.{Codec, absent}
use privacy_lodge.IdentityTransaction.Recover.{recover}
use privacy_lodge.IdentityTransaction.Commit.{stage_name, journal_of}
use privacy_lodge.IdentityTransaction.Commit.Linking.{Complete}
use privacy_lodge.IdentityTransaction.Outcome.{NoneOf, Journals}
use privacy_lodge.IdentityTransaction.AllOrNothing.{launches, js, Recoverable-settles, Whole-stays}
use privacy_lodge.Backup.{open_backup}
use privacy_lodge.Backup.Restore.{Error, Box, has_identity, paired, files_of, restore}
use privacy_lodge.Backup.Restore.Publish.{Restored, Failed, Rec, restore_lem}

-- A backup that opens and validates, a box without an identity, and what the libraries make of the
-- documents and the two journals.
module _ (J : Json) (C : Cipher) (derive_key : Str → List ℕ → List ℕ) (K : Keys) (D : Documents)
    (w : World) (c : Codec) (encode_pairings : Pairings → Option (List ℕ)) (message : Error → Str)
    (b : Box) (nonce : List ℕ) (random now : ℕ) (envelope passphrase : Str) (p : J.Value)
    (id : Identity) (d : Str × Str) (pairings : List ℕ) (onion : Str) (unmarked marked : List ℕ)
    (sealed : (documents C D w b.ring nonce (identity_snapshot id.inner)).0 ≡ ok d)
    (encoded : encode_pairings (paired now id) ≡ some pairings)
    (named : id.inner.boxed.onion ≡ some onion)
    (to_unmarked : c.to_vec (journal_of (stage_name random) (files_of id d pairings onion) false)
      ≡ some unmarked)
    (to_marked : c.to_vec (journal_of (stage_name random) (files_of id d pairings onion) true)
      ≡ some marked)
    (short_unmarked : leb (length unmarked) 4096 ≡ true)
    (short_marked : leb (length marked) 4096 ≡ true) (unused : has_identity b.inner ≡ false)
    (opens : open_backup J C derive_key envelope passphrase ≡ ok p)
    (validates : validate J K p ≡ ok id) (free : b.disk.journal ≡ absent)
    (empty : NoneOf (files_of id d pairings onion) b.disk.files) where
  abbrev files : List (Str × List ℕ)
  files = files_of id d pairings onion

  abbrev journals : Journals c (stage_name random) files
  journals =
      js c random files unmarked marked refl refl to_unmarked to_marked short_unmarked short_marked

  abbrev pub after : List Fault → Box
  after fs =
      (restore J C derive_key K D w c encode_pairings message nonce random now envelope passphrase b
        fs).1

  restore-Recoverable : (fs : List Fault) → Rec c message random files journals b.inner (after fs)
  restore-Recoverable fs =
      everywhere (Rec c message random files journals b.inner)
        (λ _. Restored c message random files journals b.inner id.inner)
        (λ _. Failed c message random files journals b.inner)
        (Rec c message random files journals b.inner)
        (λ _ s h. elim h.0 [ inl q ↦ inr (inr q) | inr q ↦ inl (inr q) ]) (λ _ s h. h.0) (λ s h. h)
        (restore J C derive_key K D w c encode_pairings message nonce random now envelope passphrase
          b fs).0
        (after fs)
        (restore_lem J C derive_key K D w c encode_pairings message b nonce random now id d pairings
          onion sealed encoded named journals envelope passphrase p fs unused opens validates free
          empty)

  -- Whatever operation of restore, and of the recoveries of later launches, fails or is the last of
  -- its process: once a recovery returns, there is no journal, and either all six files of the
  -- identity are there with their bytes or none is, if the backup opens and validates, the box has
  -- no identity, and the documents and the journals are encoded, the latter within 4096 bytes.
  pub restore-all_or_nothing :
      (fs : List Fault) (rs : List (List Fault)) (gs : List Fault)
      → (recover c (launches c rs (after fs).disk) gs).0 ≡ done tt
      → let left = (recover c (launches c rs (after fs).disk) gs).1 in
        (left.journal ≡ absent) × (NoneOf files left.files ⊎ Complete files left.files)
  restore-all_or_nothing fs rs gs h =
      Recoverable-settles c random files journals rs gs (after fs).disk (restore-Recoverable fs) h

  -- Under the same conditions, a restore that returns leaves the identity of the backup in memory
  -- and all six of its files on the disk, where they stay at every later launch.
  pub restore-durable :
      (fs : List Fault) (rs : List (List Fault))
      → (restore J C derive_key K D w c encode_pairings message nonce random now envelope passphrase
          b fs).0
        ≡ done tt
      → ((after fs).inner ≡ id.inner) × Complete files (launches c rs (after fs).disk).files
  restore-durable fs rs h =
      let q =
        returned (λ _. Restored c message random files journals b.inner id.inner)
          (λ _. Failed c message random files journals b.inner)
          (Rec c message random files journals b.inner)
          (restore J C derive_key K D w c encode_pairings message nonce random now envelope
            passphrase b fs).0
          tt (after fs) h
          (restore_lem J C derive_key K D w c encode_pairings message b nonce random now id d
            pairings onion sealed encoded named journals envelope passphrase p fs unused opens
            validates free empty) in
      (q.1, Whole-stays c random files journals rs (after fs).disk q.0)
