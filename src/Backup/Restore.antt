-- ===== src/Backup/Restore.antt =====
-- `restore` of src-tauri/src/backup.rs: a backup becomes the identity of a fresh box.
pub mod Publish
pub mod Whole
mod Sample
mod Examples
use privacy_lodge.Prelude.{
  ℕ, Bool, true, false, not, ◌||◌, Option, none, some, List, [], ◌∷◌, ◌++◌, map, Result, ok, err,
  ok_or, if◌then◌else◌,
}
use privacy_lodge.Text.{Str, codes, bytes}
use privacy_lodge.Io.{
  Io, pure, raise, lift, query, probe, catch, zoom, assign, map_failure, ◌>>=◌, ◌>>◌,
}
use privacy_lodge.Crypto.{Cipher, Keyring, World}
use privacy_lodge.Json.{Json}
use privacy_lodge.Pairing.{Pairing, Pairings}
use privacy_lodge.State.{Phase, fresh, broken, Inner, identity_snapshot}
use privacy_lodge.State.Secrets as Secrets
use privacy_lodge.State.Secrets.{Documents, documents}
use privacy_lodge.IdentityRestore as IdentityRestore
use privacy_lodge.IdentityRestore.{Keys, Identity, validate}
use privacy_lodge.IdentityTransaction as IdentityTransaction
use privacy_lodge.IdentityTransaction.{Codec, Disk, is_absent}
use privacy_lodge.IdentityTransaction.Commit.{commit}
use privacy_lodge.Backup as Backup
use privacy_lodge.Backup.{open_backup}

-- `unwrapped` is the panic of an address that is not there.
pub data Error : Type 0 where
  not_fresh not_located not_encoded unwrapped : Error
  opening : Backup.Error → Error
  invalid : IdentityRestore.Error → Error
  sealing : Secrets.Error → Error
  committing : IdentityTransaction.Error → Error

-- What is in memory, the keychain, and the data directory.
pub record Box : Type 0 where
  pub inner : Inner
  pub ring : Keyring
  pub disk : Disk

abbrev is_fresh : Phase → Bool
is_fresh fresh = true
is_fresh _ = false

abbrev is_some : Option Str → Bool
is_some none = false
is_some (some s) = true

unfoldable pub has_identity : Inner → Bool
has_identity i = not (is_fresh i.phase) || is_some i.boxed.onion

abbrev pub paired : ℕ → Identity → Pairings
paired now id = record { peers = map (λ onion. record { onion = onion; added_at = now }) id.peers }

-- The files of the transaction: box.json is the last.
abbrev pub files_of : Identity → Str × Str → List ℕ → Str → List (Str × List ℕ)
files_of id (boxed, secrets) pairings onion =
    (codes "secrets.json", bytes secrets)
    ∷ (codes "pairings.json", pairings)
    ∷ (codes "data/tor/hs/hostname", bytes (onion ++ 10 ∷ []))
    ∷ (codes "data/tor/hs/hs_ed25519_secret_key", id.secret)
    ∷ (codes "data/tor/hs/hs_ed25519_public_key", id.public)
    ∷ (codes "box.json", bytes boxed)
    ∷ []

abbrev pub packed :
    Identity → Str × Str → Option (List ℕ) → Option Str → Result Error (List (Str × List ℕ))
packed id d none onion = err not_encoded
packed id d (some pairings) none = err unwrapped
packed id d (some pairings) (some onion) = ok (files_of id d pairings onion)

abbrev as_sealing : {A : Type 0} → Result Secrets.Error A → Result Error A
as_sealing (ok a) = ok a
as_sealing (err e) = err (sealing e)

module _ (D : Documents) (C : Cipher) (w : World) where
  abbrev pub make_documents : List ℕ → Inner → Io Box Error (Str × Str)
  make_documents nonce i b fs =
      let (r, ring) = documents C D w b.ring nonce (identity_snapshot i) in
      lift (as_sealing r) (record b { ring = ring }) fs

module _ (c : Codec) (message : Error → Str) where
  -- Where durable data may be pending, the box is no longer offered a fresh setup.
  abbrev pub fail_with : Error → Io Box Error (Unit {0})
  fail_with e =
      probe not_located (λ b. not (is_absent b.disk.journal)) false
      >>= (λ journal.
          if journal
          then pure true
          else probe not_located (λ b. not (is_absent (b.disk.files (codes "box.json")))) false)
      >>= (λ there.
          if there
          then assign (λ b. record b {
            inner = record b.inner { phase = broken; error = some (message e) };
          })
          else pure tt)
      >> raise e

  unfoldable pub publish : ℕ → Inner → List (Str × List ℕ) → Io Box Error (Unit {0})
  publish random inner files =
      catch
        (map_failure committing
          (zoom (λ b. b.disk) (λ d b. record b { disk = d }) (commit c random files)))
        fail_with
      >> assign (λ b. record b { inner = inner })

module _ (J : Json) (C : Cipher) (derive_key : Str → List ℕ → List ℕ) (K : Keys) (D : Documents)
    (w : World) (c : Codec) (encode_pairings : Pairings → Option (List ℕ))
    (message : Error → Str) where
  open J use {Value}

  abbrev validated : Result IdentityRestore.Error Identity → Result Error Identity
  validated (ok id) = ok id
  validated (err e) = err (invalid e)

  abbrev pub identity_of : Result Backup.Error Value → Result Error Identity
  identity_of (ok payload) = validated (validate J K payload)
  identity_of (err e) = err (opening e)

  abbrev pub pack : ℕ → Identity → Str × Str → Result Error (List (Str × List ℕ))
  pack now id d = packed id d (encode_pairings (paired now id)) id.inner.boxed.onion

  abbrev pub restore_identity : List ℕ → ℕ → ℕ → Identity → Io Box Error (Unit {0})
  restore_identity nonce random now id =
      query not_located (λ _. tt) >> make_documents D C w nonce id.inner >>= λ d.
      lift (pack now id d) >>= publish c message random id.inner

  unfoldable pub restore : List ℕ → ℕ → ℕ → Str → Str → Io Box Error (Unit {0})
  unfolding publish has_identity
  restore nonce random now envelope passphrase b fs =
      (if has_identity b.inner
          then raise not_fresh
          else lift (identity_of (open_backup J C derive_key envelope passphrase))
            >>= restore_identity nonce random now)
        b fs
