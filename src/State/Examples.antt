-- ===== src/State/Examples.antt =====
-- Tests and instances for the state: a box called "den", on a keychain without a key.
use privacy_lodge.Prelude.{
  ℕ, zero, suc, ◌≡◌, refl, true, false, none, some, List, [], ◌∷◌, ok, err, ◌⊎◌,
}
use privacy_lodge.Text.{Str, codes, bytes, bytes_of_char}
use privacy_lodge.Io.{works, crashes}
use privacy_lodge.Io.Laws.{Post}
use privacy_lodge.EnvCompat.{not_present}
use privacy_lodge.Crypto.{
  empty, Keyring, World, encrypt, seal_bytes, key_for_encrypt, key_for_decrypt,
  keychain_get_or_create, keychain_get, as_str, parse,
}
use privacy_lodge.Crypto.Sample.{sample}
use privacy_lodge.PrivateFile.{Slot}
use privacy_lodge.State.{
  Inner, default, identity_snapshot, stopped, broken, no_secrets, PersistedSecrets,
}
use privacy_lodge.State.Secrets.{documents, load_secrets, SecretsFile}
use privacy_lodge.State.Persist.{Disk, persist, persist_ordered, Old, New, Half, AnyOf}
use privacy_lodge.State.Startup.{
  load_persisted, load_persisted-documents, load_persisted-envelope, IsSealing,
}
use privacy_lodge.State.Sample.{sample_documents, named, keyed}

abbrev sevens : ℕ → List ℕ
sevens zero = []
sevens (suc n) = 7 ∷ sevens n

abbrev world : World
world = record { secrets_key = err not_present; fallback_key = sevens 32; random_key = sevens 32 }

abbrev ring : Keyring
ring = record { current = empty; legacy = empty; is_writable = true }

abbrev nonce : List ℕ
nonce = sevens 12

abbrev password : Str
password = codes "pw"

abbrev den : Inner
den = record default { boxed = named (codes "den"); secrets = keyed password }

abbrev zeros : ℕ → List ℕ → List ℕ
zeros zero s = s
zeros (suc n) s = 0 ∷ zeros n s

abbrev envelope : Str
envelope = 2 ∷ sample.b64_encode (7 ∷ 7 ∷ 7 ∷ 7 ∷ 7 ∷ 7 ∷ 7 ∷ 7 ∷ 7 ∷ 7 ∷ 7 ∷ 7 ∷ zeros 16 password)

makes :
    (documents sample sample_documents world ring nonce (identity_snapshot den)).0
    ≡ ok (codes "den", envelope)
unfolding documents identity_snapshot key_for_encrypt keychain_get_or_create encrypt seal_bytes
    bytes bytes_of_char as_str
makes = refl

load_persisted-documents_example :
    let after =
      load_persisted sample sample_documents world
        (ok tt)
        (documents sample sample_documents world ring nonce (identity_snapshot den)).1
        (some (codes "den"))
        (some envelope)
        3
        default in
    (after.0.phase ≡ stopped)
    × (identity_snapshot after.0 ≡ identity_snapshot den)
    × (after.1 ≡ false)
load_persisted-documents_example =
    load_persisted-documents sample sample_documents world ring nonce den default password
      (codes "den") envelope 3 refl refl refl refl refl makes

abbrev enc_of : Str → Str
enc_of [] = []
enc_of (x ∷ s) = s

abbrev sealed_file : SecretsFile
sealed_file = record { secrets_version = 2; key_source = codes "keychain"; enc = enc_of envelope }

-- The keychain is empty, so that the envelope cannot be opened.
load_persisted-envelope_example :
    let after =
      load_persisted sample sample_documents world
        (ok tt)
        ring
        (some (codes "den"))
        (some envelope)
        3
        default in
    (after.1 ≡ false)
    × (((s : PersistedSecrets) × IsSealing sample sample_documents world ring sealed_file s
          × (after.0.phase ≡ stopped)
          × (after.0.secrets ≡ s))
        ⊎ (((s : PersistedSecrets) → ¬ IsSealing sample sample_documents world ring sealed_file s)
            × (after.0.phase ≡ broken)
            × (after.0.secrets ≡ no_secrets)))
load_persisted-envelope_example =
    load_persisted-envelope sample sample_documents world ring (codes "den") envelope
      (named (codes "den")) sealed_file 3 default refl refl refl

comes_up_broken :
    (load_persisted sample sample_documents world
      (ok tt)
      ring
      (some (codes "den"))
      (some envelope)
      3
      default).0.phase
    ≡ broken
unfolding load_persisted load_secrets parse key_for_decrypt keychain_get
comes_up_broken = refl

abbrev nothing : Slot
nothing = record { file = none; tmp = none }

abbrev disk : Disk
disk = record { boxed = nothing; secrets = nothing; ring = ring }

persist_ordered_example :
    Post
      (λ _. New none none (codes "den") envelope)
      (λ _ t. Old none none (codes "den") envelope t ⊎ Half none none (codes "den") envelope t)
      (AnyOf none none (codes "den") envelope)
      (persist sample sample_documents world nonce den disk (works ∷ works ∷ crashes 5 ∷ [])).0
      (persist sample sample_documents world nonce den disk (works ∷ works ∷ crashes 5 ∷ [])).1
persist_ordered_example =
    persist_ordered sample sample_documents world nonce den (codes "den") envelope disk
      (works ∷ works ∷ crashes 5 ∷ []) makes
