-- ===== src/State/Startup.antt =====
-- `load_persisted` and `reset_to_fresh`: the state at launch. What `recover` of the identity
-- transaction said, the two files as they read, and the number of peers are arguments; whether the
-- secrets are to be migrated is returned beside the state.
use privacy_lodge.Prelude.{
  ap, ok_inj, bind_ok, ok_or-some, ℕ, ◌%◌, ◌^◌, ◌≡◌, refl, Bool, true, false, Option, none, some,
  List, Result, ok, err, length, all, leb, ◌⊎◌, inl, inr,
}
use privacy_lodge.Text.{Str}
use privacy_lodge.Text.Utf8.{is_scalar}
use privacy_lodge.Crypto as Crypto
use privacy_lodge.Crypto.{Cipher, Keyring, World, KeySource, parse, key_for_decrypt, decrypt}
use privacy_lodge.State.{
  Phase, stopped, broken, Inner, default, PersistedBox, PersistedSecrets, no_secrets,
  identity_snapshot,
}
use privacy_lodge.State.Secrets.{
  Error, Documents, SecretsFile, SecretsLoad, loaded, legacy, missing, failed, load_secrets,
  secrets_version, documents, of_result, unsealed, as_sealing, or_err, unknown_source, not_secrets,
}
use privacy_lodge.State.RoundTrip.{load_secrets-documents}

abbrev pub secrets_of : SecretsLoad → PersistedSecrets
secrets_of (loaded s) = s
secrets_of (legacy s) = s
secrets_of missing = no_secrets
secrets_of (failed e) = no_secrets

-- `Error` where the secrets do not decrypt, and `Stopped` otherwise.
abbrev pub phase_of : SecretsLoad → Phase
phase_of (failed e) = broken
phase_of _ = stopped

abbrev pub is_legacy : SecretsLoad → Bool
is_legacy (legacy s) = true
is_legacy _ = false

abbrev pub started : PersistedBox → SecretsLoad → ℕ → Inner → Inner
started boxed l paired i = record i {
  phase = phase_of l;
  boxed = boxed;
  secrets = secrets_of l;
  paired_count = paired % 2 ^ 32;
}

unfoldable pub reset_to_fresh : Inner → Inner
reset_to_fresh i = default

module _ (c : Cipher) (d : Documents) (w : World) where
  abbrev pub start_parsed : Keyring → Option Str → ℕ → Inner → Option PersistedBox → Inner × Bool
  start_parsed ring secrets_file paired i none = (i, false)
  start_parsed ring secrets_file paired i (some boxed) =
      let l = load_secrets c d w ring secrets_file in (started boxed l paired i, is_legacy l)

  abbrev pub start_read : Keyring → Option Str → Option Str → ℕ → Inner → Inner × Bool
  start_read ring none secrets_file paired i = (i, false)
  start_read ring (some raw) secrets_file paired i =
      start_parsed ring secrets_file paired i (d.decode_box raw)

  unfoldable pub load_persisted :
      Result Str (Unit {0}) → Keyring → Option Str → Option Str → ℕ → Inner → Inner × Bool
  load_persisted (err e) ring box_file secrets_file paired i =
      (record i { phase = broken; error = some e }, false)
  load_persisted (ok u) ring box_file secrets_file paired i =
      start_read ring box_file secrets_file paired i

  -- A launch after the two documents were written brings the box up stopped, with the identity that
  -- was kept, and migrates nothing, if the secrets' JSON is Unicode text, the keychain can be
  -- written, a fresh key has 32 bytes and a nonce twelve.
  pub load_persisted-documents :
      (ring : Keyring) (nonce : List ℕ) (i j : Inner) (plain boxed file : Str) (paired : ℕ)
      → length nonce ≡ 12
      → length w.random_key ≡ 32
      → ring.is_writable ≡ true
      → all is_scalar plain ≡ true
      → d.encode_secrets i.secrets ≡ some plain
      → (documents c d w ring nonce (identity_snapshot i)).0 ≡ ok (boxed, file)
      → let after =
          load_persisted
            (ok tt)
            (documents c d w ring nonce (identity_snapshot i)).1
            (some boxed)
            (some file)
            paired
            j in
        (after.0.phase ≡ stopped)
        × (identity_snapshot after.0 ≡ identity_snapshot i)
        × (after.1 ≡ false)
  unfolding load_persisted identity_snapshot
  load_persisted-documents ring nonce i j plain boxed file paired n r v u e h =
      let back =
        load_secrets-documents c d w ring nonce (identity_snapshot i) plain boxed file n r v u e
          h in
      rw (back.0, back.1) (refl, refl, refl)

  -- The envelope is sealed under a key that is found, and what it holds are the secrets `s`.
  abbrev pub IsSealing : Keyring → SecretsFile → PersistedSecrets → Type 0
  IsSealing ring file s =
      (source : KeySource) × (key : List ℕ) × (plain : Str) × (parse file.key_source ≡ some source)
      × (key_for_decrypt c w ring source ≡ ok key)
      × (decrypt c file.enc key ≡ ok plain)
      × (d.decode_secrets plain ≡ some s)

  as_sealing_ok : {A : Type 0} (r : Result Crypto.Error A) (a : A) → as_sealing r ≡ ok a → r ≡ ok a
  as_sealing_ok (ok b) a h = ap ok (ok_inj h)
  as_sealing_ok (err e) a h = cc

  unsealed_sound :
      (ring : Keyring) (file : SecretsFile) (s : PersistedSecrets)
      → unsealed c d w ring file ≡ ok s
      → IsSealing ring file s
  unsealed_sound ring file s h =
      let source = bind_ok (or_err unknown_source (parse file.key_source)) _ h in
      let key = bind_ok (as_sealing (key_for_decrypt c w ring source.0)) _ source.2 in
      let plain = bind_ok (as_sealing (decrypt c file.enc key.0)) _ key.2 in
      (
        source.0,
        key.0,
        plain.0,
        ok_or-some (parse file.key_source) unknown_source source.1,
        as_sealing_ok (key_for_decrypt c w ring source.0) key.0 key.1,
        as_sealing_ok (decrypt c file.enc key.0) plain.0 plain.1,
        ok_or-some (d.decode_secrets plain.0) not_secrets plain.2,
      )

  unsealed_complete :
      (ring : Keyring) (file : SecretsFile) (s : PersistedSecrets)
      → IsSealing ring file s
      → unsealed c d w ring file ≡ ok s
  unsealed_complete ring file s (source, key, plain, a, b, e, f) = rw (a, b, e, f)

  abbrev Comes : Keyring → SecretsFile → SecretsLoad → Type 0
  Comes ring file l =
      (is_legacy l ≡ false)
      × (((s : PersistedSecrets) × IsSealing ring file s
            × (phase_of l ≡ stopped)
            × (secrets_of l ≡ s))
          ⊎ (((s : PersistedSecrets) → ¬ IsSealing ring file s)
              × (phase_of l ≡ broken)
              × (secrets_of l ≡ no_secrets)))

  opened_or_broken :
      (ring : Keyring) (file : SecretsFile) (r : Result Error PersistedSecrets)
      → unsealed c d w ring file ≡ r
      → Comes ring file (of_result c d w r)
  opened_or_broken ring file (ok s) h = (refl, inl (s, unsealed_sound ring file s h, refl, refl))
  opened_or_broken ring file (err e) h =
      (refl, inr ((λ s p. cc (h, unsealed_complete ring file s p)), refl, refl))

  -- Where secrets.json is an envelope of the current version or a later one, the box comes up
  -- stopped with the secrets that the envelope seals, if its key source is known, the key is found,
  -- and what it decrypts to are secrets; otherwise the phase is the error and the credentials are
  -- empty. Nothing is migrated.
  pub load_persisted-envelope :
      (ring : Keyring) (raw secrets_raw : Str) (boxed : PersistedBox) (file : SecretsFile)
      (paired : ℕ) (i : Inner)
      → d.decode_box raw ≡ some boxed
      → d.decode_file secrets_raw ≡ some file
      → leb secrets_version file.secrets_version ≡ true
      → let after = load_persisted (ok tt) ring (some raw) (some secrets_raw) paired i in
        (after.1 ≡ false)
        × (((s : PersistedSecrets) × IsSealing ring file s
              × (after.0.phase ≡ stopped)
              × (after.0.secrets ≡ s))
            ⊎ (((s : PersistedSecrets) → ¬ IsSealing ring file s)
                × (after.0.phase ≡ broken)
                × (after.0.secrets ≡ no_secrets)))
  unfolding load_persisted load_secrets
  load_persisted-envelope ring raw secrets_raw boxed file paired i b f v =
      rw (b, f, v) (opened_or_broken ring file (unsealed c d w ring file) refl)

  -- Where secrets.json cannot be read, or is neither an envelope nor a bare document, the box comes
  -- up stopped and with empty credentials.
  pub load_persisted-unreadable :
      (ring : Keyring) (raw : Str) (secrets_file : Option Str) (boxed : PersistedBox) (paired : ℕ)
      (i : Inner)
      → d.decode_box raw ≡ some boxed
      → load_secrets c d w ring secrets_file ≡ missing
      → let after = load_persisted (ok tt) ring (some raw) secrets_file paired i in
        (after.0.phase ≡ stopped) × (after.0.secrets ≡ no_secrets)
  unfolding load_persisted
  load_persisted-unreadable ring raw secrets_file boxed paired i b m = rw (b, m) (refl, refl)
