-- ===== src/State/RoundTrip.antt =====
-- What is sealed into the two documents is what they read back as.
use privacy_lodge.Prelude.{
  ℕ, ◌≡◌, ◌∙◌, sym, ap, subst, true, some, List, arith, Result, ok, err, length, all, bind_ok,
  ok_or-some,
}
use privacy_lodge.Text.{Str}
use privacy_lodge.Text.Utf8.{is_scalar}
use privacy_lodge.Crypto as Crypto
use privacy_lodge.Crypto.{
  Cipher, KeySource, Keyring, World, key_for_encrypt, key_for_decrypt, encrypt, decrypt, as_str,
  parse,
}
use privacy_lodge.Crypto.Seal.{decrypt-encrypt, parse-as_str}
use privacy_lodge.Crypto.Keychain.{key_for_decrypt-key_for_encrypt}
use privacy_lodge.State.{PersistedSecrets, IdentitySnapshot}
use privacy_lodge.State.Secrets.{
  unencodable, Documents, loaded, secrets_version, documents, documents_of, load_secrets, enveloped,
  sealed_with, as_sealing, or_err,
}

sealing_ok : {A : Type 0} (r : Result Crypto.Error A) (a : A) → as_sealing r ≡ ok a → r ≡ ok a
sealing_ok (ok a) b h = ground (arith, h)
sealing_ok (err e) b h = cc

module _ (c : Cipher) (d : Documents) (w : World) where
  -- The two documents read as what they were made of, with this key ring.
  abbrev ReadsBack : Keyring → IdentitySnapshot → Str → Str → Type 0
  ReadsBack ring snapshot boxed file =
      (d.decode_box boxed ≡ some snapshot.boxed)
      × (load_secrets c d w ring (some file) ≡ loaded snapshot.secrets)

  envelope_loads :
      (ring : Keyring) (s : PersistedSecrets) (plain enc file : Str) (key : List ℕ)
      (source : KeySource)
      → d.encode_secrets s ≡ some plain
      → key_for_decrypt c w ring source ≡ ok key
      → decrypt c enc key ≡ ok plain
      → d.encode_file
          (record { secrets_version = secrets_version; key_source = as_str source; enc = enc })
        ≡ some file
      → load_secrets c d w ring (some file) ≡ loaded s
  unfolding load_secrets
  envelope_loads ring s plain enc file key source e k p f = rw (
    d.decode_file-encode
        (record { secrets_version = secrets_version; key_source = as_str source; enc = enc }) file
        f,
    parse-as_str source,
    k,
    p,
    d.decode_secrets-encode s plain e,
  )

  enveloped_reads :
      (ring : Keyring) (nonce : List ℕ) (snapshot : IdentitySnapshot) (plain : Str) (key : List ℕ)
      (source : KeySource) (boxed file : Str)
      → length nonce ≡ 12
      → all is_scalar plain ≡ true
      → d.encode_secrets snapshot.secrets ≡ some plain
      → key_for_decrypt c w ring source ≡ ok key
      → enveloped c d w nonce snapshot plain (key, source) ≡ ok (boxed, file)
      → ReadsBack ring snapshot boxed file
  enveloped_reads ring nonce snapshot plain key source boxed file n u e k h =
      let enc = bind_ok (as_sealing (encrypt c nonce plain key)) _ h in
      let b = bind_ok (or_err unencodable (d.encode_box snapshot.boxed)) _ enc.2 in
      let f =
        bind_ok
          (or_err unencodable (
            d.encode_file (record {
              secrets_version = secrets_version;
              key_source = as_str source;
              enc = enc.0;
            })))
          _ b.2 in
      let same_box : b.0 ≡ boxed = ground (arith, f.2) in
      let same_file : f.0 ≡ file = ground (arith, f.2) in
      (
        subst (λ t. d.decode_box t ≡ some snapshot.boxed) same_box
            (d.decode_box-encode snapshot.boxed b.0 (ok_or-some _ _ b.1)),
        subst (λ t. load_secrets c d w ring (some t) ≡ loaded snapshot.secrets) same_file
            (envelope_loads ring snapshot.secrets plain enc.0 f.0 key source e k
              (decrypt-encrypt c nonce plain key enc.0 n u (sealing_ok _ enc.0 enc.1))
              (ok_or-some _ _ f.1)),
      )

  sealed_reads :
      (ring : Keyring) (nonce : List ℕ) (snapshot : IdentitySnapshot) (plain boxed file : Str)
      → length nonce ≡ 12
      → length w.random_key ≡ 32
      → ring.is_writable ≡ true
      → all is_scalar plain ≡ true
      → d.encode_secrets snapshot.secrets ≡ some plain
      → sealed_with c d w nonce snapshot plain (key_for_encrypt c w ring).0 ≡ ok (boxed, file)
      → ReadsBack (key_for_encrypt c w ring).1 snapshot boxed file
  sealed_reads ring nonce snapshot plain boxed file n r v u e h =
      let k = bind_ok (as_sealing (key_for_encrypt c w ring).0) _ h in
      enveloped_reads (key_for_encrypt c w ring).1 nonce snapshot plain k.0.0 k.0.1 boxed file n u e
        (key_for_decrypt-key_for_encrypt c w ring k.0.0 k.0.1 r v (sealing_ok _ k.0 k.1)) k.2

  -- The documents that are made of a snapshot read back as that snapshot, from the keychain that
  -- making them left, if the secrets' JSON is Unicode text, the keychain can be written, a fresh
  -- key has 32 bytes and a nonce twelve.
  pub load_secrets-documents :
      (ring : Keyring) (nonce : List ℕ) (snapshot : IdentitySnapshot) (plain boxed file : Str)
      → length nonce ≡ 12
      → length w.random_key ≡ 32
      → ring.is_writable ≡ true
      → all is_scalar plain ≡ true
      → d.encode_secrets snapshot.secrets ≡ some plain
      → (documents c d w ring nonce snapshot).0 ≡ ok (boxed, file)
      → (d.decode_box boxed ≡ some snapshot.boxed)
        × (load_secrets c d w (documents c d w ring nonce snapshot).1 (some file)
            ≡ loaded snapshot.secrets)
  unfolding documents
  load_secrets-documents ring nonce snapshot plain boxed file n r v u e h =
      let at : documents_of c d w ring nonce snapshot (d.encode_secrets snapshot.secrets)
          ≡ documents_of c d w ring nonce snapshot (some plain) =
        ap (documents_of c d w ring nonce snapshot) e in
      rw e
        (sealed_reads ring nonce snapshot plain boxed file n r v u e (ap (λ x. x.0) (sym at) ∙ h))
