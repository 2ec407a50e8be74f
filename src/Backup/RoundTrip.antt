-- ===== src/Backup/RoundTrip.antt =====
-- What create seals, open gives back.
use privacy_lodge.Prelude.{
  ℕ, ◌≡◌, ◌∙◌, refl, ap, subst, true, false, some, List, arith, ltb, Result, ok, err, ok_or, length,
  all, bind_ok, ok_inj, Bool-cases, inl, inr,
}
use privacy_lodge.Text.{Str, codes, trim, len}
use privacy_lodge.Text.Utf8.{from_utf8_lossy, is_scalar}
use privacy_lodge.Crypto as Crypto
use privacy_lodge.Crypto.{Cipher, encrypt, decrypt}
use privacy_lodge.Crypto.Seal.{decrypt-encrypt}
use privacy_lodge.Json.{Json, str_at, u64_at, str_at-object, u64_at-object}
use privacy_lodge.State.{Inner}
use privacy_lodge.Backup.{
  bad_contents, payload, envelope, create, open_backup, open_parsed, sealed_envelope, sealing,
  or_default, max_envelope_bytes, kdf_name, kdf_iters, format_version,
}

sealing_ok :
    (J : Json) (C : Cipher) (f : Str → List ℕ → List ℕ) (r : Result Crypto.Error Str) (s : Str)
    → sealing J C f r ≡ ok s
    → r ≡ ok s
sealing_ok J C f (ok a) s h = ap ok (ok_inj h)
sealing_ok J C f (err e) s h = cc

module _ (J : Json) (C : Cipher) (derive_key : Str → List ℕ → List ℕ) where
  open J use {Value, to_string, from_str}

  str_at-envelope :
      (salt : List ℕ) (onion created blob : Str)
      → (str_at J (codes "salt") (envelope J C derive_key salt onion created blob)
          ≡ some (C.b64_encode salt))
        × (str_at J (codes "blob") (envelope J C derive_key salt onion created blob) ≡ some blob)
        × (str_at J (codes "kdf") (envelope J C derive_key salt onion created blob) ≡ some kdf_name)
        × (u64_at J (codes "iters") (envelope J C derive_key salt onion created blob)
            ≡ some kdf_iters)
        × (u64_at J (codes "v") (envelope J C derive_key salt onion created blob)
            ≡ some format_version)
  unfolding envelope
  str_at-envelope salt onion created blob = (
    str_at-object J (codes "salt") (C.b64_encode salt) _ refl,
    str_at-object J (codes "blob") blob _ refl,
    str_at-object J (codes "kdf") kdf_name _ refl,
    u64_at-object J (codes "iters") kdf_iters _ refl,
    u64_at-object J (codes "v") format_version _ refl,
  )

  open_parsed-envelope :
      (salt nonce : List ℕ) (passphrase onion created plain blob : Str)
      → length salt ≡ 16
      → length nonce ≡ 12
      → all is_scalar plain ≡ true
      → encrypt C nonce plain (derive_key passphrase salt) ≡ ok blob
      → open_parsed J C derive_key passphrase (envelope J C derive_key salt onion created blob)
        ≡ ok_or (from_str plain) bad_contents
  unfolding open_parsed
  open_parsed-envelope salt nonce passphrase onion created plain blob s n u e =
      let f = str_at-envelope salt onion created blob in
      rw (
        f.4,
        f.0,
        f.2,
        f.3,
        f.1,
        C.b64_decode-encode salt,
        s,
        decrypt-encrypt C nonce plain (derive_key passphrase salt) blob n u e,
      )

  -- The payload that create makes of what it reads.
  abbrev pub payload_of : List ℕ → List ℕ → List ℕ → Inner → List Str → Value
  payload_of hostname hs_secret hs_public i pairings =
      payload J C derive_key (trim (from_utf8_lossy hostname)) hs_secret hs_public i pairings

  opens :
      (salt nonce : List ℕ) (passphrase env : Str) (i : Inner) (p : Value)
      → length salt ≡ 16
      → length nonce ≡ 12
      → from_str (to_string p) ≡ some p
      → ((blob : Str)
          → let e = envelope J C derive_key salt (or_default i.boxed.onion) i.boxed.created blob in
            from_str (to_string e) ≡ some e)
      → all is_scalar (to_string p) ≡ true
      → ltb max_envelope_bytes (len env) ≡ false
      → sealed_envelope J C derive_key salt nonce passphrase i p ≡ ok env
      → open_backup J C derive_key env passphrase ≡ ok p
  unfolding open_backup
  opens salt nonce passphrase env i p s n r q u l h =
      let key = derive_key passphrase salt in
      let b = bind_ok (sealing J C derive_key (encrypt C nonce (to_string p) key)) _ h in
      let sealed : encrypt C nonce (to_string p) key ≡ ok b.0 =
        sealing_ok J C derive_key _ b.0 b.1 in
      let parsed =
        subst
          (λ t.
            from_str t
            ≡ some (envelope J C derive_key salt (or_default i.boxed.onion) i.boxed.created b.0))
          (ok_inj b.2) (q b.0) in
      rw (l, parsed)
        (open_parsed-envelope salt nonce passphrase (or_default i.boxed.onion) i.boxed.created
            (to_string p) b.0 s n u sealed
          ∙ ap (λ o. ok_or o bad_contents) r)

  -- A backup that create made opens under its passphrase to its payload, if serde_json reads back
  -- the two documents that it printed, the payload is Unicode text, the envelope is within its
  -- limit, and the salt and the nonce have sixteen and twelve bytes.
  pub open_backup-create :
      (salt nonce : List ℕ) (passphrase env : Str) (hostname hs_secret hs_public : List ℕ)
      (i : Inner) (pairings : List Str)
      → length salt ≡ 16
      → length nonce ≡ 12
      → (let p = payload_of hostname hs_secret hs_public i pairings in
          from_str (to_string p) ≡ some p)
      → ((blob : Str)
          → let e = envelope J C derive_key salt (or_default i.boxed.onion) i.boxed.created blob in
            from_str (to_string e) ≡ some e)
      → all is_scalar (to_string (payload_of hostname hs_secret hs_public i pairings)) ≡ true
      → ltb max_envelope_bytes (len env) ≡ false
      → create J C derive_key salt nonce passphrase
          (record {
            hostname = some hostname;
            secret_key = some hs_secret;
            public_key = some hs_public;
          })
          i
          pairings
        ≡ ok env
      → open_backup J C derive_key env passphrase
        ≡ ok (payload_of hostname hs_secret hs_public i pairings)
  unfolding create
  open_backup-create salt nonce passphrase env hostname hs_secret hs_public i pairings s n r q u l
        h =
      elim (Bool-cases (ltb (length passphrase) 8)) [
        | inl e ↦ absurd (ground (arith, rw e at h))
        | inr e ↦
            opens salt nonce passphrase env i (payload_of hostname hs_secret hs_public i pairings) s
              n r q u l (rw e at h)
      ]
