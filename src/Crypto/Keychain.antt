-- ===== src/Crypto/Keychain.antt =====
-- Which key is found again.
use privacy_lodge.Prelude.{
  ℕ, ◌≡◌, refl, sym, subst, ap, ◌∙◌, Bool, true, false, Option, none, some, List, arith, Result, ok,
  err, length, if◌then◌else◌,
}
use privacy_lodge.Text.{Str}
use privacy_lodge.Text.Laws.{trim-Solid}
use privacy_lodge.EnvCompat.{VarError, not_present, not_unicode}
use privacy_lodge.Crypto.{
  Cipher, KeySource, env, keychain, fallback, Entry, unavailable, empty, holds, Keyring, World,
  decode_key, keychain_get, keychain_get_or_create, key_for_encrypt, key_for_decrypt, password,
  keychain_missing, stored, get_or_create, adopt, adopt_decoded, encrypt_with, from_env,
  from_keychain,
}

module _ (c : Cipher) where
  decode_key-encoded : (key : List ℕ) → length key ≡ 32 → decode_key c (c.b64_encode key) ≡ some key
  unfolding decode_key
  decode_key-encoded key h =
      rw (trim-Solid (c.b64_encode key) (c.b64-solid key), c.b64_decode-encode key, h)

  keychain_get-held :
      (ring : Keyring) (s : Str) (key : List ℕ)
      → ring.current ≡ holds s
      → decode_key c s ≡ some key
      → keychain_get c ring ≡ some key
  unfolding keychain_get
  keychain_get-held ring s key h k = rw (h, k)

  created_at :
      (b : Bool) (random key : List ℕ) (ring : Keyring)
      → length random ≡ 32
      → let made = record ring { current = holds (c.b64_encode random) } in
        let after : Option (List ℕ) × Keyring =
          if b then (some random, if b then made else ring) else (none, ring) in
        after.0 ≡ some key → keychain_get c after.1 ≡ some key
  created_at false random key ring n h = cc
  created_at true random key ring n h =
      keychain_get-held _ (c.b64_encode random) key refl (decode_key-encoded random n ∙ h)

  adopted :
      (s : Str) (k key : List ℕ) (ring : Keyring)
      → ring.is_writable ≡ true
      → decode_key c s ≡ some k
      → some k ≡ some key
      → keychain_get c (stored s ring) ≡ some key
  adopted s k key ring w d h =
      let written : stored s ring ≡ record ring { current = holds s } =
        ap (λ b. if b then record ring { current = holds s } else ring) w in
      subst (λ r. keychain_get c r ≡ some key) (sym written)
        (keychain_get-held (record ring { current = holds s }) s key refl (d ∙ h))

  adopted_decoded :
      (random key : List ℕ) (s : Str) (o : Option (List ℕ)) (ring : Keyring)
      → length random ≡ 32
      → ring.is_writable ≡ true
      → decode_key c s ≡ o
      → (adopt_decoded c random s o ring).0 ≡ some key
      → keychain_get c (adopt_decoded c random s o ring).1 ≡ some key
  adopted_decoded random key s none ring n w d h = created_at ring.is_writable random key ring n h
  adopted_decoded random key s (some k) ring n w d h = adopted s k key ring w d h

  found_legacy :
      (random key : List ℕ) (o : Option Str) (ring : Keyring)
      → length random ≡ 32
      → ring.is_writable ≡ true
      → (adopt c random o ring).0 ≡ some key
      → keychain_get c (adopt c random o ring).1 ≡ some key
  found_legacy random key none ring n w h = created_at ring.is_writable random key ring n h
  found_legacy random key (some s) ring n w h =
      adopted_decoded random key s (decode_key c s) ring n w refl h

  found :
      (random key : List ℕ) (e : Entry) (ring : Keyring)
      → ring.current ≡ e
      → length random ≡ 32
      → ring.is_writable ≡ true
      → (get_or_create c random e ring).0 ≡ some key
      → keychain_get c (get_or_create c random e ring).1 ≡ some key
  found random key unavailable ring q n w h = cc
  found random key (holds s) ring q n w h = keychain_get-held ring s key q h
  found random key empty ring q n w h = found_legacy random key (password ring.legacy) ring n w h

  from_ring :
      (w : World) (o : Option (List ℕ)) (ring : Keyring) (key : List ℕ) (source : KeySource)
      → from_keychain c o ≡ ok (key, source)
      → ((k : List ℕ) → o ≡ some k → keychain_get c ring ≡ some k)
      → key_for_decrypt c w ring source ≡ ok key
  unfolding key_for_decrypt
  from_ring w none ring key source h f = cc
  from_ring w (some k) ring key env h f = cc
  from_ring w (some k) ring key fallback h f = cc
  from_ring w (some k) ring key keychain h f = ground (arith, h, f k refl)

  from_value :
      (w : World) (value : Str) (o : Option (List ℕ)) (ring : Keyring) (key : List ℕ)
      (source : KeySource)
      → w.secrets_key ≡ ok value
      → decode_key c value ≡ o
      → from_env c o ≡ ok (key, source)
      → key_for_decrypt c w ring source ≡ ok key
  unfolding key_for_decrypt
  from_value w value none ring key source q d h = cc
  from_value w value (some k) ring key env q d h = rw (q, d) (ground (arith, h))
  from_value w value (some k) ring key keychain q d h = cc
  from_value w value (some k) ring key fallback q d h = cc

  encrypted_with :
      (w : World) (r : Result VarError Str) (ring : Keyring) (key : List ℕ) (source : KeySource)
      → w.secrets_key ≡ r
      → length w.random_key ≡ 32
      → ring.is_writable ≡ true
      → (encrypt_with c r w.random_key ring).0 ≡ ok (key, source)
      → key_for_decrypt c w (encrypt_with c r w.random_key ring).1 source ≡ ok key
  unfolding key_for_decrypt keychain_get_or_create
  encrypted_with w (ok value) ring key source q n v h =
      from_value w value (decode_key c value) ring key source q refl h
  encrypted_with w (err not_unicode) ring key source q n v h = cc
  encrypted_with w (err not_present) ring key source q n v h =
      from_ring w (get_or_create c w.random_key ring.current ring).0
        (get_or_create c w.random_key ring.current ring).1 key source h
        (λ k e. found w.random_key k ring.current ring refl n v e)

  -- The key that secrets are sealed under is found again from the source that is recorded, in the
  -- environment and the keychain that are left, if the keychain can be written and fresh keys have
  -- 32 bytes.
  pub key_for_decrypt-key_for_encrypt :
      (w : World) (ring : Keyring) (key : List ℕ) (source : KeySource)
      → length w.random_key ≡ 32
      → ring.is_writable ≡ true
      → (key_for_encrypt c w ring).0 ≡ ok (key, source)
      → key_for_decrypt c w (key_for_encrypt c w ring).1 source ≡ ok key
  unfolding key_for_encrypt
  key_for_decrypt-key_for_encrypt w ring key source n v h =
      encrypted_with w w.secrets_key ring key source refl n v h

  -- Where a key is stored under the name from before the rename only, the environment sets none and
  -- the keychain can be written, decryption does not find the key, though encryption does; once
  -- something was encrypted, decryption finds it too.
  pub key_for_decrypt_legacy :
      (w : World) (ring : Keyring) (s : Str) (key : List ℕ)
      → w.secrets_key ≡ err not_present
      → ring.current ≡ empty
      → ring.legacy ≡ holds s
      → decode_key c s ≡ some key
      → ring.is_writable ≡ true
      → (key_for_decrypt c w ring keychain ≡ err keychain_missing)
        × ((key_for_encrypt c w ring).0 ≡ ok (key, keychain))
        × (key_for_decrypt c w (key_for_encrypt c w ring).1 keychain ≡ ok key)
  unfolding key_for_decrypt key_for_encrypt keychain_get keychain_get_or_create
  key_for_decrypt_legacy w ring s key e n l d v = rw (e, n, l, d, v, d) (refl, refl, refl)
