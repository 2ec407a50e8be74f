-- ===== src/Crypto/Examples.antt =====
-- Tests and instances for the secrets' keys.
use privacy_lodge.Prelude.{some, ℕ, zero, suc, ◌≡◌, refl, true, List, [], ◌∷◌, ok, err}
use privacy_lodge.Text.{Str, bytes, bytes_of_char, trim, is_whitespace}
use privacy_lodge.EnvCompat.{not_present}
use privacy_lodge.Crypto.{
  keychain, empty, holds, Keyring, World, encrypt, seal_bytes, key_for_encrypt, key_for_decrypt,
  keychain_get_or_create, decode_key, keychain_missing,
}
use privacy_lodge.Crypto.Keychain.{key_for_decrypt_legacy, key_for_decrypt-key_for_encrypt}
use privacy_lodge.Crypto.Sample.{sample}

abbrev repeated : ℕ → List ℕ
repeated zero = []
repeated (suc n) = 7 ∷ repeated n

abbrev no_env : World
no_env = record {
  secrets_key = err not_present;
  fallback_key = repeated 32;
  random_key = repeated 32;
}

abbrev old_box : Keyring
old_box = record {
  current = empty;
  legacy = holds (sample.b64_encode (repeated 32));
  is_writable = true;
}

adopts : (key_for_encrypt sample no_env old_box).0 ≡ ok (repeated 32, keychain)
unfolding key_for_encrypt keychain_get_or_create decode_key trim is_whitespace
adopts = refl

decodes : decode_key sample (sample.b64_encode (repeated 32)) ≡ some (repeated 32)
unfolding decode_key trim is_whitespace
decodes = refl

key_for_decrypt_legacy_example :
    (key_for_decrypt sample no_env old_box keychain ≡ err keychain_missing)
    × ((key_for_encrypt sample no_env old_box).0 ≡ ok (repeated 32, keychain))
    × (key_for_decrypt sample no_env (key_for_encrypt sample no_env old_box).1 keychain
        ≡ ok (repeated 32))
key_for_decrypt_legacy_example =
    key_for_decrypt_legacy sample no_env old_box (sample.b64_encode (repeated 32)) (repeated 32)
      refl refl refl decodes refl

key_for_decrypt-key_for_encrypt_example :
    key_for_decrypt sample no_env (key_for_encrypt sample no_env old_box).1 keychain
    ≡ ok (repeated 32)
key_for_decrypt-key_for_encrypt_example =
    key_for_decrypt-key_for_encrypt sample no_env old_box (repeated 32) keychain refl refl adopts

abbrev nonce : List ℕ
nonce = 1 ∷ 2 ∷ 3 ∷ 4 ∷ 5 ∷ 6 ∷ 7 ∷ 8 ∷ 9 ∷ 10 ∷ 11 ∷ 12 ∷ []

abbrev cafe : Str
cafe = b'c' ∷ b'a' ∷ b'f' ∷ 233 ∷ []

abbrev blob : Str
blob = sample.b64_encode (
    1 ∷ 2 ∷ 3 ∷ 4 ∷ 5 ∷ 6 ∷ 7 ∷ 8 ∷ 9 ∷ 10 ∷ 11 ∷ 12 ∷ 0 ∷ 0 ∷ 0 ∷ 0 ∷ 0 ∷ 0 ∷ 0 ∷ 0 ∷ 0 ∷ 0 ∷ 0 ∷ 0
    ∷ 0 ∷ 0 ∷ 0 ∷ 0 ∷ 99 ∷ 97 ∷ 102 ∷ 195 ∷ 169 ∷ [])

encrypts : encrypt sample nonce cafe (repeated 32) ≡ ok blob
unfolding encrypt seal_bytes bytes bytes_of_char
encrypts = refl
