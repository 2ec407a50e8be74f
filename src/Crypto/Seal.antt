-- ===== src/Crypto/Seal.antt =====
-- What was encrypted decrypts.
use privacy_lodge.Prelude.{
  ℕ, zero, suc, ◌+◌, ◌≡◌, refl, ap, sym, subst, true, false, some, List, [], ◌∷◌, ◌++◌, ltb, arith,
  ok, length, take, drop, all, length-append, Option-cases, inl, inr, bind_ok,
}
use privacy_lodge.Text.{Str, bytes}
use privacy_lodge.Text.Laws.{trim-Solid}
use privacy_lodge.Text.Utf8.{is_scalar, from_utf8-bytes}
use privacy_lodge.Crypto.{
  Cipher, seal_bytes, open_bytes, encrypt, decrypt, KeySource, env, keychain, fallback, as_str,
  parse,
}

take-append : (n : ℕ) (a b : List ℕ) → length a ≡ n → take n (a ++ b) ≡ a
take-append n [] b h = rw (sym h)
take-append zero (x ∷ a) b h = absurd (omega (arith, h))
take-append (suc n) (x ∷ a) b h = ap (◌∷◌ x) (take-append n a b (omega (arith, h)))

drop-append : (n : ℕ) (a b : List ℕ) → length a ≡ n → drop n (a ++ b) ≡ b
drop-append n [] b h = rw (sym h)
drop-append zero (x ∷ a) b h = absurd (omega (arith, h))
drop-append (suc n) (x ∷ a) b h = drop-append n a b (omega (arith, h))

long_enough : (n m k : ℕ) → n ≡ 12 → k ≡ m + 16 → ltb (n + k) 28 ≡ false
long_enough n m k h e = ground arith

module _ (c : Cipher) where
  opens :
      (nonce plain key ct : List ℕ)
      → length nonce ≡ 12
      → c.seal key nonce plain ≡ some ct
      → open_bytes c (nonce ++ ct) key ≡ ok plain
  unfolding open_bytes
  opens nonce plain key ct n e = rw (
    length-append nonce ct,
    long_enough (length nonce) (length plain) (length ct) n (c.length-seal key nonce plain ct e),
    take-append 12 nonce ct n,
    drop-append 12 nonce ct n,
    c.unseal-seal key nonce plain ct e,
  )

  open_bytes-seal_bytes :
      (nonce plain key sealed : List ℕ)
      → length nonce ≡ 12
      → seal_bytes c nonce plain key ≡ ok sealed
      → open_bytes c sealed key ≡ ok plain
  unfolding seal_bytes
  open_bytes-seal_bytes nonce plain key sealed n h = elim (Option-cases (c.seal key nonce plain)) [
    | inl e ↦ absurd (ground (arith, e, h))
    | inr (ct, e) ↦
        (let same : nonce ++ ct ≡ sealed = ground (arith, e, h) in
          subst (λ s. open_bytes c s key ≡ ok plain) same (opens nonce plain key ct n e))
  ]

  -- A text of Unicode characters that was encrypted, with a nonce of twelve bytes, decrypts to
  -- itself under the same key.
  pub decrypt-encrypt :
      (nonce : List ℕ) (plain : Str) (key : List ℕ) (blob : Str)
      → length nonce ≡ 12
      → all is_scalar plain ≡ true
      → encrypt c nonce plain key ≡ ok blob
      → decrypt c blob key ≡ ok plain
  unfolding encrypt decrypt
  decrypt-encrypt nonce plain key blob n u h =
      let out = bind_ok (seal_bytes c nonce (bytes plain) key) _ h in
      let same : c.b64_encode out.0 ≡ blob = ground (arith, out.2) in
      rw (
        sym same,
        trim-Solid (c.b64_encode out.0) (c.b64-solid out.0),
        c.b64_decode-encode out.0,
        open_bytes-seal_bytes nonce (bytes plain) key out.0 n out.1,
        from_utf8-bytes plain u,
      )

pub parse-as_str : (k : KeySource) → parse (as_str k) ≡ some k
unfolding parse as_str
parse-as_str env = refl
parse-as_str keychain = refl
parse-as_str fallback = refl
