-- ===== src/Pairing/Code.antt =====
-- Pair codes: minted by one box, accepted by another within fifteen minutes.
-- The clock is an argument (`now`); base64 and serde_json are the parameter `CodeFormat`.
use privacy_lodge.Prelude.{
  ℕ, ◌+◌, ◌*◌, ◌%◌, ◌^◌, ◌≤◌, ◌<◌, ◌≡◌, Option-cases, inl, inr, true, not, Option, some, List,
  arith, ltb, ◌==◌, if◌then◌else◌, Result, ok, err, ◌>>=◌, ok_or, all,
}
use privacy_lodge.Text.{Str, trim, is_whitespace}
use privacy_lodge.Text.Laws.{trim-Solid}
use privacy_lodge.Pairing.{
  Error, unencodable, not_base64, malformed, wrong_version, expired, bad_address, is_valid_onion,
}

pub record PairCode : Type 0 where
  pub version : ℕ
  pub onion : Str
  pub expires_at : ℕ
  pub nonce : Str

abbrev pub code_ttl_secs : ℕ
code_ttl_secs = 15 * 60

-- base64 and the JSON of a pair code. The laws are the documented ones: what was encoded decodes
-- to itself, and the standard alphabet has no white space.
pub record CodeFormat : Type 0 where
  pub b64_encode : List ℕ → Str
  pub b64_decode : Str → Option (List ℕ)
  pub to_vec : PairCode → Option (List ℕ)
  pub from_slice : List ℕ → Option PairCode
  pub b64_decode-encode : (b : List ℕ) → b64_decode (b64_encode b) ≡ some b
  pub b64-solid : (b : List ℕ) → all (λ c. not (is_whitespace c)) (b64_encode b) ≡ true
  pub from_slice-to_vec : (c : PairCode) (b : List ℕ) → to_vec c ≡ some b → from_slice b ≡ some c

-- `now() + CODE_TTL_SECS` is an addition on `u64`.
unfoldable pub mint_code : CodeFormat → ℕ → Str → Str → Result Error Str
mint_code f now my_onion nonce_hex =
    let code : PairCode = record {
      version = 1;
      onion = my_onion;
      expires_at = (now + code_ttl_secs) % 2 ^ 64;
      nonce = nonce_hex;
    } in
    ok_or (f.to_vec code) unencodable >>= λ json. ok (f.b64_encode json)

check_code : ℕ → PairCode → Result Error Str
check_code now parsed =
    if not (parsed.version == 1)
    then err wrong_version
    else if ltb parsed.expires_at now
    then err expired
    else if not (is_valid_onion parsed.onion)
    then err bad_address
    else ok parsed.onion

unfoldable pub parse_code : CodeFormat → ℕ → Str → Result Error Str
unfolding check_code
parse_code f now code = ok_or (f.b64_decode (trim code)) not_base64 >>= λ raw.
    ok_or (f.from_slice raw) malformed >>= λ parsed. check_code now parsed

module _ (f : CodeFormat) where
  abbrev minted_code : ℕ → Str → Str → PairCode
  minted_code now onion nonce = record {
    version = 1;
    onion = onion;
    expires_at = (now + code_ttl_secs) % 2 ^ 64;
    nonce = nonce;
  }

  -- A minted code reads as what was put into it.
  parse_code-minted :
      (now later : ℕ) (onion nonce code : Str)
      → mint_code f now onion nonce ≡ ok code
      → parse_code f later code ≡ check_code later (minted_code now onion nonce)
  unfolding mint_code parse_code
  parse_code-minted now later onion nonce code minted =
      elim (Option-cases (f.to_vec (minted_code now onion nonce))) [
        | inl e ↦ ground (arith, e)
        | inr (b, e) ↦
            let at : f.b64_encode b ≡ code = ground (arith, e) in
            rw (← at) (
              rw (
                trim-Solid (f.b64_encode b) (f.b64-solid b),
                f.b64_decode-encode b,
                f.from_slice-to_vec _ b e,
              ))
      ]

  -- A code that a box with a valid address has minted is accepted up to fifteen minutes later, and
  -- gives its address.
  pub parse_code-mint_code :
      (now later : ℕ) (onion nonce code : Str)
      → is_valid_onion onion ≡ true
      → now + code_ttl_secs < 2 ^ 64
      → later ≤ now + code_ttl_secs
      → mint_code f now onion nonce ≡ ok code
      → parse_code f later code ≡ ok onion
  unfolding check_code
  parse_code-mint_code now later onion nonce code valid room soon minted =
      rw (parse_code-minted now later onion nonce code minted) (ground arith)

  -- Afterwards it is refused.
  pub parse_code-mint_code_late :
      (now later : ℕ) (onion nonce code : Str)
      → now + code_ttl_secs < 2 ^ 64
      → now + code_ttl_secs < later
      → mint_code f now onion nonce ≡ ok code
      → parse_code f later code ≡ err expired
  unfolding check_code
  parse_code-mint_code_late now later onion nonce code room late minted =
      rw (parse_code-minted now later onion nonce code minted) (ground arith)

  -- Whatever code is presented, an address that comes out of it is a valid one.
  pub parse_code-valid :
      (now : ℕ) (code onion : Str) → parse_code f now code ≡ ok onion → is_valid_onion onion ≡ true
  unfolding parse_code
  parse_code-valid now code onion h = ground arith
