-- ===== src/Pairing/Sample.antt =====
-- A concrete text form of the allowlist and of pair codes, at which the laws that the program
-- asks of serde_json and base64 hold. Numbers above every character end or shift the fields.
use privacy_lodge.Prelude.{
  ℕ, zero, suc, ◌+◌, ◌-◌, ◌≡◌, refl, sym, ap, ◌∙◌, append-nil, append_assoc, true, not, Option,
  none, some, List, [], ◌∷◌, ◌++◌, map, all, arith, ◌==◌, if◌then◌else◌,
}
use privacy_lodge.Text.{Str, is_whitespace}
use privacy_lodge.Pairing.{Pairing, Pairings}
use privacy_lodge.Pairing.Code.{PairCode, CodeFormat}
use privacy_lodge.Pairing.Store.{Codec}

abbrev up : Str → Str
up = map (λ c. suc c)

-- Up to the next 0, each item one less.
abbrev field : Str → Str
field [] = []
field (zero ∷ s) = []
field (suc c ∷ s) = c ∷ field s

abbrev behind : Str → Str
behind [] = []
behind (zero ∷ s) = s
behind (suc c ∷ s) = behind s

field-up : (o s : Str) → field (up o ++ zero ∷ s) ≡ o
field-up [] s = refl
field-up (c ∷ o) s = ap (◌∷◌ c) (field-up o s)

behind-up : (o s : Str) → behind (up o ++ zero ∷ s) ≡ s
behind-up [] s = refl
behind-up (c ∷ o) s = behind-up o s

abbrev print_peers : List Pairing → Str
print_peers [] = []
print_peers (x ∷ xs) = x.added_at ∷ (up x.onion ++ zero ∷ print_peers xs)

-- The state is the time of the peer that is being read, with its address so far.
abbrev parse_peers : Option (ℕ × Str) → Str → List Pairing
parse_peers st [] = []
parse_peers none (t ∷ s) = parse_peers (some (t, [])) s
parse_peers (some (t, o)) (zero ∷ s) = record { onion = o; added_at = t } ∷ parse_peers none s
parse_peers (some (t, o)) (suc c ∷ s) = parse_peers (some (t, o ++ c ∷ [])) s

parse-up :
    (t : ℕ) (o acc s : Str)
    → parse_peers (some (t, acc)) (up o ++ zero ∷ s)
      ≡ record { onion = acc ++ o; added_at = t } ∷ parse_peers none s
parse-up t [] acc s =
    ap (λ o. record { onion = o; added_at = t } ∷ parse_peers none s) (sym (append-nil acc))
parse-up t (c ∷ o) acc s =
    parse-up t o (acc ++ c ∷ []) s
    ∙ ap (λ o. record { onion = o; added_at = t } ∷ parse_peers none s)
        (append_assoc acc (c ∷ []) o)

parse-print : (xs : List Pairing) → parse_peers none (print_peers xs) ≡ xs
parse-print [] = refl
parse-print (x ∷ xs) = parse-up x.added_at x.onion [] (print_peers xs) ∙ ap (◌∷◌ x) (parse-print xs)

-- The text of a list begins with a bracket; any other text is corrupt.
abbrev pub print_list : Pairings → Str
print_list p = b'[' ∷ print_peers p.peers

abbrev pub parse_list : Str → Option Pairings
parse_list [] = none
parse_list (c ∷ s) = if c == b'[' then some (record { peers = parse_peers none s }) else none

pub sample_law :
    (p : Pairings) (s : Str)
    → ◌≡◌ {A = Option Str} (some (print_list p)) (some s)
    → parse_list s ≡ some p
sample_law p s e = ground (arith, parse-print p.peers)

abbrev pub sample_codec : Codec
sample_codec = record {
  encode = λ p. some (print_list p);
  decode = parse_list;
  decode-encode = sample_law;
}

abbrev print_code : PairCode → List ℕ
print_code c = c.version ∷ c.expires_at ∷ (up c.onion ++ zero ∷ c.nonce)

abbrev parse_code_bytes : List ℕ → Option PairCode
parse_code_bytes (v ∷ e ∷ s) =
    some (record { version = v; onion = field s; expires_at = e; nonce = behind s })
parse_code_bytes _ = none

pub code_law :
    (c : PairCode) (b : List ℕ)
    → ◌≡◌ {A = Option (List ℕ)} (some (print_code c)) (some b)
    → parse_code_bytes b ≡ some c
code_law c b e = ground (arith, field-up c.onion c.nonce, behind-up c.onion c.nonce)

-- Base64 as a shift to letters far behind the white space.
pub shift_law : (b : List ℕ) → map (λ x. x - 20000) (map (λ x. x + 20000) b) ≡ b
shift_law [] = refl
shift_law (x ∷ b) = ground (arith, shift_law b)

pub shift_solid : (b : List ℕ) → all (λ c. not (is_whitespace c)) (map (λ x. x + 20000) b) ≡ true
unfolding is_whitespace
shift_solid [] = refl
shift_solid (x ∷ b) = ground (arith, shift_solid b)

abbrev pub sample_format : CodeFormat
sample_format = record {
  b64_encode = map (λ x. x + 20000);
  b64_decode = λ s. some (map (λ x. x - 20000) s);
  to_vec = λ c. some (print_code c);
  from_slice = parse_code_bytes;
  b64_decode-encode = λ b. ap some (shift_law b);
  b64-solid = shift_solid;
  from_slice-to_vec = code_law;
}
