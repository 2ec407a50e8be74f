-- ===== src/Backup/Sample.antt =====
-- A small complete box, and a printer and instances of the libraries for it.
use privacy_lodge.Prelude.{
  ℕ, zero, suc, ◌≡◌, refl, true, Option, none, some, List, [], ◌∷◌, ◌++◌, ok, arith,
}
use privacy_lodge.Text.{Str, codes, bytes, trim, is_whitespace}
use privacy_lodge.Pairing.{is_valid_onion}
use privacy_lodge.OnionAddress.{onion}
use privacy_lodge.OnionAddress.Valid.{is_valid_onion-onion}
use privacy_lodge.Crypto.Sample.{sample}
use privacy_lodge.Json.{Json}
use privacy_lodge.Json.Sample.{Tree, str, obj, tree_json, find}
use privacy_lodge.State.{Inner, default, no_box}
use privacy_lodge.IdentityRestore.{
  Keys, Identity, secret_header, public_header, validate, is_username_byte, is_hex_byte, is_clamped,
  owns,
}
use privacy_lodge.Backup.{payload}
use privacy_lodge.Backup.Restores.{IsComplete, validate-payload, restored}

abbrev pub repeated : ℕ → ℕ → List ℕ
repeated x zero = []
repeated x (suc n) = x ∷ repeated x n

abbrev pub digest : List ℕ → List ℕ
digest _ = repeated 7 32

abbrev pub public_key : List ℕ
public_key = repeated 7 32

abbrev pub hostname : Str
hostname = onion digest public_key

abbrev pub secret_file : List ℕ
secret_file = secret_header ++ repeated 0 31 ++ 64 ∷ [] ++ repeated 0 32

abbrev pub public_file : List ℕ
public_file = public_header ++ public_key

abbrev pub keys : Keys
keys = record {
  b64_encode = sample.b64_encode;
  b64_decode = sample.b64_decode;
  public_of = λ b. public_key;
  sha3_256 = digest;
}

abbrev pub den : Inner
den = record default {
  boxed = record no_box {
    box_name = codes "den";
    username = codes "ada";
    created = codes "today";
    onion = some hostname;
  };
  secrets = record {
    phrase = codes "one" ∷ codes "two" ∷ [];
    token = repeated b'a' 32;
    turn_secret = repeated b'b' 64;
    join_token = repeated b'c' 32;
    livekit_api_key = repeated b'd' 32;
    livekit_api_secret = repeated b'e' 64;
    admin_password = codes "pw";
  };
}

abbrev pub derive_key : Str → List ℕ → List ℕ
derive_key passphrase salt = repeated 7 32

pub hostname-valid : is_valid_onion hostname ≡ true
hostname-valid = is_valid_onion-onion digest public_key (λ bs. omega arith) refl

abbrev pub no_print : Json
no_print = tree_json (λ t. []) (λ s. none)

pub den-IsComplete : IsComplete hostname den []
unfolding trim onion is_whitespace bytes is_username_byte is_hex_byte
den-IsComplete = record {
  valid = hostname-valid;
  short_hostname = refl;
  own_onion = refl;
  short_username = refl;
  plain_username = refl;
  short_name = refl;
  short_created = refl;
  few_words = refl;
  short_words = refl;
  token = refl;
  turn_secret = refl;
  join_token = refl;
  livekit_api_key = refl;
  livekit_api_secret = refl;
  short_password = refl;
  few_peers = refl;
  valid_peers = refl;
}

pub is_owner : owns no_print keys hostname secret_file public_file ≡ true
unfolding onion
is_owner = refl

-- The payload of the box validates, however it is printed.
pub den_validates :
    (to_string : Tree → Str) (from_str : Str → Option Tree)
    → (peers : List Str) × (validate (tree_json to_string from_str) keys (
          payload
            (tree_json to_string from_str)
            sample
            derive_key
            hostname
            secret_file
            public_file
            den
            [])
        ≡ ok (record {
          inner = restored no_print sample derive_key keys hostname den;
          secret = secret_file;
          public = public_file;
          peers = peers;
        }))
unfolding is_clamped is_whitespace trim
den_validates to_string from_str =
    validate-payload (tree_json to_string from_str) sample derive_key keys hostname secret_file
      public_file den [] den-IsComplete sample.b64_decode-encode refl refl refl refl is_owner

abbrev pub no_text : Str → Option Tree
no_text s = none

abbrev pub no_string : Tree → Str
no_string t = []

abbrev pub den_id : Identity
den_id = record {
  inner = restored no_print sample derive_key keys hostname den;
  secret = secret_file;
  public = public_file;
  peers = (den_validates no_string no_text).0;
}

-- A printer that marks envelopes by E.
abbrev pub print_found : Option Tree → Str
print_found (some (str s)) = b'E' ∷ s
print_found _ = b'P' ∷ []

abbrev pub print : Tree → Str
print (obj m) = print_found (find (codes "blob") m)
print _ = []

abbrev pub salt : List ℕ
salt = repeated 3 16

abbrev pub nonce : List ℕ
nonce = repeated 4 12
