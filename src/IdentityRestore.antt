-- ===== src/IdentityRestore.antt =====
-- src-tauri/src/identity_restore.rs: the payload of a backup is checked before a fresh box becomes
-- the box that it came from. base64, Ed25519 and SHA3-256 are the parameter `Keys`; JSON is `Json`.
pub mod Peers
pub mod Sound
pub mod Seed
mod Examples
use privacy_lodge.Prelude.{
  ℕ, ◌+◌, ◌*◌, ◌/◌, ◌%◌, Bool, true, false, not, ◌&&◌, ◌||◌, Option, none, some, List, [], ◌∷◌,
  ◌++◌, map, ltb, leb, ◌==◌, if◌then◌else◌, Result, ok, err, ◌>>=◌, ◌>>◌, ok_or, refuse_if, length,
  take, drop, all, get_elem?,
}
use privacy_lodge.Text.{Str, codes, trim, is_empty, str_eq, len, bytes}
use privacy_lodge.Pairing.{is_valid_onion}
use privacy_lodge.OnionAddress.{onion}
use privacy_lodge.Json.{Json, str_at, array_at}
use privacy_lodge.State.{Inner, default, setting_up}

pub record Keys : Type 0 where
  pub b64_encode : List ℕ → Str
  pub b64_decode : Str → Option (List ℕ)
  -- The public key of an expanded secret of 64 bytes.
  pub public_of : List ℕ → List ℕ
  pub sha3_256 : List ℕ → List ℕ

pub data Error : Type 0 where
  missing invalid : Str → Error
  bad_onion conflicting_onions bad_secret bad_public incomplete_keys bad_expanded : Error
  mismatch bad_username bad_phrase no_pairings too_many_pairings bad_peer : Error

abbrev pub secret_header : List ℕ
secret_header = codes "== ed25519v1-secret: type0 ==" ++ 0 ∷ 0 ∷ 0 ∷ []

abbrev pub public_header : List ℕ
public_header = codes "== ed25519v1-public: type0 ==" ++ 0 ∷ 0 ∷ 0 ∷ []

pub record Identity : Type 0 where
  pub inner : Inner
  pub secret : List ℕ
  pub public : List ℕ
  pub peers : List Str

-- The byte at an index that is there.
abbrev pub byte_at : List ℕ → ℕ → ℕ
byte_at b i = elim (get_elem? b i) [ none ↦ 0 | some x ↦ x ]

-- Cleared low bits, and the two high bits 01.
unfoldable pub is_clamped : List ℕ → Bool
is_clamped secret = byte_at secret 32 % 8 == 0 && byte_at secret 63 / 64 == 1

abbrev pub is_lower_or_digit : ℕ → Bool
is_lower_or_digit b = (leb b'a' b && leb b b'z') || (leb b'0' b && leb b b'9')

unfoldable pub is_username_byte : ℕ → Bool
is_username_byte b =
    is_lower_or_digit b
    || (b == b'.' || (b == b'_' || (b == b'=' || (b == b'/' || (b == b'+' || b == b'-')))))

unfoldable pub is_hex_byte : ℕ → Bool
is_hex_byte b =
    (leb b'0' b && leb b b'9') || ((leb b'a' b && leb b b'f') || (leb b'A' b && leb b b'F'))

-- The order of a `BTreeSet` of texts, by bytes, which is that of their characters.
unfoldable pub str_lt : Str → Str → Bool
str_lt [] [] = false
str_lt [] (b ∷ t) = true
str_lt (a ∷ s) [] = false
str_lt (a ∷ s) (b ∷ t) = let rest = str_lt s t in if a == b then rest else ltb a b

unfoldable pub insert : Str → List Str → List Str
insert x [] = x ∷ []
insert x (y ∷ ys) =
    let rest = insert x ys in
    if str_eq x y then y ∷ ys else if str_lt x y then x ∷ y ∷ ys else y ∷ rest

module _ (J : Json) where
  open J use {Value, get, as_str, as_array}

  abbrev bounded : Str → ℕ → Str → Result Error Str
  bounded name limit value =
      if is_empty (trim value) || ltb limit (len value) then err (invalid name) else ok value

  unfoldable pub text : Value → Str → ℕ → Result Error Str
  text p name limit = ok_or (str_at J name p) (missing name) >>= bounded name limit

  abbrev is_hex_of : ℕ → Str → Bool
  is_hex_of n value = len value == n && all is_hex_byte (bytes value)

  unfoldable pub hex_secret : Value → Str → ℕ → Result Error Str
  unfolding text
  hex_secret p name n =
      text p name n >>= λ value. if not (is_hex_of n value) then err (invalid name) else ok value

  -- `filter(|s| !s.is_empty())` on the public copy of the address.
  abbrev conflicts : Option Str → Str → Bool
  conflicts none hostname = false
  conflicts (some o) hostname = not (is_empty o) && not (str_eq o hostname)

  abbrev word_of : Option Str → Result Error Str
  word_of none = err bad_phrase
  word_of (some s) = if leb (len s) 64 then ok s else err bad_phrase

  unfoldable pub words_of : List Value → Result Error (List Str)
  words_of [] = ok []
  words_of (v ∷ vs) = word_of (as_str v) >>= λ w. words_of vs >>= λ ws. ok (w ∷ ws)

  abbrev phrase_in : Option (List Value) → Result Error (List Str)
  phrase_in none = err bad_phrase
  phrase_in (some words) = if leb (length words) 24 then words_of words else err bad_phrase

  abbrev phrase_at : Option Value → Result Error (List Str)
  phrase_at none = ok []
  phrase_at (some v) = phrase_in (as_array v)

  -- No phrase is an empty one; anything but an array of at most 24 words is an error.
  unfoldable pub phrase_of : Value → Result Error (List Str)
  unfolding words_of
  phrase_of p = phrase_at (get (codes "phrase") p)

  abbrev peer_of : Option Str → Result Error Str
  peer_of none = err bad_peer
  peer_of (some s) = if is_valid_onion s then ok s else err bad_peer

  -- The loop over the pairings, with the set so far.
  unfoldable pub unique_peers : Str → List Str → List Value → Result Error (List Str)
  unfolding insert
  unique_peers hostname set [] = ok set
  unique_peers hostname set (v ∷ vs) = peer_of (as_str v) >>= λ peer.
      unique_peers hostname (if str_eq peer hostname then set else insert peer set) vs

  unfoldable pub peers_of : Value → Str → Result Error (List Str)
  unfolding unique_peers
  peers_of p hostname = ok_or (array_at J (codes "pairings") p) no_pairings >>= λ peers.
      if ltb 4096 (length peers) then err too_many_pairings else unique_peers hostname [] peers

  module _ (K : Keys) where
    abbrev key_file : Value → Str → ℕ → Error → Result Error (List ℕ)
    key_file p name limit e = text p name limit >>= λ s. ok_or (K.b64_decode s) e

    abbrev pub are_whole : List ℕ → List ℕ → Bool
    are_whole secret public =
        length secret == 96
        && (length public == 64
            && (str_eq (take 32 secret) secret_header && str_eq (take 32 public) public_header))

    abbrev pub owns : Str → List ℕ → List ℕ → Bool
    owns hostname secret public =
        let derived = K.public_of (drop 32 secret) in
        str_eq derived (drop 32 public) && str_eq (onion K.sha3_256 derived) hostname

    -- The two files of keys, whole, clamped and of this address.
    unfoldable pub keys_of : Value → Str → Result Error (List ℕ × List ℕ)
    unfolding text is_clamped
    keys_of p hostname = key_file p (codes "hs_secret") 128 bad_secret >>= λ secret.
        key_file p (codes "hs_public") 88 bad_public >>= λ public.
        refuse_if (not (are_whole secret public)) incomplete_keys
        >> refuse_if (not (is_clamped secret)) bad_expanded
        >> refuse_if (not (owns hostname secret public)) mismatch
        >> ok (secret, public)

    unfoldable pub hostname_of : Value → Result Error Str
    unfolding text
    hostname_of p = text p (codes "hostname") 62 >>= λ hostname.
        refuse_if (not (is_valid_onion hostname)) bad_onion
        >> refuse_if (conflicts (str_at J (codes "onion") p) hostname) conflicting_onions
        >> ok hostname

    unfoldable pub username_of : Value → Result Error Str
    unfolding text is_username_byte
    username_of p = text p (codes "username") 180 >>= λ username.
        refuse_if (not (all is_username_byte (bytes username))) bad_username >> ok username

    -- The rest of the state, its texts read in the order of the source.
    unfoldable pub inner_of : Value → Str → Str → List Str → Result Error Inner
    unfolding text hex_secret
    inner_of p hostname username phrase = text p (codes "box_name") 1024 >>= λ box_name.
        text p (codes "created") 100 >>= λ created. hex_secret p (codes "token") 32 >>= λ token.
        hex_secret p (codes "turn_secret") 64 >>= λ turn_secret.
        hex_secret p (codes "join_token") 32 >>= λ join_token.
        hex_secret p (codes "livekit_api_key") 32 >>= λ livekit_api_key.
        hex_secret p (codes "livekit_api_secret") 64 >>= λ livekit_api_secret.
        text p (codes "admin_password") 1024 >>= λ admin_password. ok (record default {
          phase = setting_up;
          boxed = record {
            box_name = box_name;
            username = username;
            created = created;
            onion = some hostname;
            admin_created = false;
            restore_pairings_pending = true;
          };
          secrets = record {
            phrase = phrase;
            token = token;
            turn_secret = turn_secret;
            join_token = join_token;
            livekit_api_key = livekit_api_key;
            livekit_api_secret = livekit_api_secret;
            admin_password = admin_password;
          };
        })

    unfoldable pub validate : Value → Result Error Identity
    unfolding hostname_of keys_of username_of phrase_of peers_of inner_of
    validate p = hostname_of p >>= λ hostname. keys_of p hostname >>= λ keys.
        username_of p >>= λ username. phrase_of p >>= λ phrase. peers_of p hostname >>= λ peers.
        inner_of p hostname username phrase >>= λ inner.
        ok (record { inner = inner; secret = keys.0; public = keys.1; peers = peers })
