-- ===== src/Backup/Restores.antt =====
-- The payload of a complete box validates to the identity of that box.
use privacy_lodge.Prelude.{
  ℕ, ◌≡◌, refl, Bool, true, false, not, ◌&&◌, ◌||◌, some, List, [], ◌∷◌, map, arith, ltb, leb, ◌==◌,
  if◌then◌else◌, ok, length, all, Bool-cases,
}
use privacy_lodge.Text.{Str, codes, trim, len, str_eq, is_empty, bytes}
use privacy_lodge.Text.Laws.{str_eq_refl}
use privacy_lodge.Pairing.{is_valid_onion}
use privacy_lodge.Crypto.{Cipher}
use privacy_lodge.Json.{Json, str_at, str_at-object, array_at-object}
use privacy_lodge.State.{Inner, default, setting_up}
use privacy_lodge.IdentityRestore.{
  Keys, text, hex_secret, is_hex_byte, words_of, phrase_of, unique_peers, peers_of, hostname_of,
  keys_of, username_of, inner_of, validate, are_whole, owns, is_clamped, is_username_byte, insert,
}
use privacy_lodge.Backup.{payload, or_default}

-- A text that is not blank and within its limit.
abbrev pub fits : ℕ → Str → Bool
fits limit s = not (is_empty (trim s) || ltb limit (len s))

abbrev pub is_hex_text : ℕ → Str → Bool
is_hex_text n s = fits n s && (len s == n && all is_hex_byte (bytes s))

-- What a box has once it is set up.
pub record IsComplete (hostname : Str) (i : Inner) (pairings : List Str) : Type 0 where
  pub valid : is_valid_onion hostname ≡ true
  pub short_hostname : fits 62 hostname ≡ true
  pub own_onion : i.boxed.onion ≡ some hostname
  pub short_username : fits 180 i.boxed.username ≡ true
  pub plain_username : all is_username_byte (bytes i.boxed.username) ≡ true
  pub short_name : fits 1024 i.boxed.box_name ≡ true
  pub short_created : fits 100 i.boxed.created ≡ true
  pub few_words : leb (length i.secrets.phrase) 24 ≡ true
  pub short_words : all (λ w. leb (len w) 64) i.secrets.phrase ≡ true
  pub token : is_hex_text 32 i.secrets.token ≡ true
  pub turn_secret : is_hex_text 64 i.secrets.turn_secret ≡ true
  pub join_token : is_hex_text 32 i.secrets.join_token ≡ true
  pub livekit_api_key : is_hex_text 32 i.secrets.livekit_api_key ≡ true
  pub livekit_api_secret : is_hex_text 64 i.secrets.livekit_api_secret ≡ true
  pub short_password : fits 1024 i.secrets.admin_password ≡ true
  pub few_peers : ltb 4096 (length pairings) ≡ false
  pub valid_peers : all is_valid_onion pairings ≡ true

module _ (J : Json) where
  open J use {Value, string}

  text_read :
      (p : Value) (name : Str) (limit : ℕ) (s : Str)
      → str_at J name p ≡ some s
      → fits limit s ≡ true
      → text J p name limit ≡ ok s
  unfolding text
  text_read p name limit s h f = rw h (ground (arith, f))

  hex_read :
      (p : Value) (name : Str) (n : ℕ) (s : Str)
      → str_at J name p ≡ some s
      → is_hex_text n s ≡ true
      → hex_secret J p name n ≡ ok s
  unfolding hex_secret
  hex_read p name n s h f = rw (text_read p name n s h (ground (arith, f))) (ground (arith, f))

  words_read :
      (ws : List Str) → all (λ w. leb (len w) 64) ws ≡ true → words_of J (map string ws) ≡ ok ws
  unfolding words_of
  words_read [] h = refl
  words_read (w ∷ ws) h =
      let short : leb (len w) 64 ≡ true = ground (arith, h) in
      rw (J.as_str-string w, short, words_read ws (ground (arith, h)))

  peers_read :
      (hostname : Str) (set l : List Str)
      → all is_valid_onion l ≡ true
      → (out : List Str) × (unique_peers J hostname set (map string l) ≡ ok out)
  unfolding unique_peers
  peers_read hostname set [] h = (set, refl)
  peers_read hostname set (x ∷ l) h =
      let valid : is_valid_onion x ≡ true = ground (arith, h) in
      rw (J.as_str-string x, valid)
        (peers_read hostname (if str_eq x hostname then set else insert x set) l
          (ground (arith, h)))

  length-map : (l : List Str) → length (map string l) ≡ length l
  length-map [] = refl
  length-map (x ∷ l) = omega (arith, length-map l)

module _ (J : Json) (C : Cipher) (derive_key : Str → List ℕ → List ℕ) (K : Keys) where
  open J use {Value, string}

  -- The state that is restored: the box's own, about to be set up and to seed its pairings.
  abbrev pub restored : Str → Inner → Inner
  restored hostname i = record default {
    phase = setting_up;
    boxed = record i.boxed {
      onion = some hostname;
      admin_created = false;
      restore_pairings_pending = true;
    };
    secrets = i.secrets;
  }

  module _ (hostname : Str) (secret public : List ℕ) (i : Inner) (pairings : List Str)
      (b : IsComplete hostname i pairings) where
    abbrev backed_up : Value
    backed_up = payload J C derive_key hostname secret public i pairings

    hostname_read : hostname_of J K backed_up ≡ ok hostname
    unfolding hostname_of payload
    hostname_read =
        rw
          (
            text_read J backed_up (codes "hostname") 62 hostname
                (str_at-object J (codes "hostname") hostname _ refl) b.short_hostname,
            b.valid,
            str_at-object J (codes "onion") (or_default i.boxed.onion) _ refl,
            b.own_onion,
            str_eq_refl hostname,
          )
          (ground (arith, Bool-cases (is_empty hostname)))

    username_read : username_of J K backed_up ≡ ok i.boxed.username
    unfolding username_of payload
    username_read = rw (
      text_read J backed_up (codes "username") 180 i.boxed.username
          (str_at-object J (codes "username") i.boxed.username _ refl) b.short_username,
      b.plain_username,
    )

    phrase_there : J.get (codes "phrase") backed_up ≡ some (J.array (map string i.secrets.phrase))
    unfolding payload
    phrase_there = J.get-object (codes "phrase") _

    phrase_read : phrase_of J backed_up ≡ ok i.secrets.phrase
    unfolding phrase_of
    phrase_read =
        rw
          (
            phrase_there,
            J.as_array-array (map string i.secrets.phrase),
            length-map J i.secrets.phrase,
            b.few_words,
          )
          (words_read J i.secrets.phrase b.short_words)

    pairings_read : (out : List Str) × (peers_of J backed_up hostname ≡ ok out)
    unfolding peers_of payload
    pairings_read =
        rw
          (
            array_at-object J (codes "pairings") (map string pairings) _ refl,
            length-map J pairings,
            b.few_peers,
          )
          (peers_read J hostname [] pairings b.valid_peers)

    inner_read :
        inner_of J K backed_up hostname i.boxed.username i.secrets.phrase ≡ ok (restored hostname i)
    unfolding inner_of payload
    inner_read = rw (
      text_read J backed_up (codes "box_name") 1024 i.boxed.box_name
          (str_at-object J (codes "box_name") i.boxed.box_name _ refl) b.short_name,
      text_read J backed_up (codes "created") 100 i.boxed.created
          (str_at-object J (codes "created") i.boxed.created _ refl) b.short_created,
      hex_read J backed_up (codes "token") 32 i.secrets.token
          (str_at-object J (codes "token") i.secrets.token _ refl) b.token,
      hex_read J backed_up (codes "turn_secret") 64 i.secrets.turn_secret
          (str_at-object J (codes "turn_secret") i.secrets.turn_secret _ refl) b.turn_secret,
      hex_read J backed_up (codes "join_token") 32 i.secrets.join_token
          (str_at-object J (codes "join_token") i.secrets.join_token _ refl) b.join_token,
      hex_read J backed_up (codes "livekit_api_key") 32 i.secrets.livekit_api_key
          (str_at-object J (codes "livekit_api_key") i.secrets.livekit_api_key _ refl)
          b.livekit_api_key,
      hex_read J backed_up (codes "livekit_api_secret") 64 i.secrets.livekit_api_secret
          (str_at-object J (codes "livekit_api_secret") i.secrets.livekit_api_secret _ refl)
          b.livekit_api_secret,
      text_read J backed_up (codes "admin_password") 1024 i.secrets.admin_password
          (str_at-object J (codes "admin_password") i.secrets.admin_password _ refl)
          b.short_password,
    )

    keys_read :
        ((x : List ℕ) → K.b64_decode (C.b64_encode x) ≡ some x)
        → fits 128 (C.b64_encode secret) ≡ true
        → fits 88 (C.b64_encode public) ≡ true
        → are_whole J K secret public ≡ true
        → is_clamped secret ≡ true
        → owns J K hostname secret public ≡ true
        → keys_of J K backed_up hostname ≡ ok (secret, public)
    unfolding keys_of payload
    keys_read d f g w c o =
        rw
          (
            text_read J backed_up (codes "hs_secret") 128 (C.b64_encode secret)
                (str_at-object J (codes "hs_secret") (C.b64_encode secret) _ refl) f,
            text_read J backed_up (codes "hs_public") 88 (C.b64_encode public)
                (str_at-object J (codes "hs_public") (C.b64_encode public) _ refl) g,
            d secret,
            d public,
          )
          (rw (w, c, o) refl)

    -- The payload of a complete box validates, and what is restored is that box: its address, its
    -- names, its secrets and its keys, if base64 decodes what it encoded and the keys are whole,
    -- clamped and of the address.
    pub validate-payload :
        ((x : List ℕ) → K.b64_decode (C.b64_encode x) ≡ some x)
        → fits 128 (C.b64_encode secret) ≡ true
        → fits 88 (C.b64_encode public) ≡ true
        → are_whole J K secret public ≡ true
        → is_clamped secret ≡ true
        → owns J K hostname secret public ≡ true
        → (peers : List Str) × (validate J K
              (payload J C derive_key hostname secret public i pairings)
            ≡ ok (record {
              inner = restored hostname i;
              secret = secret;
              public = public;
              peers = peers;
            }))
    unfolding validate
    validate-payload d f g w c o = (
      pairings_read.0,
      rw (
        hostname_read,
        keys_read d f g w c o,
        username_read,
        phrase_read,
        pairings_read.1,
        inner_read,
      ),
    )
