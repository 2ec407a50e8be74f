-- ===== src/IdentityRestore/Sound.antt =====
-- A payload that validates is a whole identity that owns its address.
use privacy_lodge.Prelude.{
  ℕ, ◌≡◌, refl, subst, Bool, true, false, not, ◌&&◌, some, List, ok, refuse_if, ◌>>◌, all, any,
  bind_ok, ok_inj,
}
use privacy_lodge.Text.{Str, codes, str_eq, bytes}
use privacy_lodge.Pairing.{is_valid_onion}
use privacy_lodge.Json.{Json, array_at}
use privacy_lodge.State.{Inner, setting_up}
use privacy_lodge.IdentityRestore.{
  Keys, Identity, Error, text, hex_secret, validate, hostname_of, keys_of, username_of, phrase_of,
  peers_of, inner_of, is_clamped, are_whole, owns, is_username_byte, bad_onion, bad_secret,
  bad_public, incomplete_keys, bad_expanded, mismatch, bad_username, key_file,
}
use privacy_lodge.IdentityRestore.Peers.{peers_of_lem, lists}

passed : (b : Bool) (e : Error) {u : Unit {0}} → refuse_if (not b) e ≡ ok u → b ≡ true
passed true e h = refl
passed false e h = cc

module _ (J : Json) (K : Keys) where
  open J use {Value}

  hostname_valid :
      (p : Value) (hostname : Str)
      → hostname_of J K p ≡ ok hostname
      → is_valid_onion hostname ≡ true
  unfolding hostname_of
  hostname_valid p hostname h =
      let read = bind_ok (text J p (codes "hostname") 62) _ h in
      let tests = bind_ok (refuse_if (not (is_valid_onion read.0)) bad_onion >> _) _ read.2 in
      let first = bind_ok (refuse_if (not (is_valid_onion read.0)) bad_onion) _ tests.1 in
      subst (λ s. is_valid_onion s ≡ true) (ok_inj tests.2)
        (passed (is_valid_onion read.0) bad_onion first.1)

  keys_owned :
      (p : Value) (hostname : Str) (secret public : List ℕ)
      → keys_of J K p hostname ≡ ok (secret, public)
      → (are_whole J K secret public ≡ true)
        × (is_clamped secret ≡ true)
        × (owns J K hostname secret public ≡ true)
  unfolding keys_of
  keys_owned p hostname secret public h =
      let one = bind_ok (key_file J K p (codes "hs_secret") 128 bad_secret) _ h in
      let two = bind_ok (key_file J K p (codes "hs_public") 88 bad_public) _ one.2 in
      let whole = are_whole J K one.0 two.0 in
      let owned = owns J K hostname one.0 two.0 in
      let three =
        bind_ok
          (refuse_if (not whole) incomplete_keys
            >> refuse_if (not (is_clamped one.0)) bad_expanded
            >> refuse_if (not owned) mismatch)
          _ two.2 in
      let four =
        bind_ok
          (refuse_if (not whole) incomplete_keys >> refuse_if (not (is_clamped one.0)) bad_expanded)
          _ three.1 in
      let five = bind_ok (refuse_if (not whole) incomplete_keys) _ four.1 in
      let same = ok_inj three.2 in
      subst
        (λ k.
          (are_whole J K k.0 k.1 ≡ true)
          × (is_clamped k.0 ≡ true)
          × (owns J K hostname k.0 k.1 ≡ true))
        same
        (
          passed whole incomplete_keys five.1,
          passed (is_clamped one.0) bad_expanded five.2,
          passed owned mismatch four.2,
        )

  username_plain :
      (p : Value) (username : Str)
      → username_of J K p ≡ ok username
      → all is_username_byte (bytes username) ≡ true
  unfolding username_of
  username_plain p username h =
      let read = bind_ok (text J p (codes "username") 180) _ h in
      let plain = all is_username_byte (bytes read.0) in
      let test = bind_ok (refuse_if (not plain) bad_username) _ read.2 in
      subst (λ s. all is_username_byte (bytes s) ≡ true) (ok_inj test.2)
        (passed plain bad_username test.1)

  -- The state that a payload gives: its own address, about to be set up, pairings to be seeded.
  abbrev pub Restores : Str → Str → Inner → Type 0
  Restores hostname username i =
      (i.boxed.onion ≡ some hostname)
      × (i.boxed.username ≡ username)
      × (i.boxed.restore_pairings_pending ≡ true)
      × (i.boxed.admin_created ≡ false)
      × (i.phase ≡ setting_up)

  inner-Restores :
      (p : Value) (hostname username : Str) (phrase : List Str) (inner : Inner)
      → inner_of J K p hostname username phrase ≡ ok inner
      → Restores hostname username inner
  unfolding inner_of
  inner-Restores p hostname username phrase inner h =
      let a = bind_ok (text J p (codes "box_name") 1024) _ h in
      let b = bind_ok (text J p (codes "created") 100) _ a.2 in
      let c = bind_ok (hex_secret J p (codes "token") 32) _ b.2 in
      let d = bind_ok (hex_secret J p (codes "turn_secret") 64) _ c.2 in
      let e = bind_ok (hex_secret J p (codes "join_token") 32) _ d.2 in
      let f = bind_ok (hex_secret J p (codes "livekit_api_key") 32) _ e.2 in
      let g = bind_ok (hex_secret J p (codes "livekit_api_secret") 64) _ f.2 in
      let i = bind_ok (text J p (codes "admin_password") 1024) _ g.2 in
      subst (Restores hostname username) (ok_inj i.2) (refl, refl, refl, refl, refl)

  -- What the fields of a restored identity are to each other and to the payload.
  abbrev pub IsWhole : Value → Identity → Type 0
  IsWhole p id =
      (hostname : Str) × (username : Str) × (l : List Value) × Restores hostname username id.inner
      × (is_valid_onion hostname ≡ true)
      × (are_whole J K id.secret id.public ≡ true)
      × (is_clamped id.secret ≡ true)
      × (owns J K hostname id.secret id.public ≡ true)
      × (all is_username_byte (bytes username) ≡ true)
      × (array_at J (codes "pairings") p ≡ some l)
      × (all is_valid_onion id.peers ≡ true)
      × ((x : Str) → any (str_eq x) id.peers ≡ (lists J x l && not (str_eq x hostname)))

  -- A payload that validates gives a whole identity: a valid address, keys that are whole and
  -- clamped and of that address, a user name of the allowed characters, and as peers the valid
  -- addresses that are listed, but for its own.
  pub validate_sound : (p : Value) (id : Identity) → validate J K p ≡ ok id → IsWhole p id
  unfolding validate
  validate_sound p id h =
      let hostname = bind_ok (hostname_of J K p) _ h in
      let keys = bind_ok (keys_of J K p hostname.0) _ hostname.2 in
      let username = bind_ok (username_of J K p) _ keys.2 in
      let phrase = bind_ok (phrase_of J p) _ username.2 in
      let peers = bind_ok (peers_of J p hostname.0) _ phrase.2 in
      let inner = bind_ok (inner_of J K p hostname.0 username.0 phrase.0) _ peers.2 in
      let owned = keys_owned p hostname.0 keys.0.0 keys.0.1 keys.1 in
      let listed = peers_of_lem J p hostname.0 peers.0 peers.1 in
      subst (IsWhole p) (ok_inj inner.2) (
        hostname.0,
        username.0,
        listed.0,
        inner-Restores p hostname.0 username.0 phrase.0 inner.0 inner.1,
        hostname_valid p hostname.0 hostname.1,
        owned.0,
        owned.1,
        owned.2,
        username_plain p username.0 username.1,
        listed.1,
        listed.2,
        listed.3,
      )
