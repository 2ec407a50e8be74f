-- ===== src/Backup/Restore/Sample.antt =====
-- Documents that encode one box, and a disk that it can be restored to.
use privacy_lodge.Prelude.{
  ◌≡◌, refl, Bool, true, false, not, ◌&&◌, Option, none, some, List, arith, if◌then◌else◌, ap, err,
}
use privacy_lodge.Text.{Str, codes, str_eq}
use privacy_lodge.Text.Laws.{str_eq_sound}
use privacy_lodge.EnvCompat.{not_present}
use privacy_lodge.Crypto.{World, empty}
use privacy_lodge.State.{PersistedBox, PersistedSecrets, default}
use privacy_lodge.State.Secrets.{Documents}
use privacy_lodge.State.Sample.{keychain_file, read_file, file_law}
use privacy_lodge.IdentityTransaction.Sample.{empty_disk, same_names, same_names_sound}
use privacy_lodge.Backup.Sample.{repeated}
use privacy_lodge.Backup.Restore.{Box}

abbrev pub same_option : Option Str → Option Str → Bool
same_option none none = true
same_option (some a) (some b) = str_eq a b
same_option _ _ = false

same_option_sound : (a b : Option Str) → same_option a b ≡ true → a ≡ b
same_option_sound none none h = refl
same_option_sound none (some b) h = ground (arith, h)
same_option_sound (some a) none h = ground (arith, h)
same_option_sound (some a) (some b) h = ap some (str_eq_sound a b h)

abbrev pub same_bool : Bool → Bool → Bool
same_bool true b = b
same_bool false b = not b

same_bool_sound : (a b : Bool) → same_bool a b ≡ true → a ≡ b
same_bool_sound true b h = ground (arith, h)
same_bool_sound false b h = ground (arith, h)

abbrev pub same_box : PersistedBox → PersistedBox → Bool
same_box a b =
    str_eq a.box_name b.box_name
    && (str_eq a.username b.username
        && (str_eq a.created b.created
            && (same_option a.onion b.onion
                && (same_bool a.admin_created b.admin_created
                    && same_bool a.restore_pairings_pending b.restore_pairings_pending))))

abbrev pub same_secrets : PersistedSecrets → PersistedSecrets → Bool
same_secrets a b =
    same_names a.phrase b.phrase
    && (str_eq a.token b.token
        && (str_eq a.turn_secret b.turn_secret
            && (str_eq a.join_token b.join_token
                && (str_eq a.livekit_api_key b.livekit_api_key
                    && (str_eq a.livekit_api_secret b.livekit_api_secret
                        && str_eq a.admin_password b.admin_password)))))

boxes_agree :
    (n m u v c d : Str) (o p : Option Str) (a b r s : Bool)
    → n ≡ m
    → u ≡ v
    → c ≡ d
    → o ≡ p
    → a ≡ b
    → r ≡ s
    → ◌≡◌ {A = PersistedBox}
        (record {
          box_name = n;
          username = u;
          created = c;
          onion = o;
          admin_created = a;
          restore_pairings_pending = r;
        })
        (record {
          box_name = m;
          username = v;
          created = d;
          onion = p;
          admin_created = b;
          restore_pairings_pending = s;
        })
boxes_agree n m u v c d o p a b r s h1 h2 h3 h4 h5 h6 = rw (h1, h2, h3, h4, h5, h6) refl

same_box_sound : (a b : PersistedBox) → same_box a b ≡ true → a ≡ b
same_box_sound a b h =
    boxes_agree a.box_name b.box_name a.username b.username a.created b.created a.onion b.onion
      a.admin_created b.admin_created a.restore_pairings_pending b.restore_pairings_pending
      (str_eq_sound a.box_name b.box_name (ground (arith, h)))
      (str_eq_sound a.username b.username (ground (arith, h)))
      (str_eq_sound a.created b.created (ground (arith, h)))
      (same_option_sound a.onion b.onion (ground (arith, h)))
      (same_bool_sound a.admin_created b.admin_created (ground (arith, h)))
      (same_bool_sound a.restore_pairings_pending b.restore_pairings_pending (ground (arith, h)))

secrets_agree :
    (p q : List Str) (a b c d e f g i j k l m : Str)
    → p ≡ q
    → a ≡ b
    → c ≡ d
    → e ≡ f
    → g ≡ i
    → j ≡ k
    → l ≡ m
    → ◌≡◌ {A = PersistedSecrets}
        (record {
          phrase = p;
          token = a;
          turn_secret = c;
          join_token = e;
          livekit_api_key = g;
          livekit_api_secret = j;
          admin_password = l;
        })
        (record {
          phrase = q;
          token = b;
          turn_secret = d;
          join_token = f;
          livekit_api_key = i;
          livekit_api_secret = k;
          admin_password = m;
        })
secrets_agree p q a b c d e f g i j k l m h1 h2 h3 h4 h5 h6 h7 =
    rw (h1, h2, h3, h4, h5, h6, h7) refl

same_secrets_sound : (a b : PersistedSecrets) → same_secrets a b ≡ true → a ≡ b
same_secrets_sound a b h =
    secrets_agree a.phrase b.phrase a.token b.token a.turn_secret b.turn_secret a.join_token
      b.join_token a.livekit_api_key b.livekit_api_key a.livekit_api_secret b.livekit_api_secret
      a.admin_password b.admin_password (same_names_sound a.phrase b.phrase (ground (arith, h)))
      (str_eq_sound a.token b.token (ground (arith, h)))
      (str_eq_sound a.turn_secret b.turn_secret (ground (arith, h)))
      (str_eq_sound a.join_token b.join_token (ground (arith, h)))
      (str_eq_sound a.livekit_api_key b.livekit_api_key (ground (arith, h)))
      (str_eq_sound a.livekit_api_secret b.livekit_api_secret (ground (arith, h)))
      (str_eq_sound a.admin_password b.admin_password (ground (arith, h)))

pub one_box_law :
    (b0 b : PersistedBox) (s : Str)
    → (if same_box b b0 then some (codes "b") else none) ≡ some s
    → some b0 ≡ some b
one_box_law b0 b s h = rw (same_box_sound b b0 (ground (arith, h))) refl

pub one_secrets_law :
    (p0 p : PersistedSecrets) (s : Str)
    → (if same_secrets p p0 then some (codes "s") else none) ≡ some s
    → some p0 ≡ some p
one_secrets_law p0 p s h = rw (same_secrets_sound p p0 (ground (arith, h))) refl

abbrev pub one_box : PersistedBox → PersistedSecrets → Documents
one_box b0 p0 = record {
  encode_box = λ b. if same_box b b0 then some (codes "b") else none;
  decode_box = λ s. some b0;
  encode_secrets = λ p. if same_secrets p p0 then some (codes "s") else none;
  decode_secrets = λ s. some p0;
  encode_file = λ f. keychain_file f.secrets_version f.key_source f.enc;
  decode_file = read_file;
  decode_box-encode = one_box_law b0;
  decode_secrets-encode = one_secrets_law p0;
  decode_file-encode = λ f s. file_law f.secrets_version f.key_source f.enc s;
}

abbrev pub world : World
world = record {
  secrets_key = err not_present;
  fallback_key = repeated 1 32;
  random_key = repeated 2 32;
}

abbrev pub fresh_box : Box
fresh_box = record {
  inner = default;
  ring = record { current = empty; legacy = empty; is_writable = true };
  disk = empty_disk;
}
