-- ===== src/State/Sample.antt =====
-- A concrete text form of the box's documents at which the laws hold: a box of which only the name
-- is set, and secrets of which only the password is.
use privacy_lodge.Prelude.{
  ℕ, ◌≡◌, Bool, false, Option, none, some, List, [], ◌∷◌, arith, if◌then◌else◌,
}
use privacy_lodge.Text.{Str, codes, str_eq}
use privacy_lodge.Text.Laws.{str_eq_iff}
use privacy_lodge.State.{PersistedBox, PersistedSecrets, no_box, no_secrets}
use privacy_lodge.State.Secrets.{Documents, SecretsFile}

abbrev pub named : Str → PersistedBox
named n = record no_box { box_name = n }

abbrev pub keyed : Str → PersistedSecrets
keyed p = record no_secrets { admin_password = p }

abbrev pub only_name : Str → Str → Str → Option Str → Bool → Bool → Option Str
only_name n [] [] none false false = some n
only_name _ _ _ _ _ _ = none

pub only_name_law :
    (n u c : Str) (o : Option Str) (a r : Bool) (s : Str)
    → only_name n u c o a r ≡ some s
    → some (named s)
      ≡ some (record {
        box_name = n;
        username = u;
        created = c;
        onion = o;
        admin_created = a;
        restore_pairings_pending = r;
      })
only_name_law n u c o a r s h = ground (arith, h)

abbrev pub only_password : List Str → Str → Str → Str → Str → Str → Str → Option Str
only_password [] [] [] [] [] [] p = some p
only_password _ _ _ _ _ _ _ = none

pub only_password_law :
    (w : List Str) (t u j k l p s : Str)
    → only_password w t u j k l p ≡ some s
    → some (keyed s)
      ≡ some (record {
        phrase = w;
        token = t;
        turn_secret = u;
        join_token = j;
        livekit_api_key = k;
        livekit_api_secret = l;
        admin_password = p;
      })
only_password_law w t u j k l p s h = ground (arith, h)

-- A file sealed with the keychain's key.
abbrev pub keychain_file : ℕ → Str → Str → Option Str
keychain_file v source enc = if str_eq source (codes "keychain") then some (v ∷ enc) else none

abbrev pub read_file : Str → Option SecretsFile
read_file [] = none
read_file (v ∷ enc) =
    some (record { secrets_version = v; key_source = codes "keychain"; enc = enc })

pub file_law :
    (v : ℕ) (source enc s : Str)
    → keychain_file v source enc ≡ some s
    → read_file s ≡ some (record { secrets_version = v; key_source = source; enc = enc })
file_law v source enc [] h = ground (arith, h)
file_law v source enc (x ∷ s) h = ground (arith, h, str_eq_iff source (codes "keychain"))

abbrev pub sample_documents : Documents
sample_documents = record {
  encode_box = λ b.
      only_name b.box_name b.username b.created b.onion b.admin_created b.restore_pairings_pending;
  decode_box = λ s. some (named s);
  encode_secrets = λ p.
      only_password p.phrase p.token p.turn_secret p.join_token p.livekit_api_key
        p.livekit_api_secret p.admin_password;
  decode_secrets = λ s. some (keyed s);
  encode_file = λ f. keychain_file f.secrets_version f.key_source f.enc;
  decode_file = read_file;
  decode_box-encode = λ b s h.
      only_name_law b.box_name b.username b.created b.onion b.admin_created
        b.restore_pairings_pending s h;
  decode_secrets-encode = λ p s h.
      only_password_law p.phrase p.token p.turn_secret p.join_token p.livekit_api_key
        p.livekit_api_secret p.admin_password s h;
  decode_file-encode = λ f s h. file_law f.secrets_version f.key_source f.enc s h;
}
