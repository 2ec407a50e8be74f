-- ===== src/Backup/Restore/Examples.antt =====
-- Tests and instances for a restore: the small box is restored to a fresh one.
use privacy_lodge.Prelude.{
  ℕ, ◌≡◌, refl, true, false, Bool, Option, none, some, List, [], ◌∷◌, ◌++◌, ◌==◌, ◌⊎◌, Result, ok,
  if◌then◌else◌, map, ap, ◌∙◌, drop,
}
use privacy_lodge.Text.{Str, codes, strip_prefix, bytes, bytes_of_char, trim, is_whitespace}
use privacy_lodge.Text.Utf8.{from_utf8, from_utf8_lossy}
use privacy_lodge.Io.{lift, ◌>>=◌, Fault, works, crashes, done}
use privacy_lodge.Crypto.{
  decrypt, open_bytes, encrypt, seal_bytes, key_for_encrypt, keychain_get_or_create, as_str,
}
use privacy_lodge.Crypto.Sample.{sample}
use privacy_lodge.OnionAddress.{onion}
use privacy_lodge.Json.{Json}
use privacy_lodge.Json.Sample.{Tree, tree_json}
use privacy_lodge.Pairing.{Pairings}
use privacy_lodge.State.{identity_snapshot}
use privacy_lodge.State.Secrets.{Documents, documents}
use privacy_lodge.IdentityRestore.{Identity, validate}
use privacy_lodge.IdentityTransaction.{
  Codec, Disk, absent, sync_dir, write_item, write_next, walk, target, parents, remove_dir_all,
  hex_digits,
}
use privacy_lodge.IdentityTransaction.Recover.{
  recover, read_journal, check_journal, finish, rollback, rollback_one, check_stage, clean_stage,
}
use privacy_lodge.IdentityTransaction.Commit.{
  commit, journal_of, prepare, stage_name, stage_all, check_targets, install_one, install_all,
  save_journal,
}
use privacy_lodge.IdentityTransaction.Commit.Linking.{Complete}
use privacy_lodge.IdentityTransaction.Outcome.{NoneOf}
use privacy_lodge.IdentityTransaction.AllOrNothing.{launches}
use privacy_lodge.IdentityTransaction.Sample.{sample_codec, empty_disk}
use privacy_lodge.Backup.{envelope, payload, open_backup, open_parsed}
use privacy_lodge.Backup.Sample.{
  repeated, hostname, secret_file, public_file, keys, den, derive_key, den_validates, salt, nonce,
  no_string, no_print,
}
use privacy_lodge.Backup.Restores.{restored}
use privacy_lodge.Backup.Restore.{
  Error, Box, has_identity, files_of, restore, restore_identity, identity_of, publish,
}
use privacy_lodge.Backup.Restore.Whole.{restore-all_or_nothing, restore-durable}
use privacy_lodge.Backup.Restore.Sample.{one_box, world, fresh_box}

abbrev den_payload : Tree
den_payload = payload no_print sample derive_key hostname secret_file public_file den []

abbrev read : Str → Option Tree
read [] = none
read (c ∷ s) =
    if c == b'E'
    then some (envelope no_print sample derive_key salt hostname (codes "today") s)
    else some den_payload

abbrev json : Json
json = tree_json no_string read

abbrev sealed_den : Str
sealed_den = b'E' ∷ sample.b64_encode (nonce ++ repeated 0 16 ++ b'P' ∷ [])

opens : open_backup json sample derive_key sealed_den (codes "passphrase") ≡ ok den_payload
unfolding open_backup open_parsed envelope decrypt open_bytes trim is_whitespace from_utf8 bytes
    from_utf8_lossy
opens = refl

abbrev den_id : Identity
den_id = record {
  inner = restored no_print sample derive_key keys hostname den;
  secret = secret_file;
  public = public_file;
  peers = (den_validates no_string read).0;
}

validates : validate json keys den_payload ≡ ok den_id
unfolding payload
validates = (den_validates no_string read).1

abbrev one_document : Documents
one_document = one_box den_id.inner.boxed den_id.inner.secrets

abbrev encode_pairings : Pairings → Option (List ℕ)
encode_pairings p = some []

abbrev message : Error → Str
message e = codes "failed"

abbrev secrets_text : Str
secrets_text = 2 ∷ sample.b64_encode (nonce ++ repeated 0 16 ++ b's' ∷ [])

abbrev texts : Str × Str
texts = (codes "b", secrets_text)

documented :
    (documents sample one_document world fresh_box.ring nonce (identity_snapshot den_id.inner)).0
    ≡ ok texts
unfolding documents key_for_encrypt keychain_get_or_create identity_snapshot encrypt seal_bytes
    bytes bytes_of_char as_str onion
documented = refl

abbrev files : List (Str × List ℕ)
files = files_of den_id texts [] hostname

abbrev codec : Codec
codec = sample_codec (stage_name 7) (map (λ f. f.0) files)

encoded :
    (b : Bool) → codec.to_vec (journal_of (stage_name 7) files b) ≡ some ((if b then 1 else 0) ∷ [])
unfolding stage_name hex_digits
encoded true = refl
encoded false = refl

unused : has_identity fresh_box.inner ≡ false
unfolding has_identity
unused = refl

abbrev box_after : List Fault → Box
box_after fs =
    (restore json sample derive_key keys one_document world codec encode_pairings message nonce 7 1
      sealed_den (codes "passphrase") fresh_box fs).1

returns :
    (restore json sample derive_key keys one_document world codec encode_pairings message nonce 7 1
      sealed_den
      (codes "passphrase")
      fresh_box
      []).0
    ≡ done tt
unfolding restore publish commit prepare stage_name hex_digits stage_all check_targets install_one
    install_all save_journal recover read_journal check_journal finish rollback rollback_one
    check_stage clean_stage sync_dir write_item write_next walk target parents remove_dir_all
    strip_prefix bytes bytes_of_char
returns = rw (unused, opens, validates, documented) refl

restore-durable_example :
    ((box_after []).inner ≡ den_id.inner)
    × Complete files (launches codec [] (box_after []).disk).files
restore-durable_example =
    restore-durable json sample derive_key keys one_document world codec encode_pairings message
      fresh_box nonce 7 1 sealed_den (codes "passphrase") den_payload den_id texts [] hostname
      (0 ∷ []) (1 ∷ []) documented refl refl (encoded false) (encoded true) refl refl unused opens
      validates refl (refl, (refl, (refl, (refl, (refl, (refl, tt)))))) [] [] returns

-- The process dies while the identity is installed.
abbrev dies : List Fault
dies =
    works
    ∷ works
    ∷ works
    ∷ works
    ∷ works
    ∷ works
    ∷ works
    ∷ works
    ∷ works
    ∷ works
    ∷ works
    ∷ works
    ∷ works
    ∷ works
    ∷ works
    ∷ works
    ∷ works
    ∷ works
    ∷ works
    ∷ works
    ∷ works
    ∷ crashes 1
    ∷ []

abbrev identified : Result Error Identity → Disk
identified r =
    ((lift r
        >>= restore_identity json sample derive_key keys one_document world codec encode_pairings
            message nonce 7 1)
      fresh_box dies).1.disk

opened_validates :
    identity_of json sample derive_key keys one_document world codec encode_pairings message
      (open_backup json sample derive_key sealed_den (codes "passphrase"))
    ≡ ok den_id
opened_validates = rw (opens, validates) refl

died_at : identified (ok den_id) ≡ (commit codec 7 files empty_disk (drop 1 dies)).1
unfolding publish commit prepare stage_name hex_digits stage_all check_targets install_one
    install_all save_journal recover read_journal check_journal finish rollback rollback_one
    check_stage clean_stage sync_dir write_item write_next walk target parents remove_dir_all
    strip_prefix documents key_for_encrypt keychain_get_or_create identity_snapshot encrypt
    seal_bytes bytes bytes_of_char as_str onion
died_at = refl

died : (box_after dies).disk ≡ (commit codec 7 files empty_disk (drop 1 dies)).1
unfolding restore has_identity
died = ap identified opened_validates ∙ died_at

commit_recovers : (recover codec (commit codec 7 files empty_disk (drop 1 dies)).1 []).0 ≡ done tt
unfolding commit prepare stage_name hex_digits stage_all check_targets install_one install_all
    save_journal recover read_journal check_journal finish rollback rollback_one check_stage
    clean_stage sync_dir write_item write_next walk target parents remove_dir_all strip_prefix bytes
    bytes_of_char
commit_recovers = refl

recovers : (recover codec (box_after dies).disk []).0 ≡ done tt
recovers = ap (λ d. (recover codec d []).0) died ∙ commit_recovers

restore-all_or_nothing_example :
    let left = (recover codec (box_after dies).disk []).1 in
    (left.journal ≡ absent) × (NoneOf files left.files ⊎ Complete files left.files)
restore-all_or_nothing_example =
    restore-all_or_nothing json sample derive_key keys one_document world codec encode_pairings
      message fresh_box nonce 7 1 sealed_den (codes "passphrase") den_payload den_id texts []
      hostname (0 ∷ []) (1 ∷ []) documented refl refl (encoded false) (encoded true) refl refl
      unused opens validates refl (refl, (refl, (refl, (refl, (refl, (refl, tt)))))) dies [] []
      recovers
