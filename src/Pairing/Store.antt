-- ===== src/Pairing/Store.antt =====
-- The allowlist file: read strictly or with a default, and written through a temporary file.
-- serde_json is the parameter `Codec`. Every operation on the disk may fail, or be the last one
-- of the process (`Io`).
pub mod Atomic
pub mod Readers
use privacy_lodge.Prelude.{
  ℕ, ◌≡◌, Bool, not, Option, none, some, List, [], ◌∷◌, ◌++◌, map, ◌==◌, if◌then◌else◌, Result, ok,
  err, ok_or, any, retain, length, take,
}
use privacy_lodge.Text.{Str, str_eq}
use privacy_lodge.Io.{
  Io, Reply, done, failed, crashed, pure, lift, query, write, atomic, best_effort, on_failure,
  ◌>>=◌, ◌>>◌,
}
use privacy_lodge.Pairing.{
  Error, unreadable, corrupt, unencodable, not_written, not_saved, Pairing, Pairings,
}

-- The JSON of the whole list.
pub record Codec : Type 0 where
  pub encode : Pairings → Option Str
  pub decode : Str → Option Pairings
  pub decode-encode : (p : Pairings) (s : Str) → encode p ≡ some s → decode s ≡ some p

-- The two files of the data directory: `pairings.json`, and `pairings.json.tmp` with as much of it
-- as was written.
pub record Disk : Type 0 where
  pub json : Option Str
  pub tmp : Option Str

abbrev pub default : Pairings
default = record { peers = [] }

abbrev pub parsed_or_corrupt : Option Pairings → Result Error Pairings
parsed_or_corrupt none = err corrupt
parsed_or_corrupt (some p) = ok p

abbrev or_default : Reply Error Pairings → Io Disk Error Pairings
or_default (done p) = pure p
or_default (failed e) = pure default
or_default crashed = λ d fs. (crashed, d, fs)

write_tmp : Str → Io Disk Error (Unit {0})
write_tmp s =
    write not_written (λ d. record d { tmp = some s }) (λ n d. record d { tmp = some (take n s) })

rename : Io Disk Error (Unit {0})
rename = atomic not_saved (λ d. record { json = d.tmp; tmp = none })

remove_tmp : Io Disk Error (Unit {0})
remove_tmp = atomic not_saved (λ d. record d { tmp = none })

abbrev pub has_onion : Str → Pairing → Bool
has_onion onion x = str_eq x.onion onion

abbrev pub with_peer : ℕ → Str → Pairings → Pairings
with_peer now onion p = record p {
  peers = p.peers ++ record { onion = onion; added_at = now } ∷ [];
}

abbrev pub without_peer : Str → Pairings → Pairings
without_peer onion p = record p { peers = retain (λ x. not (has_onion onion x)) p.peers }

module _ (c : Codec) where
  -- A missing file is an empty allowlist; one that does not parse is an error.
  unfoldable pub contents : Option Str → Result Error Pairings
  contents none = ok default
  contents (some s) = parsed_or_corrupt (c.decode s)

  pub load_strict : Io Disk Error Pairings
  load_strict = query unreadable (λ d. d.json) >>= λ s. lift (contents s)

  -- For readers: any error reads as the empty allowlist.
  pub load : Io Disk Error Pairings
  load d fs = let (r, d', fs') = load_strict d fs in or_default r d' fs'

  unfoldable pub onions : Io Disk Error (List Str)
  unfolding load
  onions = load >>= λ p. pure (map (λ x. x.onion) p.peers)

  pub save : Pairings → Io Disk Error (Unit {0})
  save p = lift (ok_or (c.encode p) unencodable) >>= λ json.
      write_tmp json >> on_failure rename (best_effort remove_tmp)

  unfoldable pub add_to : ℕ → Str → Pairings → Io Disk Error (Unit {0})
  add_to now onion p =
      if any (has_onion onion) p.peers then pure tt else save (with_peer now onion p)

  pub add : ℕ → Str → Io Disk Error (Unit {0})
  add now onion = load_strict >>= add_to now onion

  unfoldable pub remove_from : Str → Pairings → Io Disk Error (Unit {0})
  remove_from onion p =
      let q = without_peer onion p in if length q.peers == length p.peers then pure tt else save q

  pub remove : Str → Io Disk Error (Unit {0})
  remove onion = load_strict >>= remove_from onion
