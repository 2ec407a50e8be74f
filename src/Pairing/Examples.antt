-- ===== src/Pairing/Examples.antt =====
-- Tests and instances for the pairing module.
use privacy_lodge.Prelude.{
  ℕ, ◌≡◌, ◌↔◌, ◌+◌, ◌^◌, refl, sym, ap, ◌∙◌, true, false, ◌⊎◌, inl, inr, Option, none, some, List,
  [], ◌∷◌, ◌++◌, arith, Result, ok, err, length, all, not, ◌&&◌, ◌||◌,
}
use privacy_lodge.Text.{Str, codes, strip_suffix, bytes}
use privacy_lodge.Io.{works, fails, crashes}
use privacy_lodge.Io.Laws.{Post}
use privacy_lodge.Pairing.{Pairings, Error, corrupt, is_valid_onion}
use privacy_lodge.Pairing.Code.{mint_code, parse_code, parse_code-mint_code, parse_code-valid}
use privacy_lodge.Pairing.Store.{Disk, contents, save, add, remove}
use privacy_lodge.Pairing.Store.Atomic.{
  Saved, Reads, Adds, Drops, save-atomic, add_lem, remove_lem, corrupt_kept,
}
use privacy_lodge.Pairing.Sample.{sample_codec, sample_format}

abbrev pub onion_a : Str
onion_a = codes "abcdefghijklmnopqrstuvwxyz234567abcdefghijklmnopqrstuvwx.onion"

abbrev label_a : Str
label_a = codes "abcdefghijklmnopqrstuvwxyz234567abcdefghijklmnopqrstuvwx"

accepts_valid : is_valid_onion onion_a ≡ true
unfolding is_valid_onion strip_suffix bytes
accepts_valid = refl

rejects_injection : is_valid_onion (onion_a ++ codes "|evil\\.com") ≡ false
unfolding is_valid_onion strip_suffix bytes
rejects_injection = refl

abbrev minted : Str
minted = sample_format.b64_encode (1 ∷ 1900 ∷ (onion_bytes ++ 0 ∷ codes "ab"))
  where
    onion_bytes : List ℕ
    onion_bytes = privacy_lodge.Prelude.map (λ c. c + 1) onion_a

mints : mint_code sample_format 1000 onion_a (codes "ab") ≡ ok minted
unfolding mint_code
mints = refl

parse_code-mint_code_example : parse_code sample_format 1900 minted ≡ ok onion_a
parse_code-mint_code_example =
    parse_code-mint_code sample_format 1000 1900 onion_a (codes "ab") minted accepts_valid
      (omega arith) (omega arith) mints

parse_code-valid_example : is_valid_onion onion_a ≡ true
parse_code-valid_example =
    parse_code-valid sample_format 1900 minted onion_a parse_code-mint_code_example

abbrev pub peers_a : Pairings
peers_a = record { peers = record { onion = onion_a; added_at = 5 } ∷ [] }

abbrev pub disk_a : Disk
disk_a = record { json = sample_codec.encode peers_a; tmp = none }

pub disk_a-Reads : Reads sample_codec peers_a disk_a
unfolding contents
disk_a-Reads = refl

abbrev onion_b : Str
onion_b = codes "b.onion"

abbrev emptied : Pairings
emptied = record { peers = [] }

-- The write works, and the process dies in the rename before it has happened.
save-atomic_example :
    Post
      (λ _ d'. Saved sample_codec emptied d' × (d'.tmp ≡ none))
      (λ _ d'. d'.json ≡ disk_a.json)
      (λ d'. (d'.json ≡ disk_a.json) ⊎ Saved sample_codec emptied d')
      (save sample_codec emptied disk_a (works ∷ crashes 0 ∷ [])).0
      (save sample_codec emptied disk_a (works ∷ crashes 0 ∷ [])).1
save-atomic_example =
    save-atomic sample_codec emptied disk_a.json disk_a (works ∷ crashes 0 ∷ []) refl

add_lem_example :
    Post
      (λ _ d. (q : Pairings) × Reads sample_codec q d × Adds sample_codec onion_b peers_a q)
      (λ _. Reads sample_codec peers_a)
      (λ d.
        Reads sample_codec peers_a d
        ⊎ ((q : Pairings) × Reads sample_codec q d × Adds sample_codec onion_b peers_a q))
      (add sample_codec 9 onion_b disk_a (works ∷ fails 3 ∷ [])).0
      (add sample_codec 9 onion_b disk_a (works ∷ fails 3 ∷ [])).1
add_lem_example = add_lem sample_codec 9 onion_b peers_a disk_a (works ∷ fails 3 ∷ []) disk_a-Reads

remove_lem_example :
    Post
      (λ _ d. (q : Pairings) × Reads sample_codec q d × Drops sample_codec onion_a peers_a q)
      (λ _. Reads sample_codec peers_a)
      (λ d.
        Reads sample_codec peers_a d
        ⊎ ((q : Pairings) × Reads sample_codec q d × Drops sample_codec onion_a peers_a q))
      (remove sample_codec onion_a disk_a []).0
      (remove sample_codec onion_a disk_a []).1
remove_lem_example = remove_lem sample_codec onion_a peers_a disk_a [] disk_a-Reads

broken_file : contents sample_codec (some (codes "{ this is not json")) ≡ err corrupt
unfolding contents
broken_file = refl

abbrev disk_broken : Disk
disk_broken = record { json = some (codes "{ this is not json"); tmp = none }

corrupt_kept_example :
    Post {E = Error} {A = Unit {0}}
      (λ _ _. ⊥)
      (λ _ d'. d'.json ≡ disk_broken.json)
      (λ d'. d'.json ≡ disk_broken.json)
      (add sample_codec 9 onion_a disk_broken []).0
      (add sample_codec 9 onion_a disk_broken []).1
    × Post {E = Error} {A = Unit {0}}
        (λ _ _. ⊥)
        (λ _ d'. d'.json ≡ disk_broken.json)
        (λ d'. d'.json ≡ disk_broken.json)
        (remove sample_codec onion_a disk_broken []).0
        (remove sample_codec onion_a disk_broken []).1
corrupt_kept_example =
    corrupt_kept sample_codec disk_broken.json 9 onion_a disk_broken [] broken_file refl
