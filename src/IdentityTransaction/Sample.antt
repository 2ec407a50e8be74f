-- ===== src/IdentityTransaction/Sample.antt =====
-- A codec for the two journals of one transaction, and a small transaction.
use privacy_lodge.Prelude.{
  ℕ, ◌≡◌, refl, Bool, true, false, ◌&&◌, ◌==◌, ==_iff, Option, some, none, List, [], ◌∷◌, arith,
  map, if◌then◌else◌,
}
use privacy_lodge.Text.{Str, codes, str_eq}
use privacy_lodge.Text.Laws.{str_eq_sound}
use privacy_lodge.IdentityTransaction.{Journal, Codec, Disk, absent, no_stage}
use privacy_lodge.IdentityTransaction.Commit.{stage_name}

abbrev pub same_names : List Str → List Str → Bool
same_names [] [] = true
same_names (a ∷ l) (b ∷ m) = str_eq a b && same_names l m
same_names _ _ = false

pub same_names_sound : (l m : List Str) → same_names l m ≡ true → l ≡ m
same_names_sound [] [] h = refl
same_names_sound [] (b ∷ m) h = ground (arith, h)
same_names_sound (a ∷ l) [] h = ground (arith, h)
same_names_sound (a ∷ l) (b ∷ m) h =
    let heads : a ≡ b = str_eq_sound a b (ground (arith, h)) in
    let tails : l ≡ m = same_names_sound l m (ground (arith, h)) in cc (heads, tails)

module _ (st : Str) (names : List Str) where
  abbrev pub journal : Bool → Journal
  journal committed = record { version = 1; stage = st; files = names; committed = committed }

  abbrev pub matches : Journal → Bool
  matches j = j.version == 1 && (str_eq j.stage st && same_names j.files names)

  abbrev pub tag : Bool → List ℕ
  tag true = 1 ∷ []
  tag false = 0 ∷ []

  abbrev pub encode : Journal → Option (List ℕ)
  encode j = if matches j then some (tag j.committed) else none

  abbrev pub decode : List ℕ → Option Journal
  decode [] = none
  decode (x ∷ b) = some (journal (x == 1))

  decode-tag : (b : Bool) → decode (tag b) ≡ some (journal b)
  decode-tag true = refl
  decode-tag false = refl

  rebuilt :
      (v : ℕ) (s : Str) (l : List Str) (b : Bool)
      → v ≡ 1
      → s ≡ st
      → l ≡ names
      → some (journal b) ≡ some (record { version = v; stage = s; files = l; committed = b })
  rebuilt v s l b p q r = rw (p, q, r) refl

  pub decode-encode : (j : Journal) (b : List ℕ) → encode j ≡ some b → decode b ≡ some j
  decode-encode j b h =
      let matched : matches j ≡ true = ground (arith, h) in
      let tagged : tag j.committed ≡ b = ground (arith, h) in
      rw (← tagged, decode-tag j.committed)
        (rebuilt j.version j.stage j.files j.committed
          ((==_iff j.version 1).0 (ground (arith, matched)))
          (str_eq_sound j.stage st (ground (arith, matched)))
          (same_names_sound j.files names (ground (arith, matched))))

  abbrev pub sample_codec : Codec
  sample_codec = record { to_vec = encode; from_slice = decode; from_slice-to_vec = decode-encode }

abbrev pub two_files : List (Str × List ℕ)
two_files = (codes "secrets.json", 1 ∷ 2 ∷ []) ∷ (codes "box.json", 3 ∷ []) ∷ []

abbrev pub two_codec : Codec
two_codec = sample_codec (stage_name 7) (map (λ f. f.0) two_files)

abbrev pub empty_disk : Disk
empty_disk = record {
  journal = absent;
  stages = λ _. no_stage;
  dirs = λ _. absent;
  files = λ _. absent;
  next_ino = 1;
}
