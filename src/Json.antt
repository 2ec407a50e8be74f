-- ===== src/Json.antt =====
-- serde_json's values, as far as the program builds, reads, prints and parses them.
pub mod Sample
use privacy_lodge.Prelude.{ℕ, Bool, ◌≡◌, Option, none, some, List, [], ◌∷◌, if◌then◌else◌}
use privacy_lodge.Text.{Str, str_eq}

-- The entry of a key; the program writes each key once.
abbrev pub entry : {A : Type 0} → Str → List (Str × A) → Option A
entry k [] = none
entry k ((j, a) ∷ m) = if str_eq j k then some a else entry k m

abbrev pub and_then : {A B : Type 0} → Option A → (A → Option B) → Option B
and_then none f = none
and_then (some a) f = f a

pub record Json : Type 1 where
  pub Value : Type 0
  pub string : Str → Value
  pub number : ℕ → Value
  pub boolean : Bool → Value
  pub array : List Value → Value
  pub object : List (Str × Value) → Value
  pub get : Str → Value → Option Value
  pub as_str : Value → Option Str
  pub as_u64 : Value → Option ℕ
  pub as_array : Value → Option (List Value)
  pub to_string : Value → Str
  pub from_str : Str → Option Value
  pub get-object : (k : Str) (m : List (Str × Value)) → get k (object m) ≡ entry k m
  pub as_str-string : (s : Str) → as_str (string s) ≡ some s
  pub as_u64-number : (n : ℕ) → as_u64 (number n) ≡ some n
  pub as_array-array : (l : List Value) → as_array (array l) ≡ some l

module _ (J : Json) where
  open J use {Value, get, as_str, as_u64, as_array}

  -- `v.get(k).and_then(…)`
  abbrev pub str_at : Str → Value → Option Str
  str_at k v = and_then (get k v) as_str

  abbrev pub u64_at : Str → Value → Option ℕ
  u64_at k v = and_then (get k v) as_u64

  abbrev pub array_at : Str → Value → Option (List Value)
  array_at k v = and_then (get k v) as_array

module _ (J : Json) where
  open J use {Value, string, number, array, object}

  -- Reading an entry of an object that was built.
  pub str_at-object :
      (k s : Str) (m : List (Str × Value))
      → entry k m ≡ some (string s)
      → str_at J k (object m) ≡ some s
  str_at-object k s m h = rw (J.get-object k m, h) (J.as_str-string s)

  pub u64_at-object :
      (k : Str) (n : ℕ) (m : List (Str × Value))
      → entry k m ≡ some (number n)
      → u64_at J k (object m) ≡ some n
  u64_at-object k n m h = rw (J.get-object k m, h) (J.as_u64-number n)

  pub array_at-object :
      (k : Str) (l : List Value) (m : List (Str × Value))
      → entry k m ≡ some (array l)
      → array_at J k (object m) ≡ some l
  array_at-object k l m h = rw (J.get-object k m, h) (J.as_array-array l)
