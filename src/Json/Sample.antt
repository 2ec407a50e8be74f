-- ===== src/Json/Sample.antt =====
-- Values as trees, at which the laws hold.
use privacy_lodge.Prelude.{ℕ, Bool, ◌≡◌, refl, ap, Option, none, some, List, [], ◌∷◌, if◌then◌else◌}
use privacy_lodge.Text.{Str, str_eq}
use privacy_lodge.Json.{Json, entry}

mutual
  pub data Tree : Type 0 where
    str : Str → Tree
    num : ℕ → Tree
    flag : Bool → Tree
    arr : Trees → Tree
    obj : Members → Tree

  pub data Trees : Type 0 where
    none_left : Trees
    item : Tree → Trees → Trees

  pub data Members : Type 0 where
    no_members : Members
    member : Str → Tree → Members → Members

abbrev pub to_trees : List Tree → Trees
to_trees [] = none_left
to_trees (t ∷ l) = item t (to_trees l)

abbrev pub of_trees : Trees → List Tree
of_trees none_left = []
of_trees (item t l) = t ∷ of_trees l

abbrev pub to_members : List (Str × Tree) → Members
to_members [] = no_members
to_members ((k, t) ∷ m) = member k t (to_members m)

abbrev pub find : Str → Members → Option Tree
find k no_members = none
find k (member j t m) = if str_eq j k then some t else find k m

abbrev pub get : Str → Tree → Option Tree
get k (obj m) = find k m
get k _ = none

abbrev pub as_str : Tree → Option Str
as_str (str s) = some s
as_str _ = none

abbrev pub as_u64 : Tree → Option ℕ
as_u64 (num n) = some n
as_u64 _ = none

abbrev pub as_array : Tree → Option (List Tree)
as_array (arr l) = some (of_trees l)
as_array _ = none

pub find-to_members : (k : Str) (m : List (Str × Tree)) → find k (to_members m) ≡ entry k m
find-to_members k [] = refl
find-to_members k ((j, t) ∷ m) = rw (find-to_members k m)

pub of_trees-to_trees : (l : List Tree) → of_trees (to_trees l) ≡ l
of_trees-to_trees [] = refl
of_trees-to_trees (t ∷ l) = ap (◌∷◌ t) (of_trees-to_trees l)

-- Printing and parsing are given.
abbrev pub tree_json : (Tree → Str) → (Str → Option Tree) → Json
tree_json to_string from_str = record {
  Value = Tree;
  string = str;
  number = num;
  boolean = flag;
  array = λ l. arr (to_trees l);
  object = λ m. obj (to_members m);
  get = get;
  as_str = as_str;
  as_u64 = as_u64;
  as_array = as_array;
  to_string = to_string;
  from_str = from_str;
  get-object = find-to_members;
  as_str-string = λ s. refl;
  as_u64-number = λ n. refl;
  as_array-array = λ l. ap some (of_trees-to_trees l);
}
