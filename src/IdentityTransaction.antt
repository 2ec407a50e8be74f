-- ===== src/IdentityTransaction.antt =====
-- src-tauri/src/identity_transaction.rs: the files of an identity are published together. They are
-- written to a staging directory, a journal is published, each file is linked to its place, and
-- the journal is marked; recovery takes back what an unmarked journal lists. JSON is the parameter
-- `Codec`, the random number of the staging directory an argument, and the lock is taken for
-- granted. File systems with inode numbers (the Unix branch) are modelled.
pub mod Recover
pub mod Commit
pub mod Outcome
pub mod Prepared
pub mod Committed
pub mod AllOrNothing
pub mod Sample
mod Examples
use privacy_lodge.Prelude.{
  ℕ, zero, suc, ◌+◌, ◌-◌, ◌*◌, ◌/◌, ◌%◌, ◌^◌, ◌≡◌, Bool, true, false, not, ◌&&◌, ◌||◌, Option, none,
  some, List, [], ◌∷◌, ◌++◌, map, ltb, leb, ◌==◌, if◌then◌else◌, Result, ok, err, ok_or, all, any,
  length, take,
}
use privacy_lodge.Text.{Str, codes, str_eq, len, strip_prefix}
use privacy_lodge.Io.{
  Io, pure, raise, lift, query, atomic, write, attempt, probe, catch, best_effort, on_failure,
  syscall, ◌>>=◌, ◌>>◌,
}

-- What is at a path. `other` is a symbolic link or the like.
pub data Node : Type 0 where
  absent : Node
  directory : Node
  other : Node
  file : ℕ → List ℕ → Node

-- What is at the path of a staging directory: the files by their number, and journal.next.
pub data Stage : Type 0 where
  no_stage : Stage
  no_directory : Stage
  staging : (ℕ → Node) → Node → Stage

-- The root: the journal, the staging directories by name, the directories that hold targets, and
-- the targets; a number for the next file.
pub record Disk : Type 0 where
  pub journal : Node
  pub stages : Str → Stage
  pub dirs : Str → Node
  pub files : Str → Node
  pub next_ino : ℕ

pub record Journal : Type 0 where
  pub version : ℕ
  pub stage : Str
  pub files : List Str
  pub committed : Bool

pub record Codec : Type 0 where
  pub to_vec : Journal → Option (List ℕ)
  pub from_slice : List ℕ → Option Journal
  pub from_slice-to_vec : (j : Journal) (b : List ℕ) → to_vec j ≡ some b → from_slice b ≡ some j

pub data Error : Type 0 where
  not_synced no_directory_made not_prepared not_saved unrecognized bad_parents : Error
  not_encoded not_published incomplete already_there not_installed : Error
  journal_invalid journal_unreadable bad_stage bad_stage_directory : Error
  conflicting staged_missing bad_staged not_removed not_cleaned not_finished : Error
  recovery_pending : Error → Error

abbrev pub allowed : List Str
allowed =
    codes "secrets.json"
    ∷ codes "pairings.json"
    ∷ codes "data/tor/hs/hostname"
    ∷ codes "data/tor/hs/hs_ed25519_secret_key"
    ∷ codes "data/tor/hs/hs_ed25519_public_key"
    ∷ codes "box.json"
    ∷ []

module _ {A : Type 0} where
  abbrev pub set_at : Str → A → (Str → A) → Str → A
  set_at k a f x = if str_eq x k then a else f x

  abbrev pub set_number : ℕ → A → (ℕ → A) → ℕ → A
  set_number k a f x = if x == k then a else f x

abbrev pub is_absent : Node → Bool
is_absent absent = true
is_absent _ = false

-- `sync_dir`, which changes nothing that is modelled.
unfoldable pub sync_dir : Io Disk Error (Unit {0})
sync_dir = query not_synced (λ _. tt)

-- A file as long as it is written.
abbrev pub filled : List ℕ → Node → Node
filled b (file ino _) = file ino b
filled b n = n

abbrev pub item_of : Stage → ℕ → Node
item_of (staging items next) k = items k
item_of _ k = absent

abbrev pub next_of : Stage → Node
next_of (staging items next) = next
next_of _ = absent

abbrev pub with_item : ℕ → Node → Stage → Stage
with_item k n (staging items next) = staging (set_number k n items) next
with_item k n s = s

abbrev pub with_next : Node → Stage → Stage
with_next n (staging items next) = staging items n
with_next n s = s

abbrev pub in_stage : Str → (Stage → Stage) → Disk → Disk
in_stage st f d = record d { stages = set_at st (f (d.stages st)) d.stages }

abbrev pub created : Node → (ℕ → Disk) → Disk → Option Disk
created absent f d = some (record (f d.next_ino) { next_ino = suc d.next_ino })
created _ f d = none

-- `create_new` in a staging directory
abbrev pub create_item : Str → ℕ → Stage → Disk → Option Disk
create_item st k (staging items next) d =
    created (items k) (λ ino. in_stage st (with_item k (file ino [])) d) d
create_item st k _ d = none

abbrev pub create_next : Str → Stage → Disk → Option Disk
create_next st (staging items next) d =
    created next (λ ino. in_stage st (with_next (file ino [])) d) d
create_next st _ d = none

abbrev pub fill_item : Str → ℕ → List ℕ → Disk → Disk
fill_item st k b d = in_stage st (with_item k (filled b (item_of (d.stages st) k))) d

abbrev pub fill_next : Str → List ℕ → Disk → Disk
fill_next st b d = in_stage st (with_next (filled b (next_of (d.stages st)))) d

-- `write_new(stage/k, bytes)`, and for journal.next
unfoldable pub write_item : Str → ℕ → List ℕ → Io Disk Error (Unit {0})
write_item st k b =
    attempt not_prepared (λ d. create_item st k (d.stages st) d)
    >> write not_saved (fill_item st k b) (λ n. fill_item st k (take n b))
    >> query not_saved (λ _. tt)

unfoldable pub write_next : Str → List ℕ → Io Disk Error (Unit {0})
write_next st b =
    attempt not_prepared (λ d. create_next st (d.stages st) d)
    >> write not_saved (fill_next st b) (λ n. fill_next st (take n b))
    >> query not_saved (λ _. tt)

-- The directories above a name.
unfoldable pub parents : Str → Str → List Str
parents cur [] = []
parents cur (c ∷ s) = let rest = parents (cur ++ c ∷ []) s in if c == b'/' then cur ∷ rest else rest

abbrev pub make_dir : Str → Disk → Option Disk
make_dir p d =
    if is_absent (d.dirs p) then some (record d { dirs = set_at p directory d.dirs }) else none

abbrev pub visit : Bool → Str → Node → Io Disk Error (Unit {0})
visit create p directory = pure tt
visit true p absent = attempt no_directory_made (make_dir p) >> query not_synced (λ _. tt)
visit false p absent = pure tt
visit create p _ = raise bad_parents

unfoldable pub walk : Bool → List Str → Io Disk Error (Unit {0})
walk create [] = pure tt
walk create (p ∷ ps) = query bad_parents (λ d. d.dirs p) >>= visit create p >> walk create ps

unfoldable pub target : Str → Bool → Io Disk Error (Unit {0})
unfolding walk parents
target name create =
    if not (any (str_eq name) allowed) then raise unrecognized else walk create (parents [] name)

abbrev pub published : Str → Node → Disk → Option Disk
published st absent d = none
published st n d = some (in_stage st (with_next absent) (record d { journal = n }))

-- The rename of journal.next, which does not replace a directory.
abbrev pub publish : Str → Disk → Option Disk
publish st d = elim d.journal [
  | directory ↦ none
  | absent ↦ published st (next_of (d.stages st)) d
  | other ↦ published st (next_of (d.stages st)) d
  | file _ _ ↦ published st (next_of (d.stages st)) d
]

abbrev pub made_stage : Str → Stage → Disk → Option Disk
made_stage st no_stage d =
    some (record d { stages = set_at st (staging (λ _. absent) absent) d.stages })
made_stage st _ d = none

-- What is left of a directory whose removal stopped: the bits of `n` say which files are gone.
abbrev pub partly_removed : ℕ → Stage → Stage
partly_removed n (staging items next) =
    staging (λ k. if n / 2 ^ suc k % 2 == 1 then absent else items k)
      (if n % 2 == 1 then absent else next)
partly_removed n s = s

abbrev pub remove_stage : Error → Str → Stage → Io Disk Error (Unit {0})
remove_stage e st no_directory = raise e
remove_stage e st _ =
    syscall e (λ _. tt) (in_stage st (λ _. no_stage)) (λ n. in_stage st (partly_removed n))
      (λ n. in_stage st (partly_removed n))

unfoldable pub remove_dir_all : Error → Str → Io Disk Error (Unit {0})
remove_dir_all e st = query e (λ d. d.stages st) >>= remove_stage e st

-- A hard link takes a name that is free, to what is no directory.
abbrev pub linked_at : Str → Node → Node → Disk → Option Disk
linked_at name absent absent d = none
linked_at name directory absent d = none
linked_at name n absent d = some (record d { files = set_at name n d.files })
linked_at name n _ d = none

abbrev pub link : Str → ℕ → Str → Disk → Option Disk
link st k name d = linked_at name (item_of (d.stages st) k) (d.files name) d

abbrev pub unlink : Str → Disk → Disk
unlink name d = record d { files = set_at name absent d.files }

abbrev pub hex_lower_digit : ℕ → ℕ
hex_lower_digit v = if ltb v 10 then b'0' + v else b'a' + v - 10

-- `{:032x}`
unfoldable pub hex_digits : ℕ → ℕ → Str → Str
hex_digits zero v s = s
hex_digits (suc n) v s = hex_digits n (v / 16) (hex_lower_digit (v % 16) ∷ s)

abbrev pub stage_prefix : Str
stage_prefix = codes ".identity-stage-"

abbrev pub is_hexdigit : ℕ → Bool
is_hexdigit c =
    (leb b'0' c && leb c b'9') || ((leb b'a' c && leb c b'f') || (leb b'A' c && leb c b'F'))
