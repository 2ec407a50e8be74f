-- ===== src/CommandJournal.antt =====
-- src-tauri/src/command_journal.rs: receipts of the owner's commands, kept so that a command is
-- not run again. Calls hold one lock, so they follow each other; times are milliseconds.
-- JSON values are not the repository's code: `Json` is what the journal asks of them, and `Codec`
-- is serde_json on the whole file.
pub mod Replay
pub mod Once
pub mod Outcomes
pub mod Pending
mod Examples
use privacy_lodge.Prelude.{
  ℕ, ◌+◌, ◌-◌, ◌*◌, ◌^◌, ◌≡◌, ◌↔◌, Bool, true, false, not, ◌&&◌, ◌||◌, Option, none, some, List, [],
  ◌∷◌, map, min, ltb, leb, ◌==◌, if◌then◌else◌, Result, ok, err, length,
}
use privacy_lodge.Text.{Str, codes, str_eq, len, is_empty}
use privacy_lodge.Io.{Io, pure, raise, lift, query, ◌>>=◌, ◌>>◌}
use privacy_lodge.PrivateFile.{Slot, write_private}

abbrev pub retain_ms : ℕ
retain_ms = 24 * 60 * 60 * 1000

pub data Error : Type 0 where
  unreadable corrupt unencodable not_written not_finalized : Error
  invalid_receipt too_many invalid_outcome missing : Error

-- The accessors `v.get(k).and_then(as_…)`, `==`, and the value that `handled` writes.
pub record Json : Type 1 where
  pub Value : Type 0
  pub str_at : Str → Value → Option Str
  pub bool_at : Str → Value → Option Bool
  pub u64_at : Str → Value → Option ℕ
  pub same : Value → Value → Bool
  pub interrupted : Str → ℕ → Value
  pub same_iff : (v w : Value) → (same v w ≡ true) ↔ (v ≡ w)
  pub phase-interrupted :
      (id : Str) (now : ℕ)
      → str_at (codes "phase") (interrupted id now) ≡ some (codes "interrupted")
  pub ok-interrupted : (id : Str) (now : ℕ) → bool_at (codes "ok") (interrupted id now) ≡ some false

pub record Receipt (V : Type 0) : Type 0 where
  pub expires : ℕ
  pub outcome : Option V
  pub published : Bool

-- A file written by an older version has bare expiry times.
pub data Stored (V : Type 0) : Type 0 where
  legacy : ℕ → Stored V
  current : Receipt V → Stored V

-- A `HashMap` as a list of its entries, the newest first. Its iteration order shows only in the
-- order of outcomes with the same `done_ts`.
abbrev pub Entries : Type 0 → Type 0
Entries A = List (Str × A)

module _ {A : Type 0} where
  unfoldable pub get : Str → Entries A → Option A
  get id [] = none
  get id ((k, a) ∷ m) = if str_eq k id then some a else get id m

  -- `if let Some(a) = entries.get_mut(id) { … }`
  unfoldable pub modify : Str → (A → A) → Entries A → Entries A
  modify id f [] = []
  modify id f ((k, a) ∷ m) = if str_eq k id then (k, f a) ∷ m else (k, a) ∷ modify id f m

  unfoldable pub contains_key : Str → Entries A → Bool
  contains_key id [] = false
  contains_key id ((k, a) ∷ m) = str_eq k id || contains_key id m

module _ {V : Type 0} where
  unfoldable pub migrate : Stored V → Receipt V
  migrate (legacy expires) = record { expires = expires; outcome = none; published = false }
  migrate (current receipt) = receipt

  -- `expires.saturating_add(RETAIN_MS) >= now` on `u64`
  unfoldable pub is_retained : ℕ → Receipt V → Bool
  is_retained now r = leb now (min (r.expires + retain_ms) (2 ^ 64 - 1))

  unfoldable pub retained : ℕ → Entries (Receipt V) → Entries (Receipt V)
  unfolding is_retained
  retained now [] = []
  retained now ((id, r) ∷ m) =
      if is_retained now r then (id, r) ∷ retained now m else retained now m

  abbrev pub fresh : ℕ → Receipt V
  fresh expires = record { expires = expires; outcome = none; published = false }

  abbrev pub migrate_entry : Str × Stored V → Str × Receipt V
  migrate_entry (id, s) = (id, migrate s)

  abbrev pub as_current : Str × Receipt V → Str × Stored V
  as_current (id, r) = (id, current r)

-- serde_json on the file: what is saved reads back as current receipts.
pub record Codec (V : Type 0) : Type 0 where
  pub encode : Entries (Receipt V) → Option Str
  pub decode : Str → Option (Entries (Stored V))
  pub decode-encode :
      (m : Entries (Receipt V)) (s : Str) → encode m ≡ some s → decode s ≡ some (map as_current m)

module _ (J : Json) (c : Codec J.Value) where
  open J use {Value, str_at, bool_at, u64_at, same, interrupted}

  abbrev migrated : Option (Entries (Stored Value)) → Result Error (Entries (Receipt Value))
  migrated none = err corrupt
  migrated (some m) = ok (map migrate_entry m)

  -- What is in the file: nothing if it is missing.
  unfoldable pub receipts : Option Str → Result Error (Entries (Receipt Value))
  receipts none = ok []
  receipts (some s) = migrated (c.decode s)

  pub load : ℕ → Io Slot Error (Entries (Receipt Value))
  load now =
      query unreadable (λ d. d.file) >>= λ s. lift (receipts s) >>= λ m. pure (retained now m)

  abbrev encoded : Option Str → Result Error Str
  encoded none = err unencodable
  encoded (some s) = ok s

  pub save : Entries (Receipt Value) → Io Slot Error (Unit {0})
  save m = lift (encoded (c.encode m)) >>= write_private not_written not_finalized

  abbrev pub is_refused : Str → ℕ → ℕ → Bool
  is_refused id expires now = is_empty id || (ltb 128 (len id) || leb expires now)

  unfoldable pub claim_in : Str → ℕ → ℕ → Entries (Receipt Value) → Io Slot Error Bool
  claim_in id expires now m =
      if contains_key id m
      then pure false
      else if is_refused id expires now
      then raise invalid_receipt
      else if leb 10000 (length m)
      then raise too_many
      else save ((id, fresh expires) ∷ m) >>= λ _. pure true

  -- `Ok(true)`: run the command. `Ok(false)`: it was claimed before.
  pub claim : Str → ℕ → ℕ → Io Slot Error Bool
  claim id expires now = load now >>= claim_in id expires now

  -- No outcome yet, or one that says only that the command was accepted.
  unfoldable pub is_open : Option Value → Bool
  is_open none = true
  is_open (some v) = elim (str_at (codes "phase") v) [
    | none ↦ false
    | some phase ↦ str_eq phase (codes "accepted")
  ]

  unfoldable pub interrupt : ℕ → Str × Receipt Value → Str × Receipt Value
  interrupt now (id, r) =
      if is_open r.outcome
      then (id, record r { outcome = some (interrupted id now); published = false })
      else (id, r)

  unfoldable pub handled_in : ℕ → Entries (Receipt Value) → Io Slot Error (List Str)
  handled_in now m =
      let closed = map (interrupt now) m in save closed >>= λ _. pure (map (λ x. x.0) closed)

  -- Called once by a new supervisor.
  pub handled : ℕ → Io Slot Error (List Str)
  handled now = load now >>= handled_in now

  abbrev names : Option Str → Str → Bool
  names none id = false
  names (some k) id = str_eq k id

  abbrev has_bool : Option Bool → Bool
  has_bool none = false
  has_bool (some b) = true

  abbrev concluded : Value → Receipt Value → Receipt Value
  concluded outcome r = record r { outcome = some outcome; published = false }

  unfoldable pub finish_in : Str → Value → Entries (Receipt Value) → Io Slot Error (Unit {0})
  finish_in id outcome m =
      if contains_key id m then save (modify id (concluded outcome) m) else raise missing

  abbrev is_no_outcome : Str → Value → Bool
  is_no_outcome id outcome =
      not (names (str_at (codes "id") outcome) id) || not (has_bool (bool_at (codes "ok") outcome))

  pub finish : Str → Value → ℕ → Io Slot Error (Unit {0})
  finish id outcome now =
      if is_no_outcome id outcome
      then raise invalid_outcome
      else (load now >>= finish_in id outcome)

  unfoldable pub unpublished : Entries (Receipt Value) → Entries Value
  unpublished [] = []
  unpublished ((id, r) ∷ m) = elim r.outcome [
    | none ↦ unpublished m
    | some v ↦ if r.published then unpublished m else (id, v) ∷ unpublished m
  ]

  abbrev pub done_ts : Value → ℕ
  done_ts v = elim (u64_at (codes "done_ts") v) [ none ↦ 0 | some t ↦ t ]

  -- `sort_by_key` is stable.
  unfoldable pub insert_sorted : Str × Value → Entries Value → Entries Value
  insert_sorted x [] = x ∷ []
  insert_sorted x (y ∷ ys) =
      if leb (done_ts x.1) (done_ts y.1) then x ∷ y ∷ ys else y ∷ insert_sorted x ys

  unfoldable pub sort_by_done : Entries Value → Entries Value
  unfolding insert_sorted
  sort_by_done [] = []
  sort_by_done (x ∷ xs) = insert_sorted x (sort_by_done xs)

  pub pending : ℕ → Io Slot Error (Entries Value)
  pending now = load now >>= λ m. pure (sort_by_done (unpublished m))

  abbrev is_outcome : Option Value → Value → Bool
  is_outcome none v = false
  is_outcome (some w) v = same w v

  -- A delayed acknowledgement cannot mark a newer result as delivered.
  abbrev acknowledged : Value → Receipt Value → Receipt Value
  acknowledged outcome r = if is_outcome r.outcome outcome then record r { published = true } else r

  unfoldable pub published_in : Str → Value → Entries (Receipt Value) → Io Slot Error (Unit {0})
  published_in id outcome m = save (modify id (acknowledged outcome) m)

  pub published : Str → Value → ℕ → Io Slot Error (Unit {0})
  published id outcome now = load now >>= published_in id outcome
