-- ===== src/LifecycleTasks.antt =====
-- src-tauri/src/lifecycle.rs: leases of background work by generation. The mutex makes `cancel`,
-- `register` and the drop of a lease follow each other; `spawn` is `register`, and a drop when the
-- work is gone. The counts of leases are taken to fit in a `usize`.
pub mod Drain
mod Examples
use privacy_lodge.Prelude.{
  ℕ, suc, ◌+◌, ◌-◌, ◌^◌, ◌%◌, ◌≤◌, ◌≡◌, Bool, true, false, Option, none, some, List, [], ◌∷◌, ◌==◌,
  if◌then◌else◌,
}

-- `active` is a map from generations, looked at only by key and for being empty.
pub record Tasks : Type 0 where
  pub generation : ℕ
  pub active : List (ℕ × ℕ)

abbrev pub default : Tasks
default = record { generation = 0; active = [] }

-- `*active.entry(generation).or_default() += 1`
unfoldable pub bump : ℕ → List (ℕ × ℕ) → List (ℕ × ℕ)
bump g [] = (g, 1) ∷ []
bump g ((k, n) ∷ m) = if k == g then (k, suc n) ∷ m else (k, n) ∷ bump g m

-- One less, and no entry at 0.
unfoldable pub release : ℕ → List (ℕ × ℕ) → List (ℕ × ℕ)
release g [] = []
release g ((k, n) ∷ m) =
    if k == g then (if n - 1 == 0 then m else (k, n - 1) ∷ m) else (k, n) ∷ release g m

unfoldable pub cancel : Tasks → Tasks
cancel t = record t { generation = (t.generation + 1) % 2 ^ 64 }

-- The lease is of the generation that is asked for.
unfoldable pub register : ℕ → Tasks → Option Tasks
register g t = if t.generation == g then some (record t { active = bump g t.active }) else none

unfoldable pub drop_lease : ℕ → Tasks → Tasks
drop_lease g t = record t { active = release g t.active }

abbrev pub is_clear : List (ℕ × ℕ) → Bool
is_clear [] = true
is_clear (_ ∷ _) = false

-- The test that `drain` waits for.
abbrev pub is_drained : Tasks → Bool
is_drained t = is_clear t.active

-- The tasks, and the generations of the leases that are held.
pub record World : Type 0 where
  pub tasks : Tasks
  pub leases : List ℕ

abbrev pub occurs : ℕ → List ℕ → ℕ
occurs g [] = 0
occurs g (h ∷ l) = if h == g then suc (occurs g l) else occurs g l

abbrev pub remove_one : ℕ → List ℕ → List ℕ
remove_one g [] = []
remove_one g (h ∷ l) = if h == g then l else h ∷ remove_one g l

pub data Step (w : World) : World → Type 0 where
  cancels : Step w (record w { tasks = cancel w.tasks })
  registers :
      (g : ℕ) {t : Tasks}
      → register g w.tasks ≡ some t
      → Step w (record { tasks = t; leases = g ∷ w.leases })
  drops :
      (g : ℕ)
      → 1 ≤ occurs g w.leases
      → Step w (record { tasks = drop_lease g w.tasks; leases = remove_one g w.leases })

abbrev pub cost : {w v : World} → Step w v → ℕ
cost cancels = 1
cost (registers g e) = 0
cost (drops g h) = 0

-- Steps, with the number of cancellations among them.
pub data Steps (w : World) : ℕ → World → Type 0 where
  still : Steps w 0 w
  later : {n : ℕ} {u v : World} → Steps w n u → (s : Step u v) → Steps w (n + cost s) v

abbrev pub start : World
start = record { tasks = default; leases = [] }
