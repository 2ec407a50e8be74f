-- ===== src/CommandJournal/Pending.antt =====
-- `pending`: which outcomes are still to publish, and in which order.
use privacy_lodge.Prelude.{
  ℕ, ◌+◌, ◌-◌, ◌^◌, ◌≤◌, ◌≡◌, ◌∙◌, refl, ap, min, false, not, ◌&&◌, ◌||◌, Option, none, some, List,
  [], ◌∷◌, arith, leb, if◌then◌else◌, Bool-cases, inl, inr, ok,
}
use privacy_lodge.Text.{Str, str_eq}
use privacy_lodge.Text.Laws.{str_eq_iff}
use privacy_lodge.Io.{done}
use privacy_lodge.PrivateFile.{Slot}
use privacy_lodge.CommandJournal.{
  Json, Receipt, Entries, Codec, get, unpublished, insert_sorted, sort_by_done, done_ts,
  contains_key, is_retained, receipts, retained, pending, load,
}

-- Each outcome is no later than those behind it.
abbrev pub IsSorted : {A : Type 0} → (A → ℕ) → List A → Type 0
IsSorted f [] = Unit {0}
IsSorted f (x ∷ []) = Unit {0}
IsSorted f (x ∷ y ∷ l) = (f x ≤ f y) × IsSorted f (y ∷ l)

-- The keys of a map are there once.
abbrev pub Unique : {A : Type 0} → Entries A → Type 0
Unique [] = Unit {0}
Unique ((k, a) ∷ m) = (contains_key k m ≡ false) × Unique m

module _ (J : Json) (c : Codec J.Value) where
  open J use {Value, str_at, interrupted, same, same_iff, phase-interrupted}

  insert_sorted-IsSorted :
      (x : Str × Value) (l : Entries Value)
      → IsSorted (λ o. done_ts J c o.1) l
      → IsSorted (λ o. done_ts J c o.1) (insert_sorted J c x l)
  unfolding insert_sorted
  insert_sorted-IsSorted x [] h = tt
  insert_sorted-IsSorted x (y ∷ []) h = ground arith
  insert_sorted-IsSorted x (y ∷ z ∷ l) h = ground (arith, insert_sorted-IsSorted x (z ∷ l))

  sort-IsSorted : (l : Entries Value) → IsSorted (λ o. done_ts J c o.1) (sort_by_done J c l)
  unfolding sort_by_done
  sort-IsSorted [] = tt
  sort-IsSorted (x ∷ l) = insert_sorted-IsSorted x (sort_by_done J c l) (sort-IsSorted l)

  contains_key-insert_sorted :
      (k : Str) (x : Str × Value) (l : Entries Value)
      → contains_key k (insert_sorted J c x l) ≡ (str_eq x.0 k || contains_key k l)
  unfolding insert_sorted contains_key
  contains_key-insert_sorted k x [] = refl
  contains_key-insert_sorted k x (y ∷ l) = ground (arith, contains_key-insert_sorted k x l)

  contains_key-sort :
      (k : Str) (l : Entries Value) → contains_key k (sort_by_done J c l) ≡ contains_key k l
  unfolding sort_by_done contains_key
  contains_key-sort k [] = refl
  contains_key-sort k (x ∷ l) =
      contains_key-insert_sorted k x (sort_by_done J c l)
      ∙ ap (λ b. str_eq x.0 k || b) (contains_key-sort k l)

  get-insert_sorted :
      (k : Str) (x : Str × Value) (l : Entries Value)
      → contains_key x.0 l ≡ false
      → get k (insert_sorted J c x l) ≡ (if str_eq x.0 k then some x.1 else get k l)
  unfolding insert_sorted get contains_key
  get-insert_sorted k x [] h = refl
  get-insert_sorted k x (y ∷ l) h =
      ground
        (arith, get-insert_sorted k x l, str_eq_iff x.0 k, str_eq_iff y.0 k, str_eq_iff y.0 x.0)

  insert_sorted-Unique :
      (x : Str × Value) (l : Entries Value)
      → contains_key x.0 l ≡ false
      → Unique l
      → Unique (insert_sorted J c x l)
  unfolding insert_sorted contains_key
  insert_sorted-Unique x [] h u = (refl, tt)
  insert_sorted-Unique x (y ∷ l) h u = elim (Bool-cases (leb (done_ts J c x.1) (done_ts J c y.1))) [
    | inl le ↦ rw le (h, u)
    | inr gt ↦ rw gt (
      ground
          (arith, contains_key-insert_sorted y.0 x l, u.0, str_eq_iff x.0 y.0, str_eq_iff y.0 x.0),
      insert_sorted-Unique x l (ground arith) u.1,
    )
  ]

  sort-Unique : (l : Entries Value) → Unique l → Unique (sort_by_done J c l)
  unfolding sort_by_done
  sort-Unique [] u = tt
  sort-Unique (x ∷ l) u =
      insert_sorted-Unique x (sort_by_done J c l) (contains_key-sort x.0 l ∙ u.0)
        (sort-Unique l u.1)

  get-sort : (k : Str) (l : Entries Value) → Unique l → get k (sort_by_done J c l) ≡ get k l
  unfolding sort_by_done get
  get-sort k [] u = refl
  get-sort k (x ∷ l) u =
      get-insert_sorted k x (sort_by_done J c l) (contains_key-sort x.0 l ∙ u.0)
      ∙ ap (λ o. if str_eq x.0 k then some x.1 else o) (get-sort k l u.1)

  contains_key-unpublished :
      (k : Str) (now : ℕ) (m : Entries (Receipt Value))
      → contains_key k m ≡ false
      → contains_key k (unpublished J c (retained now m)) ≡ false
  unfolding unpublished retained contains_key
  contains_key-unpublished k now [] h = refl
  contains_key-unpublished k now ((id, r) ∷ m) h = ground (arith, contains_key-unpublished k now m)

  unpublished-Unique :
      (now : ℕ) (m : Entries (Receipt Value)) → Unique m → Unique (unpublished J c (retained now m))
  unfolding unpublished retained
  unpublished-Unique now [] u = tt
  unpublished-Unique now ((id, r) ∷ m) u =
      ground (arith, unpublished-Unique now m u.1, contains_key-unpublished id now m u.0)

  -- What is still to publish of a receipt: its outcome, if it is not published and at most a day has
  -- passed since the expiry, where the sum stops at the largest number of 64 bits.
  abbrev pub due : ℕ → Option (Receipt Value) → Option Value
  due now none = none
  due now (some r) =
      if leb now (min (r.expires + 86400000) (2 ^ 64 - 1)) && not r.published
      then r.outcome
      else none

  get-absent : {A : Type 0} (k : Str) (m : Entries A) → contains_key k m ≡ false → get k m ≡ none
  unfolding get contains_key
  get-absent k [] h = refl
  get-absent k ((j, a) ∷ m) h = ground (arith, get-absent k m)

  get-unpublished :
      (k : Str) (now : ℕ) (m : Entries (Receipt Value))
      → Unique m
      → get k (unpublished J c (retained now m)) ≡ due now (get k m)
  unfolding unpublished retained is_retained get
  get-unpublished k now [] u = refl
  get-unpublished k now ((id, r) ∷ m) u = ground (
    arith,
    get-unpublished k now m u.1,
    str_eq_iff id k,
    get-absent id (unpublished J c (retained now m)) (contains_key-unpublished id now m u.0),
  )

  -- From a file that reads, on a disk that works, `pending` gives for each id the outcome that is
  -- still to publish, and nothing else: each id at most once, ordered by `done_ts`.
  pub pending_lem :
      (now : ℕ) (d : Slot) (m : Entries (Receipt Value))
      → receipts J c d.file ≡ ok m
      → Unique m
      → (l : Entries Value) × ((pending J c now d []).0 ≡ done l)
        × ((id : Str) → get id l ≡ due now (get id m))
        × Unique l
        × IsSorted (λ o. done_ts J c o.1) l
  unfolding pending load
  pending_lem now d m h u =
      let due_now = unpublished J c (retained now m) in
      (
        sort_by_done J c due_now,
        rw h,
        (λ id. get-sort id due_now (unpublished-Unique now m u) ∙ get-unpublished id now m u),
        sort-Unique due_now (unpublished-Unique now m u),
        sort-IsSorted due_now,
      )
