-- ===== src/CommandJournal/Outcomes.antt =====
-- `handled`: what a restart makes of the commands that are not finished.
use privacy_lodge.Prelude.{
  ℕ, ◌≡◌, ◌≢◌, ◌⊎◌, true, refl, ap, false, Option, none, some, List, [], ◌∷◌, map, arith,
  Bool-cases, inl, inr, All, ok,
}
use privacy_lodge.Text.{Str, codes, str_eq}
use privacy_lodge.Text.Laws.{str_eq_iff}
use privacy_lodge.Io.{Fault, done}
use privacy_lodge.Io.Handlers.{returned}
use privacy_lodge.Io.Laws.{Spec-bind-query, Spec-bind-lift, Spec, Spec-bind, Spec-pure}
use privacy_lodge.PrivateFile.{Slot}
use privacy_lodge.CommandJournal.Replay.{save_lem}
use privacy_lodge.CommandJournal.{
  Json, Receipt, Entries, Codec, interrupt, is_open, handled, handled_in, receipts, retained, load,
}

module _ (J : Json) (c : Codec J.Value) where
  open J use {Value, str_at, interrupted, same, same_iff, phase-interrupted}

  interrupted_closed : (id : Str) (now : ℕ) → is_open J c (some (interrupted id now)) ≡ false
  unfolding is_open
  interrupted_closed id now = rw (phase-interrupted id now, is_open)

  -- After a restart no command is left open: one without an outcome, or only accepted, is
  -- interrupted and to be published; every other receipt is as it was.
  pub interrupt_closes :
      (now : ℕ) (m : Entries (Receipt Value))
      → All (λ x. is_open J c x.1.outcome ≡ false) (map (interrupt J c now) m)
  unfolding interrupt
  interrupt_closes now [] = tt
  interrupt_closes now ((id, r) ∷ m) = (
    elim (Bool-cases (is_open J c r.outcome)) [
      | inl open_one ↦ rw open_one (interrupted_closed id now)
      | inr closed ↦ rw closed closed
    ],
    interrupt_closes now m,
  )

  -- Closed: there is an outcome, and it does not say only that the command was accepted.
  abbrev pub IsClosed : Receipt Value → Type 0
  IsClosed r =
      (v : Value) × (r.outcome ≡ some v) × (str_at (codes "phase") v ≢ some (codes "accepted"))

  -- The test `is_open` fails only on an outcome with another phase.
  closed_outcome :
      (o : Option Value)
      → is_open J c o ≡ false
      → (v : Value) × (o ≡ some v) × (str_at (codes "phase") v ≢ some (codes "accepted"))
  unfolding is_open
  closed_outcome none h = cc
  closed_outcome (some v) h =
      (v, refl, λ e. ground (arith, str_eq_iff (codes "accepted") (codes "accepted")))

  is_open-IsClosed : (r : Receipt Value) → is_open J c r.outcome ≡ false → IsClosed r
  is_open-IsClosed r h = closed_outcome r.outcome h

  All-IsClosed :
      (m : Entries (Receipt Value))
      → All (λ x. is_open J c x.1.outcome ≡ false) m
      → All (λ x. IsClosed x.1) m
  All-IsClosed [] h = tt
  All-IsClosed (x ∷ m) h = (is_open-IsClosed x.1 h.0, All-IsClosed m h.1)

  -- A receipt before and after a restart: one that is closed is as it was; any other is
  -- interrupted, and to be published.
  abbrev pub IsRestarted : ℕ → Str → Receipt Value → Receipt Value → Type 0
  IsRestarted now id r s =
      (IsClosed r × (s ≡ r))
      ⊎ ((IsClosed r → ⊥)
          × (s ≡ record r { outcome = some (interrupted id now); published = false }))

  abbrev pub AreRestarted : ℕ → Entries (Receipt Value) → Entries (Receipt Value) → Type 0
  AreRestarted now [] [] = Unit {0}
  AreRestarted now ((i, r) ∷ m) ((j, s) ∷ n) =
      (i ≡ j) × IsRestarted now i r s × AreRestarted now m n
  AreRestarted now _ _ = ⊥

  -- The test `is_open` passes only on a receipt that is not closed.
  accepted_phase :
      (o : Option Str)
      → elim o [ none ↦ false | some phase ↦ str_eq phase (codes "accepted") ] ≡ true
      → o ≡ some (codes "accepted")
  accepted_phase none h = cc
  accepted_phase (some phase) h = ap some ((str_eq_iff phase (codes "accepted")).0 h)

  open_accepted :
      (v : Value) → is_open J c (some v) ≡ true → str_at (codes "phase") v ≡ some (codes "accepted")
  unfolding is_open
  open_accepted v h = accepted_phase (str_at (codes "phase") v) h

  is_open_open : (r : Receipt Value) → is_open J c r.outcome ≡ true → IsClosed r → ⊥
  is_open_open r h (v, e, other_phase) = other_phase (open_accepted v (rw e at h))

  interrupt-AreRestarted :
      (now : ℕ) (m : Entries (Receipt Value)) → AreRestarted now m (map (interrupt J c now) m)
  unfolding interrupt
  interrupt-AreRestarted now [] = tt
  interrupt-AreRestarted now ((id, r) ∷ m) = elim (Bool-cases (is_open J c r.outcome)) [
    | inl open_one ↦
        rw open_one (refl, inr (is_open_open r open_one, refl), interrupt-AreRestarted now m)
    | inr closed ↦
        rw closed (refl, inl (is_open-IsClosed r closed, refl), interrupt-AreRestarted now m)
  ]

  -- What holds once `handled` has returned, of the file before and after.
  abbrev Closed : ℕ → Option Str → List Str → Slot → Type 0
  Closed now before ids d =
      (old m : Entries (Receipt Value)) × (receipts J c before ≡ ok old)
      × (receipts J c d.file ≡ ok m)
      × (ids ≡ map (λ x. x.0) m)
      × All (λ x. IsClosed x.1) m
      × AreRestarted now (retained now old) m

  load-Spec :
      (now : ℕ) (before : Option Str)
      → Spec
          (λ d. d.file ≡ before)
          (load J c now)
          (λ m _.
            (old : Entries (Receipt Value)) × (receipts J c before ≡ ok old)
            × (m ≡ retained now old))
          (λ _ _. Unit {0})
          (λ _. Unit {0})
  unfolding load
  load-Spec now before =
      Spec-bind-query _ _ _
        (λ d h.
          Spec-bind-lift _ _ (λ m k. Spec-pure _ (λ _ _. (m, rw (← h) k, refl))) (λ _ _ _ _. tt))
        (λ _ _. tt) (λ _ _. tt)

  handled_in-Spec :
      (now : ℕ) (before : Option Str) (old : Entries (Receipt Value))
      → receipts J c before ≡ ok old
      → Spec
          (λ _. Unit {0})
          (handled_in J c now (retained now old))
          (Closed now before)
          (λ _ _. Unit {0})
          (λ _. Unit {0})
  unfolding handled_in
  handled_in-Spec now before old h =
      let m = retained now old in
      let closed = map (interrupt J c now) m in
      Spec-bind _ _ (save_lem J c closed) (λ _. Spec-pure _ (λ d x. (
        old,
        closed,
        h,
        x,
        refl,
        All-IsClosed closed (interrupt_closes now m),
        interrupt-AreRestarted now m,
      )))

  handled-Spec :
      (now : ℕ) (before : Option Str)
      → Spec
          (λ d. d.file ≡ before)
          (handled J c now)
          (Closed now before)
          (λ _ _. Unit {0})
          (λ _. Unit {0})
  unfolding handled
  handled-Spec now before = Spec-bind _ _ (load-Spec now before) λ m. record {
    at = λ d fs (old, h, e).
        let rest : Spec (λ _. Unit {0}) (handled_in J c now m) (Closed now before) (λ _ _. Unit {0})
            (λ _. Unit {0}) =
          rw e (handled_in-Spec now before old h) in
        rest.at d fs tt;
  }

  -- Once `handled` has returned, the file was readable, and what is in it now are the receipts that
  -- were retained of it, in their order: one that has an outcome, and not one that says only that
  -- the command was accepted, is as it was; any other is interrupted, and to be published. So every
  -- receipt has such an outcome now, and the ids that are returned are theirs.
  pub handled_closes :
      (now : ℕ) (d : Slot) (fs : List Fault) (ids : List Str)
      → (handled J c now d fs).0 ≡ done ids
      → (old m : Entries (Receipt Value)) × (receipts J c d.file ≡ ok old)
        × (receipts J c (handled J c now d fs).1.file ≡ ok m)
        × (ids ≡ map (λ x. x.0) m)
        × All (λ x. IsClosed x.1) m
        × AreRestarted now (retained now old) m
  handled_closes now d fs ids h =
      returned (Closed now d.file) (λ _ _. Unit {0}) (λ _. Unit {0}) (handled J c now d fs).0 ids
        (handled J c now d fs).1 h ((handled-Spec now d.file).at d fs refl)
