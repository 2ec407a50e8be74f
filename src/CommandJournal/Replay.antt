-- ===== src/CommandJournal/Replay.antt =====
-- A claimed command is not claimed again: over any later calls, failures and crashes.
use privacy_lodge.Prelude.{
  ℕ, ◌+◌, ◌^◌, ◌<◌, ◌≡◌, refl, ap, ◌⊎◌, inl, inr, true, false, Option, none, some, [], ◌∷◌, map,
  arith, if◌then◌else◌, ok, Option-cases,
}
use privacy_lodge.Text.{Str, str_eq}
use privacy_lodge.Text.Laws.{str_eq_iff, str_eq_refl}
use privacy_lodge.Io.{Io, ◌>>=◌}
use privacy_lodge.Io.Laws.{
  Spec, Spec-pure, Spec-bind, Spec-bind-lift, Spec-bind-query, Spec-weaken, Spec-always,
}
use privacy_lodge.PrivateFile.{Slot, write_private, write_private-atomic}
use privacy_lodge.CommandJournal.{
  Error, Json, Receipt, Entries, Codec, modify, contains_key, migrate, retained, retain_ms, fresh,
  not_written, not_finalized, receipts, load, save, interrupt, encoded, migrate_entry, as_current,
}

-- When the receipt of `id` expires, if there is one.
pub expiry : {V : Type 0} → Str → Entries (Receipt V) → Option ℕ
expiry id [] = none
expiry id ((k, r) ∷ m) = if str_eq k id then some r.expires else expiry id m

module _ {V : Type 0} (id : Str) (e : ℕ) where
  -- Once its receipt is dropped, more than a day has passed since the expiry.
  expiry-retained :
      (now : ℕ) (m : Entries (Receipt V))
      → now < 2 ^ 64
      → expiry id m ≡ some e
      → (expiry id (retained now m) ≡ some e) ⊎ (e + retain_ms < now)
  unfolding expiry retained
  expiry-retained now [] room h = cc
  expiry-retained now ((j, s) ∷ m) room h = ground (arith, expiry-retained now m room)

  pub expiry-fresh :
      (j : Str) (expires : ℕ) (m : Entries (Receipt V))
      → contains_key j m ≡ false
      → expiry id m ≡ some e
      → expiry id ((j, fresh expires) ∷ m) ≡ some e
  unfolding expiry contains_key
  expiry-fresh j expires [] absent h = cc
  expiry-fresh j expires ((k, s) ∷ m) absent h =
      ground (arith, expiry-fresh j expires m, str_eq_iff j id, str_eq_iff k id, str_eq_iff k j)

  pub expiry-head : (m : Entries (Receipt V)) → expiry id ((id, fresh e) ∷ m) ≡ some e
  unfolding expiry
  expiry-head m = rw (str_eq_refl id)

  -- An update that keeps expiry times keeps the receipt.
  pub expiry-modify :
      (j : Str) (f : Receipt V → Receipt V) (m : Entries (Receipt V))
      → ((r : Receipt V) → (f r).expires ≡ r.expires)
      → expiry id m ≡ some e
      → expiry id (modify j f m) ≡ some e
  unfolding expiry modify
  expiry-modify j f [] keep h = h
  expiry-modify j f ((k, s) ∷ m) keep h = ground (arith, keep s, expiry-modify j f m keep)

  pub expiry-contains_key :
      (m : Entries (Receipt V)) → expiry id m ≡ some e → contains_key id m ≡ true
  unfolding expiry contains_key
  expiry-contains_key [] h = cc
  expiry-contains_key ((k, s) ∷ m) h = ground (arith, expiry-contains_key m)

module _ (J : Json) (c : Codec J.Value) where
  open J use {Value}

  migrate-current : (m : Entries (Receipt Value)) → map migrate_entry (map as_current m) ≡ m
  unfolding migrate
  migrate-current [] = refl
  migrate-current (x ∷ m) = ap (◌∷◌ x) (migrate-current m)

  pub receipts-encode :
      (m : Entries (Receipt Value)) (s : Str) → c.encode m ≡ some s → receipts J c (some s) ≡ ok m
  unfolding receipts
  receipts-encode m s h = rw (c.decode-encode m s h) (ap ok (migrate-current m))

  pub encoded_of :
      (m : Entries (Receipt Value)) (s : Str)
      → encoded J c (c.encode m) ≡ ok s
      → c.encode m ≡ some s
  encoded_of m s h = ground (arith, Option-cases (c.encode m))

  -- A list that was saved is what the file reads as.
  pub save_lem :
      (m : Entries (Receipt Value))
      → Spec
          (λ _. Unit {0})
          (save J c m)
          (λ _ d. receipts J c d.file ≡ ok m)
          (λ _ _. Unit {0})
          (λ _. Unit {0})
  unfolding save
  save_lem m =
      Spec-bind-lift (encoded J c (c.encode m)) (write_private not_written not_finalized)
        (λ s k. record {
          at = λ d fs _.
              (Spec-weaken {P' = λ d'. d'.file ≡ d.file} {Q' = λ _ d'. receipts J c d'.file ≡ ok m}
                  {F' = λ _ _. Unit {0}} {C' = λ _. Unit {0}} _ (write_private-atomic _ _ d.file s)
                  (λ d' x. x) (λ _ d' x. rw x (receipts-encode m s (encoded_of m s k)))
                  (λ _ d' x. tt) (λ d' x. tt)).at
                d fs refl;
        })
        (λ _ _ d _. tt)

module _ (J : Json) (c : Codec J.Value) (id : Str) (e : ℕ) where
  open J use {Value}

  pub expiry-interrupt :
      (now : ℕ) (m : Entries (Receipt Value))
      → expiry id m ≡ some e
      → expiry id (map (interrupt J c now) m) ≡ some e
  unfolding expiry interrupt
  expiry-interrupt now [] h = h
  expiry-interrupt now ((k, r) ∷ m) h = ground (arith, expiry-interrupt now m)

  -- The file has a receipt for `id` that expires at `e`.
  abbrev pub Records : Slot → Type 0
  Records d = (m : Entries (Receipt Value)) × (receipts J c d.file ≡ ok m) × (expiry id m ≡ some e)

  -- Saving a list that has the receipt: nothing that can happen loses it, and once saved it is
  -- there even if it was not before.
  pub save-Records :
      (m : Entries (Receipt Value))
      → expiry id m ≡ some e
      → Spec Records (save J c m) (λ _. Records) (λ _. Records) Records
  unfolding save
  save-Records m h =
      Spec-bind-lift _ _
        (λ s k. record {
          at = λ d fs old.
              (Spec-weaken {P' = λ d'. d'.file ≡ d.file} _ (write_private-atomic _ _ d.file s)
                  (λ d' x. x) (λ _ d' x. written s k d' x) (λ _ d' x. rw x old)
                  (λ d' x. elim x [ inl x ↦ rw x old | inr x ↦ written s k d' x ])).at
                d fs refl;
        })
        (λ _ _ d old. old)
    where
      written :
          (s : Str) → encoded J c (c.encode m) ≡ ok s → (d : Slot) → d.file ≡ some s → Records d
      written s k d x = (m, rw x (receipts-encode J c m s (encoded_of J c m s k)), h)

  abbrev Late : ℕ → Type 0
  Late now = e + retain_ms < now

  -- The receipt is there, or its day after the expiry is over.
  abbrev pub Spent : ℕ → Slot → Type 0
  Spent now d = Records d ⊎ Late now

  module _ (now : ℕ) (room : now < 2 ^ 64) where
    load-Records :
        Spec Records
          (load J c now)
          (λ m d. Records d × ((expiry id m ≡ some e) ⊎ Late now))
          (λ _. Records)
          Records
    unfolding load
    load-Records =
        Spec-bind-query _ _ _
          (λ d h.
            Spec-bind-lift _ _
              (λ m k.
                Spec-pure _ (λ d' h'. (h', expiry-retained id e now m room (same_entries d h m k))))
              (λ _ _ d' h'. h'))
          (λ d h. h) (λ d h. h)
      where
        same_entries :
            (d : Slot)
            → Records d
            → (m : Entries (Receipt Value)) → receipts J c d.file ≡ ok m
            → expiry id m ≡ some e
        same_entries d (m', h, k) m x = ground (arith, h, k, x)

    -- A call that loads, and then keeps the receipt if it is among what was loaded.
    pub keeps :
        {B : Type 0} (Q : B → Slot → Type 0) (body : Entries (Receipt Value) → Io Slot Error B)
        → ((m : Entries (Receipt Value))
            → expiry id m ≡ some e
            → Spec Records (body m) Q (λ _. Records) Records)
        → Spec Records
            (load J c now >>= body)
            (λ b d. Q b d ⊎ Late now)
            (λ _. Spent now)
            (Spent now)
    keeps Q body h =
        Spec-bind _ _
          (Spec-weaken _ load-Records (λ _ x. x) (λ _ _ x. x) (λ _ _ x. inl x) (λ _ x. inl x))
          λ m. record { at = λ d fs (old, x). (body_spec m x).at d fs old }
      where
        body_spec :
            (m : Entries (Receipt Value))
            → (expiry id m ≡ some e) ⊎ Late now
            → Spec Records (body m) (λ b d. Q b d ⊎ Late now) (λ _. Spent now) (Spent now)
        body_spec m (inl x) =
            Spec-weaken _ (h m x) (λ _ y. y) (λ _ _ y. inl y) (λ _ _ y. inl y) (λ _ y. inl y)
        body_spec m (inr x) = Spec-always _ (λ _ _. inr x) (λ _ _. inr x) (λ _. inr x)
