-- ===== src/CommandJournal/Once.antt =====
-- Histories of calls, each at its time and with its faults, and what they leave of a claim.
use privacy_lodge.Prelude.{
  ℕ, ◌+◌, ◌^◌, ◌≤◌, ◌<◌, ◌≡◌, refl, inl, inr, Bool, true, false, some, List, [], ◌∷◌, arith, leb,
  length,
}
use privacy_lodge.Text.{Str}
use privacy_lodge.Io.{Io, Fault, Reply, done, failed, crashed, pure, raise, ◌>>=◌}
use privacy_lodge.Io.Laws.{
  Post, Spec, Spec-pure, Spec-raise, Spec-bind, Spec-weaken, Spec-if, Spec-always,
}
use privacy_lodge.PrivateFile.{Slot}
use privacy_lodge.CommandJournal.{
  Error, Json, Receipt, Entries, Codec, contains_key, retain_ms, fresh, load, save, claim, claim_in,
  handled, handled_in, finish, finish_in, concluded, pending, published, published_in, acknowledged,
  is_refused, is_no_outcome, invalid_outcome, invalid_receipt, too_many, missing,
}
use privacy_lodge.CommandJournal.Replay.{
  save_lem, expiry, expiry-head, expiry-fresh, expiry-modify, expiry-interrupt, expiry-contains_key,
  Records, Spent, save-Records, keeps,
}

pub data Call (V : Type 0) : Type 0 where
  claims : Str → ℕ → Call V
  handles : Call V
  finishes : Str → V → Call V
  asks_pending : Call V
  publishes : Str → V → Call V

-- Each call with its time and the faults that it meets.
abbrev pub History : Type 0 → Type 0
History V = List (ℕ × Call V × List Fault)

-- The times do not go back, and fit in 64 bits.
abbrev pub From : {V : Type 0} → ℕ → History V → Type 0
From t [] = Unit {0}
From t ((now, call, fs) ∷ h) = (t ≤ now) × (now < 2 ^ 64) × From now h

abbrev pub end_time : {V : Type 0} → ℕ → History V → ℕ
end_time t [] = t
end_time t ((now, call, fs) ∷ h) = end_time now h

module _ (J : Json) (c : Codec J.Value) where
  open J use {Value}

  unfoldable pub perform : Call Value → ℕ → Slot → List Fault → Slot
  perform (claims id expires) now d fs = (claim J c id expires now d fs).1
  perform handles now d fs = (handled J c now d fs).1
  perform (finishes id v) now d fs = (finish J c id v now d fs).1
  perform asks_pending now d fs = (pending J c now d fs).1
  perform (publishes id v) now d fs = (published J c id v now d fs).1

  unfoldable pub run : Slot → History Value → Slot
  run d [] = d
  run d ((now, call, fs) ∷ h) = run (perform call now d fs) h

  module _ (id : Str) (e : ℕ) where
    abbrev R : Slot → Type 0
    R = Records J c id e

    save_then :
        {B : Type 0} (m : Entries (Receipt Value)) (b : B)
        → expiry id m ≡ some e
        → Spec R (save J c m >>= λ _. pure b) (λ _. R) (λ _. R) R
    save_then m b h = Spec-bind _ _ (save-Records J c id e m h) (λ _. Spec-pure b (λ d x. x))

    claim_in-keeps :
        (j : Str) (expires now : ℕ) (m : Entries (Receipt Value))
        → expiry id m ≡ some e
        → Spec R (claim_in J c j expires now m) (λ _. R) (λ _. R) R
    unfolding claim_in
    claim_in-keeps j expires now m h =
        Spec-if (contains_key j m) _ _ (λ _. Spec-pure false (λ d x. x))
          (λ absent.
            Spec-if (is_refused J c j expires now) (raise invalid_receipt) _
              (λ _. Spec-raise _ (λ d x. x))
              (λ _.
                Spec-if (leb 10000 (length m)) (raise too_many) _ (λ _. Spec-raise _ (λ d x. x))
                  (λ _. save_then _ true (expiry-fresh id e j expires m absent h))))

    -- With the receipt there, the same id is refused.
    claim_in-refuses :
        (expires now : ℕ) (m : Entries (Receipt Value))
        → expiry id m ≡ some e
        → Spec R (claim_in J c id expires now m) (λ b _. b ≡ false) (λ _. R) R
    unfolding claim_in
    claim_in-refuses expires now m h =
        rw (expiry-contains_key id e m h) (Spec-pure false (λ d x. refl))

    handled_in-keeps :
        (now : ℕ) (m : Entries (Receipt Value))
        → expiry id m ≡ some e
        → Spec R (handled_in J c now m) (λ _. R) (λ _. R) R
    unfolding handled_in
    handled_in-keeps now m h = save_then _ _ (expiry-interrupt J c id e now m h)

    finish_in-keeps :
        (j : Str) (v : Value) (m : Entries (Receipt Value))
        → expiry id m ≡ some e
        → Spec R (finish_in J c j v m) (λ _. R) (λ _. R) R
    unfolding finish_in
    finish_in-keeps j v m h =
        Spec-if (contains_key j m) _ (raise missing)
          (λ _. save-Records J c id e _ (expiry-modify id e j (concluded J c v) m (λ r. refl) h))
          (λ _. Spec-raise _ (λ d x. x))

    acknowledged_expires :
        (v : Value) (r : Receipt Value) → (acknowledged J c v r).expires ≡ r.expires
    acknowledged_expires v r = ground arith

    published_in-keeps :
        (j : Str) (v : Value) (m : Entries (Receipt Value))
        → expiry id m ≡ some e
        → Spec R (published_in J c j v m) (λ _. R) (λ _. R) R
    unfolding published_in
    published_in-keeps j v m h =
        save-Records J c id e _
          (expiry-modify id e j (acknowledged J c v) m (acknowledged_expires v) h)

    abbrev Sp : ℕ → Slot → Type 0
    Sp = Spent J c id e

    -- A spent claim stays spent: the end of a call, whatever it is.
    ends :
        {B : Type 0} (now : ℕ) (m : Io Slot Error B)
        → Spec R m (λ _. Sp now) (λ _. Sp now) (Sp now)
        → (d : Slot) (fs : List Fault) → R d
        → Sp now (m d fs).1
    ends now m h d fs x = settle (m d fs).0 (m d fs).1 (h.at d fs x)
      where
        settle :
            {B : Type 0} (r : Reply Error B) (d' : Slot)
            → Post (λ _. Sp now) (λ _. Sp now) (Sp now) r d'
            → Sp now d'
        settle (done a) d' y = y
        settle (failed x) d' y = y
        settle crashed d' y = y

    perform-Spent :
        (call : Call Value) (now : ℕ) (d : Slot) (fs : List Fault)
        → now < 2 ^ 64
        → R d
        → Sp now (perform call now d fs)
    unfolding perform claim handled finish pending published
    perform-Spent (claims j x) now d fs room h =
        ends now _
          (Spec-weaken _ (keeps J c id e now room (λ _. R) _ (claim_in-keeps j x now)) (λ _ y. y)
            (λ _ _ y. y) (λ _ _ y. y) (λ _ y. y))
          d fs h
    perform-Spent handles now d fs room h =
        ends now _
          (Spec-weaken _ (keeps J c id e now room (λ _. R) _ (handled_in-keeps now)) (λ _ y. y)
            (λ _ _ y. y) (λ _ _ y. y) (λ _ y. y))
          d fs h
    perform-Spent (finishes j v) now d fs room h =
        ends now _
          (Spec-if (is_no_outcome J c j v) (raise invalid_outcome) _
            (λ _. Spec-raise _ (λ d x. inl x))
            (λ _. keeps J c id e now room (λ _. R) _ (finish_in-keeps j v)))
          d fs h
    perform-Spent asks_pending now d fs room h =
        ends now _ (keeps J c id e now room (λ _. R) _ (λ m _. Spec-pure _ (λ d x. x))) d fs h
    perform-Spent (publishes j v) now d fs room h =
        ends now _ (keeps J c id e now room (λ _. R) _ (published_in-keeps j v)) d fs h

    run-Spent :
        (h : History Value) (t : ℕ) (d : Slot) → From t h → Sp t d → Sp (end_time t h) (run d h)
    unfolding run
    run-Spent [] t d f s = s
    run-Spent ((now, call, fs) ∷ h) t d f (inl r) =
        run-Spent h now (perform call now d fs) f.2 (perform-Spent call now d fs f.1 r)
    run-Spent ((now, call, fs) ∷ h) t d f (inr late) =
        run-Spent h now (perform call now d fs) f.2 (inr (omega arith))

    -- A claim that returned true is in the file.
    claim_in-Records :
        (now : ℕ) (m : Entries (Receipt Value))
        → Spec
            (λ _. Unit {0})
            (claim_in J c id e now m)
            (λ b d. b ≡ true → R d)
            (λ _ _. Unit {0})
            (λ _. Unit {0})
    unfolding claim_in
    claim_in-Records now m =
        Spec-if (contains_key id m) _ _ (λ _. Spec-pure false (λ d _ x. cc))
          (λ _.
            Spec-if (is_refused J c id e now) (raise invalid_receipt) _
              (λ _. Spec-raise _ (λ d _. tt))
              (λ _.
                Spec-if (leb 10000 (length m)) (raise too_many) _ (λ _. Spec-raise _ (λ d _. tt))
                  (λ _.
                    Spec-bind _ _ (save_lem J c ((id, fresh e) ∷ m))
                      (λ _. Spec-pure true (λ d r _. (_, r, expiry-head id e m))))))

  abbrev Yields : (Slot → Type 0) → Io Slot Error Bool → (Slot → Type 0) → Type 0
  Yields P m Q = Spec P m (λ b d. b ≡ true → Q d) (λ _ _. Unit {0}) (λ _. Unit {0})

  yielded :
      (Q : Slot → Type 0) (r : Reply Error Bool) (d : Slot)
      → Post (λ b d. b ≡ true → Q d) (λ _ _. Unit {0}) (λ _. Unit {0}) r d
      → r ≡ done true
      → Q d
  yielded Q (done b) d h e = h (ground (arith, e))
  yielded Q (failed x) d h e = cc
  yielded Q crashed d h e = cc

  claim-yields :
      (Q : Slot → Type 0) (id : Str) (e now : ℕ)
      → ((m : Entries (Receipt Value)) → Yields (λ _. Unit {0}) (claim_in J c id e now m) Q)
      → Yields (λ _. Unit {0}) (claim J c id e now) Q
  unfolding claim
  claim-yields Q id e now h =
      Spec-bind {Q = λ _ _. Unit {0}} _ _ (Spec-always _ (λ _ _. tt) (λ _ _. tt) (λ _. tt)) h

  -- A claim succeeds only before its expiry.
  claim_in-fresh :
      (id : Str) (e now : ℕ) (m : Entries (Receipt Value))
      → Yields (λ _. Unit {0}) (claim_in J c id e now m) (λ _. now < e)
  unfolding claim_in
  claim_in-fresh id e now m =
      Spec-if (contains_key id m) _ _ (λ _. Spec-pure false (λ d _ x. cc))
        (λ _.
          Spec-if (is_refused J c id e now) (raise invalid_receipt) _
            (λ _. Spec-raise _ (λ d _. tt))
            (λ valid. Spec-always _ (λ _ _ _. ground (arith, valid)) (λ _ _. tt) (λ _. tt)))

  claim-late :
      (id : Str) (e e' later : ℕ)
      → later < 2 ^ 64
      → (d : Slot) (fs : List Fault) → Spent J c id e later d
      → (claim J c id e' later d fs).0 ≡ done true
      → e + retain_ms < later
  unfolding claim
  claim-late id e e' later room d fs (inr late) h = late
  claim-late id e e' later room d fs (inl r) h =
      yielded (λ _. e + retain_ms < later) _ _ (refused.at d fs r) h
    where
      refused :
          Yields
            (Records J c id e)
            (load J c later >>= claim_in J c id e' later)
            (λ _. e + retain_ms < later)
      refused =
          Spec-weaken _
            (keeps J c id e later room (λ b _. b ≡ false) _ (claim_in-refuses id e e' later))
            (λ _ x. x) (λ b _ x y. elim x [ inl no_claim ↦ cc (no_claim, y) | inr late ↦ late ])
            (λ _ _ _. tt) (λ _ _. tt)

  -- Once a command has been claimed, no claim of its id succeeds until more than a day after its
  -- expiry, whatever calls, failures and crashes come between; and one that succeeds then carries
  -- another, later expiry. So a command, which is its id and its expiry, runs once at most.
  pub claim_once :
      (id : Str) (e now : ℕ) (d : Slot) (fs : List Fault)
      → (claim J c id e now d fs).0 ≡ done true
      → (h : History Value) → From now h
      → (later e' : ℕ) (fs' : List Fault) → end_time now h ≤ later
      → later < 2 ^ 64
      → (claim J c id e' later (run (claim J c id e now d fs).1 h) fs').0 ≡ done true
      → (e + retain_ms < later) × (later < e')
  claim_once id e now d fs first h times later e' fs' ordered room second = (
    claim-late id e e' later room after fs'
        (kept after (run-Spent id e h now (claim J c id e now d fs).1 times (inl recorded))) second,
    yielded (λ _. later < e') _ _
        ((claim-yields (λ _. later < e') id e' later (claim_in-fresh id e' later)).at _ fs' tt)
        second,
  )
    where
      recorded : Records J c id e (claim J c id e now d fs).1
      recorded =
          yielded (Records J c id e) _ _
            ((claim-yields (Records J c id e) id e now (claim_in-Records id e now)).at d fs tt)
            first

      after : Slot
      after = run (claim J c id e now d fs).1 h

      kept : (d' : Slot) → Spent J c id e (end_time now h) d' → Spent J c id e later d'
      kept d' (inl r) = inl r
      kept d' (inr late) = inr (omega arith)
