-- ===== src/Io/Handlers.antt =====
-- Rules for questions that may go wrong, calls that the state may refuse, and handled errors.
use privacy_lodge.Prelude.{
  zero, suc, ◌≡◌, refl, subst, Option, none, some, List, [], ◌∷◌, ◌⊎◌, inl, inr,
}
use privacy_lodge.Io.{
  assign, as_failure, map_failure, Fault, works, fails, crashes, Reply, done, failed, crashed, Io,
  probe, catch, catch_reply, attempt, attempt_to,
}
use privacy_lodge.Io.Laws.{Post, Spec, Spec-bind, Spec-query, Spec-raise}

-- What holds before holds at every end.
abbrev pub Keeps : {S E A : Type 0} → (S → Type 0) → Io S E A → Type 0
Keeps I m = Spec I m (λ _. I) (λ _. I) I

module _ {S E A : Type 0} {P : S → Type 0} {Q : A → S → Type 0} {F : E → S → Type 0}
    {C : S → Type 0} where
  pub Spec-probe :
      (e : E) (value : S → A) (a : A)
      → ((s : S) → P s → Q (value s) s)
      → ((s : S) → P s → Q a s)
      → ((s : S) → P s → C s)
      → Spec P (probe e value a) Q F C
  Spec-probe e value a h k l = record { at = probe_at }
    where
      probe_at :
          (s : S) (fs : List Fault)
          → P s
          → Post Q F C (probe e value a s fs).0 (probe e value a s fs).1
      probe_at s [] p = h s p
      probe_at s (works ∷ fs) p = h s p
      probe_at s (fails n ∷ fs) p = k s p
      probe_at s (crashes n ∷ fs) p = l s p

module _ {S E A : Type 0} (P : S → Type 0) (Q : A → S → Type 0) (F G : E → S → Type 0)
    (C : S → Type 0) where
  catch_at :
      (h : E → Io S E A)
      → ((e : E) → Spec (G e) (h e) Q F C)
      → (r : Reply E A) (s : S) (fs : List Fault) → Post Q G C r s
      → Post Q F C (catch_reply r h s fs).0 (catch_reply r h s fs).1
  catch_at h k (done a) s fs q = q
  catch_at h k (failed e) s fs q = (k e).at s fs q
  catch_at h k crashed s fs q = q

module _ {S E A : Type 0} {P : S → Type 0} {Q : A → S → Type 0} {F : E → S → Type 0}
    {C : S → Type 0} where
  pub Spec-catch :
      {G : E → S → Type 0} (m : Io S E A) (h : E → Io S E A)
      → Spec P m Q G C
      → ((e : E) → Spec (G e) (h e) Q F C)
      → Spec P (catch m h) Q F C
  Spec-catch {G} m h hm hh = record {
    at = λ s fs p. catch_at P Q F G C h hh (m s fs).0 (m s fs).1 (m s fs).2 (hm.at s fs p);
  }

module _ {S E : Type 0} (P : S → Type 0) (Q : Unit {0} → S → Type 0) (F : E → S → Type 0)
    (C : S → Type 0) where
  attempt_at :
      (e : E) (f : S → Option S)
      → ((s t : S) → f s ≡ some t → P s → Q tt t × C t)
      → ((s : S) → P s → F e s)
      → ((s : S) → P s → C s)
      → (o : Option S) (s : S) (fs : List Fault) → f s ≡ o
      → P s
      → Post Q F C (attempt_to e o s fs).0 (attempt_to e o s fs).1
  attempt_at e f h k l none s fs q p =
      (Spec-bind {P = P} {Q = λ _. P} _ _
          (Spec-query e (λ _. tt) (λ s p. p) (λ s p. k s p) (λ s p. l s p))
          (λ _. Spec-raise e (λ s p. k s p))).at
        s fs p
  attempt_at e f h k l (some t) s [] q p = (h s t q p).0
  attempt_at e f h k l (some t) s (works ∷ fs) q p = (h s t q p).0
  attempt_at e f h k l (some t) s (fails n ∷ fs) q p = k s p
  attempt_at e f h k l (some t) s (crashes zero ∷ fs) q p = l s p
  attempt_at e f h k l (some t) s (crashes (suc n) ∷ fs) q p = (h s t q p).1

module _ {S E : Type 0} {P : S → Type 0} {Q : Unit {0} → S → Type 0} {F : E → S → Type 0}
    {C : S → Type 0} where
  pub Spec-attempt :
      (e : E) (f : S → Option S)
      → ((s t : S) → f s ≡ some t → P s → Q tt t × C t)
      → ((s : S) → P s → F e s)
      → ((s : S) → P s → C s)
      → Spec P (attempt e f) Q F C
  Spec-attempt e f h k l = record { at = λ s fs p. attempt_at P Q F C e f h k l (f s) s fs refl p }

module _ {S E A : Type 0} {P R : S → Type 0} {m : Io S E A} {Q : A → S → Type 0}
    {F : E → S → Type 0} {C : S → Type 0} where
  either_at :
      Spec P m Q F C
      → Spec R m Q F C
      → (s : S) (fs : List Fault) → P s ⊎ R s
      → Post Q F C (m s fs).0 (m s fs).1
  either_at h k s fs (inl p) = h.at s fs p
  either_at h k s fs (inr r) = k.at s fs r

  -- One of two things holds before.
  pub Spec-or : Spec P m Q F C → Spec R m Q F C → Spec (λ s. P s ⊎ R s) m Q F C
  Spec-or h k = record { at = either_at h k }

module _ {S E A X : Type 0} {P : X → S → Type 0} {m : Io S E A} {Q : A → S → Type 0}
    {F : E → S → Type 0} {C : S → Type 0} where
  -- Something holds before of a value that is not named.
  pub Spec-exists : ((x : X) → Spec (P x) m Q F C) → Spec (λ s. (x : X) × P x s) m Q F C
  Spec-exists h = record { at = λ s fs p. (h p.0).at s fs p.1 }

module _ {S E A : Type 0} (P : S → Type 0) where
  -- What holds at every end holds at this one.
  pub everywhere :
      (Q : A → S → Type 0) (F : E → S → Type 0) (C : S → Type 0)
      → ((a : A) (s : S) → Q a s → P s)
      → ((e : E) (s : S) → F e s → P s)
      → ((s : S) → C s → P s)
      → (r : Reply E A) (s : S) → Post Q F C r s
      → P s
  everywhere Q F C q f k (done a) s h = q a s h
  everywhere Q F C q f k (failed e) s h = f e s h
  everywhere Q F C q f k crashed s h = k s h

-- What holds where the action returned.
pub returned :
    {S E A : Type 0} (Q : A → S → Type 0) (F : E → S → Type 0) (C : S → Type 0) (r : Reply E A)
    (a : A) (s : S)
    → r ≡ done a
    → Post Q F C r s
    → Q a s
returned Q F C r a s e h = subst (λ r. Post Q F C r s) e h

module _ {S E : Type 0} {P : S → Type 0} {Q : Unit {0} → S → Type 0} {F : E → S → Type 0}
    {C : S → Type 0} where
  pub Spec-assign : (f : S → S) → ((s : S) → P s → Q tt (f s)) → Spec P (assign f) Q F C
  Spec-assign f h = record { at = λ s fs p. h s p }

module _ {S E D A : Type 0} (Q : A → S → Type 0) (F : S → Type 0) (C : S → Type 0) where
  as_failure_at :
      (f : E → D) (r : Reply E A) (s : S)
      → Post Q (λ _. F) C r s
      → Post Q (λ _. F) C (as_failure f r) s
  as_failure_at f (done a) s q = q
  as_failure_at f (failed e) s q = q
  as_failure_at f crashed s q = q

module _ {S E D A : Type 0} {P : S → Type 0} {Q : A → S → Type 0} {F : S → Type 0}
    {C : S → Type 0} where
  pub Spec-map_failure :
      (f : E → D) (m : Io S E A) → Spec P m Q (λ _. F) C → Spec P (map_failure f m) Q (λ _. F) C
  Spec-map_failure f m h = record {
    at = λ s fs p. as_failure_at Q F C f (m s fs).0 (m s fs).1 (h.at s fs p);
  }
