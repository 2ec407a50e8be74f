-- ===== src/Io/Laws.antt =====
-- Rules for what holds after an action, under every schedule of faults.
use privacy_lodge.Prelude.{
  ℕ, zero, suc, ◌≡◌, refl, sym, subst, List, [], ◌∷◌, Result, ok, err, Bool, true, false,
  if◌then◌else◌,
}
use privacy_lodge.Io.{
  Fault, works, fails, crashes, Reply, done, failed, crashed, Io, pure, raise, lift, syscall,
  resume, ◌>>=◌, forget, best_effort, clean, on_failure, atomic, query, before_or_after, zoom,
}

-- What holds behind each way to end.
abbrev pub Post :
    {S E A : Type 0} → (A → S → Type 0) → (E → S → Type 0) → (S → Type 0) → Reply E A → S → Type 0
Post Q F C (done a) s = Q a s
Post Q F C (failed e) s = F e s
Post Q F C crashed s = C s

-- Started in `P`, the action returns in `Q`, fails in `F`, or leaves `C` where the process died.
pub record Spec {S E A : Type 0} (P : S → Type 0) (m : Io S E A) (Q : A → S → Type 0)
    (F : E → S → Type 0) (C : S → Type 0) : Type 0 where
  pub at : (s : S) (fs : List Fault) → P s → Post Q F C (m s fs).0 (m s fs).1

module _ {S E A : Type 0} (P : S → Type 0) (Q : A → S → Type 0) (F : E → S → Type 0)
    (C : S → Type 0) where
  syscall_at :
      (e : E) (value : S → A) (after : S → S) (broken cut : ℕ → S → S)
      → ((s : S) → P s → Q (value s) (after s))
      → ((n : ℕ) (s : S) → P s → F e (broken n s))
      → ((n : ℕ) (s : S) → P s → C (cut n s))
      → (s : S) (fs : List Fault) → P s
      → Post Q F C
          (syscall e value after broken cut s fs).0
          (syscall e value after broken cut s fs).1
  syscall_at e value after broken cut h k l s [] p = h s p
  syscall_at e value after broken cut h k l s (works ∷ fs) p = h s p
  syscall_at e value after broken cut h k l s (fails n ∷ fs) p = k n s p
  syscall_at e value after broken cut h k l s (crashes n ∷ fs) p = l n s p

module _ {S : Type 0} (P C : S → Type 0) where
  cut_at :
      (after : S → S)
      → ((s : S) → P s → C s)
      → ((s : S) → P s → C (after s))
      → (n : ℕ) (s : S) → P s
      → C (before_or_after after n s)
  cut_at after h k zero s p = h s p
  cut_at after h k (suc n) s p = k s p

module _ {S E A B : Type 0} (Q : A → S → Type 0) (R : B → S → Type 0) (F : E → S → Type 0)
    (C : S → Type 0) where
  resume_at :
      (k : A → Io S E B)
      → ((a : A) → Spec (Q a) (k a) R F C)
      → (r : Reply E A) (s : S) (fs : List Fault) → Post Q F C r s
      → Post R F C (resume r k s fs).0 (resume r k s fs).1
  resume_at k h (done a) s fs q = (h a).at s fs q
  resume_at k h (failed e) s fs q = q
  resume_at k h crashed s fs q = q

module _ {S E A : Type 0} {P : S → Type 0} {Q : A → S → Type 0} {F : E → S → Type 0}
    {C : S → Type 0} where
  pub Spec-pure : (a : A) → ((s : S) → P s → Q a s) → Spec P (pure a) Q F C
  Spec-pure a h = record { at = λ s fs p. h s p }

  pub Spec-raise : (e : E) → ((s : S) → P s → F e s) → Spec P (raise e) Q F C
  Spec-raise e h = record { at = λ s fs p. h s p }

  pub Spec-lift :
      (r : Result E A)
      → ((a : A) → r ≡ ok a → (s : S) → P s → Q a s)
      → ((e : E) → (s : S) → P s → F e s)
      → Spec P (lift r) Q F C
  Spec-lift (ok a) h k = record { at = λ s fs p. h a refl s p }
  Spec-lift (err e) h k = record { at = λ s fs p. k e s p }

  pub Spec-syscall :
      (e : E) (value : S → A) (after : S → S) (broken cut : ℕ → S → S)
      → ((s : S) → P s → Q (value s) (after s))
      → ((n : ℕ) (s : S) → P s → F e (broken n s))
      → ((n : ℕ) (s : S) → P s → C (cut n s))
      → Spec P (syscall e value after broken cut) Q F C
  Spec-syscall e value after broken cut h k l = record {
    at = syscall_at P Q F C e value after broken cut h k l;
  }

  pub Spec-query :
      (e : E) (value : S → A)
      → ((s : S) → P s → Q (value s) s)
      → ((s : S) → P s → F e s)
      → ((s : S) → P s → C s)
      → Spec P (query e value) Q F C
  Spec-query e value h k l =
      Spec-syscall e value (λ s. s) (λ _ s. s) (λ _ s. s) h (λ n s p. k s p) (λ n s p. l s p)

module _ {S E : Type 0} {P : S → Type 0} {Q : Unit {0} → S → Type 0} {F : E → S → Type 0}
    {C : S → Type 0} where
  pub Spec-atomic :
      (e : E) (after : S → S)
      → ((s : S) → P s → Q tt (after s))
      → ((s : S) → P s → F e s)
      → ((s : S) → P s → C s)
      → ((s : S) → P s → C (after s))
      → Spec P (atomic e after) Q F C
  Spec-atomic e after h k l m =
      Spec-syscall e (λ _. tt) after (λ _ s. s) (before_or_after after) h (λ n s p. k s p)
        (cut_at P C after l m)

module _ {S E A B : Type 0} {P : S → Type 0} {F : E → S → Type 0} {C : S → Type 0} where
  pub Spec-bind :
      {Q : A → S → Type 0} {R : B → S → Type 0} (m : Io S E A) (k : A → Io S E B)
      → Spec P m Q F C
      → ((a : A) → Spec (Q a) (k a) R F C)
      → Spec P (m >>= k) R F C
  Spec-bind {Q} {R} m k hm hk = record {
    at = λ s fs p. resume_at Q R F C k hk (m s fs).0 (m s fs).1 (m s fs).2 (hm.at s fs p);
  }

module _ {S E A B : Type 0} {P : S → Type 0} {R : B → S → Type 0} {F : E → S → Type 0}
    {C : S → Type 0} where
  -- The rest of the block may use that the computed result is no error.
  pub Spec-bind-lift :
      (r : Result E A) (k : A → Io S E B)
      → ((a : A) → r ≡ ok a → Spec P (k a) R F C)
      → ((e : E) → r ≡ err e → (s : S) → P s → F e s)
      → Spec P (lift r >>= k) R F C
  Spec-bind-lift (ok a) k h l = record { at = λ s fs p. (h a refl).at s fs p }
  Spec-bind-lift (err e) k h l = record { at = λ s fs p. l e refl s p }

  pub Spec-bind-query :
      (e : E) (value : S → A) (k : A → Io S E B)
      → ((s : S) → P s → Spec P (k (value s)) R F C)
      → ((s : S) → P s → F e s)
      → ((s : S) → P s → C s)
      → Spec P (query e value >>= k) R F C
  Spec-bind-query e value k h l m = record { at = query_at }
    where
      query_at :
          (s : S) (fs : List Fault)
          → P s
          → Post R F C ((query e value >>= k) s fs).0 ((query e value >>= k) s fs).1
      query_at s [] p = (h s p).at s [] p
      query_at s (works ∷ fs) p = (h s p).at s fs p
      query_at s (fails n ∷ fs) p = l s p
      query_at s (crashes n ∷ fs) p = m s p

module _ {S E A : Type 0} (Q : A → S → Type 0) (F G : E → S → Type 0) (C : S → Type 0) where
  forget_at :
      (R : Unit {0} → S → Type 0)
      → ((a : A) (s : S) → Q a s → R tt s)
      → ((e : E) (s : S) → F e s → R tt s)
      → (r : Reply E A) (s : S) (fs : List Fault) → Post Q F C r s
      → Post R G C (forget {E = E} r s fs).0 (forget {E = E} r s fs).1
  forget_at R h k (done a) s fs q = h a s q
  forget_at R h k (failed e) s fs q = k e s q
  forget_at R h k crashed s fs q = q

  clean_at :
      (cleanup : Io S E (Unit {0}))
      → ((e : E) → Spec (F e) cleanup (λ _. G e) G C)
      → (r : Reply E A) (s : S) (fs : List Fault) → Post Q F C r s
      → Post Q G C (clean r cleanup s fs).0 (clean r cleanup s fs).1
  clean_at cleanup h (done a) s fs q = q
  clean_at cleanup h (failed e) s fs q =
      (Spec-bind {Q = λ _. G e} cleanup (λ _. raise e) (h e) (λ _. Spec-raise e (λ s g. g))).at s fs
        q
  clean_at cleanup h crashed s fs q = q

module _ {S E A : Type 0} {P : S → Type 0} {Q : A → S → Type 0} {F G : E → S → Type 0}
    {C : S → Type 0} where
  pub Spec-best_effort :
      {R : Unit {0} → S → Type 0} (m : Io S E A)
      → Spec P m Q F C
      → ((a : A) (s : S) → Q a s → R tt s)
      → ((e : E) (s : S) → F e s → R tt s)
      → Spec P (best_effort m) R G C
  Spec-best_effort {R} m hm h k = record {
    at = λ s fs p. forget_at Q F G C R h k (m s fs).0 (m s fs).1 (m s fs).2 (hm.at s fs p);
  }

  pub Spec-on_failure :
      (m : Io S E A) (cleanup : Io S E (Unit {0}))
      → Spec P m Q F C
      → ((e : E) → Spec (F e) cleanup (λ _. G e) G C)
      → Spec P (on_failure m cleanup) Q G C
  Spec-on_failure m cleanup hm h = record {
    at = λ s fs p. clean_at Q F G C cleanup h (m s fs).0 (m s fs).1 (m s fs).2 (hm.at s fs p);
  }

module _ {S E A : Type 0} (Q Q' : A → S → Type 0) (F F' : E → S → Type 0) (C C' : S → Type 0) where
  weaken-Post :
      ((a : A) (s : S) → Q a s → Q' a s)
      → ((e : E) (s : S) → F e s → F' e s)
      → ((s : S) → C s → C' s)
      → (r : Reply E A) (s : S) → Post Q F C r s
      → Post Q' F' C' r s
  weaken-Post q f c (done a) s h = q a s h
  weaken-Post q f c (failed e) s h = f e s h
  weaken-Post q f c crashed s h = c s h

module _ {S E A : Type 0} {P P' : S → Type 0} {Q Q' : A → S → Type 0} {F F' : E → S → Type 0}
    {C C' : S → Type 0} where
  -- The rule of consequence.
  pub Spec-weaken :
      (m : Io S E A)
      → Spec P m Q F C
      → ((s : S) → P' s → P s)
      → ((a : A) (s : S) → Q a s → Q' a s)
      → ((e : E) (s : S) → F e s → F' e s)
      → ((s : S) → C s → C' s)
      → Spec P' m Q' F' C'
  Spec-weaken m h p q f c = record {
    at = λ s fs x. weaken-Post Q Q' F F' C C' q f c (m s fs).0 (m s fs).1 (h.at s fs (p s x));
  }

module _ {S E A B : Type 0} {P : S → Type 0} {Q : B → S → Type 0} {F : E → S → Type 0}
    {C : S → Type 0} where
  -- The value that the first part of a block returned is known.
  pub Spec-known :
      (k : A → Io S E B) (a b : A) → Spec P (k b) Q F C → Spec (λ s. (a ≡ b) × P s) (k a) Q F C
  Spec-known k a b h = record {
    at = λ s fs x. (subst (λ a. Spec P (k a) Q F C) (sym x.0) h).at s fs x.1;
  }

module _ {S E B : Type 0} {P : S → Type 0} {Q : B → S → Type 0} {F : E → S → Type 0}
    {C : S → Type 0} where
  pub Spec-if :
      (b : Bool) (m n : Io S E B)
      → (b ≡ true → Spec P m Q F C)
      → (b ≡ false → Spec P n Q F C)
      → Spec P (if b then m else n) Q F C
  Spec-if true m n h k = h refl
  Spec-if false m n h k = k refl

module _ {S E A : Type 0} (Q : A → S → Type 0) (F : E → S → Type 0) (C : S → Type 0) where
  always :
      ((a : A) (s : S) → Q a s)
      → ((e : E) (s : S) → F e s)
      → ((s : S) → C s)
      → (r : Reply E A) (s : S) → Post Q F C r s
  always q f c (done a) s = q a s
  always q f c (failed e) s = f e s
  always q f c crashed s = c s

module _ {S E A : Type 0} {P : S → Type 0} {Q : A → S → Type 0} {F : E → S → Type 0}
    {C : S → Type 0} where
  -- What holds at every end.
  pub Spec-always :
      (m : Io S E A)
      → ((a : A) (s : S) → Q a s)
      → ((e : E) (s : S) → F e s)
      → ((s : S) → C s)
      → Spec P m Q F C
  Spec-always m q f c = record { at = λ s fs p. always Q F C q f c (m s fs).0 (m s fs).1 }

module _ {S T E A : Type 0} (get : S → T) (put : T → S → S) (Q : A → T → Type 0)
    (F : E → T → Type 0) (C : T → Type 0) (R : S → Type 0) where
  zoom_at :
      ((t : T) (s : S) → get (put t s) ≡ t)
      → ((t : T) (s : S) → R s → R (put t s))
      → (r : Reply E A) (t : T) (s : S) → Post Q F C r t
      → R s
      → Post
          (λ a s. Q a (get s) × R s)
          (λ e s. F e (get s) × R s)
          (λ s. C (get s) × R s)
          r
          (put t s)
  zoom_at l f (done a) t s h k = (subst (Q a) (sym (l t s)) h, f t s k)
  zoom_at l f (failed e) t s h k = (subst (F e) (sym (l t s)) h, f t s k)
  zoom_at l f crashed t s h k = (subst C (sym (l t s)) h, f t s k)

module _ {S T E A : Type 0} {P : T → Type 0} {Q : A → T → Type 0} {F : E → T → Type 0}
    {C : T → Type 0} where
  -- What does not look at the part, `R`, stays.
  pub Spec-zoom :
      (R : S → Type 0) (get : S → T) (put : T → S → S) (m : Io T E A)
      → ((t : T) (s : S) → get (put t s) ≡ t)
      → ((t : T) (s : S) → R s → R (put t s))
      → Spec P m Q F C
      → Spec
          (λ s. P (get s) × R s)
          (zoom get put m)
          (λ a s. Q a (get s) × R s)
          (λ e s. F e (get s) × R s)
          (λ s. C (get s) × R s)
  Spec-zoom R get put m l f h = record {
    at = λ s fs p.
        zoom_at get put Q F C R l f (m (get s) fs).0 (m (get s) fs).1 s (h.at (get s) fs p.0) p.1;
  }
