-- ===== src/Io.antt =====
-- Effects on a disk that may fail at any operation, and a process that may die at any operation.
-- Each fallible operation of the program meets one fault of a schedule; a schedule that has run
-- out lets every operation work, so a theorem over all schedules is one over all failures and
-- all moments of a crash. That a completed operation reaches the medium is taken for granted
-- (the program calls `fsync` where it has to).
pub mod Laws
pub mod Handlers
use privacy_lodge.Prelude.{ℕ, zero, suc, Option, none, some, List, [], ◌∷◌, Result, ok, err}

-- `fails n`: the operation returns an error, a write having put down its first `n` items;
-- `crashes n`: the process dies there; a write has put down its first `n` items, and an atomic
-- operation has not happened if `n` is 0, and has happened otherwise.
pub data Fault : Type 0 where
  works : Fault
  fails : ℕ → Fault
  crashes : ℕ → Fault

pub data Reply (E A : Type 0) : Type 0 where
  done : A → Reply E A
  failed : E → Reply E A
  crashed : Reply E A

-- The state stays as the operations before the failure left it.
abbrev pub Io : Type 0 → Type 0 → Type 0 → Type 0
Io S E A = S → List Fault → Reply E A × S × List Fault

module _ {S E A : Type 0} where
  abbrev pub pure : A → Io S E A
  pure a s fs = (done a, s, fs)

  abbrev pub raise : E → Io S E A
  raise e s fs = (failed e, s, fs)

  -- `return` of a computed result
  abbrev pub lift : Result E A → Io S E A
  lift (ok a) s fs = (done a, s, fs)
  lift (err e) s fs = (failed e, s, fs)

  -- One system call: the error that the program makes of its failure, what it returns and does
  -- when it works, and what it leaves behind when it fails and when the process dies in it.
  abbrev pub syscall : E → (S → A) → (S → S) → (ℕ → S → S) → (ℕ → S → S) → Io S E A
  syscall e value after broken cut s [] = (done (value s), after s, [])
  syscall e value after broken cut s (works ∷ fs) = (done (value s), after s, fs)
  syscall e value after broken cut s (fails n ∷ fs) = (failed e, broken n s, fs)
  syscall e value after broken cut s (crashes n ∷ fs) = (crashed, cut n s, fs)

  -- A call that only reads.
  abbrev pub query : E → (S → A) → Io S E A
  query e value = syscall e value (λ s. s) (λ _ s. s) (λ _ s. s)

module _ {S E A B : Type 0} where
  abbrev pub resume : Reply E A → (A → Io S E B) → Io S E B
  resume (done a) k s fs = k a s fs
  resume (failed e) k s fs = (failed e, s, fs)
  resume crashed k s fs = (crashed, s, fs)

  infixl 5 ◌>>=◌ ◌>>◌
  abbrev pub ◌>>=◌ : Io S E A → (A → Io S E B) → Io S E B
  ◌>>=◌ m k s fs = let (r, s', fs') = m s fs in resume r k s' fs'

  abbrev pub ◌>>◌ : Io S E A → Io S E B → Io S E B
  ◌>>◌ m k = m >>= λ _. k

module _ {S : Type 0} where
  abbrev pub before_or_after : (S → S) → ℕ → S → S
  before_or_after after zero s = s
  before_or_after after (suc n) s = after s

module _ {S E : Type 0} where
  -- A call that happens whole or not at all.
  abbrev pub atomic : E → (S → S) → Io S E (Unit {0})
  atomic e after = syscall e (λ _. tt) after (λ _ s. s) (before_or_after after)

  -- A write: whatever stops it leaves the first items.
  abbrev pub write : E → (S → S) → (ℕ → S → S) → Io S E (Unit {0})
  write e after partly = syscall e (λ _. tt) after partly partly

module _ {S E A : Type 0} where
  abbrev pub forget : Reply E A → Io S E (Unit {0})
  forget (done a) s fs = (done tt, s, fs)
  forget (failed e) s fs = (done tt, s, fs)
  forget crashed s fs = (crashed, s, fs)

  -- `let _ = m;`: a failure is forgotten.
  abbrev pub best_effort : Io S E A → Io S E (Unit {0})
  best_effort m s fs = let (r, s', fs') = m s fs in forget r s' fs'

  abbrev pub clean : Reply E A → Io S E (Unit {0}) → Io S E A
  clean (done a) cleanup s fs = (done a, s, fs)
  clean (failed e) cleanup s fs = (cleanup >> raise e) s fs
  clean crashed cleanup s fs = (crashed, s, fs)

  -- `m.map_err(|e| { cleanup; e })`
  abbrev pub on_failure : Io S E A → Io S E (Unit {0}) → Io S E A
  on_failure m cleanup s fs = let (r, s', fs') = m s fs in clean r cleanup s' fs'

module _ {S T E A : Type 0} (get : S → T) (put : T → S → S) where
  -- An action on a part of the state.
  abbrev pub zoom : Io T E A → Io S E A
  zoom m s fs = let (r, t, fs') = m (get s) fs in (r, put t s, fs')

module _ {E A : Type 0} where
  abbrev pub or_value : A → Reply E A → Reply E A
  or_value a (failed e) = done a
  or_value a r = r

module _ {S E A : Type 0} where
  -- A question whose failure counts as the answer `a`: `path.exists()`
  abbrev pub probe : E → (S → A) → A → Io S E A
  probe e value a s fs = let (r, s', fs') = query e value s fs in (or_value a r, s', fs')

  abbrev pub catch_reply : Reply E A → (E → Io S E A) → Io S E A
  catch_reply (done a) h s fs = (done a, s, fs)
  catch_reply (failed e) h s fs = h e s fs
  catch_reply crashed h s fs = (crashed, s, fs)

  -- `if let Err(e) = m { return h(e) }`
  abbrev pub catch : Io S E A → (E → Io S E A) → Io S E A
  catch m h s fs = let (r, s', fs') = m s fs in catch_reply r h s' fs'

module _ {S E : Type 0} where
  abbrev pub attempt_to : E → Option S → Io S E (Unit {0})
  attempt_to e none = query e (λ _. tt) >> raise e
  attempt_to e (some t) = atomic e (λ _. t)

  -- A call that happens whole or not at all, and fails where the state does not allow it.
  abbrev pub attempt : E → (S → Option S) → Io S E (Unit {0})
  attempt e f s fs = attempt_to e (f s) s fs

module _ {S E : Type 0} where
  -- A change of what is in memory, which does not fail.
  abbrev pub assign : (S → S) → Io S E (Unit {0})
  assign f s fs = (done tt, f s, fs)

module _ {E D A : Type 0} where
  abbrev pub as_failure : (E → D) → Reply E A → Reply D A
  as_failure f (done a) = done a
  as_failure f (failed e) = failed (f e)
  as_failure f crashed = crashed

module _ {S E D A : Type 0} where
  -- `m.map_err(f)`
  abbrev pub map_failure : (E → D) → Io S E A → Io S D A
  map_failure f m s fs = let (r, s', fs') = m s fs in (as_failure f r, s', fs')
