-- ===== src/EnvCompat/Warnings.antt =====
-- The value that is read, and one warning for each name.
use privacy_lodge.Prelude.{
  ℕ, suc, ◌≤◌, ◌≡◌, ◌↔◌, refl, ap, sym, Bool, true, false, List, [], ◌∷◌, ◌++◌, any, if◌then◌else◌,
  Result, ok, err, arith, subst, Bool-cases, inl, inr,
}
use privacy_lodge.Text.{Str, str_eq}
use privacy_lodge.Text.Laws.{str_eq_iff}
use privacy_lodge.EnvCompat.{
  VarError, not_present, not_unicode, Env, State, quiet, choose, warn_once, var, old_prefix,
  new_prefix,
}

-- How often a name is in a list.
abbrev pub times : Str → List Str → ℕ
times n [] = 0
times n (m ∷ l) = if str_eq n m then suc (times n l) else times n l

-- Reads, each with the environment at its time.
abbrev pub reads : List (Env × Str) → State → State
reads [] s = s
reads ((env, suffix) ∷ l) s = reads l (var env suffix s).1

record Once (s : State) : Type 0 where
  same : s.printed ≡ s.warned
  once : (n : Str) → times n s.warned ≤ 1

absent_zero : (n : Str) (l : List Str) → any (str_eq n) l ≡ false → times n l ≡ 0
absent_zero n [] h = refl
absent_zero n (m ∷ l) h = ground (arith, absent_zero n l)

warned_once :
    (old n : Str) (l : List Str)
    → any (str_eq old) l ≡ false
    → times n l ≤ 1
    → times n (old ∷ l) ≤ 1
warned_once old n l h k = elim (Bool-cases (str_eq n old)) [
  | inl e ↦
      (let same = (str_eq_iff n old).0 e in
        rw e (omega (arith, absent_zero n l (subst (λ o. any (str_eq o) l ≡ false) (sym same) h))))
  | inr e ↦ rw e k
]

warned_both :
    (old : Str) (s : State) (b : Bool)
    → any (str_eq old) s.warned ≡ b
    → Once s
    → Once (warn_once old s)
unfolding warn_once
warned_both old s true h o = rw h o
warned_both old s false h o =
    rw h record { same = ap (◌∷◌ old) o.same; once = λ n. warned_once old n s.warned h (o.once n) }

choose-Once :
    (env : Env) (suffix : Str) (r q : Result VarError Str) (s : State)
    → env (old_prefix ++ suffix) ≡ q
    → Once s
    → Once (choose env suffix r s).1
choose-Once env suffix (ok v) q s h o = o
choose-Once env suffix (err not_unicode) q s h o = o
choose-Once env suffix (err not_present) (ok v) s h o =
    rw h
      (warned_both (old_prefix ++ suffix) s (any (str_eq (old_prefix ++ suffix)) s.warned) refl o)
choose-Once env suffix (err not_present) (err e) s h o = rw h o

var-Once : (env : Env) (suffix : Str) (s : State) → Once s → Once (var env suffix s).1
unfolding var
var-Once env suffix s o =
    choose-Once env suffix (env (new_prefix ++ suffix)) (env (old_prefix ++ suffix)) s refl o

reads-Once : (l : List (Env × Str)) (s : State) → Once s → Once (reads l s)
reads-Once [] s o = o
reads-Once ((env, suffix) ∷ l) s o = reads-Once l (var env suffix s).1 (var-Once env suffix s o)

quiet-Once : Once quiet
quiet-Once = record { same = refl; once = λ n. omega arith }

-- Over any reads, in environments that may change between them, no old name is printed twice.
pub reads_warn_once : (l : List (Env × Str)) (n : Str) → times n (reads l quiet).printed ≤ 1
reads_warn_once l n = let o = reads-Once l quiet quiet-Once in rw o.same (o.once n)

choose-absent :
    (env : Env) (suffix : Str) (r q : Result VarError Str) (s : State)
    → env (old_prefix ++ suffix) ≡ q
    → ((choose env suffix r s).0 ≡ err not_present)
      ↔ ((r ≡ err not_present) × (q ≡ err not_present))
choose-absent env suffix (ok v) q s h = (λ e. cc, λ e. cc)
choose-absent env suffix (err not_unicode) q s h = (λ e. cc, λ e. cc)
choose-absent env suffix (err not_present) (ok v) s h = rw h (λ e. cc, λ e. cc)
choose-absent env suffix (err not_present) (err e) s h = rw h (λ e. (refl, e), λ e. e.1)

-- A read fails as not present exactly if neither name is set.
pub var-not_present :
    (env : Env) (suffix : Str) (s : State)
    → ((var env suffix s).0 ≡ err not_present) ↔ (
        (env (new_prefix ++ suffix) ≡ err not_present)
        × (env (old_prefix ++ suffix) ≡ err not_present))
unfolding var
var-not_present env suffix s =
    choose-absent env suffix (env (new_prefix ++ suffix)) (env (old_prefix ++ suffix)) s refl
