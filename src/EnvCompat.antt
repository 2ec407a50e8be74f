-- ===== src/EnvCompat.antt =====
-- src-tauri/src/envcompat.rs: a variable is read under its new name, or else under its old one
-- with a warning. The environment is an argument; the set of names warned of and what is printed
-- are the state.
pub mod Warnings
mod Examples
use privacy_lodge.Prelude.{
  ℕ, suc, Bool, true, false, Option, none, some, List, [], ◌∷◌, ◌++◌, any, if◌then◌else◌, Result,
  ok, err,
}
use privacy_lodge.Text.{Str, codes, str_eq}

abbrev pub old_prefix : Str
old_prefix = codes "PUREPRIVACY_"

abbrev pub new_prefix : Str
new_prefix = codes "PRIVACY_LODGE_"

pub data VarError : Type 0 where
  not_present not_unicode : VarError

-- `std::env::var`
abbrev pub Env : Type 0
Env = Str → Result VarError Str

-- `printed` has the old name of each warning, the last one first.
pub record State : Type 0 where
  pub warned : List Str
  pub printed : List Str

abbrev pub quiet : State
quiet = record { warned = []; printed = [] }

unfoldable pub warn_once : Str → State → State
warn_once old s =
    if any (str_eq old) s.warned
    then s
    else record { warned = old ∷ s.warned; printed = old ∷ s.printed }

abbrev fallback : Str → Result VarError Str → State → Result VarError Str × State
fallback old (err e) s = (err e, s)
fallback old (ok v) s = (ok v, warn_once old s)

abbrev pub choose : Env → Str → Result VarError Str → State → Result VarError Str × State
choose env suffix (ok v) s = (ok v, s)
choose env suffix (err not_unicode) s = (err not_unicode, s)
choose env suffix (err not_present) s =
    fallback (old_prefix ++ suffix) (env (old_prefix ++ suffix)) s

unfoldable pub var : Env → Str → State → Result VarError Str × State
unfolding warn_once
var env suffix s = choose env suffix (env (new_prefix ++ suffix)) s
