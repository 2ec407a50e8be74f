-- ===== src/CommandGate.antt =====
-- `validate_command` of src-tauri/src/supervisor.rs: which of the owner's commands may run. JSON is
-- the journal's parameter.
pub mod Window
mod Examples
use privacy_lodge.Prelude.{
  ℕ, ◌+◌, ◌*◌, ◌^◌, ◌%◌, Bool, true, false, not, ◌||◌, Option, none, some, List, [], ◌∷◌, any, leb,
  ltb, if◌then◌else◌,
}
use privacy_lodge.Text.{Str, codes, str_eq, is_empty}
use privacy_lodge.CommandJournal.{Json}

abbrev pub actions : List Str
actions =
    codes "restart"
    ∷ codes "reset"
    ∷ codes "backup"
    ∷ codes "update"
    ∷ codes "check_update"
    ∷ codes "agent_setup"
    ∷ codes "agent_remove"
    ∷ codes "agent_auth"
    ∷ codes "agent_session_new"
    ∷ codes "agent_session_delete"
    ∷ []

unfoldable pub is_allowed : Str → Bool
is_allowed action = any (str_eq action) actions

abbrev pub or_zero : Option ℕ → ℕ
or_zero none = 0
or_zero (some n) = n

module _ (J : Json) where
  open J use {Value, str_at, u64_at}

  abbrev pub expires_of : Value → ℕ
  expires_of cmd = or_zero (u64_at (codes "expires_ts") cmd)

  -- `expires <= now || expires > now + 5 * 60 * 1000` on `u64`
  unfoldable pub is_stale : ℕ → ℕ → Bool
  is_stale expires now = leb expires now || ltb ((now + 5 * 60 * 1000) % 2 ^ 64) expires

  abbrev pub with_action : Value → ℕ → Str → Option Str → Option (Str × Str)
  with_action cmd now id none = none
  with_action cmd now id (some action) =
      if not (is_allowed action)
      then none
      else if is_stale (expires_of cmd) now
      then none
      else some (id, action)

  abbrev pub with_id : Value → List Str → ℕ → Option Str → Option (Str × Str)
  with_id cmd handled now none = none
  with_id cmd handled now (some id) =
      if is_empty id || any (str_eq id) handled
      then none
      else with_action cmd now id (str_at (codes "action") cmd)

  -- The clock is an argument.
  unfoldable pub validate_command : Value → List Str → ℕ → Option (Str × Str)
  validate_command cmd handled now = with_id cmd handled now (str_at (codes "id") cmd)
