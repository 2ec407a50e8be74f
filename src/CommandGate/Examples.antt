-- ===== src/CommandGate/Examples.antt =====
-- Tests and instances for the command gate, over commands of three members.
use privacy_lodge.Prelude.{
  ℕ, ◌+◌, ◌*◌, ◌<◌, ◌≡◌, ◌↔◌, refl, Bool, true, false, ◌&&◌, Option, none, some, [], map, arith,
  ◌==◌, if◌then◌else◌,
}
use privacy_lodge.Text.{Str, codes, str_eq}
use privacy_lodge.Text.Laws.{str_eq_iff}
use privacy_lodge.CommandJournal.{Json, Codec, Receipt, Stored, Entries, as_current}
use privacy_lodge.CommandGate.{validate_command, is_allowed, is_stale}
use privacy_lodge.CommandGate.Window.{validate_command_window}

-- An outcome has the action `phase` here.
record Command : Type 0 where
  id : Str
  action : Str
  expires : ℕ

abbrev same_command : Command → Command → Bool
same_command v w = str_eq v.id w.id && (str_eq v.action w.action && v.expires == w.expires)

same_command_iff : (v w : Command) → (same_command v w ≡ true) ↔ (v ≡ w)
same_command_iff v w = ground (arith, str_eq_iff v.id w.id, str_eq_iff v.action w.action)

abbrev text_of : Str → Command → Option Str
text_of k v =
    if str_eq k (codes "id")
    then some v.id
    else if str_eq k (codes "action")
    then some v.action
    else if str_eq k (codes "phase")
    then some v.action
    else none

abbrev json : Json
json = record {
  Value = Command;
  str_at = text_of;
  bool_at = λ k v. if str_eq k (codes "ok") then some false else none;
  u64_at = λ k v. if str_eq k (codes "expires_ts") then some v.expires else none;
  same = same_command;
  interrupted = λ id now. record { id = id; action = codes "interrupted"; expires = now };
  same_iff = same_command_iff;
  phase-interrupted = λ id now. refl;
  ok-interrupted = λ id now. refl;
}

abbrev no_text : Entries (Receipt Command) → Option Str
no_text m = none

abbrev no_entries : Str → Option (Entries (Stored Command))
no_entries s = none

mute_law :
    (m : Entries (Receipt Command)) (s : Str)
    → no_text m ≡ some s
    → no_entries s ≡ some (map as_current m)
mute_law m s h = cc

-- A codec that encodes nothing.
abbrev mute : Codec Command
mute = record { encode = no_text; decode = no_entries; decode-encode = mute_law }

abbrev restart : Command
restart = record { id = codes "r1"; action = codes "restart"; expires = 250000 }

runs_at_0 : validate_command json restart [] 0 ≡ some (codes "r1", codes "restart")
unfolding validate_command is_allowed is_stale
runs_at_0 = refl

runs_at_9 : validate_command json restart [] 9 ≡ some (codes "r1", codes "restart")
unfolding validate_command is_allowed is_stale
runs_at_9 = refl

late_refused : validate_command json restart [] 250000 ≡ none
unfolding validate_command is_allowed is_stale
late_refused = refl

validate_command_window_example : 9 < 0 + 5 * 60 * 1000
validate_command_window_example =
    validate_command_window json restart [] [] 0 9 (codes "r1") (codes "r1") (codes "restart")
      (codes "restart") (omega arith) (omega arith) runs_at_0 runs_at_9
