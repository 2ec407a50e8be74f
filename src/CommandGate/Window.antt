-- ===== src/CommandGate/Window.antt =====
-- Commands run within five minutes, once, and only those of the allowlist; the journal takes them.
use privacy_lodge.Prelude.{
  ℕ, ◌+◌, ◌*◌, ◌^◌, ◌<◌, ◌≤◌, ◌≡◌, true, false, Option, none, some, List, ◌∷◌, any, length, leb,
  ltb, arith,
}
use privacy_lodge.Text.{Str, codes, str_eq, is_empty, len}
use privacy_lodge.CommandJournal.{
  Json, Codec, Entries, Receipt, contains_key, claim_in, save, fresh,
}
use privacy_lodge.Io.{◌>>=◌, pure}
use privacy_lodge.CommandGate.{
  is_allowed, is_stale, expires_of, validate_command, with_id, with_action,
}

not_ltb : (a b : ℕ) → a ≤ b → ltb b a ≡ false
not_ltb a b h = ground arith

not_leb : (a b : ℕ) → a < b → leb b a ≡ false
not_leb a b h = ground arith

not_full : (n : ℕ) → n < 10000 → leb 10000 n ≡ false
not_full n h = ground arith

module _ (J : Json) where
  open J use {Value, str_at}

  action_valid :
      (cmd : Value) (now : ℕ) (id id' action : Str) (o : Option Str)
      → with_action J cmd now id o ≡ some (id', action)
      → (id ≡ id') × (is_allowed action ≡ true) × (is_stale J (expires_of J cmd) now ≡ false)
  action_valid cmd now id id' action none h = cc
  action_valid cmd now id id' action (some a) h = ground (arith, h)

  id_valid :
      (cmd : Value) (handled : List Str) (now : ℕ) (id action : Str) (o : Option Str)
      → with_id J cmd handled now o ≡ some (id, action)
      → (o ≡ some id)
        × (is_empty id ≡ false)
        × (any (str_eq id) handled ≡ false)
        × (is_allowed action ≡ true)
        × (is_stale J (expires_of J cmd) now ≡ false)
  id_valid cmd handled now id action none h = cc
  id_valid cmd handled now id action (some k) h =
      ground (arith, h, action_valid cmd now k id action (str_at (codes "action") cmd))

  fresh_window :
      (expires now : ℕ)
      → now + 5 * 60 * 1000 < 2 ^ 64
      → is_stale J expires now ≡ false
      → (now < expires) × (expires ≤ now + 5 * 60 * 1000)
  unfolding is_stale
  fresh_window expires now b h = (ground arith, ground arith)

  -- A command that may run has the id that it carries, which was not handled, an action of the
  -- allowlist, and an expiry within the next five minutes, if the clock is that far from 2^64.
  pub validate_command_lem :
      (cmd : Value) (handled : List Str) (now : ℕ) (id action : Str)
      → now + 5 * 60 * 1000 < 2 ^ 64
      → validate_command J cmd handled now ≡ some (id, action)
      → (str_at (codes "id") cmd ≡ some id)
        × (any (str_eq id) handled ≡ false)
        × (is_allowed action ≡ true)
        × (now < expires_of J cmd)
        × (expires_of J cmd ≤ now + 5 * 60 * 1000)
  unfolding validate_command
  validate_command_lem cmd handled now id action b h =
      let v = id_valid cmd handled now id action (str_at (codes "id") cmd) h in
      let w = fresh_window (expires_of J cmd) now b v.4 in (v.0, v.2, v.3, w.0, w.1)

  -- Two moments at which the same command may run are less than five minutes apart, if the clock
  -- is that far from 2^64 at both, whatever was handled in between.
  pub validate_command_window :
      (cmd : Value) (handled handled' : List Str) (now now' : ℕ) (id id' action action' : Str)
      → now + 5 * 60 * 1000 < 2 ^ 64
      → now' + 5 * 60 * 1000 < 2 ^ 64
      → validate_command J cmd handled now ≡ some (id, action)
      → validate_command J cmd handled' now' ≡ some (id', action')
      → now' < now + 5 * 60 * 1000
  validate_command_window cmd handled handled' now now' id id' action action' b b' h h' = omega (
    arith,
    (validate_command_lem cmd handled now id action b h).4,
    (validate_command_lem cmd handled' now' id' action' b' h').3,
  )

  -- The journal turns down no command that may run, but for an id of more than 128 bytes, one that
  -- it has, or 10,000 receipts: it saves the receipt.
  pub claim_in-validate_command :
      (c : Codec Value) (cmd : Value) (handled : List Str) (now : ℕ) (id action : Str)
      (m : Entries (Receipt Value))
      → now + 5 * 60 * 1000 < 2 ^ 64
      → validate_command J cmd handled now ≡ some (id, action)
      → len id ≤ 128
      → contains_key id m ≡ false
      → length m < 10000
      → claim_in J c id (expires_of J cmd) now m
        ≡ (save J c ((id, fresh (expires_of J cmd)) ∷ m) >>= λ _. pure true)
  unfolding claim_in validate_command
  claim_in-validate_command c cmd handled now id action m b h l k n =
      let v = id_valid cmd handled now id action (str_at (codes "id") cmd) h in
      let w = fresh_window (expires_of J cmd) now b v.4 in
      rw (k, v.1, not_ltb (len id) 128 l, not_leb now (expires_of J cmd) w.0, not_full (length m) n)
