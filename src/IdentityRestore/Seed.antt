-- ===== src/IdentityRestore/Seed.antt =====
-- `initialize_pairings`: the pairings of a restored account are put onto the homeserver only where
-- it has none. What the two reads and the write are answered is an argument.
use privacy_lodge.Prelude.{
  ◌≡◌, refl, Bool, true, false, not, ◌&&◌, ◌||◌, Option, none, some, List, ◌==◌, if◌then◌else◌,
  Result, ok, err, is_ok, all, arith, Bool-cases,
}
use privacy_lodge.Text.{Str, codes}
use privacy_lodge.Pairing.{is_valid_onion}
use privacy_lodge.Http.{Answer, silent, answered, is_success}
use privacy_lodge.Json.{Json, array_at}

pub data SeedError : Type 0 where
  unreadable bad_json unresolved not_initialized : SeedError

-- What happened, and whether the pairings were sent.
pub record Seeded : Type 0 where
  pub outcome : Result SeedError (Unit {0})
  pub sent : Bool

module _ (J : Json) where
  open J use {Value, as_str}

  abbrev is_valid_text : Option Str → Bool
  is_valid_text none = false
  is_valid_text (some s) = is_valid_onion s

  abbrev are_onions : Option (List Value) → Bool
  are_onions none = false
  are_onions (some l) = all (λ v. is_valid_text (as_str v)) l

  abbrev pub is_record : Value → Bool
  is_record v = are_onions (array_at J (codes "onions") v)

  abbrev read_body : Option Value → Result SeedError Bool
  read_body none = err bad_json
  read_body (some v) = if not (is_record v) then err unresolved else ok true

  -- Whether there is a record, at one of the two addresses.
  unfoldable pub read_one : Answer Value → Result SeedError Bool
  read_one silent = err unreadable
  read_one (answered status body) =
      if status == 404
      then ok false
      else if not (is_success status)
      then err unreadable
      else read_body body

  abbrev written : Answer Value → Result SeedError (Unit {0})
  written silent = err not_initialized
  written (answered status body) = if not (is_success status) then err not_initialized else ok tt

  abbrev after_second : Answer Value → Result SeedError Bool → Seeded
  after_second put (err e) = record { outcome = err e; sent = false }
  after_second put (ok true) = record { outcome = ok tt; sent = false }
  after_second put (ok false) = record { outcome = written put; sent = true }

  abbrev after_first : Answer Value → Answer Value → Result SeedError Bool → Seeded
  after_first second put (err e) = record { outcome = err e; sent = false }
  after_first second put (ok true) = record { outcome = ok tt; sent = false }
  after_first second put (ok false) = after_second put (read_one second)

  unfoldable pub initialize_pairings : Answer Value → Answer Value → Answer Value → Seeded
  unfolding read_one
  initialize_pairings first second put = after_first second put (read_one first)

  abbrev pub is_absent : Answer Value → Bool
  is_absent silent = false
  is_absent (answered status body) = status == 404

  abbrev holds_record : Option Value → Bool
  holds_record none = false
  holds_record (some v) = is_record v

  abbrev pub has_record : Answer Value → Bool
  has_record silent = false
  has_record (answered status body) = is_success status && holds_record body

  abbrev pub accepts : Answer Value → Bool
  accepts silent = false
  accepts (answered status body) = is_success status

  abbrev found : Result SeedError Bool → Bool
  found (ok b) = b
  found (err e) = false

  abbrev absent : Result SeedError Bool → Bool
  absent (ok b) = not b
  absent (err e) = false

  found-read_one : (a : Answer Value) → found (read_one a) ≡ has_record a
  unfolding read_one
  found-read_one silent = refl
  found-read_one (answered status none) = ground arith
  found-read_one (answered status (some v)) = ground (arith, Bool-cases (is_record v))

  absent-read_one : (a : Answer Value) → absent (read_one a) ≡ is_absent a
  unfolding read_one
  absent-read_one silent = refl
  absent-read_one (answered status none) = ground arith
  absent-read_one (answered status (some v)) = ground (arith, Bool-cases (is_record v))

  is_ok-written : (put : Answer Value) → is_ok (written put) ≡ accepts put
  is_ok-written silent = refl
  is_ok-written (answered status body) = ground arith

  second_lem :
      (put : Answer Value) (r : Result SeedError Bool)
      → ((after_second put r).sent ≡ absent r)
        × (is_ok (after_second put r).outcome ≡ (found r || (absent r && accepts put)))
  second_lem put (err e) = (refl, refl)
  second_lem put (ok true) = (refl, refl)
  second_lem put (ok false) = (refl, is_ok-written put)

  first_lem :
      (second put : Answer Value) (r : Result SeedError Bool)
      → ((after_first second put r).sent ≡ (absent r && is_absent second))
        × (is_ok (after_first second put r).outcome
            ≡ (found r || (absent r && (has_record second || (is_absent second && accepts put)))))
  first_lem second put (err e) = (refl, refl)
  first_lem second put (ok true) = (refl, refl)
  first_lem second put (ok false) =
      rw (← found-read_one second, ← absent-read_one second) (second_lem put (read_one second))

  -- The pairings are sent exactly if both records, the current and the legacy one, are absent; and
  -- the call succeeds exactly if the first of the two that is not absent is a valid record, or the
  -- pairings were accepted.
  pub initialize_pairings_lem :
      (first second put : Answer Value)
      → ((initialize_pairings first second put).sent ≡ (is_absent first && is_absent second))
        × (is_ok (initialize_pairings first second put).outcome ≡ (
            has_record first
            || (is_absent first && (has_record second || (is_absent second && accepts put)))))
  unfolding initialize_pairings
  initialize_pairings_lem first second put =
      rw (← found-read_one first, ← absent-read_one first) (first_lem second put (read_one first))
