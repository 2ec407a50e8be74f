-- ===== src/CommandJournal/Examples.antt =====
-- Tests and instances for the command journal, over a small type of outcomes and a codec for
-- journals of one receipt, without an outcome or interrupted and still to publish.
use mathlib.Core.Option.{some-injective}
use privacy_lodge.Prelude.{
  ℕ, ◌+◌, ◌<◌, ◌≡◌, ◌↔◌, refl, Bool, true, false, ◌&&◌, not, Option, none, some, [], ◌∷◌, map,
  arith, ◌==◌, if◌then◌else◌, ok, All, Bool-cases, inl, inr, sym, ap, ◌∙◌,
}
use privacy_lodge.Text.{Str, codes, str_eq}
use privacy_lodge.Text.Laws.{str_eq_iff}
use privacy_lodge.Io.{crashes, done}
use privacy_lodge.PrivateFile.{Slot, write_private}
use privacy_lodge.CommandJournal.{
  Json, Receipt, Stored, Entries, Codec, as_current, claim, claim_in, load, save, receipts,
  retained, retain_ms, handled, handled_in, pending, done_ts, migrate, contains_key, is_open,
  interrupt, is_retained, get,
}
use privacy_lodge.CommandJournal.Once.{handles, asks_pending, History, run, claim_once, perform}
use privacy_lodge.CommandJournal.Outcomes.{handled_closes, IsClosed, AreRestarted}
use privacy_lodge.CommandJournal.Pending.{pending_lem, IsSorted, Unique, due}

record Outcome : Type 0 where
  id : Str
  okay : Bool
  phase : Str
  stamp : ℕ

abbrev bool_eq : Bool → Bool → Bool
bool_eq true b = b
bool_eq false b = not b

abbrev same_outcome : Outcome → Outcome → Bool
same_outcome v w =
    str_eq v.id w.id && (bool_eq v.okay w.okay && (str_eq v.phase w.phase && v.stamp == w.stamp))

same_outcome_iff : (v w : Outcome) → (same_outcome v w ≡ true) ↔ (v ≡ w)
same_outcome_iff v w = ground (arith, str_eq_iff v.id w.id, str_eq_iff v.phase w.phase)

abbrev outcome_text : Str → Outcome → Option Str
outcome_text k v =
    if str_eq k (codes "phase")
    then some v.phase
    else if str_eq k (codes "id")
    then some v.id
    else none

abbrev interrupted_at : Str → ℕ → Outcome
interrupted_at id now = record { id = id; okay = false; phase = codes "interrupted"; stamp = now }

abbrev json : Json
json = record {
  Value = Outcome;
  str_at = outcome_text;
  bool_at = λ k v. if str_eq k (codes "ok") then some v.okay else none;
  u64_at = λ k v. some v.stamp;
  same = same_outcome;
  interrupted = interrupted_at;
  same_iff = same_outcome_iff;
  phase-interrupted = λ id now. refl;
  ok-interrupted = λ id now. refl;
}

abbrev print_outcome : ℕ → Str → Option Outcome → Option Str
print_outcome expires id none = some (0 ∷ expires ∷ id)
print_outcome expires id (some v) =
    if same_outcome v (interrupted_at id v.stamp) then some (1 ∷ expires ∷ v.stamp ∷ id) else none

abbrev print_one : Entries (Receipt Outcome) → Option Str
print_one [] = none
print_one ((id, r) ∷ []) = if r.published then none else print_outcome r.expires id r.outcome
print_one (x ∷ y ∷ m) = none

abbrev one_receipt : Str → ℕ → Option Outcome → Entries (Stored Outcome)
one_receipt id e o = as_current (id, record { expires = e; outcome = o; published = false }) ∷ []

abbrev parse_closed : ℕ → Str → Option (Entries (Stored Outcome))
parse_closed e [] = none
parse_closed e (t ∷ id) = some (one_receipt id e (some (interrupted_at id t)))

abbrev parse_one : Str → Option (Entries (Stored Outcome))
parse_one [] = none
parse_one (k ∷ []) = none
parse_one (k ∷ e ∷ rest) = if k == 0 then some (one_receipt rest e none) else parse_closed e rest

parse_one-print_outcome :
    (expires : ℕ) (id : Str) (o : Option Outcome) (s : Str)
    → print_outcome expires id o ≡ some s
    → parse_one s ≡ some (one_receipt id expires o)
parse_one-print_outcome expires id none s h = rw (sym (some-injective _ _ h))
parse_one-print_outcome expires id (some v) s h =
    elim (Bool-cases (same_outcome v (interrupted_at id v.stamp))) [
      | inl same ↦
          let printed = rw same at h in
          rw (sym (some-injective _ _ printed)) (
            ap (λ w. some (one_receipt id expires (some w)))
              (sym ((same_outcome_iff v (interrupted_at id v.stamp)).0 same)))
      | inr other ↦ absurd (ground (arith, rw other at h))
    ]

one_law :
    (m : Entries (Receipt Outcome)) (s : Str)
    → print_one m ≡ some s
    → parse_one s ≡ some (map as_current m)
one_law [] s h = cc
one_law ((id, r) ∷ []) s h = elim (Bool-cases r.published) [
  | inl acked ↦ absurd (ground (arith, rw acked at h))
  | inr open_still ↦
      parse_one-print_outcome r.expires id r.outcome s (rw open_still at h)
      ∙ ap
          (λ b. some (
            as_current (id, record { expires = r.expires; outcome = r.outcome; published = b })
            ∷ []))
          (sym open_still)
]
one_law (x ∷ y ∷ m) s h = cc

abbrev one : Codec Outcome
one = record { encode = print_one; decode = parse_one; decode-encode = one_law }

abbrev nothing : Slot
nothing = record { file = none; tmp = none }

abbrev reset_id : Str
reset_id = codes "reset-1"

claims_first : (claim json one reset_id 200 100 nothing []).0 ≡ done true
unfolding claim load claim_in save receipts write_private contains_key retained
claims_first = refl

-- A restart, and a look at what is pending that the process does not survive.
abbrev between : History Outcome
between = (150, handles, []) ∷ (160, asks_pending, crashes 0 ∷ []) ∷ []

claims_again :
    (claim json one reset_id 90000000 86400201
      (run json one (claim json one reset_id 200 100 nothing []).1 between)
      []).0
    ≡ done true
unfolding run perform claim load claim_in save receipts write_private contains_key retained handled
    pending migrate handled_in interrupt is_open
claims_again = refl

claim_once_example : (200 + retain_ms < 86400201) × (86400201 < 90000000)
claim_once_example =
    claim_once json one reset_id 200 100 nothing [] claims_first between (omega arith) 86400201
      90000000 [] (omega arith) (omega arith) claims_again

abbrev claimed : Slot
claimed = record { file = some (0 ∷ 200 ∷ reset_id); tmp = none }

-- A restart on the claimed command, with nothing else known of it.
closes_claimed : (handled json one 150 claimed []).0 ≡ done (reset_id ∷ [])
unfolding handled handled_in load save receipts write_private retained is_retained migrate interrupt
    is_open
closes_claimed = refl

handled_closes_example :
    (old m : Entries (Receipt Outcome)) × (receipts json one claimed.file ≡ ok old)
    × (receipts json one (handled json one 150 claimed []).1.file ≡ ok m)
    × (reset_id ∷ [] ≡ map (λ x. x.0) m)
    × All (λ x. IsClosed json one x.1) m
    × AreRestarted json one 150 (retained 150 old) m
handled_closes_example = handled_closes json one 150 claimed [] (reset_id ∷ []) closes_claimed

-- The journal after that restart: the command is interrupted, which is still to publish.
abbrev closed : Slot
closed = record { file = some (1 ∷ 200 ∷ 150 ∷ reset_id); tmp = none }

abbrev closed_entries : Entries (Receipt Outcome)
closed_entries =
    (
      reset_id,
      record { expires = 200; outcome = some (interrupted_at reset_id 150); published = false },
    )
    ∷ []

closed_receipts : receipts json one closed.file ≡ ok closed_entries
unfolding receipts migrate
closed_receipts = refl

closed-Unique : Unique closed_entries
unfolding contains_key
closed-Unique = (refl, tt)

pending_lem_example :
    (l : Entries Outcome) × ((pending json one 160 closed []).0 ≡ done l)
    × ((id : Str) → get id l ≡ due json one 160 (get id closed_entries))
    × Unique l
    × IsSorted (λ o. done_ts json one o.1) l
pending_lem_example = pending_lem json one 160 closed closed_entries closed_receipts closed-Unique
