-- ===== src/FedAuth/Params.antt =====
-- `split_params`: what it splits and that it loses nothing.
use privacy_lodge.Prelude.{
  ℕ, ◌≡◌, refl, sym, ap, ◌∙◌, Bool, true, false, not, ◌&&◌, Option, none, some, List, [], ◌∷◌, ◌++◌,
  append-nil, append_assoc, arith, ◌==◌, if◌then◌else◌, inl, inr, All, Bool-cases,
}
use privacy_lodge.Text.{Str, trim, is_empty}
use privacy_lodge.FedAuth.{split_from, split_params, toggle}

-- Reading from inside or outside of quotes: the state at the end, unless a comma outside of quotes
-- is met.
abbrev pub scan : Bool → Str → Option Bool
scan q [] = some q
scan q (c ∷ s) = let on = scan (toggle c q) s in if c == b',' && not q then none else on

-- A text that is one parameter: each comma of it is quoted, and each quote closed.
abbrev pub IsParam : Str → Type 0
IsParam p = scan false p ≡ some false

-- Each part with the comma behind it.
abbrev pub with_commas : List Str → Str
with_commas [] = []
with_commas (p ∷ ps) = p ++ b',' ∷ with_commas ps

-- The two steps of the loop.
split_comma :
    (q : Bool) (cur : Str) (c : ℕ) (s : Str)
    → (c == b',' && not q) ≡ true
    → split_from q cur (c ∷ s) ≡ cur ∷ split_from false [] s
unfolding split_from
split_comma q cur c s h = rw h

split_other :
    (q : Bool) (cur : Str) (c : ℕ) (s : Str)
    → (c == b',' && not q) ≡ false
    → split_from q cur (c ∷ s) ≡ split_from (toggle c q) (cur ++ c ∷ []) s
unfolding split_from
split_other q cur c s h = rw h

split_from-append :
    (p : Str) (q q' : Bool) (cur s : Str)
    → scan q p ≡ some q'
    → split_from q cur (p ++ s) ≡ split_from q' (cur ++ p) s
split_from-append [] q q' cur s h = ground (arith, append-nil cur)
split_from-append (c ∷ p) q q' cur s h = elim (Bool-cases (c == b',' && not q)) [
  | inl comma ↦ ground arith
  | inr other ↦
      split_other q cur c (p ++ s) other
      ∙ split_from-append p (toggle c q) q' (cur ++ c ∷ []) s (ground arith)
      ∙ ap (λ t. split_from q' t s) (append_assoc cur (c ∷ []) p)
]

-- A parameter and the comma behind it are split off, whatever follows.
pub split_params-append :
    (p s : Str) → IsParam p → split_params (p ++ b',' ∷ s) ≡ p ∷ split_params s
unfolding split_params
split_params-append p s h =
    split_from-append p false false [] (b',' ∷ s) h ∙ split_comma false p b',' s refl

pub split_params-with_commas :
    (ps : List Str) (s : Str)
    → All IsParam ps
    → split_params (with_commas ps ++ s) ≡ ps ++ split_params s
split_params-with_commas [] s h = refl
split_params-with_commas (p ∷ ps) s h = rw (append_assoc p (b',' ∷ with_commas ps) s) (
    split_params-append p (with_commas ps ++ s) h.0
    ∙ ap (◌∷◌ p) (split_params-with_commas ps s h.1))

-- A last parameter has no comma behind it.
pub split_params-last :
    (p : Str) → IsParam p → is_empty (trim p) ≡ false → split_params (p ++ []) ≡ p ∷ []
unfolding split_params split_from
split_params-last p h filled = split_from-append p false false [] [] h ∙ rw filled

abbrev pub unless_blank : Str → List Str
unless_blank last = if not (is_empty (trim last)) then last ∷ [] else []

scan-snoc :
    (q q' : Bool) (p : Str) (c : ℕ)
    → scan q p ≡ some q'
    → (c == b',' && not q') ≡ false
    → scan q (p ++ c ∷ []) ≡ some (toggle c q')
scan-snoc q q' [] c h k = ground arith
scan-snoc q q' (d ∷ p) c h k = ground (arith, scan-snoc (toggle d q) q' p c)

abbrev Splits : Str → List Str → Type 0
Splits s parts =
    (front : List Str) × (last : Str) × (s ≡ with_commas front ++ last)
    × All IsParam front
    × ((q : Bool) × (scan false last ≡ some q))
    × (parts ≡ front ++ unless_blank last)

split_from-Splits :
    (s : Str) (q : Bool) (cur : Str)
    → scan false cur ≡ some q
    → Splits (cur ++ s) (split_from q cur s)
unfolding split_from
split_from-Splits [] q cur h = ([], cur, append-nil cur, tt, (q, h), refl)
split_from-Splits (c ∷ s) q cur h = elim (Bool-cases (c == b',' && not q)) [
  | inl comma ↦
      let (front, last, whole, params, open_end, parts) = split_from-Splits s false [] refl in
      let e : c ≡ b',' = ground arith in
      (
        cur ∷ front,
        last,
        rw (e, append_assoc cur (b',' ∷ with_commas front) last) (ap (λ t. cur ++ b',' ∷ t) whole),
        (ground arith, params),
        open_end,
        split_comma q cur c s comma ∙ ap (◌∷◌ cur) parts,
      )
  | inr other ↦
      let (front, last, whole, params, open_end, parts) =
        split_from-Splits s (toggle c q) (cur ++ c ∷ []) (scan-snoc false q cur c h other) in
      (
        front,
        last,
        sym (append_assoc cur (c ∷ []) s) ∙ whole,
        params,
        open_end,
        split_other q cur c s other ∙ parts,
      )
]

-- `split_params` cuts at each unquoted comma and nowhere else: no part has a comma outside of
-- quotes, the parts with their commas give the text back, and only a blank last part is left out.
pub split_params_lossless :
    (s : Str)
    → (front : List Str) × (last : Str) × (s ≡ with_commas front ++ last)
      × All IsParam front
      × ((q : Bool) × (scan false last ≡ some q))
      × (split_params s ≡ front ++ (if not (is_empty (trim last)) then last ∷ [] else []))
unfolding split_params
split_params_lossless s = split_from-Splits s false [] refl
