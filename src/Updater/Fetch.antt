-- ===== src/Updater/Fetch.antt =====
-- `fetch_bounded` and `read_bounded`: responses, read up to a limit.
use privacy_lodge.Prelude.{
  ℕ, ◌+◌, ◌-◌, ◌≤◌, ◌≡◌, ◌↔◌, refl, Bool, true, false, not, Option, none, some, List, [], ◌∷◌, ◌++◌,
  append_assoc, append-nil, arith, ltb, leb, if◌then◌else◌, Result, ok, err, length, length-append,
}
use privacy_lodge.Updater.{Error, too_large, download_failed, bad_status, unreachable}

-- What `chunk` gives until it gives nothing.
pub data Part : Type 0 where
  chunk : List ℕ → Part
  broken : Part

pub record Response : Type 0 where
  pub is_success : Bool
  pub content_length : Option ℕ
  pub parts : List Part

unfoldable pub declared_too_large : ℕ → Option ℕ → Bool
declared_too_large max none = false
declared_too_large max (some size) = ltb max size

-- The loop, behind the bytes that it has.
unfoldable pub read_parts : ℕ → List ℕ → List Part → Result Error (List ℕ)
read_parts max bytes [] = ok bytes
read_parts max bytes (broken ∷ ps) = err download_failed
read_parts max bytes (chunk c ∷ ps) =
    let rest = read_parts max (bytes ++ c) ps in
    if ltb (max - length bytes) (length c) then err too_large else rest

unfoldable pub read_bounded : ℕ → Response → Result Error (List ℕ)
read_bounded max r =
    if declared_too_large max r.content_length then err too_large else read_parts max [] r.parts

-- A request that got no response is `none`.
unfoldable pub fetch_bounded : ℕ → Option Response → Result Error (List ℕ)
fetch_bounded max none = err unreachable
fetch_bounded max (some r) = if not r.is_success then err bad_status else read_bounded max r

abbrev pub prepend : List ℕ → Option (List ℕ) → Option (List ℕ)
prepend c none = none
prepend c (some bs) = some (c ++ bs)

-- All that was sent, if nothing broke.
unfoldable pub body : List Part → Option (List ℕ)
body [] = some []
body (broken ∷ ps) = none
body (chunk c ∷ ps) = prepend c (body ps)

abbrev within : ℕ → List ℕ → Option (List ℕ) → Option (List ℕ)
within max acc none = none
within max acc (some bs) = if leb (length acc + length bs) max then some (acc ++ bs) else none

abbrev ok? : Result Error (List ℕ) → Option (List ℕ)
ok? (ok bs) = some bs
ok? (err e) = none

within-prepend :
    (max : ℕ) (acc c : List ℕ) (o : Option (List ℕ))
    → within max (acc ++ c) o ≡ within max acc (prepend c o)
within-prepend max acc c none = refl
within-prepend max acc c (some bs) = rw (
  length-append acc c,
  length-append c bs,
  append_assoc acc c bs,
  assoc (length acc) (length c) (length bs),
)
  where
    assoc : (a b c : ℕ) → a + b + c ≡ a + (b + c)
    assoc a b c = omega arith

too_long :
    (max : ℕ) (acc : List ℕ) (c : List ℕ) (o : Option (List ℕ))
    → ltb (max - length acc) (length c) ≡ true
    → length acc ≤ max
    → within max acc (prepend c o) ≡ none
too_long max acc c none h k = refl
too_long max acc c (some bs) h k = ground (arith, length-append c bs)

read_parts_lem :
    (max : ℕ) (acc : List ℕ) (ps : List Part)
    → length acc ≤ max
    → ok? (read_parts max acc ps) ≡ within max acc (body ps)
unfolding read_parts body
read_parts_lem max acc [] h = ground (arith, append-nil acc)
read_parts_lem max acc (broken ∷ ps) h = refl
read_parts_lem max acc (chunk c ∷ ps) h = ground (
  arith,
  read_parts_lem max (acc ++ c) ps,
  length-append acc c,
  within-prepend max acc c (body ps),
  too_long max acc c (body ps),
)

-- A download returns bytes exactly if a response with a status of success came, whose declared
-- length, if any, is within the limit, and whose parts arrived whole, are these bytes, and are
-- within the limit.
pub fetch_bounded_exact :
    (max : ℕ) (r : Response) (bs : List ℕ)
    → (fetch_bounded max (some r) ≡ ok bs) ↔ (
        (r.is_success ≡ true)
        × (declared_too_large max r.content_length ≡ false)
        × (body r.parts ≡ some bs)
        × (length bs ≤ max))
unfolding fetch_bounded read_bounded
fetch_bounded_exact max r bs = ground (arith, read_parts_lem max [] r.parts)

pub fetch_bounded_le :
    (max : ℕ) (o : Option Response) (bs : List ℕ) → fetch_bounded max o ≡ ok bs → length bs ≤ max
unfolding fetch_bounded
fetch_bounded_le max none bs h = cc
fetch_bounded_le max (some r) bs h = ((fetch_bounded_exact max r bs).0 h).3
