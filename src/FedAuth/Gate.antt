-- ===== src/FedAuth/Gate.antt =====
-- The gate as a whole: who is let through, and that everything else is refused.
use privacy_lodge.Prelude.{
  ℕ, ◌+◌, ◌≤◌, ◌≡◌, refl, true, ◌⊎◌, inl, inr, Option, none, some, List, [], ◌∷◌, ◌++◌, map, arith,
  any, Result, ok, err, length, length-append, ◌↔◌,
}
use privacy_lodge.Text.{Str, str_eq}
use privacy_lodge.Text.Laws.{str_eq_iff}
use privacy_lodge.Io.{Fault, done, crashed, Reply}
use privacy_lodge.Pairing.{Error, Pairing, Pairings}
use privacy_lodge.Pairing.Store.{Codec, Disk}
use privacy_lodge.Pairing.Store.Atomic.{paired, Reads}
use privacy_lodge.Pairing.Store.Readers.{addresses, onions-Reads, onions-faults}
use privacy_lodge.FedAuth.{
  Panic, decide_origin, answer_for, Recv, chunk, broken, ok_200, handle_conn, claimed_origin,
  read_request, max_header_bytes,
}

-- Chunks of at most 2048 bytes, the size of the buffer that is read into.
abbrev pub Fits : List Recv → Type 0
Fits [] = Unit {0}
Fits (chunk bs ∷ rest) = (length bs ≤ 2048) × Fits rest
Fits (broken ∷ rest) = Fits rest

-- However much the peer sends, the loop keeps no more than the limit and one chunk.
pub read_request-bounded :
    (recvs : List Recv) (buf out : List ℕ)
    → Fits recvs
    → length buf ≤ max_header_bytes
    → read_request buf recvs ≡ some out
    → length out ≤ max_header_bytes + 2048
unfolding read_request
read_request-bounded [] buf out fits room h = ground arith
read_request-bounded (broken ∷ rest) buf out fits room h = ground arith
read_request-bounded (chunk [] ∷ rest) buf out fits room h = ground arith
read_request-bounded (chunk (b ∷ bs) ∷ rest) buf out fits room h =
    ground (arith, length-append buf (b ∷ bs), read_request-bounded rest (buf ++ b ∷ bs) out fits.1)

listed :
    (o : Str) (xs : List Pairing)
    → any (str_eq o) (map (λ x. x.onion) xs) ≡ any (λ x. str_eq x.onion o) xs
listed o [] = refl
listed o (x ∷ xs) = ground (arith, listed o xs, str_eq_iff o x.onion, str_eq_iff x.onion o)

-- The answer for a claimed origin, by what the allowlist reads as.
answered :
    (o : Str) (p : Pairings) (r : Reply Error (List Str))
    → (r ≡ done (addresses p)) ⊎ ((r ≡ done []) ⊎ (r ≡ crashed))
    → answer_for o r ≡ ok_200
    → paired o p ≡ true
answered o p r (inl e) h = ground (arith, listed o p.peers, e)
answered o p r (inr (inl e)) h = ground (arith, e)
answered o p r (inr (inr e)) h = ground (arith, e)

module _ (c : Codec) (p : Pairings) (recvs : List Recv) (d : Disk) (stored : Reads c p d) where
  decided :
      (claim : Result Panic (Option Str)) (fs : List Fault)
      → decide_origin c claim d fs ≡ ok_200
      → (o : Str) × (claim ≡ ok (some o)) × (paired o p ≡ true)
  decided (err e) fs h = cc
  decided (ok none) fs h = cc
  decided (ok (some o)) fs h = (o, refl, answered o p _ (onions-faults c p d fs stored) h)

  -- Whatever goes wrong on the disk, the gate answers 200 only for a claimed origin that is on the
  -- allowlist.
  pub handle_conn_sound :
      (fs : List Fault)
      → handle_conn c recvs d fs ≡ ok_200
      → (o : Str) × (claimed_origin recvs ≡ ok (some o)) × (paired o p ≡ true)
  unfolding handle_conn
  handle_conn_sound fs h = decided (claimed_origin recvs) fs h

  -- With a disk that works, a request is let through exactly if it claims a paired origin.
  pub handle_conn_exact :
      (handle_conn c recvs d [] ≡ ok_200)
      ↔ ((o : Str) × (claimed_origin recvs ≡ ok (some o)) × (paired o p ≡ true))
  unfolding handle_conn
  handle_conn_exact = (
    handle_conn_sound [],
    λ (o, claimed, member). rw (claimed, onions-Reads c p d stored) (rw (listed o p.peers, member)),
  )
