-- ===== src/Pairing/Store/Readers.antt =====
-- `load` and `onions`: what readers of the allowlist get.
use privacy_lodge.Prelude.{◌≡◌, refl, ◌⊎◌, inl, inr, List, [], ◌∷◌, map, err}
use privacy_lodge.Text.{Str}
use privacy_lodge.Io.{Fault, works, fails, crashes, done, crashed}
use privacy_lodge.Pairing.{Pairings, corrupt}
use privacy_lodge.Pairing.Store.{Codec, Disk, contents, default, load, load_strict, onions}
use privacy_lodge.Pairing.Store.Atomic.{Reads}

abbrev pub addresses : Pairings → List Str
addresses p = map (λ x. x.onion) p.peers

module _ (c : Codec) where
  -- Every address of the file, in its order.
  pub onions-Reads :
      (p : Pairings) (d : Disk) → Reads c p d → (onions c d []).0 ≡ done (addresses p)
  unfolding onions load load_strict
  onions-Reads p d h = rw h

  -- An error leaves readers with no address, never with one that is not in the file.
  pub onions-faults :
      (p : Pairings) (d : Disk) (fs : List Fault)
      → Reads c p d
      → ((onions c d fs).0 ≡ done (addresses p))
        ⊎ (((onions c d fs).0 ≡ done []) ⊎ ((onions c d fs).0 ≡ crashed))
  unfolding onions load load_strict
  onions-faults p d [] h = inl (rw h)
  onions-faults p d (works ∷ fs) h = inl (rw h)
  onions-faults p d (fails n ∷ fs) h = inr (inl refl)
  onions-faults p d (crashes n ∷ fs) h = inr (inr refl)

  -- A file that is there and does not parse reads as the empty allowlist too.
  pub load-corrupt : (d : Disk) → contents c d.json ≡ err corrupt → (load c d []).0 ≡ done default
  unfolding load load_strict
  load-corrupt d h = rw h
