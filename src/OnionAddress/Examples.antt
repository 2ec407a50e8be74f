-- ===== src/OnionAddress/Examples.antt =====
-- A test and an instance for the addresses, with a digest of 32 equal bytes.
use privacy_lodge.Prelude.{ℕ, zero, suc, ◌≡◌, refl, true, List, [], ◌∷◌, arith}
use privacy_lodge.Text.{codes}
use privacy_lodge.Pairing.{is_valid_onion}
use privacy_lodge.OnionAddress.{onion, encode_from, emit, letter}
use privacy_lodge.OnionAddress.Valid.{is_valid_onion-onion}

abbrev repeated : ℕ → List ℕ
repeated zero = []
repeated (suc n) = 7 ∷ repeated n

abbrev digest : List ℕ → List ℕ
digest _ = repeated 32

-- "hello" is nbswy3dp in base32.
spells : encode_from 0 0 (codes "hello") ≡ codes "nbswy3dp"
unfolding encode_from emit letter
spells = refl

is_valid_onion-onion_example : is_valid_onion (onion digest (repeated 32)) ≡ true
is_valid_onion-onion_example = is_valid_onion-onion digest (repeated 32) (λ bs. omega arith) refl
