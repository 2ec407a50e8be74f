-- ===== src/IdentityRestore/Peers.antt =====
-- The set of peers that a backup restores.
use privacy_lodge.Prelude.{
  ◌≡◌, refl, sym, ap, subst, Bool, true, false, not, ◌&&◌, ◌||◌, Option, none, some, List, [], ◌∷◌,
  arith, if◌then◌else◌, ok, ok_or, all, any, bind_ok, ok_or-some, Bool-cases, inl, inr,
}
use privacy_lodge.Text.{Str, codes, str_eq}
use privacy_lodge.Text.Laws.{str_eq_sound}
use privacy_lodge.Pairing.{is_valid_onion}
use privacy_lodge.Json.{Json, array_at}
use privacy_lodge.IdentityRestore.{insert, unique_peers, peers_of, peer_of, no_pairings}

any-insert :
    (x y : Str) (s : List Str) → any (str_eq x) (insert y s) ≡ (str_eq x y || any (str_eq x) s)
unfolding insert
any-insert x y [] = refl
any-insert x y (z ∷ s) = elim (Bool-cases (str_eq y z)) [
  | inl e ↦
      (let same = str_eq_sound y z e in
        ground (arith, e, subst (λ u. str_eq x z ≡ str_eq x u) (sym same) refl))
  | inr e ↦ ground (arith, e, any-insert x y s)
]

all-insert :
    (p : Str → Bool) (y : Str) (s : List Str)
    → p y ≡ true
    → all p s ≡ true
    → all p (insert y s) ≡ true
unfolding insert
all-insert p y [] h k = ground (arith, h)
all-insert p y (z ∷ s) h k = ground (arith, h, k, all-insert p y s h)

same_left : (a b x : Str) → str_eq a b ≡ true → str_eq x a ≡ str_eq x b
same_left a b x h = ap (str_eq x) (str_eq_sound a b h)

apart : (a b x : Str) → str_eq a b ≡ false → str_eq x a ≡ true → str_eq x b ≡ false
apart a b x h k = subst (λ y. str_eq y b ≡ false) (sym (str_eq_sound x a k)) h

kept :
    (out set rest here host : Bool)
    → out ≡ ((here || set) || (rest && not host))
    → (here ≡ true → host ≡ false)
    → out ≡ (set || ((here || rest) && not host))
kept out set rest here host h k = ground (arith, h, k)

module _ (J : Json) where
  open J use {Value, as_str}

  abbrev is_text : Str → Option Str → Bool
  is_text x none = false
  is_text x (some s) = str_eq x s

  -- The address is among the values.
  abbrev pub lists : Str → List Value → Bool
  lists x vs = any (λ v. is_text x (as_str v)) vs

  peer_ok :
      (o : Option Str) (peer : Str)
      → peer_of J o ≡ ok peer
      → (o ≡ some peer) × (is_valid_onion peer ≡ true)
  peer_ok none peer h = cc
  peer_ok (some s) peer h = ground (arith, h)

  unique_peers_members :
      (hostname : Str) (set : List Str) (vs : List Value) (out : List Str) (x : Str)
      → unique_peers J hostname set vs ≡ ok out
      → any (str_eq x) out ≡ (any (str_eq x) set || (lists x vs && not (str_eq x hostname)))
  unfolding unique_peers
  unique_peers_members hostname set [] out x h = ground (arith, h)
  unique_peers_members hostname set (v ∷ vs) out x h =
      let step = bind_ok (peer_of J (as_str v)) _ h in
      let peer = step.0 in
      let read = peer_ok (as_str v) peer step.1 in
      let later =
        unique_peers_members hostname (if str_eq peer hostname then set else insert peer set) vs out
          x step.2 in
      elim (Bool-cases (str_eq peer hostname)) [
        | inl e ↦ ground (arith, e, later, read.0, same_left peer hostname x e)
        | inr e ↦ rw read.0 (
            kept (any (str_eq x) out) (any (str_eq x) set) (lists x vs) (str_eq x peer)
              (str_eq x hostname) (ground (arith, e, later, any-insert x peer set))
              (apart peer hostname x e))
      ]

  unique_peers_valid :
      (hostname : Str) (set : List Str) (vs : List Value) (out : List Str)
      → all is_valid_onion set ≡ true
      → unique_peers J hostname set vs ≡ ok out
      → all is_valid_onion out ≡ true
  unfolding unique_peers
  unique_peers_valid hostname set [] out a h = ground (arith, a, h)
  unique_peers_valid hostname set (v ∷ vs) out a h =
      let step = bind_ok (peer_of J (as_str v)) _ h in
      let read = peer_ok (as_str v) step.0 step.1 in
      unique_peers_valid hostname (if str_eq step.0 hostname then set else insert step.0 set) vs out
        (ground (arith, a, all-insert is_valid_onion step.0 set read.1 a)) step.2

  -- The peers that are restored are valid addresses, and they are those that the backup lists but
  -- for the box's own.
  pub peers_of_lem :
      (p : Value) (hostname : Str) (peers : List Str)
      → peers_of J p hostname ≡ ok peers
      → (l : List Value) × (array_at J (codes "pairings") p ≡ some l)
        × (all is_valid_onion peers ≡ true)
        × ((x : Str) → any (str_eq x) peers ≡ (lists x l && not (str_eq x hostname)))
  unfolding peers_of
  peers_of_lem p hostname peers h =
      let l = bind_ok (ok_or (array_at J (codes "pairings") p) no_pairings) _ h in
      let out : unique_peers J hostname [] l.0 ≡ ok peers = ground (arith, l.2) in
      (
        l.0,
        ok_or-some _ _ l.1,
        unique_peers_valid hostname [] l.0 peers refl out,
        λ x. unique_peers_members hostname [] l.0 peers x out,
      )
