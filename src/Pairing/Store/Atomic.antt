-- ===== src/Pairing/Store/Atomic.antt =====
-- The allowlist file under failures and crashes: `save` is atomic, and `add` and `remove` change
-- the set of peers by one address or not at all.
use privacy_lodge.Prelude.{
  ℕ, ◌≡◌, refl, ap, Bool, true, not, ◌&&◌, ◌||◌, Option, none, some, List, [], ◌∷◌, ok, err, inl,
  inr, ◌⊎◌, arith, any, retain, length, ok_or, Option-cases, any-append, length-retain-le, ==_iff,
}
use privacy_lodge.Text.{Str, str_eq}
use privacy_lodge.Text.Laws.{str_eq_iff}
use privacy_lodge.Io.{Fault, Io, best_effort}
use privacy_lodge.Io.Laws.{
  Post, Spec, Spec-known, Spec-if, Spec-pure, Spec-lift, Spec-bind, Spec-bind-lift, Spec-bind-query,
  Spec-atomic, Spec-syscall, Spec-best_effort, Spec-on_failure, Spec-weaken,
}
use privacy_lodge.Pairing.{Error, corrupt, unencodable, Pairing, Pairings}
use privacy_lodge.Pairing.Store.{
  Codec, Disk, contents, load_strict, save, write_tmp, rename, remove_tmp, add, remove, add_to,
  remove_from, has_onion, with_peer, without_peer,
}

-- The set of addresses that a list allows.
abbrev pub paired : Str → Pairings → Bool
paired o p = any (has_onion o) p.peers

-- `pairings.json` is the whole of the encoded list.
abbrev pub Saved : Codec → Pairings → Disk → Type 0
Saved c p d = (json : Str) × (c.encode p ≡ some json) × (d.json ≡ some json)

module _ (c : Codec) (j : Option Str) where
  abbrev Unchanged : Disk → Type 0
  Unchanged d = d.json ≡ j

  rename_step :
      (p : Pairings) (json : Str)
      → c.encode p ≡ some json
      → Spec
          (λ d. (d.json ≡ j) × (d.tmp ≡ some json))
          rename
          (λ _ d. Saved c p d × (d.tmp ≡ none))
          (λ _ d. d.json ≡ j)
          (λ d. (d.json ≡ j) ⊎ Saved c p d)
  unfolding rename
  rename_step p json e =
      Spec-atomic _ _ (λ s h. ((json, e, h.1), refl)) (λ s h. h.0) (λ s h. inl h.0)
        (λ s h. inr (json, e, h.1))

  write_step :
      (json : Str) (p : Pairings)
      → Spec Unchanged
          (write_tmp json)
          (λ _ d. (d.json ≡ j) × (d.tmp ≡ some json))
          (λ _. Unchanged)
          (λ d. (d.json ≡ j) ⊎ Saved c p d)
  unfolding write_tmp
  write_step json p = Spec-syscall _ _ _ _ _ (λ s h. (h, refl)) (λ n s h. h) (λ n s h. inl h)

  cleanup_step :
      (p : Pairings)
      → Spec Unchanged
          (best_effort remove_tmp)
          (λ _. Unchanged)
          (λ _. Unchanged)
          (λ d. (d.json ≡ j) ⊎ Saved c p d)
  unfolding remove_tmp
  cleanup_step p =
      Spec-best_effort {Q = λ _. Unchanged} {F = λ _. Unchanged} remove_tmp
        (Spec-atomic _ _ (λ s h. h) (λ s h. h) (λ s h. inl h) (λ s h. inl h)) (λ _ s h. h)
        (λ _ s h. h)

  encoded_of :
      (p : Pairings) (json : Str)
      → ok_or (c.encode p) unencodable ≡ ok json
      → c.encode p ≡ some json
  encoded_of p json e = ground (arith, Option-cases (c.encode p))

  save-Spec :
      (p : Pairings)
      → Spec
          (λ d. d.json ≡ j)
          (save c p)
          (λ _ d. Saved c p d × (d.tmp ≡ none))
          (λ _ d. d.json ≡ j)
          (λ d. (d.json ≡ j) ⊎ Saved c p d)
  unfolding save
  save-Spec p =
      Spec-bind-lift _ _
        (λ json e.
          let encoded : c.encode p ≡ some json = encoded_of p json e in
          Spec-bind _ _ (write_step json p)
            (λ _. Spec-on_failure _ _ (rename_step p json encoded) (λ _. cleanup_step p)))
        (λ _ _ s h. h)

module _ (c : Codec) where
  -- What a reader of the disk gets.
  abbrev pub Reads : Pairings → Disk → Type 0
  Reads p d = contents c d.json ≡ ok p

  Saved-Reads : (p : Pairings) (d : Disk) → Saved c p d → Reads p d
  unfolding contents
  Saved-Reads p d (json, e, h) = rw (h, c.decode-encode p json e)

  save-Reads :
      (p q : Pairings)
      → Spec (Reads p) (save c q) (λ _. Reads q) (λ _. Reads p) (λ d. Reads p d ⊎ Reads q d)
  save-Reads p q = record {
    at = λ s fs h.
        (Spec-weaken {P' = λ d. d.json ≡ s.json} _ (save-Spec c s.json q) (λ d e. e)
            (λ _ d x. Saved-Reads q d x.0) (λ _ d x. rw x h)
            (λ d x. elim x [ inl old ↦ inl (rw old h) | inr new ↦ inr (Saved-Reads q d new) ])).at
          s fs refl;
  }

  load_strict-Reads :
      (p : Pairings)
      → Spec (Reads p) (load_strict c) (λ a d. (a ≡ p) × Reads p d) (λ _. Reads p) (Reads p)
  unfolding load_strict
  load_strict-Reads p =
      Spec-bind-query _ _ _
        (λ s h. Spec-lift _ (λ a e s' h'. (ground (arith, e, h), h')) (λ _ s' h'. h')) (λ s h. h)
        (λ s h. h)

  -- The address `o` is as the new list says, whatever else happens to the others.
  paired-with_peer :
      (now : ℕ) (onion o : Str) (p : Pairings)
      → paired o (with_peer now onion p) ≡ (str_eq onion o || paired o p)
  paired-with_peer now onion o p =
      ground
        (arith, any-append (has_onion o) p.peers (record { onion = onion; added_at = now } ∷ []))

  abbrev pub Adds : Str → Pairings → Pairings → Type 0
  Adds onion p q = (o : Str) → paired o q ≡ (str_eq onion o || paired o p)

  abbrev pub Drops : Str → Pairings → Pairings → Type 0
  Drops onion p q = (o : Str) → paired o q ≡ (not (str_eq onion o) && paired o p)

  already_paired : (onion : Str) (p : Pairings) → paired onion p ≡ true → Adds onion p p
  already_paired onion p h o = ground (arith, str_eq_iff onion o, h)

  add-Spec :
      (now : ℕ) (onion : Str) (p : Pairings)
      → Spec
          (Reads p)
          (add c now onion)
          (λ _ d. (q : Pairings) × Reads q d × Adds onion p q)
          (λ _. Reads p)
          (λ d. Reads p d ⊎ ((q : Pairings) × Reads q d × Adds onion p q))
  unfolding add add_to
  add-Spec now onion p =
      Spec-bind _ _
        (Spec-weaken _ (load_strict-Reads p) (λ _ h. h) (λ _ _ h. h) (λ _ _ h. h) (λ _ h. inl h))
        λ a. Spec-known (add_to c now onion) a p (
          Spec-if _ _ _ (λ old. Spec-pure tt (λ d h. (p, h, already_paired onion p old)))
            (λ _.
              Spec-weaken _ (save-Reads p q) (λ _ h. h) (λ _ d h. (q, h, adds)) (λ _ _ h. h)
                (λ d x. elim x [ inl h ↦ inl h | inr h ↦ inr (q, h, adds) ])))
    where
      q : Pairings
      q = with_peer now onion p

      adds : Adds onion p q
      adds o = paired-with_peer now onion o p

  paired-retain :
      (onion o : Str) (xs : List Pairing)
      → any (has_onion o) (retain (λ x. not (has_onion onion x)) xs)
        ≡ (not (str_eq onion o) && any (has_onion o) xs)
  paired-retain onion o [] = ground arith
  paired-retain onion o (x ∷ xs) = ground (
    arith,
    paired-retain onion o xs,
    str_eq_iff x.onion onion,
    str_eq_iff x.onion o,
    str_eq_iff onion o,
  )

  -- As many peers as before: none was taken out.
  nothing_dropped :
      (onion o : Str) (xs : List Pairing)
      → length (retain (λ x. not (has_onion onion x)) xs) ≡ length xs
      → any (has_onion o) xs ≡ (not (str_eq onion o) && any (has_onion o) xs)
  nothing_dropped onion o [] h = ground arith
  nothing_dropped onion o (x ∷ xs) h = ground (
    arith,
    nothing_dropped onion o xs,
    length-retain-le (λ x. not (has_onion onion x)) xs,
    str_eq_iff x.onion onion,
    str_eq_iff x.onion o,
    str_eq_iff onion o,
  )

  remove-Spec :
      (onion : Str) (p : Pairings)
      → Spec
          (Reads p)
          (remove c onion)
          (λ _ d. (q : Pairings) × Reads q d × Drops onion p q)
          (λ _. Reads p)
          (λ d. Reads p d ⊎ ((q : Pairings) × Reads q d × Drops onion p q))
  unfolding remove remove_from
  remove-Spec onion p =
      Spec-bind _ _
        (Spec-weaken _ (load_strict-Reads p) (λ _ h. h) (λ _ _ h. h) (λ _ _ h. h) (λ _ h. inl h))
        λ a. Spec-known (remove_from c onion) a p (
          Spec-if _ _ _
            (λ same.
              Spec-pure tt
                (λ d h. (p, h, λ o. nothing_dropped onion o p.peers ((==_iff _ _).0 same))))
            (λ _.
              Spec-weaken _ (save-Reads p q) (λ _ h. h) (λ _ d h. (q, h, drops)) (λ _ _ h. h)
                (λ d x. elim x [ inl h ↦ inl h | inr h ↦ inr (q, h, drops) ])))
    where
      q : Pairings
      q = without_peer onion p

      drops : Drops onion p q
      drops o = paired-retain onion o p.peers

  load_strict-corrupt :
      (j : Option Str)
      → contents c j ≡ err corrupt
      → Spec (λ d. d.json ≡ j) (load_strict c) (λ _ _. ⊥) (λ _ d. d.json ≡ j) (λ d. d.json ≡ j)
  unfolding load_strict
  load_strict-corrupt j bad =
      Spec-bind-query _ _ _
        (λ s h.
          Spec-lift _ (λ a e s' h'. ground (arith, e, ap (contents c) h, bad)) (λ _ s' h'. h'))
        (λ s h. h) (λ s h. h)

  nothing_follows :
      {Q : Unit {0} → Disk → Type 0} {F : Error → Disk → Type 0} {C : Disk → Type 0}
      (m : Io Disk Error (Unit {0}))
      → Spec (λ _. ⊥) m Q F C
  nothing_follows m = record { at = λ s fs h. absurd h }

  corrupt-Spec :
      (j : Option Str) (now : ℕ) (onion : Str)
      → contents c j ≡ err corrupt
      → Spec (λ d. d.json ≡ j) (add c now onion) (λ _ _. ⊥) (λ _ d. d.json ≡ j) (λ d. d.json ≡ j)
        × Spec (λ d. d.json ≡ j) (remove c onion) (λ _ _. ⊥) (λ _ d. d.json ≡ j) (λ d. d.json ≡ j)
  unfolding add remove
  corrupt-Spec j now onion bad = (
    Spec-bind _ _ (load_strict-corrupt j bad) (λ a. nothing_follows _),
    Spec-bind _ _ (load_strict-corrupt j bad) (λ a. nothing_follows _),
  )

  -- Whichever operation of `save` fails or is the last of the process, `pairings.json` has its
  -- old content or the whole new one: the new one if `save` returns, with no temporary file
  -- beside it, and the old one if it reports an error.
  pub save-atomic :
      (p : Pairings) (j : Option Str) (d : Disk) (fs : List Fault)
      → d.json ≡ j
      → Post
          (λ _ d'. Saved c p d' × (d'.tmp ≡ none))
          (λ _ d'. d'.json ≡ j)
          (λ d'. (d'.json ≡ j) ⊎ Saved c p d')
          (save c p d fs).0
          (save c p d fs).1
  save-atomic p j d fs h = (save-Spec c j p).at d fs h

  -- Pairing adds exactly that address to the set that readers see, once it returns; an error has
  -- changed nothing, and a crash leaves the set before or the set after.
  pub add_lem :
      (now : ℕ) (onion : Str) (p : Pairings) (d : Disk) (fs : List Fault)
      → Reads p d
      → Post
          (λ _ d'. (q : Pairings) × Reads q d' × Adds onion p q)
          (λ _. Reads p)
          (λ d'. Reads p d' ⊎ ((q : Pairings) × Reads q d' × Adds onion p q))
          (add c now onion d fs).0
          (add c now onion d fs).1
  add_lem now onion p d fs h = (add-Spec now onion p).at d fs h

  -- Unpairing takes exactly that address out of the set that readers see, once it returns; an
  -- error has changed nothing, and a crash leaves the set before or the set after.
  pub remove_lem :
      (onion : Str) (p : Pairings) (d : Disk) (fs : List Fault)
      → Reads p d
      → Post
          (λ _ d'. (q : Pairings) × Reads q d' × Drops onion p q)
          (λ _. Reads p)
          (λ d'. Reads p d' ⊎ ((q : Pairings) × Reads q d' × Drops onion p q))
          (remove c onion d fs).0
          (remove c onion d fs).1
  remove_lem onion p d fs h = (remove-Spec onion p).at d fs h

  -- Where `pairings.json` is there and does not parse, neither `add` nor `remove` returns, and both
  -- leave the file as it is, whatever else happens.
  pub corrupt_kept :
      (j : Option Str) (now : ℕ) (onion : Str) (d : Disk) (fs : List Fault)
      → contents c j ≡ err corrupt
      → d.json ≡ j
      → Post
          (λ _ _. ⊥)
          (λ _ d'. d'.json ≡ j)
          (λ d'. d'.json ≡ j)
          (add c now onion d fs).0
          (add c now onion d fs).1
        × Post
            (λ _ _. ⊥)
            (λ _ d'. d'.json ≡ j)
            (λ d'. d'.json ≡ j)
            (remove c onion d fs).0
            (remove c onion d fs).1
  corrupt_kept j now onion d fs bad h =
      ((corrupt-Spec j now onion bad).0.at d fs h, (corrupt-Spec j now onion bad).1.at d fs h)
