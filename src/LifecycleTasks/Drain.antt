-- ===== src/LifecycleTasks/Drain.antt =====
-- Counts are the leases that are held, so draining proves that work has stopped.
use privacy_lodge.Prelude.{
  ℕ, suc, ◌+◌, ◌-◌, ◌^◌, ◌<◌, ◌≡◌, ◌↔◌, refl, sym, subst, ap, ◌∙◌, Bool, true, ◌&&◌, some, List, [],
  ◌∷◌, ◌==◌, ltb, arith, if◌then◌else◌, ==_refl,
}
use privacy_lodge.LifecycleTasks.{
  Tasks, World, Step, cancels, registers, drops, Steps, still, later, start, bump, release, cancel,
  register, drop_lease, is_drained, is_clear, occurs, remove_one,
}

abbrev count : ℕ → List (ℕ × ℕ) → ℕ
count g [] = 0
count g ((k, n) ∷ m) = if k == g then n else count g m

-- One entry for a generation, and none at 0.
abbrev is_proper : List (ℕ × ℕ) → Bool
is_proper [] = true
is_proper ((k, n) ∷ m) = ltb 0 n && (count k m == 0 && is_proper m)

count-bump :
    (g h : ℕ) (m : List (ℕ × ℕ))
    → count g (bump h m) ≡ (if h == g then suc (count g m) else count g m)
unfolding bump
count-bump g h [] = refl
count-bump g h ((k, n) ∷ m) = ground (arith, count-bump g h m)

bump-proper : (h : ℕ) (m : List (ℕ × ℕ)) → is_proper m ≡ true → is_proper (bump h m) ≡ true
unfolding bump
bump-proper h [] p = refl
bump-proper h ((k, n) ∷ m) p = ground (arith, bump-proper h m, count-bump k h m)

count-release :
    (g h : ℕ) (m : List (ℕ × ℕ))
    → is_proper m ≡ true
    → count g (release h m) ≡ (if h == g then count g m - 1 else count g m)
unfolding release
count-release g h [] p = ground arith
count-release g h ((k, n) ∷ m) p = ground (arith, count-release g h m)

release-proper : (h : ℕ) (m : List (ℕ × ℕ)) → is_proper m ≡ true → is_proper (release h m) ≡ true
unfolding release
release-proper h [] p = refl
release-proper h ((k, n) ∷ m) p = ground (arith, release-proper h m, count-release k h m)

occurs-remove_one :
    (g h : ℕ) (l : List ℕ)
    → occurs g (remove_one h l) ≡ (if h == g then occurs g l - 1 else occurs g l)
occurs-remove_one g h [] = ground arith
occurs-remove_one g h (k ∷ l) = ground (arith, occurs-remove_one g h l)

-- The counts are those of the leases.
record Agrees (w : World) : Type 0 where
  proper : is_proper w.tasks.active ≡ true
  counted : (g : ℕ) → count g w.tasks.active ≡ occurs g w.leases

register_bumps :
    (g : ℕ) (t u : Tasks)
    → register g t ≡ some u
    → (g ≡ t.generation) × (u ≡ record t { active = bump g t.active })
unfolding register
register_bumps g t u h = ground arith

bumped_Agrees :
    (w : World) (g : ℕ)
    → Agrees w
    → Agrees (record {
      tasks = record w.tasks { active = bump g w.tasks.active };
      leases = g ∷ w.leases;
    })
bumped_Agrees w g a = record {
  proper = bump-proper g w.tasks.active a.proper;
  counted = λ h. ground (arith, count-bump h g w.tasks.active, a.counted h);
}

Step-Agrees : {w v : World} → Step w v → Agrees w → Agrees v
unfolding cancel drop_lease
Step-Agrees cancels a = record { proper = a.proper; counted = a.counted }
Step-Agrees {w} (registers g {t} e) a =
    subst (λ t. Agrees (record { tasks = t; leases = g ∷ w.leases }))
      (sym (register_bumps g w.tasks t e).1) (bumped_Agrees w g a)
Step-Agrees {w} (drops g h) a = record {
  proper = release-proper g w.tasks.active a.proper;
  counted = λ h. ground (
    arith,
    count-release h g w.tasks.active a.proper,
    occurs-remove_one h g w.leases,
    a.counted h,
  );
}

Steps-Agrees : {w v : World} {n : ℕ} → Agrees w → Steps w n v → Agrees v
Steps-Agrees a still = a
Steps-Agrees a (later r s) = Step-Agrees s (Steps-Agrees a r)

start-Agrees : Agrees start
start-Agrees = record { proper = refl; counted = λ g. refl }

clear_nil : (m : List (ℕ × ℕ)) → is_clear m ≡ true → m ≡ []
clear_nil [] h = refl
clear_nil (x ∷ m) h = cc

drained_none : (w : World) → Agrees w → is_drained w.tasks ≡ true → (g : ℕ) → occurs g w.leases ≡ 0
drained_none w a d g = sym (a.counted g) ∙ ap (count g) (clear_nil w.tasks.active d)

none_nil : (l : List ℕ) → ((g : ℕ) → occurs g l ≡ 0) → l ≡ []
none_nil [] h = refl
none_nil (k ∷ l) h = ground (arith, h k, ==_refl k)

nil_clear : (m : List (ℕ × ℕ)) → is_proper m ≡ true → ((g : ℕ) → count g m ≡ 0) → is_clear m ≡ true
nil_clear [] p h = refl
nil_clear ((k, n) ∷ m) p h = ground (arith, h k, ==_refl k)

-- In every reachable state, drain may return exactly if no lease is held.
pub drained_iff :
    (n : ℕ) (w : World) → Steps start n w → (is_drained w.tasks ≡ true) ↔ (w.leases ≡ [])
drained_iff n w r =
    let a = Steps-Agrees start-Agrees r in
    (
      λ d. none_nil w.leases (drained_none w a d),
      λ e. nil_clear w.tasks.active a.proper (λ g. a.counted g ∙ ap (occurs g) e),
    )

-- The generation counts the cancellations, and a past one gets no lease.
past :
    (g : ℕ) {w v : World} {n : ℕ}
    → g < w.tasks.generation
    → w.tasks.generation + n < 2 ^ 64
    → occurs g w.leases ≡ 0
    → Steps w n v
    → (v.tasks.generation ≡ w.tasks.generation + n) × (occurs g v.leases ≡ 0)
unfolding cancel drop_lease
past g b c e still = ground arith
past g {w} b c e (later {n} {u} r cancels) = ground (arith, past g b (omega arith) e r)
past g {w} b c e (later {n} {u} r (registers h {t} i)) =
    ground (arith, past g b (omega arith) e r, register_bumps h u.tasks t i)
past g {w} b c e (later {n} {u} r (drops h i)) =
    ground (arith, past g b (omega arith) e r, occurs-remove_one g h u.leases)

-- Once drain may return, no lease of a generation that was cancelled before is held ever again,
-- whatever follows, as long as the generations stay below 2^64.
pub drained_for_ever :
    (k n g : ℕ) (w v : World)
    → Steps start k w
    → is_drained w.tasks ≡ true
    → g < w.tasks.generation
    → w.tasks.generation + n < 2 ^ 64
    → Steps w n v
    → occurs g v.leases ≡ 0
drained_for_ever k n g w v r d b c s =
    (past g b c (drained_none w (Steps-Agrees start-Agrees r) d g) s).1
