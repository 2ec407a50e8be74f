-- ===== src/LifecycleTasks/Examples.antt =====
-- Tests and instances for the lifecycle tasks: a lease of generation 0, a cancellation, and its drop.
use privacy_lodge.Prelude.{◌≡◌, ◌↔◌, refl, true, none, [], ◌∷◌, arith}
use privacy_lodge.LifecycleTasks.{
  World, cancels, registers, drops, Steps, still, later, start, bump, release, cancel, register,
  is_drained, drop_lease, occurs,
}
use privacy_lodge.LifecycleTasks.Drain.{drained_iff, drained_for_ever}

abbrev leased : World
leased = record { tasks = record { generation = 0; active = (0, 1) ∷ [] }; leases = 0 ∷ [] }

abbrev cancelled : World
cancelled = record { tasks = cancel leased.tasks; leases = 0 ∷ [] }

abbrev dropped : World
dropped = record { tasks = drop_lease 0 cancelled.tasks; leases = [] }

leased-Steps : Steps start 0 leased
unfolding register bump
leased-Steps = later still (registers 0 refl)

cancelled-Steps : Steps start 1 cancelled
cancelled-Steps = later leased-Steps cancels

dropped-Steps : Steps start 1 dropped
dropped-Steps = later cancelled-Steps (drops 0 (omega arith))

stale_refused : register 0 cancelled.tasks ≡ none
unfolding register cancel
stale_refused = refl

drained_iff_example : (is_drained cancelled.tasks ≡ true) ↔ (cancelled.leases ≡ [])
drained_iff_example = drained_iff 1 cancelled cancelled-Steps

is_dropped : is_drained dropped.tasks ≡ true
unfolding drop_lease release cancel
is_dropped = refl

drained_for_ever_example : occurs 0 [] ≡ 0
unfolding cancel drop_lease
drained_for_ever_example =
    drained_for_ever 1 1 0 dropped (record { tasks = cancel dropped.tasks; leases = [] })
      dropped-Steps is_dropped (omega arith) (omega arith) (later still cancels)
