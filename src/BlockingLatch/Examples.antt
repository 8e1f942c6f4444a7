-- ===== src/BlockingLatch/Examples.antt =====
-- A latch of one message, for the theorems on the latch.
use arke.Common.{◌+◌, ◌≤◌, ◌<◌, ◌≡◌, refl, ◌⊎◌, true, false, [], ◌∷◌, arith}
use arke.BlockingLatch.Defs.{
  entering, ended, below_max, incremented, Goroutine, advance, disarm, new_blocking_latch,
}
use arke.BlockingLatch.System.{System, Step, calls, moves, start, Reach, here, next}
use arke.BlockingLatch.Bounds.{held_bounded}
use arke.BlockingLatch.Sleepers.{sleeper, increment_sleeps}

abbrev one_in_flight : System
one_in_flight = record {
  latch = record { count = 1; max = 1; cancelled = false; locked = false };
  goroutines = record { pc = ended incremented; armed = false } ∷ [];
  held = 1;
  excess = 0;
  peak = 1;
}

incremented_once : Reach (start 1) one_in_flight
unfolding advance disarm new_blocking_latch
incremented_once = next (next here (calls below_max)) (
    moves [] [] (record { pc = entering below_max; armed = true }) one_in_flight.latch
      (ended incremented) refl refl)

held_bounded_example :
    (one_in_flight.latch.count ≡ one_in_flight.held) × (one_in_flight.held ≤ one_in_flight.peak)
held_bounded_example = held_bounded 1 one_in_flight (omega arith) incremented_once refl

abbrev full_latch : System
full_latch = record {
  latch = record { count = 1; max = 1; cancelled = false; locked = false };
  goroutines = [];
  held = 1;
  excess = 0;
  peak = 1;
}

increment_sleeps_example :
    (t : System) × Reach full_latch t
    × (t.latch.cancelled ≡ true)
    × (t.goroutines ≡ sleeper ∷ [])
    × ((u : System)
        → Step t u
        → (u.goroutines ≡ t.goroutines)
          ⊎ ((g : Goroutine) × (u.goroutines ≡ g ∷ t.goroutines))
          ⊎ (u.held + t.excess < t.held + u.excess))
increment_sleeps_example = increment_sleeps full_latch refl (omega arith) refl refl
