-- ===== src/BlockingLatch/System.antt =====
-- Any number of goroutines over one latch of internal/util/blocking_latch.go, in any interleaving.
use arke.Common.{
  ℕ, ◌+◌, ◌-◌, ◌<◌, ◌^◌, ◌≡◌, Bool, true, false, List, [], ◌∷◌, ◌++◌, some, ◌||◌, ltb,
  if◌then◌else◌,
}
use arke.BlockingLatch.Defs.{
  BlockingLatch, Goal, Pc, entering, waiting, ended, incremented, Goroutine, advance, disarm,
  broadcast, decrement, set_max, new_blocking_latch,
}

-- `held` counts the Increments that have succeeded and have not been undone, `excess` the Decrements that
-- came when there was none to undo, and `peak` is the largest maximum so far; the program keeps none of
-- them.
pub record System : Type 0 where
  pub latch : BlockingLatch
  pub goroutines : List Goroutine
  pub held : ℕ
  pub excess : ℕ
  pub peak : ℕ

abbrev pub gained : Pc → ℕ
gained (ended incremented) = 1
gained _ = 0

abbrev pub larger : ℕ → ℕ → ℕ
larger a b = if ltb a b then b else a

abbrev waits : Pc → Bool
waits (waiting _) = true
waits _ = false

abbrev pub any_waits : List Goroutine → Bool
any_waits [] = false
any_waits (g ∷ gs) = waits g.pc || any_waits gs

-- A `Decrement` may come at any time, also when no Increment is held; it wakes one waiting goroutine, if
-- there is one.
pub data Step (s : System) : System → Type 0 where
  calls :
      (g : Goal)
      → Step s (record s { goroutines = record { pc = entering g; armed = true } ∷ s.goroutines })
  moves :
      (before after : List Goroutine) (g : Goroutine) (l : BlockingLatch) (p : Pc)
      → s.goroutines ≡ before ++ (g ∷ after)
      → advance g.pc s.latch ≡ some (l, p)
      → Step s (record {
        latch = l;
        goroutines = before ++ (record { pc = p; armed = disarm l p g.armed } ∷ after);
        held = s.held + gained p;
        excess = s.excess;
        peak = s.peak;
      })
  decrements :
      s.latch.locked ≡ false
      → any_waits s.goroutines ≡ false
      → Step s (record s {
        latch = decrement s.latch;
        held = s.held - 1;
        excess = s.excess + (1 - s.held);
      })
  decrements_wakes :
      (before after : List Goroutine) (goal : Goal) (armed : Bool)
      → s.latch.locked ≡ false
      → s.goroutines ≡ before ++ (record { pc = waiting goal; armed = armed } ∷ after)
      → Step s (record s {
        latch = decrement s.latch;
        goroutines = before ++ (record { pc = entering goal; armed = armed } ∷ after);
        held = s.held - 1;
        excess = s.excess + (1 - s.held);
      })
  sets_max :
      (m : ℕ)
      → s.latch.locked ≡ false
      → m < 2 ^ 64
      → Step s (record s { latch = set_max m s.latch; peak = larger s.peak m })
  cancels : Step s (record s {
    latch = record {
      count = s.latch.count;
      max = s.latch.max;
      cancelled = true;
      locked = s.latch.locked;
    };
  })
  calls_back :
      (before after : List Goroutine) (p : Pc)
      → s.latch.cancelled ≡ true
      → s.goroutines ≡ before ++ (record { pc = p; armed = true } ∷ after)
      → Step s (record s {
        goroutines = broadcast (before ++ (record { pc = p; armed = false } ∷ after));
      })

abbrev pub start : ℕ → System
start m = record { latch = new_blocking_latch m; goroutines = []; held = 0; excess = 0; peak = m }

pub data Reach (s : System) : System → Type 0 where
  here : Reach s s
  next : {t u : System} → Reach s t → Step t u → Reach s u
