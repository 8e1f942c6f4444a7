-- ===== src/BlockingLatch/Defs.antt =====
-- One goroutine inside `Increment` or `WaitForEmpty` of internal/util/blocking_latch.go, and what
-- `Decrement`, `SetMax` and the callbacks of the context do.
use arke.Common.{
  ℕ, Bool, true, false, ◌&&◌, Option, none, some, List, [], ◌∷◌, ◌==◌, ltb, if◌then◌else◌,
}
use arke.Common.Word.{add64, dec64}

-- `count` is the bit pattern of a 64-bit `uint`. `locked` says that a goroutine holds the lock on its
-- way into `Wait`; every other critical section is one step. `cancelled` says that the context is done.
pub record BlockingLatch : Type 0 where
  pub count : ℕ
  pub max : ℕ
  pub cancelled : Bool
  pub locked : Bool

unfoldable pub new_blocking_latch : ℕ → BlockingLatch
new_blocking_latch m = record { count = 0; max = m; cancelled = false; locked = false }

pub data Ending : Type 0 where
  incremented emptied stopped : Ending

-- What the loop waits for.
pub data Goal : Type 0 where
  below_max empty : Goal

-- Before the lock or in the loop's head after a wait; past the test of the context, with the lock; in
-- `Wait`; returned.
pub data Pc : Type 0 where
  entering : Goal → Pc
  parking : Goal → Pc
  waiting : Goal → Pc
  ended : Ending → Pc

-- A goroutine, and whether the callback that it gave `context.AfterFunc` has still to run.
pub record Goroutine : Type 0 where
  pub pc : Pc
  pub armed : Bool

-- The test of the loop, and what it does where it holds.
pass : Goal → BlockingLatch → Option (BlockingLatch × Ending)
pass below_max l =
    if ltb l.count l.max then some (record l { count = add64 l.count 1 }, incremented) else none
pass empty l = if l.count == 0 then some (l, emptied) else none

try_goal : Goal → BlockingLatch → BlockingLatch × Pc
unfolding pass
try_goal g l = elim (pass g l) [
  | some (l', e) ↦ (l', ended e)
  | none ↦ if l.cancelled then (l, ended stopped) else (record l { locked = true }, parking g)
]

-- The next step of a goroutine, or `none` where it blocks.
unfoldable pub advance : Pc → BlockingLatch → Option (BlockingLatch × Pc)
unfolding try_goal
advance (entering g) l = if l.locked then none else some (try_goal g l)
advance (parking g) l = some (record l { locked = false }, waiting g)
advance (waiting g) l = none
advance (ended e) l = none

-- `stop` of a callback that the cancelled context has started comes too late.
unfoldable pub disarm : BlockingLatch → Pc → Bool → Bool
disarm l (ended e) armed = armed && l.cancelled
disarm l _ armed = armed

abbrev pub woken : Pc → Pc
woken (waiting g) = entering g
woken p = p

-- `Broadcast`
abbrev pub broadcast : List Goroutine → List Goroutine
broadcast [] = []
broadcast (g ∷ gs) = record g { pc = woken g.pc } ∷ broadcast gs

unfoldable pub decrement : BlockingLatch → BlockingLatch
decrement l = record l { count = dec64 l.count }

unfoldable pub set_max : ℕ → BlockingLatch → BlockingLatch
set_max m l = record l { max = m }
