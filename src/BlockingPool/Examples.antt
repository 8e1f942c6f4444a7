-- ===== src/BlockingPool/Examples.antt =====
-- A pool of one item, for the theorems on the pool.
use arke.Common.{ℕ, ◌+◌, ◌≤◌, ◌<◌, ◌^◌, ◌≡◌, refl, true, false, none, some, [], ◌∷◌, arith}
use arke.BlockingPool.Defs.{
  BlockingPool, Pc, get_select, get_load, get_cas, get_new, get_wait, holding, put_check,
  put_select, ended, got_nil, Choice, advance, new_blocking_pool,
}
use arke.BlockingPool.System.{System, calls_get, moves, start, Reach, here, next}
use arke.BlockingPool.Slots.{slots_of, count_bounded}
use arke.BlockingPool.Leaks.{starved_forever}

abbrev makes_seven : Choice ℕ
makes_seven = record { valid = true; made = some 7; take_item = true }

abbrev makes_nil : Choice ℕ
makes_nil = record { valid = true; made = none; take_item = true }

abbrev pool : ℕ → BlockingPool ℕ
pool n = record { items = []; count = n; limit = 1; cancelled = false }

abbrev at : ℕ → Pc ℕ → ℕ → System ℕ
at n p lost = record { pool = pool n; threads = p ∷ []; lost = lost }

before_new : Reach (start 1) (at 1 get_new 0)
unfolding advance new_blocking_pool
before_new =
    next
      (next (next (next here calls_get) (moves [] [] get_select makes_seven refl refl))
        (moves [] [] get_load makes_seven refl refl))
      (moves [] [] (get_cas 0) makes_seven refl refl)

before_put : Reach (start 1) (at 1 (put_select 7) 0)
unfolding advance
before_put =
    next
      (next (next before_new (moves [] [] get_new makes_seven refl refl))
        (moves [] [] (holding 7) makes_seven refl refl))
      (moves [] [] (put_check 7) makes_seven refl refl)

lost_one : Reach (start 1) (at 1 (ended got_nil) 1)
unfolding advance
lost_one = next before_new (moves [] [] get_new makes_nil refl refl)

small : 1 < 2 ^ 31
small = omega arith

count_bounded_example : (1 ≡ 0 + 1 + 0) × (1 ≤ 1)
count_bounded_example = count_bounded 1 small before_put

abbrev starved : System ℕ
starved = at 1 (ended got_nil) 1

starved_forever_example :
    (starved.pool.items ≡ [])
    × (slots_of starved.threads ≡ 0)
    × ((c : Choice ℕ) → advance (pool 1) c get_load ≡ some (pool 1, get_wait, 0))
    × ((c : Choice ℕ) → false ≡ false → advance (pool 1) c get_wait ≡ none)
starved_forever_example = starved_forever 1 small lost_one refl here
