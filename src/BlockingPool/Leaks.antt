-- ===== src/BlockingPool/Leaks.antt =====
-- What happens in internal/util/blocking_pool.go when `New` returns nil: `Get` returns nil and the
-- slot that it took stays taken.
use arke.Common.{ℕ, ◌≤◌, ◌<◌, ◌^◌, ◌≡◌, refl, false, none, some, List, [], ◌∷◌, length, arith}
use arke.BlockingPool.Defs.{get_load, get_wait, Choice, advance}
use arke.BlockingPool.System.{
  System, Step, calls_get, calls_put_nil, cancels, moves, start, Reach, here, next,
}
use arke.BlockingPool.Slots.{slots_of, start-Inv, Reach-Inv}

Step-lost-le : {A : Type 0} {s t : System A} → Step s t → s.lost ≤ t.lost
Step-lost-le calls_get = omega arith
Step-lost-le calls_put_nil = omega arith
Step-lost-le cancels = omega arith
Step-lost-le (moves before after p c e m) = omega arith

Reach-lost-le : {A : Type 0} {s t : System A} → Reach s t → s.lost ≤ t.lost
Reach-lost-le here = omega arith
Reach-lost-le (next r st) = omega (arith, Reach-lost-le r, Step-lost-le st)

Reach-trans : {A : Type 0} {s t u : System A} → Reach s t → Reach t u → Reach s u
Reach-trans r here = r
Reach-trans r (next q st) = next (Reach-trans r q) st

nil_of_length : {A : Type 0} (xs : List A) → length xs ≡ 0 → xs ≡ []
nil_of_length [] h = refl
nil_of_length (x ∷ xs) h = absurd (omega arith)

-- Once as many items are lost as the limit allows, the pool never hands out an item again: in every
-- later state the channel is empty, no goroutine has an item, the loop of `Get` goes to its second
-- select, and that select blocks until the context is done.
pub starved_forever :
    {A : Type 0} (limit : ℕ) {s t : System A}
    → limit < 2 ^ 31
    → Reach (start limit) s
    → s.lost ≡ limit
    → Reach s t
    → (t.pool.items ≡ [])
      × (slots_of t.threads ≡ 0)
      × ((c : Choice A) → advance t.pool c get_load ≡ some (t.pool, get_wait, 0))
      × ((c : Choice A) → t.pool.cancelled ≡ false → advance t.pool c get_wait ≡ none)
unfolding advance
starved_forever limit {s} {t} small r full q =
    let v = Reach-Inv limit small (start-Inv limit) (Reach-trans r q) in
    let grown = Reach-lost-le q in
    let empty = nil_of_length t.pool.items (omega arith) in
    let taken : t.pool.count ≡ t.pool.limit = omega arith in
    (empty, omega arith, λ c. ground arith, λ c live. ground arith)
