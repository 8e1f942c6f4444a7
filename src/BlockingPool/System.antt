-- ===== src/BlockingPool/System.antt =====
-- Any number of goroutines over one pool of internal/util/blocking_pool.go, in any interleaving.
use arke.Common.{ℕ, ◌+◌, ◌≡◌, true, List, [], ◌∷◌, ◌++◌, some}
use arke.BlockingPool.Defs.{
  BlockingPool, Pc, get_select, put_nil, Choice, advance, new_blocking_pool,
}

-- `lost` counts the items lost so far; the program keeps no such number.
pub record System (A : Type 0) : Type 0 where
  pub pool : BlockingPool A
  pub threads : List (Pc A)
  pub lost : ℕ

pub data Step {A : Type 0} (s : System A) : System A → Type 0 where
  calls_get : Step s (record s { threads = get_select ∷ s.threads })
  calls_put_nil : Step s (record s { threads = put_nil ∷ s.threads })
  cancels : Step s (record s {
    pool = record {
      items = s.pool.items;
      count = s.pool.count;
      limit = s.pool.limit;
      cancelled = true;
    };
  })
  moves :
      (before after : List (Pc A)) (p : Pc A) (c : Choice A) {pool' : BlockingPool A} {p' : Pc A}
      {n : ℕ}
      → s.threads ≡ before ++ (p ∷ after)
      → advance s.pool c p ≡ some (pool', p', n)
      → Step s (record { pool = pool'; threads = before ++ (p' ∷ after); lost = s.lost + n })

abbrev pub start : {A : Type 0} → ℕ → System A
start limit = record { pool = new_blocking_pool limit; threads = []; lost = 0 }

pub data Reach {A : Type 0} (s : System A) : System A → Type 0 where
  here : Reach s s
  next : {t u : System A} → Reach s t → Step t u → Reach s u
