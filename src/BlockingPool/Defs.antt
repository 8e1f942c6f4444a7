-- ===== src/BlockingPool/Defs.antt =====
-- One goroutine inside `Get` or `Put` of internal/util/blocking_pool.go, a shared access at a time.
use arke.Common.{
  ℕ, Bool, false, Option, none, some, List, [], ◌∷◌, ◌++◌, length, ltb, ◌==◌, if◌then◌else◌,
}
use arke.Common.Word.{add32, dec32, lt32}

-- `items` is the buffered channel `pool`, oldest first; its capacity is `limit`. Nothing closes it.
-- `count` is the bit pattern of the atomic int32. `cancelled` says that the context is done.
pub record BlockingPool (A : Type 0) : Type 0 where
  pub items : List A
  pub count : ℕ
  pub limit : ℕ
  pub cancelled : Bool

unfoldable pub new_blocking_pool : {A : Type 0} → ℕ → BlockingPool A
new_blocking_pool limit = record { items = []; count = 0; limit = limit; cancelled = false }

pub data PoolError : Type 0 where
  nil_value failed_validation context_done pool_full : PoolError

pub data Ending : Type 0 where
  got_nil put_ok : Ending
  put_failed : PoolError → Ending

-- Where a goroutine stands, with the local variables that are live there.
pub data Pc (A : Type 0) : Type 0 where
  get_select : Pc A  -- the first select of `Get`
  get_check : A → Pc A  -- an item received from the channel, before `Validate`
  get_retire : Pc A  -- before `count.Add(-1)` for a stale item
  get_load : Pc A  -- head of the loop
  get_cas : ℕ → Pc A  -- before the compare-and-swap, with `current`
  get_new : Pc A  -- before `p.New()`
  get_wait : Pc A  -- the second select
  holding : A → Pc A  -- `Get` has returned the item
  put_nil : Pc A  -- `Put(nil)`
  put_check : A → Pc A  -- `Put(x)`, before `Validate`
  put_retire : Pc A  -- before `count.Add(-1)` for an item that failed validation
  put_select : A → Pc A  -- the select of `Put`
  ended : Ending → Pc A

-- What the goroutine cannot decide: the answer of `Validate` (true where it is nil), what `New`
-- returns, and which of two ready cases a select takes.
pub record Choice (A : Type 0) : Type 0 where
  pub valid : Bool
  pub made : Option A
  pub take_item : Bool

-- The pool and the goroutine after an access, and the number of items that it loses for good:
-- `count` still has a slot for each.
abbrev pub Moved : Type 0 → Type 0
Moved A = Option (BlockingPool A × Pc A × ℕ)

module _ {A : Type 0} where
  -- Receive the oldest item.
  receive : BlockingPool A → A → List A → Moved A
  receive p x rest = some (record p { items = rest }, get_check x, 0)

  select_get : BlockingPool A → List A → Moved A
  unfolding receive
  select_get p [] = some (p, get_load, 0)
  select_get p (x ∷ rest) = receive p x rest

  select_wait : BlockingPool A → Choice A → List A → Moved A
  unfolding receive
  select_wait p c [] = if p.cancelled then some (p, ended got_nil, 0) else none
  select_wait p c (x ∷ rest) =
      if p.cancelled
      then (if c.take_item then receive p x rest else some (p, ended got_nil, 0))
      else receive p x rest

  call_new : BlockingPool A → Option A → Moved A
  call_new p (some x) = some (p, holding x, 0)
  call_new p none = some (p, ended got_nil, 1)

  send : BlockingPool A → A → Moved A
  send p x = some (record p { items = p.items ++ x ∷ [] }, ended put_ok, 0)

  give_up : BlockingPool A → PoolError → Moved A
  give_up p e = some (p, ended (put_failed e), 1)

  select_put : BlockingPool A → Choice A → A → Moved A
  unfolding send give_up
  select_put p c x =
      if ltb (length p.items) p.limit
      then (if p.cancelled
          then (if c.take_item then send p x else give_up p context_done)
          else send p x)
      else (if p.cancelled then give_up p context_done else give_up p pool_full)

  -- The next shared access of a goroutine, or `none` where it blocks.
  unfoldable pub advance : BlockingPool A → Choice A → Pc A → Moved A
  unfolding select_get select_wait call_new select_put
  advance p c get_select = select_get p p.items
  advance p c (get_check x) = some (p, if c.valid then holding x else get_retire, 0)
  advance p c get_retire = some (record p { count = dec32 p.count }, get_load, 0)
  advance p c get_load = some (p, if lt32 p.count p.limit then get_cas p.count else get_wait, 0)
  advance p c (get_cas current) =
      if p.count == current
      then some (record p { count = add32 current 1 }, get_new, 0)
      else some (p, get_load, 0)
  advance p c get_new = call_new p c.made
  advance p c get_wait = select_wait p c p.items
  advance p c (holding x) = some (p, put_check x, 0)
  advance p c put_nil = some (p, ended (put_failed nil_value), 0)
  advance p c (put_check x) = some (p, if c.valid then put_select x else put_retire, 0)
  advance p c put_retire =
      some (record p { count = dec32 p.count }, ended (put_failed failed_validation), 0)
  advance p c (put_select x) = select_put p c x
  advance p c (ended e) = none
