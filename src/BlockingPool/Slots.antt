-- ===== src/BlockingPool/Slots.antt =====
-- Every item that exists has a slot of `count`, and `count` never passes the limit: what any
-- interleaving of `Get` and `Put` of internal/util/blocking_pool.go keeps.
use mathlib.Core.Path.{subst}
use arke.Common.{
  ℕ, ◌+◌, ◌≤◌, ◌<◌, ◌^◌, ◌≡◌, ap, false, some, List, [], ◌∷◌, ◌++◌, length, length-append, All,
  arith,
}
use arke.BlockingPool.Defs.{
  BlockingPool, Pc, get_select, get_load, get_cas, get_wait, put_nil, put_select, ended, put_ok,
  Choice, advance, new_blocking_pool,
}
use arke.BlockingPool.System.{
  System, Step, calls_get, calls_put_nil, cancels, moves, start, Reach, here, next,
}

-- The slots of `count` that a goroutine has in hand.
abbrev pub slots : {A : Type 0} → Pc A → ℕ
slots get_select = 0
slots get_load = 0
slots (get_cas _) = 0
slots get_wait = 0
slots put_nil = 0
slots (ended _) = 0
slots _ = 1

abbrev pub slots_of : {A : Type 0} → List (Pc A) → ℕ
slots_of [] = 0
slots_of (p ∷ ps) = slots p + slots_of ps

slots_of-append :
    {A : Type 0} (ps : List (Pc A)) (p : Pc A) (qs : List (Pc A))
    → slots_of (ps ++ (p ∷ qs)) ≡ slots_of ps + slots_of qs + slots p
slots_of-append [] p qs = omega arith
slots_of-append (x ∷ ps) p qs = omega (arith, slots_of-append ps p qs)

-- The slots that `others` have in hand, besides one goroutine.
pub record Accounts {A : Type 0} (limit : ℕ) (pool : BlockingPool A) (others slot lost : ℕ)
    : Type 0 where
  pub same_limit : pool.limit ≡ limit
  pub counted : pool.count ≡ length pool.items + others + slot + lost
  pub bounded : pool.count ≤ limit

-- The value that a compare-and-swap expects was read below the limit.
abbrev pub Fits : {A : Type 0} → ℕ → Pc A → Type 0
Fits limit (get_cas current) = current < limit
Fits limit _ = Unit

-- One access of one goroutine keeps the accounts.
advance-Accounts :
    {A : Type 0} (limit : ℕ) (pool : BlockingPool A) (c : Choice A) (p : Pc A) (others lost : ℕ)
    {pool' : BlockingPool A} {p' : Pc A} {n : ℕ}
    → limit < 2 ^ 31
    → Accounts limit pool others (slots p) lost
    → Fits limit p
    → advance pool c p ≡ some (pool', p', n)
    → Accounts limit pool' others (slots p') (lost + n) × Fits limit p'
unfolding advance
advance-Accounts limit pool c get_select others lost small a f e = ground arith
advance-Accounts limit pool c (put_select x) others lost small a f e =
    ground (arith, length-append pool.items (x ∷ []))
advance-Accounts limit pool c p others lost small a f e = ground arith

All-Fits-replace :
    {A : Type 0} (limit : ℕ) (before after : List (Pc A)) (p q : Pc A)
    → All (Fits limit) (before ++ (p ∷ after))
    → Fits limit q
    → All (Fits limit) (before ++ (q ∷ after)) × Fits limit p
All-Fits-replace limit [] after p q h f = ((f, h.1), h.0)
All-Fits-replace limit (x ∷ before) after p q h f =
    let (rest, g) = All-Fits-replace limit before after p q h.1 f in ((h.0, rest), g)

All-Fits-at :
    {A : Type 0} (limit : ℕ) (before after : List (Pc A)) (p : Pc A)
    → All (Fits limit) (before ++ (p ∷ after))
    → Fits limit p
All-Fits-at limit [] after p h = h.0
All-Fits-at limit (x ∷ before) after p h = All-Fits-at limit before after p h.1

pub record Inv {A : Type 0} (limit : ℕ) (s : System A) : Type 0 where
  pub accounts : Accounts limit s.pool (slots_of s.threads) 0 s.lost
  pub fits : All (Fits limit) s.threads

pub start-Inv : {A : Type 0} (limit : ℕ) → Inv limit (start {A = A} limit)
unfolding new_blocking_pool
start-Inv limit = record { accounts = omega arith; fits = tt }

pub Step-Inv :
    {A : Type 0} (limit : ℕ) {s t : System A}
    → limit < 2 ^ 31
    → Step s t
    → Inv limit s
    → Inv limit t
Step-Inv limit small calls_get v = record { accounts = omega arith; fits = (tt, v.fits) }
Step-Inv limit small calls_put_nil v = record { accounts = omega arith; fits = (tt, v.fits) }
Step-Inv limit small cancels v = record { accounts = omega arith; fits = v.fits }
Step-Inv {A} limit {s} small (moves before after p c {p' = p'} e m) v =
    let fits : All (Fits limit) (before ++ (p ∷ after)) = subst (All (Fits limit)) e v.fits in
    let total = slots_of-append before p after in
    let same = ap slots_of e in
    let (kept, fit) =
      advance-Accounts limit s.pool c p (slots_of before + slots_of after) s.lost small
        (omega (arith, total, same)) (All-Fits-at limit before after p fits) m in
    record {
      accounts = omega (arith, slots_of-append before p' after);
      fits = (All-Fits-replace limit before after p p' fits fit).0;
    }

pub Reach-Inv :
    {A : Type 0} (limit : ℕ) {s t : System A}
    → limit < 2 ^ 31
    → Inv limit s
    → Reach s t
    → Inv limit t
Reach-Inv limit small v here = v
Reach-Inv limit small v (next r st) = Step-Inv limit small st (Reach-Inv limit small v r)

-- Whatever the interleaving, `count` is the number of items in the channel, of items that goroutines
-- have in hand or are making, and of items lost, and it never passes the limit.
pub count_bounded :
    {A : Type 0} (limit : ℕ) {s : System A}
    → limit < 2 ^ 31
    → Reach (start limit) s
    → (s.pool.count ≡ length s.pool.items + slots_of s.threads + s.lost) × (s.pool.count ≤ limit)
count_bounded limit small r = let v = Reach-Inv limit small (start-Inv limit) r in omega arith

-- An item that came from `Get` always fits: while the context is not done, the select of `Put` sends
-- it, whatever other goroutines do.
put_select_fits :
    {A : Type 0} (limit : ℕ) {s : System A} (before after : List (Pc A)) (x : A) (c : Choice A)
    → limit < 2 ^ 31
    → Reach (start limit) s
    → s.threads ≡ before ++ (put_select x ∷ after)
    → s.pool.cancelled ≡ false
    → advance s.pool c (put_select x)
      ≡ some (
        record {
          items = s.pool.items ++ x ∷ [];
          count = s.pool.count;
          limit = s.pool.limit;
          cancelled = s.pool.cancelled;
        },
        ended put_ok,
        0,
      )
unfolding advance
put_select_fits limit {s} before after x c small r e live =
    let v = Reach-Inv limit small (start-Inv limit) r in
    let total = slots_of-append before (put_select x) after in
    let room : length s.pool.items < s.pool.limit = omega (arith, total, ap slots_of e) in
    ground arith
