-- ===== src/BlockingLatch/Bounds.antt =====
-- The latch of internal/util/blocking_latch.go counts the messages in flight, and never lets more in
-- than its maximum.
use arke.Common.{ℕ, ◌+◌, ◌≤◌, ◌<◌, ◌^◌, ◌≡◌, refl, some, arith}
use arke.BlockingLatch.Defs.{
  BlockingLatch, Pc, entering, parking, waiting, ended, below_max, empty, advance, decrement,
  set_max, new_blocking_latch,
}
use arke.BlockingLatch.System.{
  System, gained, Step, calls, moves, decrements, decrements_wakes, sets_max, cancels, calls_back,
  start, Reach, here, next,
}

record Inv (l : BlockingLatch) (held peak : ℕ) : Type 0 where
  counted : l.count ≡ held
  bounded : held ≤ peak
  max_bounded : l.max ≤ peak
  fits : peak < 2 ^ 64

advance-Inv :
    (p p' : Pc) (l l' : BlockingLatch) (held peak : ℕ)
    → advance p l ≡ some (l', p')
    → Inv l held peak
    → Inv l' (held + gained p') peak
unfolding advance
advance-Inv (entering below_max) p' l l' held peak e v = ground (arith, v)
advance-Inv (entering empty) p' l l' held peak e v = ground (arith, v)
advance-Inv (parking g) p' l l' held peak e v = ground (arith, v)
advance-Inv (waiting g) p' l l' held peak e v = ground arith
advance-Inv (ended x) p' l l' held peak e v = ground arith

-- Once there has been one Decrement too many, nothing is known.
abbrev Kept : System → Type 0
Kept s = s.excess ≡ 0 → Inv s.latch s.held s.peak

Step-Kept : (s t : System) → Step s t → Kept s → Kept t
unfolding decrement set_max
Step-Kept s t (calls g) v h = v h
Step-Kept s t (moves before after g l p e m) v h =
    advance-Inv g.pc p s.latch l s.held s.peak m (v h)
Step-Kept s t (decrements u no_waiter) v h =
    let before : s.excess ≡ 0 = omega arith in
    let i = v before in
    let some_held : 0 < s.held = omega arith in
    record {
      counted = ground (arith, i.counted, some_held, i.bounded, i.fits);
      bounded = omega (arith, i.bounded);
      max_bounded = i.max_bounded;
      fits = i.fits;
    }
Step-Kept s t (decrements_wakes before after goal armed u e) v h =
    let still : s.excess ≡ 0 = omega arith in
    let i = v still in
    let some_held : 0 < s.held = omega arith in
    record {
      counted = ground (arith, i.counted, some_held, i.bounded, i.fits);
      bounded = omega (arith, i.bounded);
      max_bounded = i.max_bounded;
      fits = i.fits;
    }
Step-Kept s t (sets_max m u small) v h =
    let i = v h in ground (arith, i.counted, i.bounded, i.max_bounded, i.fits, small)
Step-Kept s t cancels v h =
    let i = v h in ground (arith, i.counted, i.bounded, i.max_bounded, i.fits)
Step-Kept s t (calls_back before after p c e) v h = v h

Reach-Kept : (s t : System) → Reach s t → Kept s → Kept t
Reach-Kept s t here v = v
Reach-Kept s t (next r st) v = Step-Kept _ t st (Reach-Kept s _ r v)

-- Increments, Decrements, waits, changes of the maximum and the cancelling of the context interleave in
-- any way, and the maxima are below 2 ^ 64. If no Decrement came when there was no Increment left to
-- undo, the count is the number of Increments that have succeeded and not been undone, and it is at
-- most the largest maximum so far.
pub held_bounded :
    (m : ℕ) (s : System)
    → m < 2 ^ 64
    → Reach (start m) s
    → s.excess ≡ 0
    → (s.latch.count ≡ s.held) × (s.held ≤ s.peak)
unfolding new_blocking_latch
held_bounded m s small r none_too_many =
    let v =
      Reach-Kept (start m) s r
        (λ _. record {
          counted = refl;
          bounded = omega arith;
          max_bounded = omega arith;
          fits = small;
        })
        none_too_many in
    (v.counted, v.bounded)
