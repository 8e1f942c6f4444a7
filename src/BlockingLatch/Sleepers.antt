-- ===== src/BlockingLatch/Sleepers.antt =====
-- A wait that the cancelled context does not end: the callback of internal/util/blocking_latch.go
-- broadcasts without the lock, so it may run between a goroutine's test of the context and its `Wait`.
use arke.Common.{
  ℕ, ◌+◌, ◌≤◌, ◌<◌, ◌≡◌, refl, sym, ◌∙◌, ◌⊎◌, inl, inr, Bool, true, false, List, [], ◌∷◌, ◌++◌,
  arith,
}
use arke.BlockingLatch.Defs.{
  BlockingLatch, Pc, entering, parking, waiting, below_max, Goroutine, advance, disarm,
}
use arke.BlockingLatch.System.{
  System, Step, calls, moves, decrements, decrements_wakes, sets_max, cancels, calls_back, Reach,
  here, next,
}

abbrev pub sleeper : Goroutine
sleeper = record { pc = waiting below_max; armed = false }

one_goroutine :
    (before after : List Goroutine) (g h : Goroutine)
    → g ∷ [] ≡ before ++ (h ∷ after)
    → (before ≡ []) × (after ≡ []) × (h ≡ g)
one_goroutine [] after g h e = ground arith
one_goroutine (x ∷ []) after g h e = ground arith
one_goroutine (x ∷ y ∷ before) after g h e = ground arith

-- What a step can do to a goroutine that waits alone with its callback run.
abbrev Undisturbed : System → System → Type 0
Undisturbed t u =
    (u.goroutines ≡ t.goroutines)
    ⊎ ((g : Goroutine) × (u.goroutines ≡ g ∷ t.goroutines))
    ⊎ (u.held + t.excess < t.held + u.excess)

undisturbed : (t u : System) → t.goroutines ≡ sleeper ∷ [] → Step t u → Undisturbed t u
unfolding advance
undisturbed t u h (calls g) = inr (inl (record { pc = entering g; armed = true }, refl))
undisturbed t u h (moves before after g l p e m) =
    let (_, _, same) = one_goroutine before after sleeper g (sym h ∙ e) in
    absurd (ground (arith, same))
undisturbed t u h (decrements f w) = inr (inr (omega arith))
undisturbed t u h (decrements_wakes before after goal armed f e) = inr (inr (omega arith))
undisturbed t u h (sets_max m f small) = inl refl
undisturbed t u h cancels = inl refl
undisturbed t u h (calls_back before after p c e) =
    let (_, _, same) =
      one_goroutine before after sleeper (record { pc = p; armed = true }) (sym h ∙ e) in
    absurd (ground (arith, same))

-- From a full latch that no goroutine uses and whose context is live, one Increment can come to wait
-- for ever although the context is done: a state can be reached in which the context is done and that
-- goroutine waits, and in which a step that is neither a new call nor a Decrement leaves it waiting. A
-- Decrement undoes an Increment that is held or counts as one too many.
pub increment_sleeps :
    (s : System)
    → s.goroutines ≡ []
    → s.latch.max ≤ s.latch.count
    → s.latch.cancelled ≡ false
    → s.latch.locked ≡ false
    → (t : System) × Reach s t
      × (t.latch.cancelled ≡ true)
      × (t.goroutines ≡ sleeper ∷ [])
      × ((u : System)
          → Step t u
          → (u.goroutines ≡ t.goroutines)
            ⊎ ((g : Goroutine) × (u.goroutines ≡ g ∷ t.goroutines))
            ⊎ (u.held + t.excess < t.held + u.excess))
unfolding advance disarm
increment_sleeps s alone full live free =
    (asleep, path, refl, refl, λ u st. undisturbed asleep u refl st)
  where
    latch : Bool → Bool → BlockingLatch
    latch cancelled locked = record {
      count = s.latch.count;
      max = s.latch.max;
      cancelled = cancelled;
      locked = locked;
    }

    at : Bool → Bool → Pc → Bool → ℕ → System
    at cancelled locked p armed n = record {
      latch = latch cancelled locked;
      goroutines = record { pc = p; armed = armed } ∷ [];
      held = n;
      excess = s.excess;
      peak = s.peak;
    }

    asleep : System
    asleep = at true false (waiting below_max) false (s.held + 0 + 0)

    path : Reach s asleep
    path =
        next
          (next
            (next
              (next (next here (calls below_max)) (
                moves [] [] (record { pc = entering below_max; armed = true }) (latch false true)
                  (parking below_max) (ground arith) (ground arith)))
              cancels)
            (calls_back [] [] (parking below_max) refl refl))
          (moves [] [] (record { pc = parking below_max; armed = false }) (latch true false)
            (waiting below_max) refl refl)
