-- ===== src/Amqp/Streams/Tries.antt =====
-- The ten tries of GetPublisher in internal/provider/connectors/amqp091/streamshim.go, where no publisher
-- is idle and no other goroutine uses the pool.
use arke.Common.{
  ◌||◌, subst, ℕ, zero, suc, ◌+◌, ◌<◌, ◌≤◌, ◌^◌, Bool, true, false, Option, Option-cases, inl, inr,
  none, some, [], ◌≡◌, ◌==◌, ap, ◌∙◌, arith, if◌then◌else◌,
}
use arke.Common.Word.{lt32, add32}
use arke.BlockingPool.{BlockingPool, Ending, Pc, Choice, advance}
use arke.Amqp.Streams.Pooled.{Alone, run_alone, get_alone, tries}

lt32_lem : (a b : ℕ) → a < b → b < 2 ^ 31 → lt32 a b ≡ true
lt32_lem a b less small = ground arith

same : (a : ℕ) → (a == a) ≡ true
same a = ground arith

lt32_same : (a : ℕ) → lt32 a a ≡ false
lt32_same a = ground arith

add32_lem : (a : ℕ) → a < 2 ^ 31 → add32 a 1 ≡ suc a
add32_lem a small = omega arith

module _ {A : Type 0} where
  -- A pool without idle items, of whose slots `taken` are taken.
  abbrev pub idle : ℕ → ℕ → Bool → BlockingPool A
  idle taken limit cancelled = record {
    items = [];
    count = taken;
    limit = limit;
    cancelled = cancelled;
  }

  abbrev pub answer : Option A → Alone A
  answer none = Alone.finished Ending.got_nil
  answer (some x) = Alone.holds x

  load :
      (c : Choice A) (taken limit : ℕ) (cancelled : Bool)
      → taken < limit
      → limit < 2 ^ 31
      → advance (idle taken limit cancelled) c Pc.get_load
        ≡ some (idle taken limit cancelled, Pc.get_cas taken, 0)
  unfolding advance
  load c taken limit cancelled less small = ground arith

  swap :
      (c : Choice A) (taken limit : ℕ) (cancelled : Bool)
      → taken < limit
      → limit < 2 ^ 31
      → advance (idle taken limit cancelled) c (Pc.get_cas taken)
        ≡ some (idle (suc taken) limit cancelled, Pc.get_new, 0)
  unfolding advance
  swap c taken limit cancelled less small = ground arith

  run-load :
      (n : ℕ) (c : Choice A) (p q : BlockingPool A) (pc : Pc A) (lost : ℕ)
      → advance p c Pc.get_load ≡ some (q, pc, lost)
      → run_alone (suc n) c p Pc.get_load ≡ run_alone n c q pc
  unfolding run_alone
  run-load n c p q pc lost e = ground (arith, e)

  run-swap :
      (n : ℕ) (c : Choice A) (p q : BlockingPool A) (current : ℕ) (pc : Pc A) (lost : ℕ)
      → advance p c (Pc.get_cas current) ≡ some (q, pc, lost)
      → run_alone (suc n) c p (Pc.get_cas current) ≡ run_alone n c q pc
  unfolding run_alone
  run-swap n c p q current pc lost e = ground (arith, e)

  run-new : (c : Choice A) (p : BlockingPool A) → run_alone 3 c p Pc.get_new ≡ (p, answer c.made)
  unfolding run_alone advance
  run-new c p = elim (Option-cases c.made) [
    | inl e ↦ ground (arith, e)
    | inr (x, e) ↦ ground (arith, e)
  ]

  get_alone-free :
      (made : Option A) (take_item : Bool) (taken limit : ℕ) (cancelled : Bool)
      → taken < limit
      → limit < 2 ^ 31
      → get_alone made take_item (idle taken limit cancelled)
        ≡ (idle (suc taken) limit cancelled, answer made)
  unfolding get_alone run_alone advance
  get_alone-free made take_item taken limit cancelled less small =
      let c : Choice A = record { valid = true; made = made; take_item = take_item } in
      run-load 4 c _ _ _ _ (load c taken limit cancelled less small)
      ∙ run-swap 3 c _ _ _ _ _ (swap c taken limit cancelled less small)
      ∙ run-new c (idle (suc taken) limit cancelled)

  get_alone-full :
      (made : Option A) (take_item : Bool) (taken : ℕ) (cancelled : Bool)
      → get_alone made take_item (idle taken taken cancelled) ≡ (
        idle taken taken cancelled,
        if cancelled then Alone.finished Ending.got_nil else Alone.blocks,
      )
  unfolding get_alone run_alone advance
  get_alone-full made take_item taken true = ground arith
  get_alone-full made take_item taken false = ground arith

  -- The first item that is made in `n` turns from the i-th on.
  unfoldable pub first_made : ℕ → (ℕ → Option A) → ℕ → Option A
  first_made zero made i = none
  first_made (suc n) made i = elim (made i) [ some x ↦ some x | none ↦ first_made n made (suc i) ]

  -- How many of `n` turns it takes: all of them where nothing is made.
  unfoldable pub turns : ℕ → (ℕ → Option A) → ℕ → ℕ
  turns zero made i = 0
  turns (suc n) made i = elim (made i) [ some x ↦ 1 | none ↦ suc (turns n made (suc i)) ]

  unfoldable pub outcome : Option A → Bool → Alone A
  outcome (some x) returns = Alone.holds x
  outcome none returns = if returns then Alone.finished Ending.got_nil else Alone.blocks

  pub turns_le : (n : ℕ) (made : ℕ → Option A) (i : ℕ) → turns n made i ≤ n
  unfolding turns
  turns_le zero made i = omega arith
  turns_le (suc n) made i =
      let rest = turns_le n made (suc i) in
      elim (Option-cases (made i)) [
        | inl e ↦ ground (arith, e, rest)
        | inr (x, e) ↦ ground (arith, e)
      ]

  pub turns-pos : (n : ℕ) (made : ℕ → Option A) (i : ℕ) → 0 < n → 0 < turns n made i
  unfolding turns
  turns-pos zero made i h = absurd (omega arith)
  turns-pos (suc n) made i h = elim (Option-cases (made i)) [
    | inl e ↦ ground (arith, e)
    | inr (x, e) ↦ ground (arith, e)
  ]

  tries-full :
      (n : ℕ) (made : ℕ → Option A) (take_item : Bool) (i taken : ℕ) (cancelled : Bool)
      → tries n made take_item i (idle taken taken cancelled)
        ≡ (idle taken taken cancelled, outcome none (n == 0 || cancelled))
  unfolding tries outcome
  tries-full zero made take_item i taken cancelled = ground arith
  tries-full (suc n) made take_item i taken true = ground (
    arith,
    get_alone-full (made i) take_item taken true,
    tries-full n made take_item (suc i) taken true,
  )
  tries-full (suc n) made take_item i taken false =
      ground (arith, get_alone-full (made i) take_item taken false)

  tries-none :
      (n : ℕ) (made : ℕ → Option A) (take_item : Bool) (i : ℕ) (p q : BlockingPool A)
      → get_alone (made i) take_item p ≡ (q, Alone.finished Ending.got_nil)
      → tries (suc n) made take_item i p ≡ tries n made take_item (suc i) q
  unfolding tries
  tries-none n made take_item i p q e = ground (arith, e)

  tries-some :
      (n : ℕ) (made : ℕ → Option A) (take_item : Bool) (i : ℕ) (p q : BlockingPool A) (x : A)
      → get_alone (made i) take_item p ≡ (q, Alone.holds x)
      → tries (suc n) made take_item i p ≡ (q, Alone.holds x)
  unfolding tries
  tries-some n made take_item i p q x e = ground (arith, e)

  pub tries_lem :
      (free n extra : ℕ) (made : ℕ → Option A) (take_item : Bool) (i taken limit : ℕ)
      (cancelled : Bool)
      → n ≡ free + extra
      → taken + free ≡ limit
      → limit < 2 ^ 31
      → tries n made take_item i (idle taken limit cancelled) ≡ (
        idle (taken + turns free made i) limit cancelled,
        outcome (first_made free made i) (extra == 0 || cancelled),
      )
  unfolding turns first_made outcome
  tries_lem zero n extra made take_item i taken limit cancelled total e small =
      let full : taken ≡ limit = omega arith in
      let as_it_was : taken ≡ taken + 0 = omega arith in
      let left : n ≡ extra = omega arith in
      subst
        (λ l.
          tries n made take_item i (idle taken l cancelled)
          ≡ (idle taken l cancelled, outcome none (n == 0 || cancelled)))
        full (tries-full n made take_item i taken cancelled)
      ∙ ap (λ k. (idle k limit cancelled, outcome none (n == 0 || cancelled))) as_it_was
      ∙ ap (λ k. (idle (taken + 0) limit cancelled, outcome none (k == 0 || cancelled))) left
  tries_lem (suc free) zero extra made take_item i taken limit cancelled total e small =
      absurd (omega arith)
  tries_lem (suc free) (suc n) extra made take_item i taken limit cancelled total e small =
      let rest =
        tries_lem free n extra made take_item (suc i) (suc taken) limit cancelled (omega arith)
          (omega arith) small in
      let one = get_alone-free (made i) take_item taken limit cancelled (omega arith) small in
      elim (Option-cases (made i)) [
        | inl g ↦
            tries-none n made take_item i _ (idle (suc taken) limit cancelled)
              (one ∙ ap (λ m. (idle (suc taken) limit cancelled, answer m)) g)
            ∙ ground (arith, rest, g)
        | inr (x, g) ↦
            tries-some n made take_item i _ (idle (suc taken) limit cancelled) x
              (one ∙ ap (λ m. (idle (suc taken) limit cancelled, answer m)) g)
            ∙ ground (arith, g)
      ]
