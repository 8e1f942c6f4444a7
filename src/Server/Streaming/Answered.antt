-- ===== src/Server/Streaming/Answered.antt =====
-- Every message that Publish of internal/server/server.go receives is answered or in a reader's hands.
use arke.Common.{
  ℕ, zero, suc, ◌+◌, ◌≤◌, ◌<◌, ◌≡◌, refl, ap, sym, subst, ◌∙◌, Bool, true, false, Option, none,
  some, List, [], ◌∷◌, length, All, arith, ◌⊎◌, inl, inr,
}
use arke.Api.{Error, Message}
use arke.Server.Requests.{published}
use arke.Server.Streaming.Defs.{
  Reader, absent, receiving, gone, offering, awaiting, replying, Main, looking, reconnecting,
  looping, serving, complaining, publishing, answering, failing, Streaming, message, end_of_stream,
  broken, delivered, stream_over, undelivered, Reading, receives, times_out, sends, refused,
  timed_out, set_reader, taken, read, hand, hear, see_closed, Turn, looks, hands, answers,
  sees_closed, loops, publishes, returns, connects, turn, Move, reads, turns, step, run,
  new_streaming,
}
use arke.Server.Streaming.Runs.{some_inj, run_keeps}

-- A reader with a message in hand.
abbrev pub weight : Reader → ℕ
weight (offering m) = 1
weight (awaiting m) = 1
weight (replying m r stops) = 1
weight _ = 0

-- The messages in the hands of the first n readers.
abbrev pub held : ℕ → (ℕ → Reader) → ℕ
held zero readers = 0
held (suc n) readers = weight (readers n) + held n readers

abbrev present : Reader → Bool
present absent = false
present _ = true

held-beyond :
    (n k : ℕ) (p : Reader) (readers : ℕ → Reader)
    → n ≤ k
    → held n (set_reader k p readers) ≡ held n readers
held-beyond zero k p readers h = refl
held-beyond (suc n) k p readers h = ground (arith, held-beyond n k p readers)

held-set_reader :
    (n k : ℕ) (p : Reader) (readers : ℕ → Reader)
    → k < n
    → held n (set_reader k p readers) + weight (readers k) ≡ held n readers + weight p
held-set_reader zero k p readers h = absurd (omega (arith, h))
held-set_reader (suc n) k p readers h = elim (ℕ-cases k n h) [
  | inl e ↦ ground (arith, e, held-beyond n k p readers)
  | inr l ↦ ground (arith, l, held-set_reader n k p readers l)
]
  where
    ℕ-cases : (k n : ℕ) → k < suc n → (k ≡ n) ⊎ (k < n)
    ℕ-cases k n h = ground (arith, h)

Accounts : Streaming → Type 0
Accounts s =
    (s.received ≡ length s.replies + held s.next s.readers)
    × ((k : ℕ) → s.next ≤ k → s.readers k ≡ absent)

weight-taken : (m : Message) → weight (taken m) ≡ 1
weight-taken m = ground arith

module _ (s : Streaming) (k : ℕ) (p : Reader) (i : Accounts s) (e : s.readers k ≡ p) where
  started : present p ≡ true → k < s.next
  unfolding Accounts
  started here = let (_, fresh) = i in ground (arith, e, here, fresh k)

  -- Reader k goes from p to q, while the counters of messages and of answers make up for it.
  moves-Accounts :
      (q : Reader) (t : Streaming)
      → present p ≡ true
      → t.next ≡ s.next
      → t.readers ≡ set_reader k q s.readers
      → t.received + length s.replies + weight p ≡ s.received + length t.replies + weight q
      → Accounts t
  unfolding Accounts
  moves-Accounts q t here same moved balance =
      let (total, fresh) = i in
      let known = started here in
      let sum : held s.next (set_reader k q s.readers) + weight (s.readers k)
          ≡ held s.next s.readers + weight q =
        held-set_reader s.next k q s.readers known in
      let now : held t.next t.readers ≡ held s.next (set_reader k q s.readers) =
        ap (λ n. held n t.readers) same ∙ ap (held s.next) moved in
      (
        omega (arith, total, sum, now, ap weight e, balance),
        λ j h. ap (λ f. f j) moved ∙ ground (arith, fresh j, known, same, h),
      )

read-Accounts :
    (k : ℕ) (x : Reading) (p : Reader) (s s' : Streaming)
    → s.readers k ≡ p
    → read k x p s ≡ some s'
    → Accounts s
    → Accounts s'
unfolding read
read-Accounts k (receives (message m)) receiving s s' e h i =
    subst Accounts (some_inj h)
      (moves-Accounts s k receiving i e (taken m) _ refl refl refl (omega (arith, weight-taken m)))
read-Accounts k (receives end_of_stream) receiving s s' e h i =
    subst Accounts (some_inj h) (moves-Accounts s k receiving i e gone _ refl refl refl refl)
read-Accounts k (receives (broken t)) receiving s s' e h i =
    subst Accounts (some_inj h) (moves-Accounts s k receiving i e gone _ refl refl refl refl)
read-Accounts k times_out (offering m) s s' e h i = subst Accounts (some_inj h) (
    moves-Accounts s k (offering m) i e (replying m (refused (some timed_out)) true) _ refl refl
      refl refl)
read-Accounts k (sends delivered) (replying m r true) s s' e h i =
    subst Accounts (some_inj h)
      (moves-Accounts s k (replying m r true) i e gone _ refl refl refl (omega arith))
read-Accounts k (sends delivered) (replying m r false) s s' e h i =
    subst Accounts (some_inj h)
      (moves-Accounts s k (replying m r false) i e receiving _ refl refl refl (omega arith))
read-Accounts k (sends stream_over) (replying m r stops) s s' e h i =
    subst Accounts (some_inj h)
      (moves-Accounts s k (replying m r stops) i e gone _ refl refl refl (omega arith))
read-Accounts k (sends (undelivered t)) (replying m r stops) s s' e h i =
    subst Accounts (some_inj h)
      (moves-Accounts s k (replying m r stops) i e gone _ refl refl refl (omega arith))
read-Accounts k x p s s' e h i = absurd (cc h)

hand-Accounts :
    (k : ℕ) (p : Reader) (s s' : Streaming)
    → s.readers k ≡ p
    → hand k p s ≡ some s'
    → Accounts s
    → Accounts s'
unfolding hand
hand-Accounts k (offering m) s s' e h i =
    subst Accounts (some_inj h)
      (moves-Accounts s k (offering m) i e (awaiting m) _ refl refl refl refl)
hand-Accounts k p s s' e h i = absurd (cc h)

hear-Accounts :
    (k : ℕ) (x : Option Error) (after : Main) (p : Reader) (s s' : Streaming)
    → s.readers k ≡ p
    → hear k x after p s ≡ some s'
    → Accounts s
    → Accounts s'
unfolding hear
hear-Accounts k x after (offering m) s s' e h i =
    subst Accounts (some_inj h)
      (moves-Accounts s k (offering m) i e (replying m (refused x) true) _ refl refl refl refl)
hear-Accounts k x after (awaiting m) s s' e h i =
    subst Accounts (some_inj h)
      (moves-Accounts s k (awaiting m) i e (replying m (published x).0 false) _ refl refl refl refl)
hear-Accounts k x after p s s' e h i = absurd (cc h)

starts-Accounts :
    (s : Streaming)
    → Accounts s
    → Accounts (record s {
      main = serving s.next;
      readers = set_reader s.next receiving s.readers;
      next = suc s.next;
    })
unfolding Accounts
starts-Accounts s (total, fresh) = (
  ground (arith, total, held-beyond s.next s.next receiving s.readers),
  λ j h. ground (arith, h, fresh j),
)

see_closed-Accounts :
    (p : Reader) (s s' : Streaming) → see_closed p s ≡ some s' → Accounts s → Accounts s'
unfolding see_closed Accounts
see_closed-Accounts gone s s' h i = subst Accounts (some_inj h) i
see_closed-Accounts p s s' h i = absurd (cc h)

turn-Accounts :
    (t : Turn) (m : Main) (s s' : Streaming) → turn t m s ≡ some s' → Accounts s → Accounts s'
unfolding turn Accounts
turn-Accounts (looks true) looking s s' h i = subst Accounts (some_inj h) (starts-Accounts s i)
turn-Accounts (looks false) looking s s' h i = subst Accounts (some_inj h) i
turn-Accounts hands (serving k) s s' h i = hand-Accounts k (s.readers k) s s' refl h i
turn-Accounts (returns none) (serving k) s s' h i = subst Accounts (some_inj h) i
turn-Accounts (returns (some e)) (serving k) s s' h i = subst Accounts (some_inj h) i
turn-Accounts sees_closed (serving k) s s' h i = see_closed-Accounts (s.readers k) s s' h i
turn-Accounts answers (complaining k m) s s' h i = hear-Accounts k _ _ (s.readers k) s s' refl h i
turn-Accounts (publishes r) (publishing k m) s s' h i = subst Accounts (some_inj h) i
turn-Accounts answers (answering k r) s s' h i = hear-Accounts k _ _ (s.readers k) s s' refl h i
turn-Accounts answers (failing k e) s s' h i = hear-Accounts k _ _ (s.readers k) s s' refl h i
turn-Accounts (connects false c) reconnecting s s' h i = subst Accounts (some_inj h) i
turn-Accounts (connects true true) reconnecting s s' h i = subst Accounts (some_inj h) i
turn-Accounts (connects true false) reconnecting s s' h i = subst Accounts (some_inj h) i
turn-Accounts loops looping s s' h i = subst Accounts (some_inj h) i
turn-Accounts t m s s' h i = absurd (cc h)

step-Accounts :
    (m : Move) (s s' : Streaming) → Unit {0} → step m s ≡ some s' → Accounts s → Accounts s'
unfolding step
step-Accounts (reads k x) s s' _ h i = read-Accounts k x (s.readers k) s s' refl h i
step-Accounts (turns t) s s' _ h i = turn-Accounts t s.main s s' h i

pub any_moves : (moves : List Move) → All (λ _. Unit {0}) moves
any_moves [] = tt
any_moves (m ∷ moves) = (tt, any_moves moves)

new_streaming-Accounts : Accounts new_streaming
unfolding new_streaming Accounts
new_streaming-Accounts = (refl, λ k h. refl)

held-one :
    (n : ℕ) (readers : ℕ → Reader)
    → n ≤ 1
    → (n ≤ 0 → readers 0 ≡ absent)
    → held n readers ≡ weight (readers 0)
held-one zero readers h fresh = ap weight (sym (fresh (omega arith)))
held-one (suc zero) readers h fresh = omega arith
held-one (suc (suc n)) readers h fresh = absurd (omega (arith, h))

-- After any steps of a call of Publish that has started at most one reader, with its reader and the
-- client, the messages received are as many as the responses that have been sent, and one more where the
-- reader still has a message in hand.
pub messages_answered :
    (moves : List Move) (s : Streaming)
    → run moves new_streaming ≡ some s
    → s.next ≤ 1
    → s.received ≡ length s.replies + weight (s.readers 0)
unfolding Accounts
messages_answered moves s h one =
    let (total, fresh) =
      run_keeps Accounts (λ _. Unit) step-Accounts moves new_streaming s (any_moves moves) h
        new_streaming-Accounts in
    total ∙ ap (λ n. length s.replies + n) (held-one s.next s.readers one (fresh 0))
