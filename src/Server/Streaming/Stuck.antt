-- ===== src/Server/Streaming/Stuck.antt =====
-- How a call of Publish in internal/server/server.go comes to never return.
use arke.Common.{
  ℕ, ◌≡◌, ◌≢◌, refl, ap, subst, ◌∙◌, Bool, true, false, none, some, List, [], ◌∷◌, arith,
}
use arke.Api.{Error}
use arke.Server.Streaming.Defs.{
  Reader, receiving, gone, offering, replying, reconnecting, serving, failing, Streaming, Received,
  message, end_of_stream, broken, delivered, stream_over, undelivered, Reading, receives, times_out,
  sends, set_reader, taken, read, hear, Turn, looks, answers, returns, connects, turn, Move, reads,
  turns, step, run,
}
use arke.Server.Streaming.Runs.{some_inj, run_keeps}
use arke.Server.Streaming.Answered.{any_moves}

-- What ends the client's stream.
abbrev pub ends_stream : Received → Bool
ends_stream (message m) = false
ends_stream end_of_stream = true
ends_stream (broken t) = true

-- The call has an error for a reader that is over.
Stuck : ℕ → Error → Streaming → Type 0
Stuck k e s = (s.main ≡ failing k e) × (s.readers k ≡ gone)

other_moves :
    (j k : ℕ) (p q : Reader) (readers : ℕ → Reader)
    → readers j ≡ p
    → p ≢ gone
    → readers k ≡ gone
    → set_reader j q readers k ≡ gone
other_moves j k p q readers at lives over = ground (arith, at, lives, over)

module _ (k : ℕ) (e : Error) where
  read-Stuck :
      (j : ℕ) (x : Reading) (p : Reader) (s s' : Streaming)
      → s.readers j ≡ p
      → read j x p s ≡ some s'
      → Stuck k e s
      → Stuck k e s'
  unfolding read Stuck
  read-Stuck j (receives (message m)) receiving s s' at h (main, over) =
      subst (Stuck k e) (some_inj h)
        (main, other_moves j k receiving (taken m) s.readers at (λ g. cc g) over)
  read-Stuck j (receives end_of_stream) receiving s s' at h (main, over) =
      subst (Stuck k e) (some_inj h)
        (main, other_moves j k receiving gone s.readers at (λ g. cc g) over)
  read-Stuck j (receives (broken t)) receiving s s' at h (main, over) =
      subst (Stuck k e) (some_inj h)
        (main, other_moves j k receiving gone s.readers at (λ g. cc g) over)
  read-Stuck j times_out (offering m) s s' at h (main, over) =
      subst (Stuck k e) (some_inj h)
        (main, other_moves j k (offering m) _ s.readers at (λ g. cc g) over)
  read-Stuck j (sends delivered) (replying m r stops) s s' at h (main, over) =
      subst (Stuck k e) (some_inj h)
        (main, other_moves j k (replying m r stops) _ s.readers at (λ g. cc g) over)
  read-Stuck j (sends stream_over) (replying m r stops) s s' at h (main, over) =
      subst (Stuck k e) (some_inj h)
        (main, other_moves j k (replying m r stops) gone s.readers at (λ g. cc g) over)
  read-Stuck j (sends (undelivered t)) (replying m r stops) s s' at h (main, over) =
      subst (Stuck k e) (some_inj h)
        (main, other_moves j k (replying m r stops) gone s.readers at (λ g. cc g) over)
  read-Stuck j x p s s' at h i = absurd (cc h)

  no_turn : (t : Turn) (s : Streaming) → Stuck k e s → turn t s.main s ≡ none
  unfolding Stuck turn hear
  no_turn t s (main, over) = ap (λ m. turn t m s) main ∙ go t
    where
      go : (t : Turn) → turn t (failing k e) s ≡ none
      go answers = ap (λ p. hear k (some e) reconnecting p s) over
      go (looks true) = refl
      go (looks false) = refl
      go (returns none) = refl
      go (returns (some x)) = refl
      go (connects false c) = refl
      go (connects true true) = refl
      go (connects true false) = refl
      go t = refl

  step-Stuck :
      (m : Move) (s s' : Streaming) → Unit {0} → step m s ≡ some s' → Stuck k e s → Stuck k e s'
  unfolding step
  step-Stuck (reads j x) s s' _ h i = read-Stuck j x (s.readers j) s s' refl h i
  step-Stuck (turns t) s s' _ h i = absurd (cc (h, no_turn t s i))

  closed : (s : Streaming) → set_reader k gone s.readers k ≡ gone
  closed s = ground arith

  ended_reader :
      (r : Received) (s : Streaming)
      → ends_stream r ≡ true
      → s.main ≡ failing k e
      → s.readers k ≡ receiving
      → (s' : Streaming) × (step (reads k (receives r)) s ≡ some s') × Stuck k e s'
  unfolding step read Stuck
  ended_reader (message m) s ends main at = absurd (cc ends)
  ended_reader end_of_stream s ends main at =
      (_, ap (λ p. read k (receives end_of_stream) p s) at, (main, closed s))
  ended_reader (broken t) s ends main at =
      (_, ap (λ p. read k (receives (broken t)) p s) at, (main, closed s))

run_twice :
    (s t u : Streaming) (m n : Move)
    → step m s ≡ some t
    → step n t ≡ some u
    → run (m ∷ n ∷ []) s ≡ some u
unfolding run
run_twice s t u m n g h = ground (arith, g, h)

-- While the reader of a round waits for the client, let the provider return an error and then the client's
-- stream end. The call of Publish can then only wait to send the error to that reader, whatever any
-- reader or the client does next: it never returns.
pub publish_never_returns :
    (s : Streaming) (k : ℕ) (e : Error) (r : Received)
    → s.main ≡ serving k
    → s.readers k ≡ receiving
    → ends_stream r ≡ true
    → (s' : Streaming) × (run (turns (returns (some e)) ∷ reads k (receives r) ∷ []) s ≡ some s')
      × ((moves : List Move) (s'' : Streaming) → run moves s' ≡ some s'' → s''.main ≡ failing k e)
unfolding run step turn Stuck
publish_never_returns s k e r main at ends =
    let failed : Streaming = record s { main = failing k e } in
    let (s', ended, stuck) = ended_reader k e r failed ends refl at in
    (
      s',
      run_twice s failed s' (turns (returns (some e))) (reads k (receives r))
          (ap (λ m. turn (returns (some e)) m s) main) ended,
      λ moves s'' h.
          (run_keeps (Stuck k e) (λ _. Unit) (step-Stuck k e) moves s' s'' (any_moves moves) h
            stuck).0,
    )
