-- ===== src/Server/Health/Crash.antt =====
-- How a health stream that ends can end the server: MonitorHealthChan of internal/server/server.go looks
-- a channel up and then sends on it, and between the two its Check can close it.
use arke.Common.{ℕ, String, ◌≡◌, refl, ap, ◌∙◌, none, some, List, [], ◌∷◌, arith, ◌==◌}
use arke.ConcurrentMap.{delete_if_equal}
use arke.Server.Health.Defs.{
  Code, Pc, serving, leaving, closing, ended, sending, Action, Turn, receives, looks_up, panicked,
  Health, context_done, unregisters, closes, hands_over, set_call, act, hand, turn, Move, call,
  monitors, step, run,
}

-- The call ends while the goroutine is about to send to it.
abbrev pub ends_meanwhile : ℕ → List Move
ends_meanwhile k =
    call k context_done ∷ call k unregisters ∷ call k closes ∷ monitors hands_over ∷ []

set_call_self : (k : ℕ) (p : Pc) (calls : ℕ → Pc) → set_call k p calls k ≡ p
set_call_self k p calls = ground arith

step_call :
    (k : ℕ) (x : Action) (p : Pc) (s : Health) → s.calls k ≡ p → step (call k x) s ≡ act k x p s
unfolding step
step_call k x p s e = ap (λ q. act k x q s) e

run-cons :
    (m : Move) (moves : List Move) (s t : Health)
    → step m s ≡ some t
    → run (m ∷ moves) s ≡ run moves t
unfolding run
run-cons m moves s t e = ground (arith, e)

no_turn : (t : Turn) (s : Health) → turn t panicked s ≡ none
unfolding turn
no_turn (receives code) s = refl
no_turn looks_up s = refl
no_turn hands_over s = refl

-- Whenever the goroutine that passes codes on is about to send to a call that waits for them, the call
-- can end first: it takes its three last steps, and the send, on a channel that is then closed, panics.
-- No step of that goroutine follows.
pub send_panics :
    (s : Health) (code : Code) (k : ℕ) (rest : List String) (addr : String)
    → s.monitor ≡ sending code k rest
    → s.calls k ≡ serving addr
    → (s' : Health) × (run (ends_meanwhile k) s ≡ some s')
      × (s'.monitor ≡ panicked)
      × ((t : Turn) → step (monitors t) s' ≡ none)
unfolding run step act turn hand
send_panics s code k rest addr m e =
    let one : Health = record s { calls = set_call k (leaving addr) s.calls } in
    let two : Health = record one {
      calls = set_call k closing one.calls;
      notifiers = (delete_if_equal ◌==◌ s.notifiers addr k).0;
    } in
    let three : Health = record two { calls = set_call k ended two.calls } in
    let done : Health = record three { monitor = panicked } in
    let out = step_call k context_done (serving addr) s e in
    let off = step_call k unregisters (leaving addr) one (set_call_self k (leaving addr) s.calls) in
    let shut = step_call k closes closing two (set_call_self k closing one.calls) in
    let sends : step (monitors hands_over) three ≡ some done =
      ap (λ q. turn hands_over q three) m
      ∙ ap (λ p. hand code k rest p three) (set_call_self k ended two.calls) in
    (
      done,
      run-cons (call k context_done) (call k unregisters ∷ call k closes ∷ monitors hands_over ∷ [])
            s one out
          ∙ run-cons (call k unregisters) (call k closes ∷ monitors hands_over ∷ []) one two off
          ∙ run-cons (call k closes) (monitors hands_over ∷ []) two three shut
          ∙ run-cons (monitors hands_over) [] three done sends,
      refl,
      (λ t. no_turn t done),
    )
