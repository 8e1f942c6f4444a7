-- ===== src/Server/Health/Defs.antt =====
-- Health streams of internal/server/server.go: Check, notifyHealth and MonitorHealthChan, as steps of any
-- number of Check calls and of the one goroutine that passes on what MonitorHPA of internal/util/k8s.go
-- sends. A call stands for its channel: both have the same number.
use arke.Common.{
  ℕ, String, Bool, true, false, Option, none, some, List, [], ◌∷◌, ◌==◌, if◌then◌else◌,
}
use arke.ConcurrentMap.{ConcurrentMap, new_concurrent_map, add, get, get_list, delete_if_equal}

pub data Code : Type 0 where
  ok unhealthy go_away : Code

-- Where a call is: before it; its channel is made; it is registered and sends the first status; it waits
-- for codes; it is on its way out, with its deferred function to run; that function has looked at the
-- map and has still to close the channel; it is over and its channel is closed.
pub data Pc : Type 0 where
  absent : Pc
  made greeting serving leaving : String → Pc
  closing ended : Pc

-- The goroutine waits for a code, goes through the addresses, is about to send on a channel that it has
-- looked up, or has panicked.
pub data Monitor : Type 0 where
  idle : Monitor
  listing : Code → List String → Monitor
  sending : Code → ℕ → List String → Monitor
  panicked : Monitor

-- `sent` holds what clients were sent, the newest first.
pub record Health : Type 0 where
  pub calls : ℕ → Pc
  pub notifiers : ConcurrentMap ℕ
  pub monitor : Monitor
  pub sent : List (ℕ × Code)

pub data Action : Type 0 where
  arrives : String → Action
  registers : Action
  greets : Code → Bool → Action
  answers : Code → Action
  context_done unregisters closes : Action

-- What the goroutine that passes codes on does next.
pub data Turn : Type 0 where
  receives : Code → Turn
  looks_up hands_over : Turn

abbrev pub set_call : ℕ → Pc → (ℕ → Pc) → ℕ → Pc
set_call k p calls j = if k == j then p else calls j

abbrev moved : ℕ → Pc → Health → Option Health
moved k p s = some (record s { calls = set_call k p s.calls })

-- The next step of call k, none where it cannot take it.
unfoldable pub act : ℕ → Action → Pc → Health → Option Health
act k (arrives addr) absent s = moved k (made addr) s
act k registers (made addr) s =
    moved k (greeting addr) (record s { notifiers = add s.notifiers addr k })
act k (greets code true) (greeting addr) s =
    moved k (serving addr) (record s { sent = (k, code) ∷ s.sent })
act k (greets code false) (greeting addr) s = moved k (leaving addr) s
act k (answers code) (serving addr) s = some (record s { sent = (k, code) ∷ s.sent })
act k context_done (serving addr) s = moved k (leaving addr) s
act k unregisters (leaving addr) s =
    moved k closing (record s { notifiers = (delete_if_equal ◌==◌ s.notifiers addr k).0 })
act k closes closing s = moved k ended s
act k _ _ s = none

-- A send on a channel without a buffer: it needs a call that waits for codes, and panics if the channel
-- is closed.
unfoldable pub hand : Code → ℕ → List String → Pc → Health → Option Health
hand code k rest (serving addr) s =
    some (record s { monitor = listing code rest; sent = (k, code) ∷ s.sent })
hand code k rest ended s = some (record s { monitor = panicked })
hand code k rest _ s = none

unfoldable pub turn : Turn → Monitor → Health → Option Health
turn (receives code) idle s = some (record s { monitor = listing code (get_list s.notifiers) })
turn looks_up (listing code []) s = some (record s { monitor = idle })
turn looks_up (listing code (addr ∷ rest)) s = some (record s {
  monitor = elim (get s.notifiers addr) [ none ↦ listing code rest | some k ↦ sending code k rest ];
})
turn hands_over (sending code k rest) s = hand code k rest (s.calls k) s
turn _ _ s = none

pub data Move : Type 0 where
  call : ℕ → Action → Move
  monitors : Turn → Move

unfoldable pub step : Move → Health → Option Health
step (call k a) s = act k a (s.calls k) s
step (monitors t) s = turn t s.monitor s

unfoldable pub run : List Move → Health → Option Health
run [] s = some s
run (m ∷ moves) s = elim (step m s) [ none ↦ none | some s' ↦ run moves s' ]

unfoldable pub new_health : Health
new_health = record {
  calls = λ _. absent;
  notifiers = new_concurrent_map;
  monitor = idle;
  sent = [];
}
