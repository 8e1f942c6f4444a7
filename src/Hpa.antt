-- ===== src/Hpa.antt =====
-- MonitorHPA of internal/util/k8s.go after its set-up: the watch on the autoscalers of a namespace. The
-- delay before a notification and the names in the log are left out.
mod Examples
use arke.Common.{
  ℕ, ◌≡◌, refl, String, Bool, true, false, ◌&&◌, List, [], ◌∷◌, arith, ltb, str_eq, if◌then◌else◌,
}
use arke.Common.Int.{ℤ, pos, negsuc, ltb_ℤ}

-- An event on an autoscaler: its name, whether the event is a change, and the replicas that it has now;
-- or an event on something else, such as the error of a watch, at which the assertion of the type
-- panics. A panic is recovered and ends the monitoring. Events of watches that follow one another make
-- one list.
pub data WatchEvent : Type 0 where
  autoscaler : String → Bool → ℕ → WatchEvent
  other_object : WatchEvent

-- The number of replicas at each time that clients are told to go away, and come back.
unfoldable pub monitor_hpa : String → List WatchEvent → ℤ → List ℕ
monitor_hpa name [] current = []
monitor_hpa name (other_object ∷ events) current = []
monitor_hpa name (autoscaler n modified replicas ∷ events) current =
    let told = monitor_hpa name events (pos replicas) in
    let skipped = monitor_hpa name events current in
    if str_eq n name
    then (if modified
        then (if ltb_ℤ (pos 0) current && ltb_ℤ current (pos replicas)
            then replicas ∷ told
            else told)
        else skipped)
    else skipped

-- The counts that count: those in the changes of this autoscaler, up to a panic.
abbrev pub counts : String → List WatchEvent → List ℕ
counts name [] = []
counts name (other_object ∷ events) = []
counts name (autoscaler n modified replicas ∷ events) =
    let rest = counts name events in if str_eq n name && modified then replicas ∷ rest else rest

-- Each count that is above the one before it, which is not 0.
abbrev pub rises : ℕ → List ℕ → List ℕ
rises before [] = []
rises before (n ∷ ns) =
    let rest = rises n ns in if ltb 0 before && ltb before n then n ∷ rest else rest

abbrev pub all_rises : List ℕ → List ℕ
all_rises [] = []
all_rises (n ∷ ns) = rises n ns

monitor_hpa-rises :
    (name : String) (events : List WatchEvent) (before : ℕ)
    → monitor_hpa name events (pos before) ≡ rises before (counts name events)
unfolding monitor_hpa
monitor_hpa-rises name [] before = refl
monitor_hpa-rises name (other_object ∷ events) before = refl
monitor_hpa-rises name (autoscaler n modified replicas ∷ events) before =
    ground (arith, monitor_hpa-rises name events before, monitor_hpa-rises name events replicas)

-- Clients are told to go away exactly when the number of replicas in a change of this autoscaler is
-- above that in the change before, unless that was 0; the first change only starts the count.
pub monitor_hpa-all_rises :
    (name : String) (events : List WatchEvent)
    → monitor_hpa name events (negsuc 0) ≡ all_rises (counts name events)
unfolding monitor_hpa
monitor_hpa-all_rises name [] = refl
monitor_hpa-all_rises name (other_object ∷ events) = refl
monitor_hpa-all_rises name (autoscaler n modified replicas ∷ events) =
    ground (arith, monitor_hpa-all_rises name events, monitor_hpa-rises name events replicas)
