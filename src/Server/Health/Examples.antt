-- ===== src/Server/Health/Examples.antt =====
-- Two health streams of one address, for the theorems on health streams.
use arke.Common.{ℕ, ◌≡◌, refl, ◌↔◌, ◌≢◌, true, none, some, List, [], ◌∷◌}
use arke.ConcurrentMap.{new_concurrent_map, add, get, delete_if_equal}
use arke.Server.Health.Defs.{
  ok, go_away, absent, made, greeting, serving, leaving, closing, idle, sending, panicked, Health,
  arrives, registers, greets, context_done, unregisters, Turn, set_call, act, Move, call, monitors,
  step, run, new_health,
}
use arke.Server.Health.Registered.{unregisters_own}
use arke.Server.Health.Crash.{ends_meanwhile, send_panics}

-- The second call of an address takes the first one's place in the map.
abbrev two_calls : List Move
two_calls =
    call 0 (arrives "10.0.0.1:4000")
    ∷ call 0 registers
    ∷ call 0 (greets ok true)
    ∷ call 1 (arrives "10.0.0.1:4000")
    ∷ call 1 registers
    ∷ call 0 context_done
    ∷ []

abbrev replaced : Health
replaced = record {
  calls = set_call 0 (leaving "10.0.0.1:4000") (
      set_call 1 (greeting "10.0.0.1:4000") (
        set_call 1 (made "10.0.0.1:4000") (
          set_call 0 (serving "10.0.0.1:4000") (
            set_call 0 (greeting "10.0.0.1:4000")
              (set_call 0 (made "10.0.0.1:4000") (λ _. absent))))));
  notifiers = add (add new_concurrent_map "10.0.0.1:4000" 0) "10.0.0.1:4000" 1;
  monitor = idle;
  sent = (0, ok) ∷ [];
}

runs_two : run two_calls new_health ≡ some replaced
unfolding run step act new_health
runs_two = refl

abbrev first_off : Health
first_off = record replaced { calls = set_call 0 closing replaced.calls }

first_unregisters : step (call 0 unregisters) replaced ≡ some first_off
unfolding step act delete_if_equal add new_concurrent_map
first_unregisters = refl

unregisters_own_example :
    (get first_off.notifiers "10.0.0.1:4000" ≡ some 1)
    ↔ ((get replaced.notifiers "10.0.0.1:4000" ≡ some 1) × (◌≢◌ {A = ℕ} 1 0))
unregisters_own_example =
    unregisters_own two_calls replaced first_off 0 runs_two first_unregisters "10.0.0.1:4000" 1

abbrev about_to_send : Health
about_to_send = record {
  calls = set_call 0 (serving "10.0.0.1:4000") (λ _. absent);
  notifiers = add new_concurrent_map "10.0.0.1:4000" 0;
  monitor = sending go_away 0 [];
  sent = [];
}

send_panics_example :
    (s' : Health) × (run (ends_meanwhile 0) about_to_send ≡ some s')
    × (s'.monitor ≡ panicked)
    × ((t : Turn) → step (monitors t) s' ≡ none)
send_panics_example = send_panics about_to_send go_away 0 [] "10.0.0.1:4000" refl refl
