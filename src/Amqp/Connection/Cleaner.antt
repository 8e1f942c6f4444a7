-- ===== src/Amqp/Connection/Cleaner.antt =====
-- connectionCleaner of internal/provider/connectors/amqp091/cleaner.go: one tick of it. Times are whole
-- seconds, `now` is the time of the tick, and a disconnected client's details are closed.
use arke.Common.{
  ℕ, ◌-◌, String, ◌≡◌, refl, Bool, false, ◌&&◌, Option, none, some, List, [], ◌∷◌, arith, str_eq,
  eq_iff, ltb, if◌then◌else◌,
}
use arke.Common.Int.{pos, ltb_ℤ}
use arke.ConcurrentMap.{ConcurrentMap, get, get_list, get-delete, contains, contains-get_list}
use arke.Amqp.Connection.Defs.{Details, disconnect_client}

-- `cleanInterval`
abbrev pub clean_interval : ℕ
clean_interval = 30

-- No stream, and none opened or closed for longer than the interval.
unfoldable pub is_idle : ℕ → Details → Bool
is_idle now d = ltb_ℤ d.active_streams (pos 1) && ltb clean_interval (now - d.last_event)

unfoldable pub clean_found :
    ℕ → String → Option Details → ConcurrentMap Details → ConcurrentMap Details
clean_found now id none m = m
clean_found now id (some d) m = if is_idle now d then (disconnect_client id m).1 else m

unfoldable pub clean_each : ℕ → List String → ConcurrentMap Details → ConcurrentMap Details
unfolding clean_found
clean_each now [] m = m
clean_each now (id ∷ ids) m = clean_each now ids (clean_found now id (get m id) m)

unfoldable pub clean : ℕ → ConcurrentMap Details → ConcurrentMap Details
unfolding clean_each
clean now m = clean_each now (get_list m) m

abbrev pub if_idle : ℕ → Option Details → Bool
if_idle now none = false
if_idle now (some d) = is_idle now d

get-clean_found :
    (now : ℕ) (id : String) (m : ConcurrentMap Details) (j : String)
    → get (clean_found now id (get m id) m) j
      ≡ (if str_eq id j && if_idle now (get m j) then none else get m j)
unfolding clean_found disconnect_client
get-clean_found now id m j = ground (arith, get-delete m id j, eq_iff id j)

get-clean_each :
    (now : ℕ) (ids : List String) (m : ConcurrentMap Details) (j : String)
    → get (clean_each now ids m) j
      ≡ (if contains j ids && if_idle now (get m j) then none else get m j)
unfolding clean_each
get-clean_each now [] m j = refl
get-clean_each now (id ∷ ids) m j =
    let rest = get-clean_each now ids (clean_found now id (get m id) m) j in
    ground (arith, rest, get-clean_found now id m j)

-- A tick disconnects exactly the clients that have no stream and have neither opened nor closed one
-- for more than the interval, and leaves the details of every other client as they were.
get-clean :
    (now : ℕ) (m : ConcurrentMap Details) (j : String)
    → get (clean now m) j ≡ (if if_idle now (get m j) then none else get m j)
unfolding clean
get-clean now m j = ground (arith, get-clean_each now (get_list m) m j, contains-get_list m j)
