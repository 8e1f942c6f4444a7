-- ===== src/Amqp/Connection/Watcher.antt =====
-- connectionWatcher of internal/provider/connectors/amqp091/amqp091.go, after the connection has been
-- lost: it dials until a dial succeeds or the client disconnects. The list has one entry for each
-- round of its loop, which says whether another goroutine has disconnected the client by then.
use arke.Common.{
  ℕ, zero, suc, ◌+◌, ◌<◌, String, ◌≡◌, refl, Bool, true, false, ◌||◌, none, is_some, List, [], ◌∷◌,
  ◌++◌, arith, replicate, if◌then◌else◌,
}
use arke.Amqp.Connection.Defs.{
  Details, Dial, disconnected, connected, connection_text, connect, connect_locked, prepared,
}

abbrev noticed : Bool → Details → Details
noticed gone d = record d { client_disconnect = gone || d.client_disconnect }

module _ (dial : Dial) where
  unfoldable pub reconnect : List Bool → Details → Details
  reconnect [] d = d
  reconnect (gone ∷ rounds) d =
      let d1 = noticed gone d in
      let (up, _, d2) = connect dial (disconnected, d1) d1 in
      let later = reconnect rounds (record d2 { state = disconnected }) in
      if d1.client_disconnect then d1 else (if up then d2 else later)

  -- The watcher on a lost connection.
  unfoldable pub connection_lost : List Bool → Details → Details
  connection_lost rounds d = reconnect rounds (record d { state = disconnected })

  -- The text that every dial of these details uses.
  abbrev pub text_of : Details → String
  text_of d = connection_text d.configuration.tls d.configuration

  -- A dial that succeeds, and one that fails, on a connection that is down.
  dial_succeeds :
      (d : Details)
      → d.client_disconnect ≡ false
      → d.state ≡ disconnected
      → dial d.dials (text_of d) ≡ none
      → let (up, _, d') = connect dial (disconnected, d) d in
        (up ≡ true) × (d'.state ≡ connected) × (d'.is_open ≡ true) × (d'.dials ≡ d.dials + 1)
  unfolding connect connect_locked prepared
  dial_succeeds d live down works = (ground arith, ground arith, ground arith, ground arith)

  dial_fails :
      (d : Details)
      → d.client_disconnect ≡ false
      → d.state ≡ disconnected
      → is_some (dial d.dials (text_of d)) ≡ true
      → let (up, _, d') = connect dial (disconnected, d) d in
        (up ≡ false)
        × (d'.client_disconnect ≡ false)
        × (d'.dials ≡ d.dials + 1)
        × (text_of d' ≡ text_of d)
  unfolding connect connect_locked prepared
  dial_fails d live down fails = (ground arith, ground arith, ground arith, ground arith)

  -- The watcher dials once and then again after each failure: with k failures and then a success, and
  -- more than k rounds in which the client does not disconnect, it has dialled k + 1 times, and the
  -- connection is up.
  pub connection_lost_reaches :
      (k n : ℕ) (d : Details)
      → k < n
      → d.client_disconnect ≡ false
      → ((j : ℕ) → j < k → is_some (dial (d.dials + j) (text_of d)) ≡ true)
      → dial (d.dials + k) (text_of d) ≡ none
      → let d' = connection_lost (replicate n false) d in
        (d'.state ≡ connected) × (d'.is_open ≡ true) × (d'.dials ≡ d.dials + k + 1)
  unfolding reconnect connection_lost
  connection_lost_reaches k zero d h live fails works = absurd (omega arith)
  connection_lost_reaches zero (suc n) d h live fails works =
      let r = dial_succeeds (record d { state = disconnected }) live refl (ground (arith, works)) in
      (ground (arith, r), ground (arith, r), ground (arith, r))
  connection_lost_reaches (suc k) (suc n) d h live fails works =
      let down = record d { state = disconnected } in
      let r = dial_fails down live refl (ground (arith, fails 0)) in
      let d' = (connect dial (disconnected, down) down).2 in
      let same : text_of d' ≡ text_of d = r.3 in
      let later : (j : ℕ) → d'.dials + j ≡ d.dials + suc j = λ j. omega (arith, r.2) in
      let rest =
        connection_lost_reaches k n d' (omega arith) r.1
          (λ j q. rw (later j, same) (fails (suc j) (omega arith))) (rw (later k, same) works) in
      (ground (arith, r, rest), ground (arith, r, rest), ground (arith, r, rest))

  -- After k failures the client disconnects: the watcher has dialled k times, dials no more, and leaves
  -- the connection down.
  connection_lost_stops :
      (k : ℕ) (rest : List Bool) (d : Details)
      → d.client_disconnect ≡ false
      → ((j : ℕ) → j < k → is_some (dial (d.dials + j) (text_of d)) ≡ true)
      → let d' = connection_lost (replicate k false ++ (true ∷ rest)) d in
        (d'.state ≡ disconnected) × (d'.client_disconnect ≡ true) × (d'.dials ≡ d.dials + k)
  unfolding reconnect connection_lost
  connection_lost_stops zero rest d live fails = (refl, refl, omega arith)
  connection_lost_stops (suc k) rest d live fails =
      let down = record d { state = disconnected } in
      let r = dial_fails down live refl (ground (arith, fails 0)) in
      let d' = (connect dial (disconnected, down) down).2 in
      let same : text_of d' ≡ text_of d = r.3 in
      let later : (j : ℕ) → d'.dials + j ≡ d.dials + suc j = λ j. omega (arith, r.2) in
      let stopped =
        connection_lost_stops k rest d' r.1
          (λ j q. rw (later j, same) (fails (suc j) (omega arith))) in
      (ground (arith, r, stopped), ground (arith, r, stopped), ground (arith, r, stopped))
