-- ===== src/Amqp/Connection/Laws.antt =====
-- What an attempt to connect leaves in internal/provider/connectors/amqp091/amqp091.go.
use arke.Common.{
  ℕ, ◌+◌, String, ◌≡◌, ◌≢◌, refl, Bool, true, false, not, none, some, is_some, Bool-cases,
  Option-cases, arith, ◌⊎◌, inl, inr, if◌then◌else◌, str_eq, eq_iff,
}
use arke.ConcurrentMap.{
  ConcurrentMap, get, get-new_concurrent_map, get-add, get-add_self, get-delete,
}
use arke.Api.{ConnectionConfiguration}
use arke.Amqp.Wire.{Broker}
use arke.Amqp.Client.{Active}
use arke.Amqp.Settle.Effects.{Settlement, settle}
use arke.Amqp.Settle.Streams.{settle_absent, absent_error}
use arke.Amqp.Connection.Defs.{
  Details, Dial, State, disconnected, connected, closed, is_connected, prepared, connection_text,
  connect_locked, connect, provider_connect, disconnect_client, new_details,
}

module _ (dial : Dial) where
  connect_locked-forgets :
      (d : Details) (k : String)
      → is_connected d.state ≡ false
      → let c = (connect_locked dial d).2.client in
        (get c.active_messages k ≡ none)
        × (get c.known_exchanges k ≡ none)
        × (get c.known_queues k ≡ none)
        × (get c.known_bindings k ≡ none)
  unfolding connect_locked prepared
  connect_locked-forgets d k down =
      let messages = get-new_concurrent_map {V = Active} k in
      let names = get-new_concurrent_map {V = Bool} k in
      (
        ground (arith, messages),
        ground (arith, names),
        ground (arith, names),
        ground (arith, names),
      )

  -- Under the lock, a connection that is up is left alone. Another is dialled once, with TLS exactly if
  -- its configuration asks for TLS; it is then up and nothing is returned, or it
  -- is closed and the dial's error is returned; either way nothing is in hand, and no exchange, queue
  -- or binding counts as known.
  pub connect_locked_lem :
      (d : Details)
      → let (up, e, d') = connect_locked dial d in
        (up ≡ is_connected d'.state)
        × (((is_connected d.state ≡ true) × (e ≡ none) × (d' ≡ d))
            ⊎ ((is_connected d.state ≡ false)
                × (d'.dials ≡ d.dials + 1)
                × (up ≡ not (is_some e))
                × (e ≡ dial d.dials (connection_text d.configuration.tls d.configuration))
                × (d'.state ≡ (if up then connected else closed))
                × ((k : String)
                    → (get d'.client.active_messages k ≡ none)
                      × (get d'.client.known_exchanges k ≡ none)
                      × (get d'.client.known_queues k ≡ none)
                      × (get d'.client.known_bindings k ≡ none))))
  unfolding connect_locked prepared
  connect_locked_lem d = elim (Bool-cases (is_connected d.state)) [
    | inl up ↦ (ground arith, inl (up, ground arith, ground arith))
    | inr down ↦ (
      ground arith,
      inr (
        down,
        ground arith,
        ground arith,
        ground arith,
        ground arith,
        λ k. connect_locked-forgets d k down,
      ),
    )
  ]

  -- After an attempt that dialled, no message from before can be settled on the connection: whatever
  -- settles it returns an error, and says nothing to the broker.
  pub connect_locked-settle :
      (b : Broker) (max_acquired : ℕ) (s : Settlement) (msgid : String) (d : Details)
      → is_connected d.state ≡ false
      → let (_, _, d') = connect_locked dial d in
        settle b max_acquired s msgid d'.client
        ≡ some (some (absent_error s msgid b max_acquired), d'.client)
  connect_locked-settle b max_acquired s msgid d down =
      settle_absent b max_acquired s msgid (connect_locked dial d).2.client
        (connect_locked-forgets d msgid down).0

  -- Connecting a client returns no error exactly if the client is then found with a connection that is
  -- up; on an error the map is as it was, and other clients stay in any case.
  provider_connect_lem :
      (now : ℕ) (id : String) (cf : ConnectionConfiguration) (skip : Bool)
      (m : ConcurrentMap Details)
      → let (e, m') = provider_connect dial now id cf skip m in
        ((e ≡ none)
          × ((d : Details) × (get m' id ≡ some d) × (d.state ≡ connected))
          × ((j : String) → id ≢ j → get m' j ≡ get m j))
        ⊎ ((is_some e ≡ true) × (m' ≡ m))
  unfolding provider_connect connect connect_locked prepared new_details
  provider_connect_lem now id cf skip m =
      let d = new_details dial now cf skip in
      let up = (connect dial (disconnected, d) d).2 in
      elim (Option-cases (dial 0 (connection_text cf.tls cf))) [
        | inl accepted ↦ inl (
          ground arith,
          (up, ground (arith, get-add_self m id up), ground arith),
          λ j ne. ground (arith, eq_iff id j, get-add m id up j),
        )
        | inr (t, refused) ↦ inr (ground arith, ground arith)
      ]

  -- Disconnecting a client removes it and no other. Its details are closed, and no attempt to connect
  -- them again dials or changes them.
  disconnect_client_lem :
      (id : String) (m : ConcurrentMap Details) (d : Details)
      → get m id ≡ some d
      → let (gone, m') = disconnect_client id m in
        ((j : String) → get m' j ≡ (if str_eq id j then none else get m j))
        × ((d' : Details) × (gone ≡ some d')
            × (d'.is_open ≡ false)
            × ((other : State × Details) → connect dial other d' ≡ (false, none, d')))
  unfolding disconnect_client connect
  disconnect_client_lem id m d h = (
    λ j. ground (arith, get-delete m id j),
    (record d { client_disconnect = true; is_open = false }, ground arith, refl, λ other. refl),
  )
