-- ===== src/Delivery/Consumed.antt =====
-- What an acknowledgement of a client comes to on the broker.
use arke.Common.{
  ℕ, String, ◌≡◌, ◌≢◌, ◌∙◌, inl, inr, true, false, Option, none, some, str_eq, arith, eq_iff,
  Bool-cases,
}
use arke.Common.Int.{ℤ, pos, ltb_ℤ}
use arke.ConcurrentMap.{get, add, get-add_self}
use arke.Api.{Error, Source, MessageConsumed, MessageConsumedResponse}
use arke.Amqp.Wire.{Broker}
use arke.Amqp.Client.{Client, AmqpMessage, queue_message}
use arke.Amqp.Settle.{retry, dead_letter}
use arke.Amqp.Settle.Effects.{Settlement, settle, Settled, Unsettled, settle-queue_message}
use arke.Server.Backend.{Settling}
use arke.Server.Consume.{
  nack_on_error, settle_consumed, handle_consumed, has_dead_letter, consumed_response,
}
use arke.Delivery.Provider.{Connections, amqp_settling}

module _ (b : Broker) (max_acquired : ℕ) where
  -- From p to q, the delivery of m to this client was settled once, and no other.
  pub record SettledFor (client msgid : String) (m : AmqpMessage) (c : Client) (q : Connections)
      : Type 0 where
    pub details : Client
    pub found : get q client ≡ some details
    pub settled_details : Settled b max_acquired msgid m c details

  Settled-after :
      {msgid : String} {m : AmqpMessage} {c d e : Client}
      → Unsettled b max_acquired c d
      → Settled b max_acquired msgid m d e
      → Settled b max_acquired msgid m c e
  Settled-after u s = record {
    settled_log = λ t. omega (arith, u.same_log t, s.settled_log t);
    settled_active = rw (← u.same_active) s.settled_active;
  }

  abbrev settling : Settling Connections
  settling = amqp_settling b max_acquired

  module _ (client msgid : String) (m : AmqpMessage) where
    -- One of the operations that always settle: its error, and the connections that it leaves.
    Settles : (Connections → Option Error × Connections) → Type 0
    Settles f =
        (c : Client) (p : Connections)
        → get p client ≡ some c
        → get c.active_messages msgid ≡ some (queue_message m)
        → SettledFor client msgid m c (f p).1

    ack-Settles : Settles (λ p. settling.ack client msgid p)
    unfolding Settles amqp_settling settle
    ack-Settles c p h k =
        let (e, d, eq, o) =
          settle-queue_message b max_acquired Settlement.acknowledge msgid m c k in
        elim o [
          | inl (st, _) ↦ record {
            details = d;
            found = ground (arith, h, eq, get-add_self p client d);
            settled_details = st;
          }
          | inr (never, _, _) ↦ absurd (ground arith)
        ]

    nack-Settles : Settles (λ p. settling.nack client msgid p)
    unfolding Settles amqp_settling settle
    nack-Settles c p h k =
        let (e, d, eq, o) = settle-queue_message b max_acquired Settlement.reject msgid m c k in
        elim o [
          | inl (st, _) ↦ record {
            details = d;
            found = ground (arith, h, eq, get-add_self p client d);
            settled_details = st;
          }
          | inr (never, _, _) ↦ absurd (ground arith)
        ]

    -- One of the operations that may fail, and then the message is rejected in its place.
    Returns : Option (Option Error × Connections) → Client → Type 0
    Returns r c =
        (e : Option Error) × (q : Connections) × (r ≡ some (e, q)) × SettledFor client msgid m c q

    retry-Returns :
        (s : Source) (delay : ℤ) (c : Client) (p : Connections)
        → get p client ≡ some c
        → get c.active_messages msgid ≡ some (queue_message m)
        → Returns
            (nack_on_error settling client msgid (settling.retry client (some s) msgid delay p))
            c
    unfolding Returns Settles amqp_settling settle nack_on_error
    retry-Returns s delay c p h k =
        let (e, d, eq, o) =
          settle-queue_message b max_acquired (Settlement.postpone s delay) msgid m c k in
        elim o [
          | inl (st, quiet) ↦ (
            none,
            add p client d,
            ground (arith, h, eq, quiet),
            record { details = d; found = get-add_self p client d; settled_details = st },
          )
          | inr (_, failed, u) ↦
              let after =
                nack-Settles d (add p client d) (get-add_self p client d) (rw u.same_active k) in
              (
                (settling.nack client msgid (add p client d)).0,
                (settling.nack client msgid (add p client d)).1,
                ground (arith, h, eq, failed),
                record {
                  details = after.details;
                  found = after.found;
                  settled_details = Settled-after u after.settled_details;
                },
              )
        ]

    bury-Returns :
        (s : Source) (c : Client) (p : Connections)
        → get p client ≡ some c
        → get c.active_messages msgid ≡ some (queue_message m)
        → Returns
            (nack_on_error settling client msgid (settling.dead_letter client (some s) msgid p))
            c
    unfolding Returns amqp_settling settle nack_on_error dead_letter
    bury-Returns s c p h k =
        let (e, d, eq, o) = settle-queue_message b max_acquired Settlement.bury msgid m c k in
        elim o [
          | inl (st, quiet) ↦ (
            none,
            add p client d,
            ground (arith, h, eq, quiet),
            record { details = d; found = get-add_self p client d; settled_details = st },
          )
          | inr (_, failed, u) ↦ absurd (ground arith)
        ]

  Returns-eq :
      (client msgid : String) (m : AmqpMessage) (c : Client)
      (r r' : Option (Option Error × Connections))
      → r ≡ r'
      → Returns client msgid m r' c
      → Returns client msgid m r c
  unfolding Returns
  Returns-eq client msgid m c r r' h (e, q, k, st) = (e, q, h ∙ k, st)

  settle_consumed-Returns :
      (client : String) (s : Source) (cm : MessageConsumed) (m : AmqpMessage) (c : Client)
      (p : Connections)
      → str_eq cm.uuid "" ≡ false
      → get p client ≡ some c
      → get c.active_messages cm.uuid ≡ some (queue_message m)
      → Returns client cm.uuid m (settle_consumed settling client (some s) cm p) c
  unfolding settle_consumed Settles Returns
  settle_consumed-Returns client s cm m c p named h k =
      let result = settle_consumed settling client (some s) cm p in
      let tried =
        nack_on_error settling client cm.uuid
          (settling.retry client (some s) cm.uuid cm.requeue_delay p) in
      let buried =
        nack_on_error settling client cm.uuid (settling.dead_letter client (some s) cm.uuid p) in
      let rejected = settling.nack client cm.uuid p in
      let accepted = settling.ack client cm.uuid p in
      elim (Bool-cases cm.nack) [
        | inr plain ↦ (accepted.0, accepted.1, ground arith, ack-Settles client cm.uuid m c p h k)
        | inl nacks ↦ elim (Bool-cases (ltb_ℤ (pos 0) cm.requeue_delay)) [
          | inl delayed ↦
              Returns-eq client cm.uuid m c result tried (ground arith)
                (retry-Returns client cm.uuid m s cm.requeue_delay c p h k)
          | inr now ↦ elim (Bool-cases (has_dead_letter (some s))) [
            | inl letters ↦
                Returns-eq client cm.uuid m c result buried (ground arith)
                  (bury-Returns client cm.uuid m s c p h k)
            | inr none_set ↦
                (rejected.0, rejected.1, ground arith, nack-Settles client cm.uuid m c p h k)
          ]
        ]
      ]

  -- For a queue message in hand of a client that the provider knows, an acknowledgement of the client
  -- on a stream with a source, whether it accepts the message, rejects it or asks for a retry, is
  -- answered without a panic, and the delivery of the message is acknowledged or rejected exactly once
  -- and no other delivery is; the message is no longer in hand. A retry or a dead letter that fails
  -- counts as one, because a rejection follows it.
  pub handle_consumed-settles :
      (client : String) (s : Source) (cm : MessageConsumed) (m : AmqpMessage) (c : Client)
      (p : Connections)
      → cm.uuid ≢ ""
      → get p client ≡ some c
      → get c.active_messages cm.uuid ≡ some (queue_message m)
      → (r : MessageConsumedResponse) × (q : Connections) × (handle_consumed
            (amqp_settling b max_acquired)
            client
            (some s)
            cm
            p
          ≡ some (r, q))
        × SettledFor client cm.uuid m c q
  unfolding handle_consumed Returns
  handle_consumed-settles client s cm m c p named h k =
      let (e, q, eq, done) =
        settle_consumed-Returns client s cm m c p (ground (arith, eq_iff cm.uuid "")) h k in
      (consumed_response cm.uuid e, q, ground (arith, eq), done)

  -- Before the stream has a source, a request to retry a message after a delay makes the provider
  -- panic, whether or not the message is in hand, as long as the provider knows the client.
  retry_without_source :
      (client : String) (cm : MessageConsumed) (c : Client) (p : Connections)
      → cm.uuid ≢ ""
      → cm.nack ≡ true
      → ltb_ℤ (pos 0) cm.requeue_delay ≡ true
      → get p client ≡ some c
      → handle_consumed (amqp_settling b max_acquired) client none cm p ≡ none
  unfolding handle_consumed settle_consumed nack_on_error amqp_settling retry
  retry_without_source client cm c p named nacks delayed h = ground (arith, eq_iff cm.uuid "")
