-- ===== src/Amqp/Settle/Overlap.antt =====
-- Two goroutines of the acknowledgement loop inside Ack of internal/provider/connectors/amqp091/
-- amqp091.go at once. Ack looks the message up, says the acknowledgement and deletes the message in
-- three accesses to shared state, and nothing holds a lock across them.
use arke.Common.{ℕ, ◌+◌, ◌*◌, String, ◌≡◌, Option, none, some, arith, ◌==◌, if◌then◌else◌}
use arke.ConcurrentMap.{get, delete}
use arke.Api.{Error}
use arke.Amqp.Wire.{Broker}
use arke.Amqp.Client.{AmqpMessage, Active, queue_message, stream_message, Client}
use arke.Amqp.Settle.Defs.{ack, message_ack, stream_ack, no_message, to_error}
use arke.Amqp.Settle.Quiet.{settles}

module _ (b : Broker) (max_acquired : ℕ) where
  -- The acknowledgement of the message that the lookup has found, before the deletion.
  unfoldable pub ack_found : Option Active → String → Client → Option Error × Client
  unfolding message_ack stream_ack
  ack_found none msgid c = (some (no_message b max_acquired msgid), c)
  ack_found (some (queue_message m)) msgid c =
      let (e, log) = message_ack b max_acquired m c.log in
      (to_error b max_acquired e, record c { log = log })
  ack_found (some (stream_message m)) msgid c =
      (none, record c { log = stream_ack b max_acquired m c.log })

  -- The deletion, which an Ack that found no message does not reach.
  unfoldable pub ack_forget : Option Active → String → Client → Client
  ack_forget none msgid c = c
  ack_forget (some _) msgid c = record c { active_messages = delete c.active_messages msgid }

  -- Undisturbed, the three accesses are Ack. When two goroutines acknowledge the same queue message
  -- and both look it up before either deletes it, its delivery is acknowledged twice.
  acks_overlap :
      (msgid : String) (m : AmqpMessage) (c : Client)
      → get c.active_messages msgid ≡ some (queue_message m)
      → let found = get c.active_messages msgid in
        let (e, said) = ack_found found msgid c in
        let (_, twice) = ack_found found msgid said in
        ((e, ack_forget found msgid said) ≡ ack b max_acquired msgid c)
        × ((t : ℕ)
            → settles t (ack_forget found msgid (ack_forget found msgid twice)).log
              ≡ settles t c.log + 2 * (if t == m.delivery_tag then 1 else 0))
  unfolding ack ack_found ack_forget message_ack
  acks_overlap msgid m c h = (ground arith, λ t. ground arith)
