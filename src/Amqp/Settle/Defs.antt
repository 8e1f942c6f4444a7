-- ===== src/Amqp/Settle/Defs.antt =====
-- Ack, Nack and DeadLetter of internal/provider/connectors/amqp091/amqp091.go, and Ack and Nack of a
-- message in amqp091shim.go. The messages that a client has in hand are in `active_messages`; the
-- deliveries of the unit tests' mocks are left out. The log stands for what was said to the broker.
use Prim.Native.String.{◌++◌ as append}
use arke.Common.{ℕ, String, Bool, false, Option, none, some, ◌∷◌, ◌&&◌, not, if◌then◌else◌}
use arke.ConcurrentMap.{delete, get}
use arke.Api.{Error, error_text}
use arke.Amqp.Headers.{max_acquired_count_hit}
use arke.Amqp.Wire.{Command, Log, Broker, perform}
use arke.Amqp.Client.{AmqpMessage, StreamMessage, queue_message, stream_message, Client}

module _ (b : Broker) (max_acquired : ℕ) where
  -- `amqp091Message.Ack`
  unfoldable pub message_ack : AmqpMessage → Log → Option String × Log
  message_ack m log = perform b (Command.basic_ack m.delivery_tag) log

  -- `amqp091Message.Nack`: past the delivery limit a requeue becomes a dead letter.
  unfoldable pub message_nack : Bool → AmqpMessage → Log → Option String × Log
  message_nack requeue m log =
      perform b
        (Command.basic_nack m.delivery_tag
          (requeue && not (max_acquired_count_hit max_acquired m.headers)))
        log

  -- The closures of streamSubscribe. The offset is that of the consumer when `Ack` is called. An error of `StoreOffset` is only logged.
  unfoldable pub stream_ack : StreamMessage → Log → Log
  stream_ack m log =
      if m.live
      then Command.store_offset m.stream m.consumer_name
          (b.current_offset (Command.decrement ∷ log) m.stream m.consumer_name)
        ∷ Command.decrement
        ∷ log
      else Command.decrement ∷ log

  -- The offset that it logs first panics without a consumer; that is left out.
  unfoldable pub stream_nack : StreamMessage → Log → Log
  stream_nack m log = Command.decrement ∷ log

  abbrev pub no_message : String → Error
  no_message msgid = error_text (append "No message with uuid " msgid)

  abbrev pub to_error : Option String → Option Error
  to_error none = none
  to_error (some m) = some (error_text m)

  -- The message is no longer in hand, whatever the broker answered.
  abbrev settled : String → Client → Option String × Log → Option Error × Client
  settled msgid c (e, log) =
      (to_error e, record c { active_messages = delete c.active_messages msgid; log = log })

  unfoldable pub ack : String → Client → Option Error × Client
  unfolding message_ack stream_ack
  ack msgid c = elim (get c.active_messages msgid) [
    | none ↦ (some (no_message msgid), c)
    | some (queue_message m) ↦ settled msgid c (message_ack m c.log)
    | some (stream_message m) ↦ settled msgid c (none, stream_ack m c.log)
  ]

  unfoldable pub nack : String → Client → Option Error × Client
  unfolding message_nack stream_nack
  nack msgid c = elim (get c.active_messages msgid) [
    | none ↦ (some (no_message msgid), c)
    | some (queue_message m) ↦ settled msgid c (message_nack false m c.log)
    | some (stream_message m) ↦ settled msgid c (none, stream_nack m c.log)
  ]

  abbrev pub no_dead_letter : String → Error
  no_dead_letter msgid = error_text (
      append "DeadLetter message with id ["
        (append msgid "] failed, message not found in active messages."))

  -- `none` is the panic of `rmu.(amqp091Message)` on a stream message. The broker's answer is dropped.
  unfoldable pub dead_letter : String → Client → Option (Option Error × Client)
  unfolding message_nack
  dead_letter msgid c = elim (get c.active_messages msgid) [
    | none ↦ some (some (no_dead_letter msgid), c)
    | some (queue_message m) ↦ some (settled msgid c (none, (message_nack false m c.log).1))
    | some (stream_message _) ↦ none
  ]
