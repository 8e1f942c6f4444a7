-- ===== src/Amqp/Settle/Retry.antt =====
-- Retry of internal/provider/connectors/amqp091/amqp091.go: a message goes through a queue that holds
-- it for `delay` seconds and then dead-letters it back. Panics of the client library, which Retry
-- recovers from, are left out.
use Prim.Native.String.{◌++◌ as append}
use arke.Common.{
  ℕ, ◌+◌, ◌*◌, String, true, false, Option, none, some, [], ◌∷◌, ok, err, if◌then◌else◌,
}
use arke.Common.Int.{ℤ, pos, negsuc}
use arke.Common.Text.{itoa}
use arke.ConcurrentMap.{delete, get}
use arke.Api.{Error, error_text, AddressType, Source, SourceType}
use arke.Amqp.Headers.{update_retry_count_header}
use arke.Amqp.Wire.{Command, Broker}
use arke.Amqp.Client.{
  AmqpMessage, queue_message, stream_message, Client, Done, ◌>>◌, modify, ignoring, say,
}
use arke.Amqp.Names.{source_name}
use arke.Amqp.Declare.{declare_exchange, declare_queue, declare_binding, address_name}
use arke.Amqp.Settle.Defs.{message_ack, message_nack, no_message}

-- `int(delay) * 1000`
abbrev times_1000 : ℤ → ℤ
times_1000 (pos n) = pos (n * 1000)
times_1000 (negsuc n) = negsuc (n * 1000 + 999)

-- The name of the retry exchange and queue.
unfoldable pub retry_name : String → ℤ → String
retry_name address delay = append address (append ".retry." (append (itoa delay) "s"))

unfoldable pub retry_source : String → ℤ → Source
unfolding retry_name
retry_source address delay = record {
  name = retry_name address delay;
  address = some (record {
    node = record {
      name = retry_name address delay;
      subjects = "#" ∷ [];
      kind = AddressType.topic;
      auto_delete = false;
    };
    ancestors = [];
  });
  auto_delete = false;
  options = ("MessageTTL", itoa (times_1000 delay)) ∷ ("DeadLetterAddress", "") ∷ [];
  exclusive = false;
  prefetch_count = pos 0;
  kind = SourceType.quorum_queue;
  declare_only = false;
  single_active_consumer = false;
  filters = [];
}

module _ (b : Broker) (max_acquired : ℕ) where
  -- The channel for retries, opened on first use.
  unfoldable pub ensure_retry_channel : Done
  ensure_retry_channel c =
      if c.retry_channel
      then (ok tt, c)
      else (do say b (Command.new_channel true); modify (λ c'. record c' { retry_channel = true }))
          c

  unfoldable pub declare_retry_address : Source → Done
  declare_retry_address s c = elim s.address [
    | none ↦ (ok tt, c)
    | some a ↦ declare_exchange b a.node a.ancestors c
  ]

  -- A failed binding ends Retry with this text.
  unfoldable pub bind_retry : Source → Done
  bind_retry s c =
      let (r, c') = declare_binding b s false c in
      elim r [
        | ok _ ↦ (ok tt, c')
        | err e ↦ (
          err (
              append "Failed to bind retry queue [" (
                append s.name
                  (append "] to exchange [" (append (address_name s) (append "]: " e))))),
          c',
        )
      ]

  -- Publish the message for its delay, then acknowledge it; if that fails, requeue it. The answer to
  -- the acknowledgement is dropped.
  unfoldable pub send_retry : Source → String → AmqpMessage → Client → Client
  send_retry s target m c =
      let (r, c') =
        say b (Command.publish (address_name s) target m.properties m.headers m.body) c in
      elim r [
        | ok _ ↦ record c' { log = (message_ack b max_acquired m c'.log).1 }
        | err _ ↦ record c' { log = (message_nack b max_acquired true m c'.log).1 }
      ]

  unfoldable pub counted : AmqpMessage → AmqpMessage
  counted m = record m { headers = update_retry_count_header m.headers }

  unfoldable pub retry_queue_message : Source → String → AmqpMessage → Done
  unfolding ensure_retry_channel declare_retry_address bind_retry counted
  retry_queue_message s target m = do
    ensure_retry_channel
    ignoring (declare_retry_address s)
    ignoring (declare_queue b s false)
    bind_retry s
    modify (send_retry s target (counted m))

  unfoldable pub drop_message : String → Client → Client
  drop_message msgid c = record c { active_messages = delete c.active_messages msgid }

  -- `none` is the panic at `origSource.Name` of a nil source. A stream message is only dropped.
  unfoldable pub retry : Option Source → String → ℤ → Client → Option (Option Error × Client)
  unfolding drop_message
  retry none msgid delay c = none
  retry (some s) msgid delay c = elim (get c.active_messages msgid) [
    | none ↦ some (some (no_message b max_acquired msgid), c)
    | some (stream_message _) ↦ some (none, drop_message msgid c)
    | some (queue_message m) ↦
        let (r, c') =
          retry_queue_message (retry_source (address_name s) delay) (source_name s) m c in
        elim r [
          | ok _ ↦ some (none, drop_message msgid c')
          | err e ↦ some (some (error_text e), c')
        ]
  ]
