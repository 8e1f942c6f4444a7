-- ===== src/Amqp/Streams/Resume.antt =====
-- Where a consumer of a stream goes on after a message has been acknowledged: what Ack in
-- internal/provider/connectors/amqp091/amqp091.go stores, and where NewConsumer in streamshim.go starts.
use arke.Common.{
  ℕ, suc, String, ◌≡◌, ap, ◌∙◌, true, false, ◌&&◌, Option, none, some, [], ◌∷◌, ok, arith, str_eq,
  eq_refl, if◌then◌else◌,
}
use arke.Common.Text.{lower_is}
use arke.Common.Int.{ℤ, pos, ◌+ℤ◌}
use arke.ConcurrentMap.{get, get-delete}
use arke.Api.{Source}
use arke.Amqp.Wire.{Command, Log, Offset, Broker}
use arke.Amqp.Client.{StreamMessage, stream_message, Client}
use arke.Amqp.Settle.{ack, stream_ack}
use arke.Amqp.Streams.Subscribe.{
  StreamEnvironment, to_stream_offset, get_consumer_name, start_stream_consumer, new_consumer,
  offset_of, or_minus_one,
}

unfoldable pub stored_by : String → String → Command → Option ℤ → Option ℤ
stored_by consumer stream (Command.store_offset s c n) before =
    if str_eq s stream && str_eq c consumer then some (pos n) else before
stored_by consumer stream _ before = before

-- The newest offset that was stored for a consumer of a stream.
abbrev pub newest_stored : String → String → Log → Option ℤ
unfolding stored_by
newest_stored consumer stream [] = none
newest_stored consumer stream (c ∷ log) =
    stored_by consumer stream c (newest_stored consumer stream log)

continue_at : (n : ℕ) → to_stream_offset "continue" (pos n) ≡ ok (Offset.at (pos (suc n)))
unfolding to_stream_offset lower_is ◌+ℤ◌
continue_at n = ground arith

module _ (b : Broker) where
  -- Two messages of streams are in hand, and the first is acknowledged while its consumer answers n for
  -- its own offset. Where the broker knows the offset that was stored last, a new subscription of that
  -- consumer that asks to continue starts after n, whatever the offset of the acknowledged message, and
  -- although the other message is still in hand.
  pub ack-skips :
      (max_acquired : ℕ) (msgid later : String) (m k : StreamMessage) (c : Client) (n : ℕ)
      (env : StreamEnvironment) (s : Source)
      → get c.active_messages msgid ≡ some (stream_message m)
      → get c.active_messages later ≡ some (stream_message k)
      → str_eq msgid later ≡ false
      → m.live ≡ true
      → b.current_offset (Command.decrement ∷ c.log) m.stream m.consumer_name ≡ n
      → env.stored m.consumer_name s.name
        ≡ newest_stored m.consumer_name m.stream (ack b max_acquired msgid c).1.log
      → s.name ≡ m.stream
      → get_consumer_name s ≡ ok m.consumer_name
      → offset_of s ≡ "continue"
      → s.declare_only ≡ false
      → let d = (ack b max_acquired msgid c).1 in
        (get d.active_messages later ≡ some (stream_message k))
        × ((start_stream_consumer b env s d).1.log
            ≡ Command.stream_consume m.stream m.consumer_name
                (Offset.at (pos (suc n)))
                s.single_active_consumer
              ∷ d.log)
  unfolding ack stream_ack start_stream_consumer new_consumer stored_by
  ack-skips max_acquired msgid later m k c n env s found also other live at_n known same named
        continues both =
      let kept = get-delete c.active_messages msgid later in
      let d : Client = (ack b max_acquired msgid c).1 in
      let stores : d.log
          ≡ Command.store_offset m.stream m.consumer_name n ∷ Command.decrement ∷ c.log =
        ground (arith, found, live, at_n) in
      let newest : newest_stored m.consumer_name m.stream d.log ≡ some (pos n) =
        ap (newest_stored m.consumer_name m.stream) stores
        ∙ ground (arith, eq_refl m.stream, eq_refl m.consumer_name) in
      let starts : to_stream_offset (offset_of s) (or_minus_one (env.stored m.consumer_name s.name))
          ≡ ok (Offset.at (pos (suc n))) =
        ap (λ o. to_stream_offset o (or_minus_one (env.stored m.consumer_name s.name))) continues
        ∙ ap (λ t. to_stream_offset "continue" (or_minus_one t)) (known ∙ newest)
        ∙ continue_at n in
      (ground (arith, kept, found, also, other), ground (arith, starts, same, named, both))
