-- ===== src/Amqp/Settle/Streams.antt =====
-- Settling a message of a stream, whose prefetch slot the consumer's latch counts, and settling a
-- message that is not in hand.
use arke.Common.{ℕ, ◌+◌, String, ◌≡◌, refl, ◌⊎◌, inl, inr, none, some, [], ◌∷◌, arith}
use arke.ConcurrentMap.{get, delete}
use arke.Api.{Error}
use arke.Amqp.Wire.{Command, Log, Broker}
use arke.Amqp.Client.{StreamMessage, stream_message, Client}
use arke.Amqp.Settle.Defs.{
  ack, nack, dead_letter, stream_ack, stream_nack, no_message, no_dead_letter,
}
use arke.Amqp.Settle.Retry.{retry, drop_message}
use arke.Amqp.Settle.Effects.{Settlement, settle}

-- The slots given back to the latch.
abbrev given_back : Command → ℕ
given_back Command.decrement = 1
given_back _ = 0

abbrev pub slots_back : Log → ℕ
slots_back [] = 0
slots_back (c ∷ log) = given_back c + slots_back log

abbrev pub gives_back : Settlement → ℕ
gives_back Settlement.acknowledge = 1
gives_back Settlement.reject = 1
gives_back _ = 0

abbrev pub absent_error : Settlement → String → Broker → ℕ → Error
absent_error Settlement.bury msgid b n = no_dead_letter b n msgid
absent_error _ msgid b n = no_message b n msgid

module _ (b : Broker) (max_acquired : ℕ) where
  -- A message of a stream that is acknowledged, rejected or retried leaves the map and there is no
  -- error; acknowledging and rejecting give its prefetch slot back, retrying does not. Dead-lettering
  -- it panics.
  pub settle-stream_message :
      (s : Settlement) (msgid : String) (m : StreamMessage) (c : Client)
      → get c.active_messages msgid ≡ some (stream_message m)
      → ((s ≡ Settlement.bury) × (settle b max_acquired s msgid c ≡ none))
        ⊎ ((d : Client) × (settle b max_acquired s msgid c ≡ some (none, d))
            × (d.active_messages ≡ delete c.active_messages msgid)
            × (slots_back d.log ≡ slots_back c.log + gives_back s))
  unfolding settle ack nack dead_letter retry drop_message stream_ack stream_nack
  settle-stream_message Settlement.acknowledge msgid m c h = inr (
    record c {
      active_messages = delete c.active_messages msgid;
      log = stream_ack b max_acquired m c.log;
    },
    ground arith,
    refl,
    ground arith,
  )
  settle-stream_message Settlement.reject msgid m c h = inr (
    record c {
      active_messages = delete c.active_messages msgid;
      log = stream_nack b max_acquired m c.log;
    },
    ground arith,
    refl,
    ground arith,
  )
  settle-stream_message Settlement.bury msgid m c h = inl (refl, ground arith)
  settle-stream_message (Settlement.postpone s delay) msgid m c h =
      inr (drop_message b max_acquired msgid c, ground arith, refl, ground arith)

  -- Settling a message that is not in hand returns an error, says nothing to the broker and changes
  -- nothing.
  pub settle_absent :
      (s : Settlement) (msgid : String) (c : Client)
      → get c.active_messages msgid ≡ none
      → settle b max_acquired s msgid c ≡ some (some (absent_error s msgid b max_acquired), c)
  unfolding settle ack nack dead_letter retry
  settle_absent Settlement.acknowledge msgid c h = ground arith
  settle_absent Settlement.reject msgid c h = ground arith
  settle_absent Settlement.bury msgid c h = ground arith
  settle_absent (Settlement.postpone s delay) msgid c h = ground arith
