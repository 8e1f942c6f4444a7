-- ===== src/Amqp/Subscribe/Setup.antt =====
-- queueSubscribe of internal/provider/connectors/amqp091/amqp091.go up to its loop, and setupDeadLetter.
use Prim.Native.String.{◌++◌ as append}
use arke.Common.{String, Bool, true, false, none, some, [], ◌∷◌, if◌then◌else◌}
use arke.Common.Int.{pos, ltb_ℤ}
use arke.Common.Text.{remove_first}
use arke.ConcurrentMap.{lookup}
use arke.Api.{AddressType, Source, SourceType}
use arke.Amqp.Wire.{Command, Broker}
use arke.Amqp.Names.{source_name}
use arke.Amqp.Client.{Done, ◌>>◌, pure, fail, ignoring, say}
use arke.Amqp.Declare.{declare_exchange, declare_queue, declare_binding}

-- The source as it is subscribed to: an AutoDelete source is temporary, and a quorum source is named
-- as one.
retyped : Source → Source
retyped s = if s.auto_delete then record s { kind = SourceType.temporary } else s

unfoldable pub subscribed_source : Source → Source
unfolding retyped
subscribed_source s = record (retyped s) { name = source_name (retyped s) }

-- The queue for the dead letters of a source, which is given the address of its option.
unfoldable pub dead_letter_source : Source → String → Source
dead_letter_source s address =
    let subject : String = (elim (lookup "DeadLetterSubject" s.options) [
      | none ↦ s.name
      | some t ↦ t
    ]) in
    record {
      name = append (remove_first s.name ".quorum") ".dlq";
      address = some (record {
        node = record {
          name = address;
          subjects = subject ∷ [];
          kind = AddressType.topic;
          auto_delete = false;
        };
        ancestors = [];
      });
      auto_delete = false;
      options = [];
      exclusive = false;
      prefetch_count = pos 0;
      kind = SourceType.temporary;
      declare_only = false;
      single_active_consumer = false;
      filters = [];
    }

module _ (b : Broker) where
  unfoldable pub declare_address : Source → Done
  declare_address s = elim s.address [
    | none ↦ pure tt
    | some a ↦ declare_exchange b a.node a.ancestors
  ]

  unfoldable pub setup_dead_letter : Source → Done
  unfolding dead_letter_source declare_address
  setup_dead_letter s = elim (lookup "DeadLetterAddress" s.options) [
    | none ↦ pure tt
    | some address ↦ do
      ignoring (declare_address (dead_letter_source s address))
      ignoring (declare_queue b (dead_letter_source s address) true)
      declare_binding b (dead_letter_source s address) true
  ]

  -- A source that is only declared gets no consumer.
  unfoldable pub start_consumer : Source → Done
  start_consumer s =
      if s.declare_only
      then pure tt
      else if ltb_ℤ (pos 0) s.prefetch_count
      then (do
        say b (Command.set_prefetch s.prefetch_count)
        say b (Command.consume s.name s.exclusive))
      else say b (Command.consume s.name s.exclusive)

  unfoldable pub declare_source : Source → Done
  declare_source s = do
    say b (Command.new_channel false)
    ignoring (declare_address s)
    declare_queue b s true
    declare_binding b s true
    ignoring (setup_dead_letter s)

  -- `is_closed` is that of the connection.
  unfoldable pub queue_setup : Bool → Source → Done
  unfolding declare_source start_consumer subscribed_source
  queue_setup is_closed s =
      if is_closed
      then fail "connection to broker is closed"
      else declare_source (subscribed_source s) >> start_consumer (subscribed_source s)
