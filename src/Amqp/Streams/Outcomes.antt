-- ===== src/Amqp/Streams/Outcomes.antt =====
-- What streamSubscribe of internal/provider/connectors/amqp091/amqp091.go comes to.
use arke.Common.{
  List, [], not, ◌&&◌, ◌||◌, str_eq, String, ◌≡◌, ◌⊎◌, Bool, true, false, none, some, ◌∷◌, is_some,
  if◌then◌else◌,
}
use arke.Common.Int.{ℤ, pos, ◌+ℤ◌}
use arke.Common.Text.{atoi, lower_is}
use arke.ConcurrentMap.{lookup}
use arke.Api.{Error, Source}
use arke.Amqp.Wire.{Command, Log, Offset, Broker}
use arke.Amqp.Client.{Client}
use arke.Amqp.Streams.Subscribe.{
  StreamEnvironment, offset_of, or_minus_one, Subscribed, refused, declared, consuming, orphaned,
  declare_stream, ttl_or_zero, message_ttl,
}

-- Every option is one that a stream has.
abbrev pub only_stream_options : List (String × String) → Bool
only_stream_options [] = true
only_stream_options ((option, value) ∷ options) =
    (str_eq "Offset" option || (str_eq "MessageTTL" option || str_eq "ConsumerGroup" option))
    && only_stream_options options

-- The age of messages that the source asks for, if any, is a number.
abbrev pub ttl_is_number : Source → Bool
ttl_is_number s = elim (lookup "MessageTTL" s.options) [ none ↦ true | some t ↦ is_some (atoi t) ]

-- The source is one for a stream, and there is an open connection to the broker.
abbrev pub acceptable : StreamEnvironment → Source → Bool
acceptable env s =
    only_stream_options s.options
    && not s.auto_delete
    && not s.exclusive
    && not (is_some env.connect)
    && not env.is_closed
    && ttl_is_number s

-- The consumer's name: the group, which may not be empty, of a single active consumer; else the stream's.
abbrev pub Named : Source → String → Type 0
Named s consumer =
    ((s.single_active_consumer ≡ true)
      × (lookup "ConsumerGroup" s.options ≡ some consumer)
      × (str_eq consumer "" ≡ false))
    ⊎ ((s.single_active_consumer ≡ false) × (consumer ≡ s.name))

-- A single active consumer without a group.
abbrev pub Unnamed : Source → Type 0
Unnamed s =
    (s.single_active_consumer ≡ true)
    × ((lookup "ConsumerGroup" s.options ≡ none) ⊎ (lookup "ConsumerGroup" s.options ≡ some ""))

-- Where a consumer starts whose source asks for offset `asked`, and for which n is the newest stored offset,
-- -1 without one: upper and lower case are the same.
abbrev pub StartsAt : String → ℤ → Offset → Type 0
StartsAt asked n Offset.first = lower_is asked "first" ≡ true
StartsAt asked n Offset.last = lower_is asked "last" ≡ true
StartsAt asked n Offset.next = (lower_is asked "next" ≡ true) ⊎ (asked ≡ "")
StartsAt asked n (Offset.at m) =
    ((lower_is asked "continue" ≡ true) × (m ≡ n +ℤ pos 1)) ⊎ (atoi asked ≡ some m)

-- No word for an offset, and no number.
abbrev pub no_offset : String → Bool
no_offset asked =
    not (lower_is asked "first")
    && not (lower_is asked "last")
    && not (lower_is asked "next")
    && not (lower_is asked "continue")
    && not (str_eq asked "")
    && not (is_some (atoi asked))

-- The command that asks for the consumer.
abbrev pub consumer_of : Source → String → Offset → Command
consumer_of s consumer start = Command.stream_consume s.name consumer start s.single_active_consumer

module _ (b : Broker) where
  -- The broker was asked for the consumer, and the outcome is its answer.
  pub record Asked (env : StreamEnvironment) (s : Source) (consumer : String) (r : Subscribed)
      (d : Client) : Type 0 where
    pub from : Offset
    pub before : Log
    pub starts : StartsAt (offset_of s) (or_minus_one (env.stored consumer s.name)) from
    pub said : d.log ≡ consumer_of s consumer from ∷ before
    pub outcome :
        r
        ≡ (if is_some (b.answer before (consumer_of s consumer from)) then orphaned else consuming)

  abbrev pub BadOffset : Source → Subscribed → Type 0
  BadOffset s r = (no_offset (offset_of s) ≡ true) × (r ≡ orphaned)

  -- What a subscription to a valid source comes to.
  abbrev pub Begun : StreamEnvironment → Source → Subscribed → Client → Type 0
  Begun env s r d =
      ((s.declare_only ≡ true) × (r ≡ declared))
      ⊎ ((s.declare_only ≡ false)
          × (consumer : String) × Named s consumer
          × (Asked env s consumer r d ⊎ BadOffset s r))

  -- An error for a single active consumer without a group.
  abbrev pub Nameless : Source → Subscribed → Type 0
  Nameless s r = (s.declare_only ≡ false) × Unnamed s × ((e : Error) × (r ≡ refused e))

  -- What a subscription comes to that gets as far as the broker.
  abbrev pub Attempted : StreamEnvironment → Source → Client → Subscribed → Client → Type 0
  Attempted env s c r d =
      ((e : Error) × ((declare_stream b s (ttl_or_zero (message_ttl s)) c).0 ≡ some e)
        × (r ≡ refused e))
      ⊎ (((declare_stream b s (ttl_or_zero (message_ttl s)) c).0 ≡ none)
          × (Nameless s r ⊎ Begun env s r d))
