-- ===== src/Amqp/Streams/Subscribe.antt =====
-- streamSubscribe of internal/provider/connectors/amqp091/amqp091.go up to its wait, getConsumerName,
-- toStreamOffset of streamhelpers.go, and DeclareStream and NewConsumer of streamshim.go. What the broker
-- and the client library answer beforehand is a `StreamEnvironment`. The promotion of a waiting single
-- active consumer is left out.
use Prim.Native.String.{◌++◌ as append}
use arke.Common.{
  is_some, List, ◌*◌, ◌^◌, String, Bool, true, false, ◌||◌, Option, none, some, [], ◌∷◌, Fallible,
  ok, err, str_eq, if◌then◌else◌,
}
use arke.Common.Int.{ℤ, pos, negsuc, pos_part, ltb_ℤ, int64, ◌+ℤ◌}
use arke.Common.Text.{atoi, lower_is, join}
use arke.ConcurrentMap.{lookup}
use arke.Api.{Error, error_text, fatal_text, Source}
use arke.Amqp.Wire.{Command, Offset, Broker}
use arke.Amqp.Client.{Client, Done, ◌>>=◌, pure, of_fallible, say}
use arke.Amqp.Declare.{declare_binding}
use arke.Amqp.Subscribe.{declare_address}
use arke.Amqp.Publish.{is_stream}
use arke.Server.Consume.{unsupported}

-- `stored` is QueryOffset for a consumer and a stream, none on an error.
pub record StreamEnvironment : Type 0 where
  pub connect : Option String
  pub is_closed : Bool
  pub stored : String → String → Option ℤ

-- An error of QueryOffset counts as -1.
abbrev pub or_minus_one : Option ℤ → ℤ
or_minus_one none = negsuc 0
or_minus_one (some n) = n

unfoldable pub to_stream_offset : String → ℤ → Fallible Offset
to_stream_offset offset last_offset =
    if lower_is offset "first"
    then ok Offset.first
    else if lower_is offset "continue"
    then ok (Offset.at (last_offset +ℤ pos 1))
    else if lower_is offset "last"
    then ok Offset.last
    else if lower_is offset "next" || str_eq offset ""
    then ok Offset.next
    else (elim (atoi offset) [
      | some n ↦ ok (Offset.at n)
      | none ↦ err (append "invalid offset: " offset)
    ])

unfoldable pub get_consumer_name : Source → Fallible String
get_consumer_name s =
    if s.single_active_consumer
    then (elim (lookup "ConsumerGroup" s.options) [
      | some group ↦
          if str_eq group ""
          then err "single active consumer requested but no ConsumerGroup option set"
          else ok group
      | none ↦ err "single active consumer requested but no ConsumerGroup option set"
    ])
    else ok s.name

-- MessageTTL in seconds, 0 without the option.
unfoldable pub message_ttl : Source → Option ℤ
message_ttl s = elim (lookup "MessageTTL" s.options) [ none ↦ some (pos 0) | some t ↦ atoi t ]

abbrev pub ttl_or_zero : Option ℤ → ℤ
ttl_or_zero none = pos 0
ttl_or_zero (some n) = n

-- The age in nanoseconds that DeclareStream sets.
unfoldable pub max_age : ℤ → Option ℤ
max_age ttl = if ltb_ℤ (pos 0) ttl then some (int64 (pos_part ttl * 10 ^ 9)) else none

-- How streamSubscribe goes on: an error, the return after declaring only, or the wait for the end of the
-- context, with a consumer, or without one where NewConsumer failed, whose error is dropped.
pub data Subscribed : Type 0 where
  refused : Error → Subscribed
  declared consuming orphaned : Subscribed

abbrev pub is_stream_address : Source → Bool
is_stream_address s = elim s.address [ none ↦ false | some a ↦ is_stream a.node.kind ]

abbrev pub stream_options : List String
stream_options = "Offset" ∷ "MessageTTL" ∷ "ConsumerGroup" ∷ []

abbrev pub unsupported_options : List String → String
unsupported_options options =
    append "streams do not support the following source options: [" (append (join " " options) "]")

abbrev pub offset_of : Source → String
offset_of s = elim (lookup "Offset" s.options) [ none ↦ "" | some t ↦ t ]

-- What is wrong with a source before anything is said to the broker.
unfoldable pub source_error : StreamEnvironment → Source → Option String
unfolding message_ttl
source_error env s = elim (unsupported stream_options s.options) [
  | o ∷ os ↦ some (unsupported_options (o ∷ os))
  | [] ↦
      if s.auto_delete || s.exclusive
      then some "streams do not support AutoDelete or Exclusive"
      else (elim env.connect [
        | some e ↦ some (append "failed to create stream connection to broker: " e)
        | none ↦
            if env.is_closed
            then some "connection to broker is closed"
            else if is_some (message_ttl s)
            then none
            else some "value for MessageTTL option must be a quoted integer"
      ])
]

module _ (b : Broker) where
  -- NewConsumer: an invalid offset is an error before the consumer is asked for.
  unfoldable pub new_consumer : StreamEnvironment → Source → String → Done
  new_consumer env s consumer =
      let last_offset = or_minus_one (env.stored consumer s.name) in
      of_fallible (to_stream_offset (offset_of s) last_offset) >>= λ start.
      say b (Command.stream_consume s.name consumer start s.single_active_consumer)

  unfoldable pub attach : Fallible (Unit {0}) × Client → Subscribed × Client
  attach (ok _, c) = (consuming, c)
  attach (err _, c) = (orphaned, c)

  unfoldable pub start_stream_consumer : StreamEnvironment → Source → Client → Subscribed × Client
  unfolding new_consumer get_consumer_name attach
  start_stream_consumer env s c =
      if s.declare_only then (declared, c) else (elim (get_consumer_name s) [
        | err e ↦ (refused (error_text e), c)
        | ok consumer ↦ attach (new_consumer env s consumer c)
      ])

  abbrev pub unless_stream : Source → Done → Done
  unless_stream s m = if is_stream_address s then pure tt else m

  abbrev bound : Fallible (Unit {0}) × Client → Option Error × Client
  bound (ok _, d) = (none, d)
  bound (err e, d) = (some (error_text e), d)

  unfoldable pub declare_stream : Source → ℤ → Client → Option Error × Client
  unfolding max_age
  declare_stream s ttl c =
      let (_, c') = unless_stream s (declare_address b s) c in
      let (r, c'') = say b (Command.declare_stream s.name (max_age ttl)) c' in
      elim r [
        | err e ↦ (some (fatal_text (append "failed to declare stream: " e)), c'')
        | ok _ ↦ bound (unless_stream s (declare_binding b s true) c'')
      ]

  unfoldable pub stream_subscribe : StreamEnvironment → Source → Client → Subscribed × Client
  stream_subscribe env s c = elim (source_error env s) [
    | some e ↦ (refused (error_text e), c)
    | none ↦
        let (e, d) = declare_stream s (ttl_or_zero (message_ttl s)) c in
        elim e [ some e' ↦ (refused e', d) | none ↦ start_stream_consumer env s d ]
  ]
