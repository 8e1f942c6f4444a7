-- ===== src/Amqp/Publish/Defs.antt =====
-- PublishOne of internal/provider/connectors/amqp091/amqp091.go with the functions that it calls. What
-- connections, pools and publishers answer beforehand is an `Environment`; the broker's answer to the
-- message itself is the broker's. Statistics are left out.
use Prim.Native.String.{◌++◌ as append}
use arke.Common.{
  String, Bool, true, false, ◌&&◌, Option, none, some, List, [], ◌∷◌, str_eq, Fallible, ok, err,
  if◌then◌else◌,
}
use arke.Common.Int.{pos, ltb_ℤ}
use arke.ConcurrentMap.{lookup}
use arke.Api.{Error, error_text, fatal_text, Address, AddressType, stream, Message}
use arke.Amqp.Headers.{Table, HeaderValue}
use arke.Amqp.Wire.{Command, Broker, Properties}
use arke.Amqp.Client.{Client, say}
use arke.Amqp.Declare.{declare_exchange}

-- What a publisher's confirmation channel or the context says.
pub data Confirmation : Type 0 where
  confirmed interrupted : Confirmation
  refused : String → Confirmation

-- `pool_gives` and `publisher_given` say that Get of the pool and GetPublisher return something;
-- `stream_connect` is the error of getStreamConnection.
pub record Environment : Type 0 where
  pub is_closed : Bool
  pub pool_gives : Bool
  pub stream_connect : Option String
  pub stream_closed : Bool
  pub publisher_given : Bool
  pub confirmation : Confirmation

abbrev pub text_of : Option String → String
text_of none = ""
text_of (some t) = t

unfoldable pub text_headers : List (String × String) → Table
text_headers [] = []
text_headers ((k, v) ∷ l) = (k, HeaderValue.text v) ∷ text_headers l

unfoldable pub properties_of : Message → Properties
properties_of m = record {
  delivery_mode = if m.persistent then 2 else 1;
  content_type = text_of (lookup "Content-Type" m.headers);
  content_encoding = text_of (lookup "Content-Encoding" m.headers);
}

-- The message as it is published under its first subject.
unfoldable pub publish_command : Address → String → Message → Command
unfolding text_headers
publish_command a subject m =
    Command.publish a.name subject (properties_of m) (text_headers m.headers) m.body

unfoldable pub stream_command : Address → Message → Command
stream_command a m = Command.stream_publish a.name m.publisher_name m.headers m.body m.publish_id

abbrev pub fatal_answer : Fallible (Unit {0}) → Option Error
fatal_answer (ok _) = none
fatal_answer (err e) = some (fatal_text e)

abbrev pub is_stream : AddressType → Bool
is_stream stream = true
is_stream _ = false

module _ (b : Broker) where
  -- An error of declaring the exchange is dropped.
  unfoldable pub prepare_and_send : Address → String → Message → Client → Option Error × Client
  unfolding publish_command
  prepare_and_send a subject m c =
      let (r, d) =
        say b (publish_command a subject m) (declare_exchange b a.node a.ancestors c).1 in
      (fatal_answer r, d)

  await_confirmation : Confirmation → Option Error
  await_confirmation confirmed = none
  await_confirmation interrupted =
      some (fatal_text "Publish interrupted before confirmation received")
  await_confirmation (refused e) = some (error_text e)

  unfoldable pub stream_prepare_and_send :
      Confirmation → Address → Message → Client → Option Error × Client
  unfolding stream_command await_confirmation
  stream_prepare_and_send confirmation a m c =
      let (r, d) = say b (stream_command a m) c in
      elim r [
        | err e ↦ (some (fatal_text e), d)
        | ok _ ↦ (if m.confirm then await_confirmation confirmation else none, d)
      ]

  abbrev pub closed_text : String
  closed_text = "connection to broker is closed"

  unfoldable pub publish_one_queue :
      Environment → Address → String → Message → Client → Option Error × Client
  publish_one_queue env a subject m c =
      if env.is_closed
      then (some (error_text closed_text), c)
      else if ltb_ℤ (pos 0) m.publish_id
      then (some (error_text "Message deduplication is not supported by Queue types"), c)
      else if env.pool_gives
      then prepare_and_send a subject m c
      else (some (error_text "failed to get channel from pool"), c)

  unfoldable pub publish_one_stream :
      Environment → Address → Message → Client → Option Error × Client
  publish_one_stream env a m c = elim env.stream_connect [
    | some e ↦ (some (error_text (append "failed to create stream connection to broker: " e)), c)
    | none ↦
        if env.stream_closed
        then (some (error_text closed_text), c)
        else if ltb_ℤ (pos 0) m.publish_id && str_eq m.publisher_name ""
        then (
          some (
              error_text
                "PublisherName not set on message, PublisherName is required when PublishID is set"),
          c,
        )
        else if env.publisher_given
        then stream_prepare_and_send env.confirmation a m c
        else (some (error_text "connected to broker, but failed to create a stream publisher"), c)
  ]

  -- The message's address is `a`, and its first subject `subject`; the server has seen that there is
  -- one. Without a subject, taking the first one panics.
  unfoldable pub publish_one :
      Environment → Address → String → Message → Client → Option Error × Client
  publish_one env a subject m c =
      if is_stream a.kind then publish_one_stream env a m c else publish_one_queue env a subject m c
