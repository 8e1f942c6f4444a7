-- ===== src/Amqp/Publish/Laws.antt =====
-- When PublishOne of internal/provider/connectors/amqp091/amqp091.go says a message to the broker, and
-- what it returns.
use arke.Common.{
  Option, [], length, some, none, String, ◌≡◌, Bool, true, false, ◌&&◌, not, is_some, ◌∷◌, str_eq,
  ◌⊎◌, if◌then◌else◌,
}
use arke.Common.Int.{pos, ltb_ℤ}
use arke.Api.{Address, Message}
use arke.Amqp.Headers.{Table, HeaderValue}
use arke.ConcurrentMap.{lookup}
use arke.Amqp.Wire.{Command}
use arke.Amqp.Client.{Client}
use arke.Amqp.Publish.Defs.{
  Environment, Confirmation, confirmed, publish_command, stream_command, is_stream,
}

-- Whether the environment lets the message through to a channel or a publisher.
abbrev pub lets_through : Environment → Address → Message → Bool
lets_through env a m =
    if is_stream a.kind
    then not (is_some env.stream_connect)
      && not env.stream_closed
      && not (ltb_ℤ (pos 0) m.publish_id && str_eq m.publisher_name "")
      && env.publisher_given
    else not env.is_closed && not (ltb_ℤ (pos 0) m.publish_id) && env.pool_gives

abbrev command_of : Address → String → Message → Command
command_of a subject m =
    if is_stream a.kind then stream_command a m else publish_command a subject m

-- What a header of a message's table says, as a text.
abbrev pub text_in : String → Table → Option String
text_in k [] = none
text_in k ((j, HeaderValue.text v) ∷ t) = if str_eq j k then some v else text_in k t
text_in k (_ ∷ t) = text_in k t

-- A command that publishes message m: to exchange a with the subject as its routing key, with all its
-- headers as texts, its body, its content type and encoding, and kept if m asks for that; or on stream
-- a under its publisher's name, with its headers, body and publish id.
abbrev pub Publishes : Address → String → Message → Command → Type 0
Publishes a subject m (Command.publish exchange key properties headers body) =
    (is_stream a.kind ≡ false)
    × (exchange ≡ a.name)
    × (key ≡ subject)
    × ((k : String) → text_in k headers ≡ lookup k m.headers)
    × (length headers ≡ length m.headers)
    × (body ≡ m.body)
    × (properties.delivery_mode ≡ (if m.persistent then 2 else 1))
    × (lookup "Content-Type" m.headers ≡ some properties.content_type
        ⊎ ((lookup "Content-Type" m.headers ≡ none) × (properties.content_type ≡ "")))
    × (lookup "Content-Encoding" m.headers ≡ some properties.content_encoding
        ⊎ ((lookup "Content-Encoding" m.headers ≡ none) × (properties.content_encoding ≡ "")))
Publishes a subject m (Command.stream_publish stream publisher headers body id) =
    (is_stream a.kind ≡ true)
    × (stream ≡ a.name)
    × (publisher ≡ m.publisher_name)
    × (headers ≡ m.headers)
    × (body ≡ m.body)
    × (id ≡ m.publish_id)
Publishes a subject m _ = true ≡ false

abbrev is_confirmed : Confirmation → Bool
is_confirmed confirmed = true
is_confirmed _ = false

-- A stream's publisher has confirmed the message, where the message asks for that.
abbrev pub settled_well : Environment → Address → Message → Bool
settled_well env a m = if is_stream a.kind && m.confirm then is_confirmed env.confirmation else true
