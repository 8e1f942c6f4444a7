-- ===== src/Amqp/Subscribe/Deliver.antt =====
-- What the loop of queueSubscribe in internal/provider/connectors/amqp091/amqp091.go does with one
-- delivery. Tracing and statistics are left out.
use arke.Common.{ℕ, String, false, Option, none, some, List, [], ◌∷◌, str_eq, ◌==◌, if◌then◌else◌}
use arke.Common.Int.{pos}
use arke.ConcurrentMap.{add, insert}
use arke.Api.{Address, Message}
use arke.Amqp.Headers.{Table, HeaderValue, max_acquired_count_hit}
use arke.Amqp.Wire.{Broker}
use arke.Amqp.Client.{AmqpMessage, queue_message, Client}
use arke.Amqp.Settle.{message_nack}

with_header : String → String → List (String × String) → List (String × String)
with_header name value headers = if str_eq value "" then headers else insert name value headers

-- `show` is the text of a value in the format `%v`.
show_headers : (HeaderValue → String) → Table → List (String × String)
show_headers show [] = []
show_headers show ((k, v) ∷ l) = (k, show v) ∷ show_headers show l

unfoldable pub message_headers : (HeaderValue → String) → AmqpMessage → List (String × String)
unfolding with_header show_headers
message_headers show m =
    with_header "Content-Encoding" m.properties.content_encoding
      (with_header "Content-Type" m.properties.content_type (show_headers show m.headers))

-- The message for the server.
unfoldable pub message_of_delivery :
    (HeaderValue → String) → String → Option Address → AmqpMessage → Message
message_of_delivery show uuid address m = record {
  uuid = uuid;
  headers = message_headers show m;
  body = m.body;
  address = address;
  persistent = false;
  error = none;
  confirm = false;
  publish_id = pos 0;
  publisher_name = "";
}

module _ (b : Broker) (max_acquired : ℕ) (show : HeaderValue → String) where
  -- `uuid` is the identifier made for the delivery. A delivery with tag 0 is passed over, and one past
  -- the delivery limit is rejected; another is in hand before the server gets its message.
  unfoldable pub deliver : String → Option Address → AmqpMessage → Client → Option Message × Client
  deliver uuid address m c =
      if m.delivery_tag == 0
      then (none, c)
      else if max_acquired_count_hit max_acquired m.headers
      then (none, record c { log = (message_nack b max_acquired false m c.log).1 })
      else (
        some (message_of_delivery show uuid address m),
        record c { active_messages = add c.active_messages uuid (queue_message m) },
      )

  -- What the loop selects on: a delivery with its identifier, or what ends the loop, with the error
  -- that it returns.
  pub data Event : Type 0 where
    delivery : String → AmqpMessage → Event
    ends : Option String → Event
    nothing : Event

  -- The messages for the server, in order, and the error that the loop returns, if it ends.
  unfoldable pub deliver_all :
      Option Address → List Event → Client → List Message × Option (Option String) × Client
  deliver_all address [] c = ([], none, c)
  deliver_all address (ends e ∷ events) c = ([], some e, c)
  deliver_all address (nothing ∷ events) c = deliver_all address events c
  deliver_all address (delivery uuid m ∷ events) c =
      let (handed, c') = deliver uuid address m c in
      let (rest, e, d) = deliver_all address events c' in
      (elim handed [ none ↦ rest | some h ↦ h ∷ rest ], e, d)
