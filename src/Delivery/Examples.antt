-- ===== src/Delivery/Examples.antt =====
-- A client with one message in hand, for the theorems on acknowledgements.
use arke.Common.{◌≡◌, ◌≢◌, refl, none, some, [], ◌∷◌, true, false, arith, eq_iff}
use arke.Common.Int.{pos}
use arke.ConcurrentMap.{new_concurrent_map, add, get}
use arke.Api.{Source, SourceType, MessageConsumed, MessageConsumedResponse}
use arke.Amqp.Wire.{Broker}
use arke.Amqp.Client.{Client, AmqpMessage, queue_message}
use arke.Server.Consume.{handle_consumed}
use arke.Delivery.Provider.{Connections, amqp_settling}
use arke.Delivery.Consumed.{SettledFor, handle_consumed-settles}

-- A broker that refuses everything: the retry fails, and the message is rejected.
abbrev refusing : Broker
refusing = record {
  answer = λ _ _. some "refused";
  current_offset = λ _ _ _. 12;
  bindings = λ _ _ _. [];
}

abbrev letter : AmqpMessage
letter = record {
  delivery_tag = 5;
  properties = record { delivery_mode = 2; content_type = ""; content_encoding = "" };
  headers = [];
  body = 1 ∷ [];
}

abbrev details : Client
details = record {
  active_messages = add new_concurrent_map "m1" (queue_message letter);
  known_exchanges = new_concurrent_map;
  known_queues = new_concurrent_map;
  known_bindings = new_concurrent_map;
  retry_channel = false;
  log = [];
}

abbrev connections : Connections
connections = add new_concurrent_map "reader-0badcafe" details

abbrev retry_later : MessageConsumed
retry_later = record { uuid = "m1"; nack = true; requeue_delay = pos 30 }

abbrev orders : Source
orders = record {
  name = "orders";
  address = none;
  auto_delete = false;
  options = [];
  exclusive = false;
  prefetch_count = pos 1;
  kind = SourceType.quorum_queue;
  declare_only = false;
  single_active_consumer = false;
  filters = [];
}

named : retry_later.uuid ≢ ""
named = λ h. ground (arith, eq_iff "m1" "")

known : get connections "reader-0badcafe" ≡ some details
unfolding get add new_concurrent_map
known = refl

in_hand : get details.active_messages "m1" ≡ some (queue_message letter)
unfolding get add new_concurrent_map
in_hand = refl

handle_consumed-settles_example :
    (r : MessageConsumedResponse) × (q : Connections) × (handle_consumed
        (amqp_settling refusing 20)
        "reader-0badcafe"
        (some orders)
        retry_later
        connections
      ≡ some (r, q))
    × SettledFor refusing 20 "reader-0badcafe" "m1" letter details q
handle_consumed-settles_example =
    handle_consumed-settles refusing 20 "reader-0badcafe" orders retry_later letter details
      connections named known in_hand
