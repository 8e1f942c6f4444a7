-- ===== src/Amqp/Publish/Examples.antt =====
-- A message to an exchange, for the theorem on publishing.
use arke.Common.{true, false, none, some, [], ◌∷◌}
use arke.Common.Int.{pos}
use arke.ConcurrentMap.{new_concurrent_map}
use arke.Api.{Address, AddressType, Message}
use arke.Amqp.Wire.{Broker}
use arke.Amqp.Client.{Client}
use arke.Amqp.Publish.Defs.{Environment, confirmed}

abbrev willing : Broker
willing = record { answer = λ _ _. none; current_offset = λ _ _ _. 12; bindings = λ _ _ _. [] }

abbrev ready : Environment
ready = record {
  is_closed = false;
  pool_gives = true;
  stream_connect = none;
  stream_closed = false;
  publisher_given = true;
  confirmation = confirmed;
}

abbrev events : Address
events = record {
  node = record {
    name = "events";
    subjects = "high" ∷ [];
    kind = AddressType.topic;
    auto_delete = false;
  };
  ancestors = [];
}

abbrev greeting : Message
greeting = record {
  uuid = "m1";
  headers = ("Content-Type", "text/plain") ∷ [];
  body = 1 ∷ [];
  address = some events;
  persistent = true;
  error = none;
  confirm = true;
  publish_id = pos 0;
  publisher_name = "";
}

abbrev connected : Client
connected = record {
  active_messages = new_concurrent_map;
  known_exchanges = new_concurrent_map;
  known_queues = new_concurrent_map;
  known_bindings = new_concurrent_map;
  retry_channel = false;
  log = [];
}
