-- ===== src/Amqp/Subscribe/Examples.antt =====
-- A queue with three deliveries, for the theorems on subscribing.
use arke.Common.{ℕ, ◌+◌, String, ◌≡◌, refl, true, false, map, none, some, List, [], ◌∷◌, ok}
use arke.Common.Int.{pos}
use arke.ConcurrentMap.{new_concurrent_map, get, add}
use arke.Api.{AddressType, Source, SourceType}
use arke.Amqp.Headers.{HeaderValue}
use arke.Amqp.Wire.{Broker}
use arke.Amqp.Client.{AmqpMessage, Client}
use arke.Amqp.Names.{source_name, is_quorum, source_type_to_amqp_type, address_type_to_amqp_type}
use arke.Amqp.Declare.{
  declare_exchange, exchange_unless_known, declare_queue, queue_args, option_args, option_arg,
  declare_binding, cleanup_bindings, cleanup, say_all, bindings_of, subject_bindings,
  binding_subjects, match_headers_list,
}
use arke.Amqp.Settle.Quiet.{settles}
use arke.Amqp.Subscribe.Setup.{
  subscribed_source, declare_address, setup_dead_letter, start_consumer, declare_source,
  queue_setup,
}
use arke.Amqp.Subscribe.Deliver.{message_of_delivery, Event, delivery, ends, deliver_all}
use arke.Amqp.Subscribe.Handed.{accepted, rejected, last_of, deliver_all_lem}

abbrev willing : Broker
willing = record { answer = λ _ _. none; current_offset = λ _ _ _. 12; bindings = λ _ _ _. [] }

abbrev connected : Client
connected = record {
  active_messages = new_concurrent_map;
  known_exchanges = new_concurrent_map;
  known_queues = new_concurrent_map;
  known_bindings = new_concurrent_map;
  retry_channel = false;
  log = [];
}

abbrev orders : Source
orders = record {
  name = "orders";
  address = some (record {
    node = record {
      name = "events";
      subjects = "high" ∷ [];
      kind = AddressType.topic;
      auto_delete = false;
    };
    ancestors = [];
  });
  auto_delete = true;
  options = ("DeadLetterAddress", "dead") ∷ [];
  exclusive = false;
  prefetch_count = pos 5;
  kind = SourceType.quorum_queue;
  declare_only = false;
  single_active_consumer = false;
  filters = [];
}

subscribes : (queue_setup willing false orders connected).0 ≡ ok tt
unfolding queue_setup declare_source start_consumer subscribed_source source_name is_quorum
    declare_address declare_exchange exchange_unless_known declare_queue queue_args option_args
    option_arg source_type_to_amqp_type address_type_to_amqp_type get add new_concurrent_map
    declare_binding say_all bindings_of subject_bindings binding_subjects match_headers_list
    cleanup_bindings cleanup setup_dead_letter
subscribes = refl

abbrev show : HeaderValue → String
show value = "value"

abbrev letter : ℕ → ℕ → AmqpMessage
letter tag times = record {
  delivery_tag = tag;
  properties = record { delivery_mode = 2; content_type = "text/plain"; content_encoding = "" };
  headers = ("x-acquired-count", HeaderValue.int64 times) ∷ [];
  body = 1 ∷ [];
}

abbrev arrivals : List (Event willing 20 show)
arrivals =
    delivery "m1" (letter 0 1)
    ∷ delivery "m2" (letter 1 1)
    ∷ delivery "m3" (letter 2 21)
    ∷ ends none
    ∷ []

deliver_all_lem_example :
    let (handed, _, d) = deliver_all willing 20 show orders.address arrivals connected in
    (handed
      ≡ map
          (λ (uuid, m). message_of_delivery show uuid orders.address m)
          (accepted willing 20 show arrivals))
    × ((t : ℕ) → settles t d.log ≡ settles t connected.log + rejected willing 20 show t arrivals)
    × ((j : String)
        → get d.active_messages j
          ≡ last_of willing 20 show j
              (accepted willing 20 show arrivals)
              (get connected.active_messages j))
deliver_all_lem_example = deliver_all_lem willing 20 show orders.address arrivals connected
