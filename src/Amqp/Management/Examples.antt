-- ===== src/Amqp/Management/Examples.antt =====
-- Concrete answers of the management API.
use arke.Common.{
  ◌≡◌, ◌↔◌, String, true, false, ◌&&◌, Option, none, some, [], ◌∷◌, Fallible, ok, str_eq, is_some,
}
use arke.Common.Int.{ℤ, pos}
use arke.ConcurrentMap.{new_concurrent_map}
use arke.Api.{AddressNode, AddressType, SourceType, Source, ConnectionConfiguration}
use arke.Amqp.Wire.{Broker}
use arke.Amqp.Client.{Client}
use arke.Amqp.Declare.{address_name}
use arke.Amqp.Management.Defs.{
  number, text, array, object, no_values, value, no_fields, field, Body, json, Http,
  management_request,
}
use arke.Amqp.Management.Stats.{source_stats, is_stream_source}
use arke.Amqp.Management.Errors.{Reported, Answered, KindReported, reply_for, source_stats_lem}
use arke.Amqp.Management.Exchanges.{load_exchanges, exchanges_urn}

abbrev configuration : ConnectionConfiguration
configuration = record {
  host = "localhost";
  port = 5672;
  provider = "amqp091";
  tenant = "";
  tls = true;
  client_name = "reader";
  username = "guest";
  password = "guest";
}

abbrev events : AddressNode
events = record {
  name = "events";
  subjects = "high" ∷ [];
  kind = AddressType.topic;
  auto_delete = false;
}

abbrev alerts : Source
alerts = record {
  name = "alerts";
  address = some (record { node = events; ancestors = [] });
  auto_delete = false;
  options = [];
  exclusive = false;
  prefetch_count = pos 1;
  kind = SourceType.quorum_queue;
  declare_only = false;
  single_active_consumer = false;
  filters = [];
}

abbrev gives : Body → Http
gives b method url = ok (record { status = 200; body = b; body_error = none })

abbrev one_queue : Http
one_queue = gives (
    json
      (object (field "consumers" (number (pos 2)) (field "messages" (number (pos 7)) no_fields))))

abbrev no_error : Option String
no_error = none

abbrev no_offset : String → String → ℤ
no_offset stream consumer = pos 0

abbrev offset : String → Fallible ℤ
offset stream = ok (pos 0)

source_stats_lem_example :
    Reported
      (source_stats no_offset offset one_queue false 0 configuration no_error no_error alerts)
    ↔ ((str_eq (address_name alerts) "" ≡ false)
        × (no_error ≡ none)
        × (is_stream_source alerts.kind && is_some no_error ≡ false)
        × Answered (reply_for no_offset offset one_queue false 0 configuration alerts)
        × KindReported no_offset offset alerts.kind alerts)
source_stats_lem_example =
    source_stats_lem no_offset offset one_queue false 0 configuration none none alerts

abbrev willing : Broker
willing = record { answer = λ _ _. none; current_offset = λ _ _ _. 0; bindings = λ _ _ _. [] }

abbrev connected : Client
connected = record {
  active_messages = new_concurrent_map;
  known_exchanges = new_concurrent_map;
  known_queues = new_concurrent_map;
  known_bindings = new_concurrent_map;
  retry_channel = false;
  log = [];
}

abbrev one_exchange : Http
one_exchange =
    gives (json (array (value (object (field "name" (text "events") no_fields)) no_values)))

abbrev answer : Body × Option String
answer = management_request one_exchange false 0 configuration "GET" (exchanges_urn configuration)

abbrev loaded : Client
loaded = load_exchanges one_exchange false 0 configuration connected
