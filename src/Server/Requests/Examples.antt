-- ===== src/Server/Requests/Examples.antt =====
-- Requests to a server with one dead client, for the theorems on requests.
use arke.Common.{ℕ, suc, String, true, false, Option, none, some, [], ◌∷◌, str_eq}
use arke.Common.Int.{pos}
use arke.ConcurrentMap.{new_concurrent_map, add}
use arke.Api.{AddressType, Message, Source, SourceType, ConnectionConfiguration}
use arke.Identity.{Context}
use arke.Server.Backend.{Backend}
use arke.Server.Sessions.{Server}

-- It knows only one client, and counts what it publishes.
abbrev counting : Backend
counting = record {
  P = ℕ;
  Stats = ℕ;
  connect = λ id cf skip n. (none, n);
  disconnect = λ id n. n;
  client_exists = λ id n. str_eq id "writer-0badcafe";
  publish_one = λ id m n. (none, suc n);
  source_stats = λ id s n. (n, suc n);
  settling = record {
    ack = λ id m n. (none, n);
    nack = λ id m n. (none, n);
    retry = λ id s m d n. some (none, n);
    dead_letter = λ id s m n. some (none, n);
  };
}

abbrev configuration : ConnectionConfiguration
configuration = record {
  host = "localhost";
  port = 5672;
  provider = "amqp091";
  tenant = "";
  tls = false;
  client_name = "writer";
  username = "guest";
  password = "guest";
}

abbrev server : Server ℕ
server = record {
  identifiers = add new_concurrent_map "10.0.0.1:4000" "writer-0badcafe";
  connections =
      add (add new_concurrent_map "writer-0badcafe" configuration) "gone-0badcafe" configuration;
  provider = 0;
}

abbrev peer : Context
peer = some "10.0.0.1:4000"

abbrev greeting : Message
greeting = record {
  uuid = "m1";
  headers = [];
  body = 1 ∷ [];
  address = some (record {
    node = record {
      name = "events";
      subjects = "high" ∷ [];
      kind = AddressType.topic;
      auto_delete = false;
    };
    ancestors = [];
  });
  persistent = false;
  error = none;
  confirm = true;
  publish_id = pos 0;
  publisher_name = "";
}

abbrev orders : Source
orders = record {
  name = "orders";
  address = none;
  auto_delete = false;
  options = [];
  exclusive = false;
  prefetch_count = pos 1;
  kind = SourceType.quorum_queue;
  declare_only = false;
  single_active_consumer = false;
  filters = [];
}

abbrev missing : String → Option String
missing name = none
