-- ===== src/Server/Sessions/Examples.antt =====
-- A server with one client and a provider that counts its connections, for the theorems on sessions.
use arke.Common.{
  ℕ, suc, String, ◌≡◌, ◌≢◌, refl, true, false, Option, none, some, ok, if◌then◌else◌, ◌==◌,
}
use arke.Common.Int.{pos}
use arke.ConcurrentMap.{new_concurrent_map, add, get}
use arke.Api.{error_text, ConnectionConfiguration}
use arke.Identity.{Context, get_client_addr, get_client_identifier, set_client_identifier}
use arke.Server.Backend.{Backend, Settling}
use arke.Server.Sessions.Defs.{
  Server, connect_rounds, connect_client, identify, broker_connect, broker_disconnect,
  find_provider, client_exists,
}
use arke.Server.Sessions.Laws.{broker_disconnect_lem}

abbrev agreeing : Settling ℕ
agreeing = record {
  ack = λ id m n. (none, n);
  nack = λ id m n. (none, n);
  retry = λ id s m d n. some (none, n);
  dead_letter = λ id s m n. some (none, n);
}

-- Its state is the number of calls; the second attempt connects.
abbrev second_try : Backend
second_try = record {
  P = ℕ;
  Stats = ℕ;
  connect = λ id cf skip n. (if n == 1 then none else some (error_text "refused"), suc n);
  disconnect = λ id n. n;
  client_exists = λ id n. true;
  publish_one = λ id m n. (none, n);
  source_stats = λ id s n. (0, n);
  settling = agreeing;
}

abbrev configuration : ConnectionConfiguration
configuration = record {
  host = "localhost";
  port = 5672;
  provider = "amqp091";
  tenant = "";
  tls = false;
  client_name = "reader";
  username = "guest";
  password = "guest";
}

abbrev missing : String → Option String
missing name = none

abbrev hash8 : String → String
hash8 addr = "0badcafe"

abbrev peer : Context
peer = some "10.0.0.1:4000"

abbrev idle : Server ℕ
idle = record { identifiers = new_concurrent_map; connections = new_concurrent_map; provider = 0 }

abbrev busy : Server ℕ
busy = record {
  identifiers = add new_concurrent_map "10.0.0.1:4000" "reader-0badcafe";
  connections = add new_concurrent_map "reader-0badcafe" configuration;
  provider = 2;
}

connects :
    (broker_connect second_try missing hash8 (pos 3) peer configuration false idle).0.success ≡ true
unfolding broker_connect identify get_client_addr get_client_identifier set_client_identifier
    connect_client connect_rounds get add new_concurrent_map
connects = refl

peer_address : get_client_addr peer ≡ ok "10.0.0.1:4000"
unfolding get_client_addr
peer_address = refl

peer_identifier : get_client_identifier peer busy.identifiers ≡ ok "reader-0badcafe"
unfolding get_client_identifier get_client_addr get add new_concurrent_map
peer_identifier = refl

broker_disconnect_lem_example :
    let s = broker_disconnect second_try peer busy in
    (s.provider ≡ (if client_exists peer busy then 2 else 2))
    × (client_exists peer s ≡ false)
    × ((find_provider peer s).0 ≢ none)
    × ((other : Context) (id' : String)
        → get_client_identifier other busy.identifiers ≡ ok id'
        → "reader-0badcafe" ≢ id'
        → (client_exists other s ≡ client_exists other busy)
          × (find_provider other s ≡ find_provider other busy))
broker_disconnect_lem_example =
    broker_disconnect_lem second_try peer "reader-0badcafe" busy peer_identifier
