-- ===== src/Amqp/Connection/Defs.antt =====
-- Connect, connect and Disconnect of internal/provider/connectors/amqp091/amqp091.go. Dialling is an
-- unknown function of the number of dials so far and of the connection text: `none` for success, or
-- the text of the error. Loading the list of exchanges in the background is left out.
use Prim.Native.String.{◌++◌ as append}
use arke.Common.{
  ℕ, ◌+◌, String, Bool, true, false, ◌||◌, Option, none, some, [], str_eq, if◌then◌else◌,
}
use arke.Common.Text.{itoa}
use arke.Common.Int.{ℤ, pos}
use arke.ConcurrentMap.{ConcurrentMap, new_concurrent_map, add, delete, get}
use arke.Api.{Error, error_text, ConnectionConfiguration}
use arke.Amqp.Client.{Client}

-- The constants of internal/provider/constants.go.
pub data State : Type 0 where
  disconnected connecting connected closed : State

-- The rest of BrokerDetails. `is_open` says that `Connection` is set and not closed. The
-- TLS configuration, which all clients share, is left out. `dials` counts the dials, which the program does not.
pub record Details : Type 0 where
  pub client : Client
  pub state : State
  pub client_disconnect : Bool
  pub configuration : ConnectionConfiguration
  pub tls_skip_verify : Bool
  pub tls_enabled : Bool
  pub is_open : Bool
  pub active_streams : ℤ
  pub last_event : ℕ
  pub dials : ℕ

abbrev pub Dial : Type 0
Dial = ℕ → String → Option String

abbrev pub is_connecting : State → Bool
is_connecting connecting = true
is_connecting _ = false

abbrev pub is_connected : State → Bool
is_connected connected = true
is_connected _ = false

unfoldable pub connection_text : Bool → ConnectionConfiguration → String
connection_text tls cf = append (if tls then "amqps" else "amqp") (
    append "://" (
      append cf.username (
        append ":" (
          append cf.password (
            append "@" (
              append cf.host (
                append ":" (
                  append (itoa (pos cf.port))
                    (append "/" (if str_eq cf.tenant "" then "/" else cf.tenant))))))))))

-- What connecting forgets first.
abbrev pub forgotten : Client → Client
forgotten c = record c {
  known_exchanges = new_concurrent_map;
  known_queues = new_concurrent_map;
  known_bindings = new_concurrent_map;
  active_messages = new_concurrent_map;
}

-- The state in which the connection is dialled.
unfoldable pub prepared : Details → Details
prepared d = record d {
  client = forgotten d.client;
  state = connecting;
  tls_enabled = d.tls_enabled || d.configuration.tls;
}

module _ (dial : Dial) where
  dialled : Details → Details × Option String
  dialled d = (
    record d { dials = d.dials + 1 },
    dial d.dials (connection_text d.configuration.tls d.configuration),
  )

  -- The part of connect under the lock.
  unfoldable pub connect_locked : Details → Bool × Option String × Details
  unfolding dialled prepared
  connect_locked d =
      if is_connected d.state
      then (true, none, d)
      else (let (d', e) = dialled (prepared d) in
          elim e [
            | some m ↦ (false, some m, record d' { state = closed })
            | none ↦ (
              true,
              none,
              record d' {
                client = record d'.client { retry_channel = false };
                state = connected;
                is_open = true;
              },
            )
          ])

  -- `after_wait` is what waitWhileConnecting answers, and the details by then: another goroutine
  -- changes them meanwhile.
  unfoldable pub connect : State × Details → Details → Bool × Option String × Details
  connect after_wait d =
      if d.client_disconnect
      then (false, none, d)
      else if is_connecting d.state
      then elim after_wait.0 [
        | connected ↦ (true, none, after_wait.1)
        | closed ↦ (false, none, after_wait.1)
        | _ ↦ connect_locked after_wait.1
      ]
      else connect_locked d

  -- `Connect` of the provider: new details, and one attempt. `now` is the time in seconds.
  unfoldable pub new_details : ℕ → ConnectionConfiguration → Bool → Details
  new_details now cf skip = record {
    client = record {
      active_messages = new_concurrent_map;
      known_exchanges = new_concurrent_map;
      known_queues = new_concurrent_map;
      known_bindings = new_concurrent_map;
      retry_channel = false;
      log = [];
    };
    state = disconnected;
    client_disconnect = false;
    configuration = cf;
    tls_skip_verify = skip;
    tls_enabled = false;
    is_open = false;
    active_streams = pos 0;
    last_event = now;
    dials = 0;
  }

  -- A new connection has nobody else to wait for. Its watcher is started with it.
  unfoldable pub provider_connect :
      ℕ
      → String
      → ConnectionConfiguration
      → Bool
      → ConcurrentMap Details
      → Option Error × ConcurrentMap Details
  provider_connect now id cf skip m =
      let d = new_details now cf skip in
      let (_, e, d') = connect (disconnected, d) d in
      elim e [ some t ↦ (some (error_text t), m) | none ↦ (none, add m id d') ]

-- The details are unreachable from the map afterwards.
unfoldable pub disconnect_client :
    String → ConcurrentMap Details → Option Details × ConcurrentMap Details
disconnect_client id m = elim (get m id) [
  | none ↦ (none, m)
  | some d ↦ (some (record d { client_disconnect = true; is_open = false }), delete m id)
]
