-- ===== src/Delivery/Provider.antt =====
-- Ack, Nack, Retry and DeadLetter of internal/provider/connectors/amqp091/amqp091.go as the server
-- calls them: each first looks up the client's broker details (`getBrokerDetails`).
use Prim.Native.String.{◌++◌ as append}
use arke.Common.{ℕ, String, Option, none, some}
use arke.ConcurrentMap.{ConcurrentMap, add, get}
use arke.Api.{Error, error_text}
use arke.Amqp.Wire.{Broker}
use arke.Amqp.Client.{Client}
use arke.Amqp.Settle.{ack, nack, retry, dead_letter}
use arke.Server.Backend.{Settling}

-- `connections`: the broker details of each client identifier.
abbrev pub Connections : Type 0
Connections = ConcurrentMap Client

abbrev no_details : String → Error
no_details client =
    error_text (append "could not retrieve broker details for this connection: " client)

-- The broker details are shared, so that a change of them is a change of the map's entry.
put : String → Connections → Option Error × Client → Option Error × Connections
put client p (e, c) = (e, add p client c)

with_details :
    String
    → (Client → Option (Option Error × Client))
    → Connections
    → Option (Option Error × Connections)
unfolding put
with_details client f p = elim (get p client) [
  | none ↦ some (some (no_details client), p)
  | some c ↦ elim (f c) [ none ↦ none | some r ↦ some (put client p r) ]
]

calls : String → (Client → Option Error × Client) → Connections → Option Error × Connections
unfolding put
calls client f p = elim (get p client) [
  | none ↦ (some (no_details client), p)
  | some c ↦ put client p (f c)
]

unfoldable pub amqp_settling : Broker → ℕ → Settling Connections
unfolding with_details calls
amqp_settling b max_acquired = record {
  ack = λ client msgid p. calls client (ack b max_acquired msgid) p;
  nack = λ client msgid p. calls client (nack b max_acquired msgid) p;
  retry = λ client s msgid delay p. with_details client (retry b max_acquired s msgid delay) p;
  dead_letter = λ client s msgid p. with_details client (dead_letter b max_acquired msgid) p;
}
