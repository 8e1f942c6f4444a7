-- ===== src/Server/Backend.antt =====
-- The provider behind internal/server/server.go: the methods of the interface `Provider` of
-- internal/provider/provider.go that the server calls, over a state `P` of the provider. The server
-- hands on a context, of which the methods use only the client's identifier.
use arke.Common.{String, Bool, Option}
use arke.Common.Int.{ℤ}
use arke.Api.{Error, Message, Source, ConnectionConfiguration}

-- Settling messages. A nil source is `none`, and so is a result that is a panic.
pub record Settling (P : Type 0) : Type 0 where
  pub ack : String → String → P → Option Error × P
  pub nack : String → String → P → Option Error × P
  pub retry : String → Option Source → String → ℤ → P → Option (Option Error × P)
  pub dead_letter : String → Option Source → String → P → Option (Option Error × P)

-- `Stats` is the protobuf message of the statistics of one source.
pub record Backend : Type 1 where
  pub P : Type 0
  pub Stats : Type 0
  pub connect : String → ConnectionConfiguration → Bool → P → Option Error × P
  pub disconnect : String → P → P
  pub client_exists : String → P → Bool
  pub publish_one : String → Message → P → Option Error × P
  pub source_stats : String → Source → P → Stats × P
  pub settling : Settling P
