-- ===== src/Server/Consume/Examples.antt =====
-- A client that sends a source twice, for the theorem on streams.
use arke.Common.{◌≤◌, none, List, [], ◌∷◌, true, false, All}
use arke.Common.Int.{pos}
use arke.Api.{Source, SourceType}
use arke.Server.Consume.Defs.{Event, recv_source, recv_consumed, recv_failed, consume, new_consumer}
use arke.Server.Consume.Laws.{subscriptions, Sound, consume-Sound}

abbrev greedy : Source
greedy = record {
  name = "orders";
  address = none;
  auto_delete = true;
  options = [];
  exclusive = false;
  prefetch_count = pos 0;
  kind = SourceType.quorum_queue;
  declare_only = false;
  single_active_consumer = false;
  filters = [];
}

abbrev events : List Event
events =
    recv_consumed (record { uuid = "m0"; nack = false; requeue_delay = pos 0 })
    ∷ recv_source greedy
    ∷ recv_source greedy
    ∷ recv_failed "EOF"
    ∷ []

consume-Sound_example :
    let (p, effects) = consume ("Expires" ∷ []) events new_consumer in
    (subscriptions effects ≤ 1) × All (Sound ("Expires" ∷ [])) effects
consume-Sound_example = consume-Sound ("Expires" ∷ []) events
