-- ===== src/Amqp/Settle/Examples.antt =====
-- Deliveries of a small connection, for the theorems on settling messages.
use arke.Common.{◌≤◌, ◌≡◌, refl, Option, none, some, [], ◌∷◌, true, false}
use arke.Common.Int.{pos}
use arke.ConcurrentMap.{new_concurrent_map, add, get, delete}
use arke.Api.{Error, Source, SourceType}
use arke.Amqp.Headers.{HeaderValue}
use arke.Amqp.Wire.{Broker, Command}
use arke.Amqp.Client.{AmqpMessage, StreamMessage, queue_message, stream_message, Client}
use arke.Amqp.Settle.Defs.{ack, message_ack}
use arke.Amqp.Settle.Quiet.{settles}
use arke.Amqp.Settle.Effects.{Settlement, settle, Outcome, settle-queue_message}
use arke.Amqp.Settle.Once.{
  Deliveries, Step, Reach, fresh_deliveries, in_hand, undeleted, deleted, settled_once,
}

-- A broker that accepts everything.
abbrev willing : Broker
willing = record { answer = λ _ _. none; current_offset = λ _ _ _. 12; bindings = λ _ _ _. [] }

abbrev connected : Client
connected = record {
  active_messages = new_concurrent_map;
  known_exchanges = new_concurrent_map;
  known_queues = new_concurrent_map;
  known_bindings = new_concurrent_map;
  retry_channel = false;
  log = [];
}

abbrev letter : AmqpMessage
letter = record {
  delivery_tag = 0;
  properties = record { delivery_mode = 2; content_type = ""; content_encoding = "" };
  headers = ("x-acquired-count", HeaderValue.int32 3) ∷ [];
  body = 7 ∷ [];
}

abbrev entry : StreamMessage
entry = record { stream = "events"; consumer_name = "reader"; live = true }

abbrev with_letter : Client
with_letter = in_hand "m1" (queue_message letter) connected

abbrev with_entry : Client
with_entry = in_hand "m2" (stream_message entry) connected

abbrev orders : Source
orders = record {
  name = "orders";
  address = none;
  auto_delete = false;
  options = [];
  exclusive = false;
  prefetch_count = pos 1;
  kind = SourceType.quorum_queue;
  declare_only = false;
  single_active_consumer = false;
  filters = [];
}

abbrev acked : Client
acked = record connected { log = Command.basic_ack 0 ∷ [] }

acknowledge_letter : settle willing 20 Settlement.acknowledge "m1" with_letter ≡ some (none, acked)
unfolding settle ack message_ack get add delete new_concurrent_map
acknowledge_letter = refl

letter_in_hand : get with_letter.active_messages "m1" ≡ some (queue_message letter)
unfolding get add new_concurrent_map
letter_in_hand = refl

entry_in_hand : get with_entry.active_messages "m2" ≡ some (stream_message entry)
unfolding get add new_concurrent_map
entry_in_hand = refl

-- Another message of the stream comes between the two halves of the acknowledgement.
abbrev at_the_end : Deliveries
at_the_end = record {
  client = deleted "m1" (in_hand "m2" (stream_message entry) (undeleted with_letter acked));
  made = 1;
  begun = [];
  overlaps = 0;
}

delivered_and_acknowledged : Reach willing 20 (fresh_deliveries connected) at_the_end
unfolding get add delete new_concurrent_map
delivered_and_acknowledged =
    Reach.after
      (Reach.after
        (Reach.after (Reach.after Reach.here (Step.delivered "m1" letter connected [] 0 refl)) (
          Step.settles_one Settlement.acknowledge "m1" none with_letter acked 1 [] 0
            acknowledge_letter refl))
        (Step.streamed "m2" entry (undeleted with_letter acked) 1 ("m1" ∷ []) 0 refl))
      (Step.deletes_one "m1" (in_hand "m2" (stream_message entry) (undeleted with_letter acked)) 1
        ("m1" ∷ []) 0)

settled_once_example : settles 0 at_the_end.client.log ≤ 1
settled_once_example =
    settled_once willing 20 connected at_the_end 0 delivered_and_acknowledged refl

settle-queue_message_example :
    (e : Option Error) × (d : Client) × (settle willing 20
        (Settlement.postpone orders (pos 30))
        "m1"
        with_letter
      ≡ some (e, d))
    × Outcome willing 20 (Settlement.postpone orders (pos 30)) "m1" letter with_letter e d
settle-queue_message_example =
    settle-queue_message willing 20 (Settlement.postpone orders (pos 30)) "m1" letter with_letter
      letter_in_hand
