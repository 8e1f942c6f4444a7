-- ===== src/Amqp/Streams/Examples.antt =====
-- A codec for bodies of zeros, two publishers whose names run together, and a stream with two
-- messages in hand, for the theorems on streams.
use arke.Common.{
  ◌<◌, ok, ◌≤◌, Option-cases, arith, sym, ◌∙◌, inl, inr, ◌+◌, ◌^◌, ℕ, zero, suc, String, ◌≡◌, refl,
  ap, true, false, Option, none, some, [], ◌∷◌, ◌⊎◌,
}
use arke.ConcurrentMap.{new_concurrent_map, get, lookup}
use arke.Amqp.Streams.Compression.{
  Body, StreamMessage, encoding, body_over_limit, compress_message, sent_message, stamped,
  received_message, received-sent,
}
use arke.Amqp.Streams.Publishers.{Pool, gen_publisher_key}
use arke.Amqp.Streams.Pooled.{StreamConnection, Alone, get_publisher, new_publisher}
use arke.Amqp.Streams.Tries.{outcome, first_made, turns}
use arke.Amqp.Streams.Handed.{get_publisher_twice}
use arke.Common.Int.{pos}
use arke.ConcurrentMap.{add}
use arke.Api.{Source, SourceType}
use arke.Amqp.Wire.{Broker, Command, Offset}
use arke.Amqp.Client.{Client, stream_message}
use arke.Amqp.Client.{StreamMessage as InHand}
use arke.Amqp.Settle.{ack, retry, drop_message}
use arke.BlockingLatch.{advance, new_blocking_latch}
use arke.ConcurrentMap.{delete}
use arke.Amqp.Settle.Effects.{Settlement, settle}
use arke.Amqp.Streams.Subscribe.{StreamEnvironment, get_consumer_name, start_stream_consumer}
use arke.Amqp.Streams.Handle.{
  give_back, Subscription, handle_message, start, Reach, Run, here, next, handled, settles_one,
}
use arke.Amqp.Streams.Prefetch.{unsettled, handle_message_bounded}
use arke.Amqp.Settle.Once.{undeleted}
use arke.Amqp.Streams.Resume.{stored_by, newest_stored, ack-skips}

unfoldable zeros : ℕ → Body
zeros zero = []
zeros (suc n) = 0 ∷ zeros n

unfoldable one_more : Option ℕ → Option ℕ
one_more none = none
one_more (some n) = some (suc n)

unfoldable count_zeros : Body → Option ℕ
count_zeros [] = some 0
count_zeros (zero ∷ b) = one_more (count_zeros b)
count_zeros (suc x ∷ b) = none

unfoldable pack : Body → Option Body
pack b = elim (count_zeros b) [ none ↦ none | some n ↦ some (n ∷ []) ]

unfoldable unpack : Body → Option Body
unpack [] = none
unpack (n ∷ b) = some (zeros n)

zeros-count_zeros : (b : Body) (n : ℕ) → count_zeros b ≡ some n → zeros n ≡ b
unfolding zeros count_zeros one_more
zeros-count_zeros [] n e = let none_left : n ≡ 0 = ground (arith, e) in ap zeros none_left
zeros-count_zeros (zero ∷ b) n e = elim (Option-cases (count_zeros b)) [
  | inl none_there ↦ ground (arith, none_there, e)
  | inr (k, found) ↦
      let more : suc k ≡ n = ground (arith, found, e) in
      ap zeros (sym more) ∙ ap (λ t. 0 ∷ t) (zeros-count_zeros b k found)
]
zeros-count_zeros (suc x ∷ b) n e = ground (arith, e)

unpack-pack : (b c : Body) → pack b ≡ some c → unpack c ≡ some b
unfolding pack unpack
unpack-pack b c e = elim (Option-cases (count_zeros b)) [
  | inl none_there ↦ ground (arith, none_there, e)
  | inr (n, found) ↦
      let packed : n ∷ [] ≡ c = ground (arith, found, e) in
      ap unpack (sym packed) ∙ ap some (zeros-count_zeros b n found)
]

abbrev blank : StreamMessage
blank = record { body = zeros (2 ^ 20 + 1); headers = ("x-opt-rabbitmq-received-time", "170") ∷ [] }

unset : lookup encoding blank.headers ≡ none
unset = refl

received-sent_example :
    let got = received_message pack unpack "7" (sent_message pack unpack blank) in
    (got.body ≡ blank.body)
    × ((name : String) → lookup name got.headers ≡ lookup name (stamped "7" blank.headers))
    × ((compress_message pack unpack blank ≡ none × (sent_message pack unpack blank ≡ blank))
        ⊎ (body_over_limit (sent_message pack unpack blank).body ≡ false))
received-sent_example = received-sent pack unpack blank "7" unpack-pack unset

-- A broker that accepts everything, where the consumer has been handed offset 12.
abbrev willing : Broker
willing = record { answer = λ _ _. none; current_offset = λ _ _ _. 12; bindings = λ _ _ _. [] }

abbrev connected : Client
connected = record {
  active_messages = new_concurrent_map;
  known_exchanges = new_concurrent_map;
  known_queues = new_concurrent_map;
  known_bindings = new_concurrent_map;
  retry_channel = false;
  log = [];
}

abbrev entry : InHand
entry = record { stream = "events"; consumer_name = "events"; live = true }

abbrev two_in_hand : Client
two_in_hand = record connected {
  active_messages =
      add (add new_concurrent_map "m1" (stream_message entry)) "m2" (stream_message entry);
}

abbrev events : Source
events = record {
  name = "events";
  address = none;
  auto_delete = false;
  options = ("Offset", "continue") ∷ [];
  exclusive = false;
  prefetch_count = pos 2;
  kind = SourceType.stream_source;
  declare_only = false;
  single_active_consumer = false;
  filters = [];
}

abbrev at_twelve : StreamEnvironment
at_twelve = record { connect = none; is_closed = false; stored = λ _ _. some (pos 12) }

first_found : get two_in_hand.active_messages "m1" ≡ some (stream_message entry)
unfolding get add new_concurrent_map
first_found = refl

second_found : get two_in_hand.active_messages "m2" ≡ some (stream_message entry)
unfolding get add new_concurrent_map
second_found = refl

stores_twelve :
    some (pos 12) ≡ newest_stored "events" "events" (ack willing 0 "m1" two_in_hand).1.log
unfolding ack get add new_concurrent_map stored_by
stores_twelve = refl

named : get_consumer_name events ≡ ok "events"
unfolding get_consumer_name
named = refl

ack-skips_example :
    let d = (ack willing 0 "m1" two_in_hand).1 in
    (get d.active_messages "m2" ≡ some (stream_message entry))
    × ((start_stream_consumer willing at_twelve events d).1.log
        ≡ Command.stream_consume "events" "events" (Offset.at (pos 13)) false ∷ d.log)
ack-skips_example =
    ack-skips willing 0 "m1" "m2" entry entry two_in_hand 12 at_twelve events first_found
      second_found refl refl refl stores_twelve refl named refl refl

-- The first of two deliveries is retried.
abbrev one_handled : Subscription
one_handled = record {
  client = record connected {
    active_messages = add new_concurrent_map "m1" (stream_message entry);
  };
  latch = record { count = 1; max = 2; cancelled = false; locked = false };
}

takes_first : handle_message "m1" entry (start 2 connected).subscription ≡ some one_handled
unfolding handle_message advance new_blocking_latch
takes_first = refl

abbrev retried : Client
retried = record connected { active_messages = delete one_handled.client.active_messages "m1" }

retries_first :
    settle willing 0 (Settlement.postpone events (pos 5)) "m1" one_handled.client
    ≡ some (none, retried)
unfolding settle retry get add new_concurrent_map drop_message
retries_first = refl

-- The call has still to delete the message.
abbrev half_retried : Run
half_retried = record {
  subscription = record {
    client = undeleted one_handled.client retried;
    latch = one_handled.latch;
  };
  kept = 1;
  begun = "m1" ∷ [];
  overlaps = 0;
}

one_kept : Reach willing 0 (start 2 connected) half_retried
unfolding give_back get add new_concurrent_map new_blocking_latch
one_kept =
    next
      (next here
        (handled "m1" entry (start 2 connected).subscription one_handled 0 [] 0 takes_first))
      (settles_one (Settlement.postpone events (pos 5)) "m1" entry none one_handled.client retried
        one_handled.latch 0 [] 0 refl retries_first)

small : 2 < 2 ^ 64
small = omega arith

none_at_first : connected.active_messages.items ≡ []
unfolding new_concurrent_map
none_at_first = refl

handle_message_bounded_example :
    (unsettled half_retried + half_retried.kept ≤ 2)
    × ((uuid : String) (m : InHand)
        → half_retried.kept ≡ 2
        → handle_message uuid m half_retried.subscription ≡ none)
handle_message_bounded_example =
    handle_message_bounded willing 0 2 small connected none_at_first one_kept refl

no_billing :
    get (new_concurrent_map {V = Pool ℕ}) (gen_publisher_key "orders" "billing" true) ≡ none
unfolding get new_concurrent_map
no_billing = refl

abbrev opened : StreamConnection ℕ
opened = record { client_disconnect = false; cancelled = false; publishers = new_concurrent_map }

-- The first producer of publisher "billing" cannot be made, and later ones could.
get_publisher_twice_example :
    let (sc', first) = get_publisher "orders" "billing" true (λ _. none) false opened in
    (first ≡ Alone.blocks)
    × ((get_publisher "orders" "billing" true (λ i. some i) false sc').1 ≡ Alone.blocks)
unfolding outcome first_made turns new_publisher
get_publisher_twice_example =
    get_publisher_twice "orders" "billing" true (λ _. none) (λ i. some i) false opened no_billing
