-- ===== src/Amqp/Subscribe/Handed.antt =====
-- Which deliveries of queueSubscribe in internal/provider/connectors/amqp091/amqp091.go reach the client.
use arke.Common.{
  ℕ, ◌+◌, String, ◌≡◌, refl, Bool, ◌&&◌, not, Option, none, some, List, [], ◌∷◌, map, arith, str_eq,
  ◌==◌, if◌then◌else◌,
}
use arke.ConcurrentMap.{get, get-add}
use arke.Api.{Address}
use arke.Amqp.Headers.{HeaderValue, max_acquired_count_hit}
use arke.Amqp.Wire.{Broker}
use arke.Amqp.Client.{AmqpMessage, Active, queue_message, Client}
use arke.Amqp.Settle.{message_nack}
use arke.Amqp.Settle.Quiet.{settles}
use arke.Amqp.Subscribe.Deliver.{
  message_of_delivery, deliver, Event, delivery, ends, nothing, deliver_all,
}

module _ (b : Broker) (max_acquired : ℕ) (show : HeaderValue → String) where
  -- A delivery past its delivery limit, and one that is neither that nor without a tag.
  abbrev pub is_rejected : AmqpMessage → Bool
  is_rejected m = not (m.delivery_tag == 0) && max_acquired_count_hit max_acquired m.headers

  abbrev pub is_accepted : AmqpMessage → Bool
  is_accepted m = not (m.delivery_tag == 0) && not (max_acquired_count_hit max_acquired m.headers)

  -- The accepted deliveries before the loop ends, in order.
  abbrev pub accepted : List (Event b max_acquired show) → List (String × AmqpMessage)
  accepted [] = []
  accepted (ends e ∷ events) = []
  accepted (nothing ∷ events) = accepted events
  accepted (delivery uuid m ∷ events) =
      if is_accepted m then (uuid, m) ∷ accepted events else accepted events

  -- How many deliveries with this tag are rejected before the loop ends.
  abbrev pub rejected : ℕ → List (Event b max_acquired show) → ℕ
  rejected t [] = 0
  rejected t (ends e ∷ events) = 0
  rejected t (nothing ∷ events) = rejected t events
  rejected t (delivery uuid m ∷ events) =
      (if is_rejected m && (t == m.delivery_tag) then 1 else 0) + rejected t events

  -- The last of the deliveries with this identifier, or else what was in hand before.
  abbrev pub last_of : String → List (String × AmqpMessage) → Option Active → Option Active
  last_of j [] o = o
  last_of j ((uuid, m) ∷ l) o = last_of j l (if str_eq uuid j then some (queue_message m) else o)

  deliver_one :
      (uuid : String) (address : Option Address) (m : AmqpMessage) (c : Client)
      → let (handed, d) = deliver b max_acquired show uuid address m c in
        (handed ≡ (if is_accepted m then some (message_of_delivery show uuid address m) else none))
        × ((t : ℕ)
            → settles t d.log
              ≡ settles t c.log + (if is_rejected m && (t == m.delivery_tag) then 1 else 0))
        × ((j : String)
            → get d.active_messages j ≡ (
                if is_accepted m && str_eq uuid j
                then some (queue_message m)
                else get c.active_messages j))
  unfolding deliver message_nack
  deliver_one uuid address m c = (
    ground arith,
    λ t. ground arith,
    λ j. ground (arith, get-add c.active_messages uuid (queue_message m) j),
  )

  -- The loop hands to the server exactly the deliveries that have a tag and are within the delivery
  -- limit, in order and each under its identifier; each of them is in hand under that identifier. Each
  -- delivery past the limit is rejected once, and nothing else is acknowledged or rejected. This holds
  -- for the deliveries before the event that ends the loop.
  pub deliver_all_lem :
      (address : Option Address) (events : List (Event b max_acquired show)) (c : Client)
      → let (handed, _, d) = deliver_all b max_acquired show address events c in
        (handed ≡ map (λ (uuid, m). message_of_delivery show uuid address m) (accepted events))
        × ((t : ℕ) → settles t d.log ≡ settles t c.log + rejected t events)
        × ((j : String)
            → get d.active_messages j ≡ last_of j (accepted events) (get c.active_messages j))
  unfolding deliver_all
  deliver_all_lem address [] c = (refl, λ t. omega arith, λ j. refl)
  deliver_all_lem address (ends e ∷ events) c = (refl, λ t. omega arith, λ j. refl)
  deliver_all_lem address (nothing ∷ events) c = deliver_all_lem address events c
  deliver_all_lem address (delivery uuid m ∷ events) c =
      let (now, log, hand) = deliver_one uuid address m c in
      let (later, logs, hands) =
        deliver_all_lem address events (deliver b max_acquired show uuid address m c).1 in
      (
        ground (arith, now, later),
        λ t. ground (arith, log t, logs t),
        λ j. ground (arith, hand j, hands j),
      )
