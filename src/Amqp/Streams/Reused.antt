-- ===== src/Amqp/Streams/Reused.antt =====
-- PutPublisher and the next GetPublisher in internal/provider/connectors/amqp091/streamshim.go.
use arke.Common.{List, ℕ, ◌<◌, Bool, false, Option, some, ◌≡◌, refl, ap, ◌∙◌, [], ◌∷◌, arith}
use arke.ConcurrentMap.{get, get-add_self}
use arke.BlockingPool.{BlockingPool, advance, Ending}
use arke.Amqp.Streams.Publishers.{StreamPublisher, Pool, gen_publisher_key}
use arke.Amqp.Streams.Pooled.{
  Alone, tries, StreamConnection, get_publisher, take_from, put_back, put_publisher, under,
  put_alone, get_alone, run_alone, turned_away,
}
use arke.Amqp.Streams.Handed.{made_by, later_use}

-- A pool that is not cancelled, with what is in its channel.
abbrev with_items : {A : Type 0} → List A → ℕ → ℕ → BlockingPool A
with_items items count limit = record {
  items = items;
  count = count;
  limit = limit;
  cancelled = false;
}

put_alone-room :
    {A : Type 0} (x : A) (take_item : Bool) (count limit : ℕ)
    → 0 < limit
    → put_alone x take_item (with_items [] count limit)
      ≡ (with_items (x ∷ []) count limit, Alone.finished Ending.put_ok)
unfolding put_alone run_alone advance
put_alone-room x take_item count limit room = ground arith

tries-item :
    {A : Type 0} (x : A) (made : ℕ → Option A) (take_item : Bool) (count limit : ℕ)
    → tries 10 made take_item 0 (with_items (x ∷ []) count limit)
      ≡ (with_items [] count limit, Alone.holds x)
unfolding tries get_alone run_alone advance
tries-item x made take_item count limit = refl

module _ {P : Type 0} where
  -- A publisher that is put back into a pool without idle items is the one that GetPublisher hands out
  -- next, whatever the stream client could make, and PutPublisher does not close it.
  put_publisher-get_publisher :
      (x : StreamPublisher P) (confirm take_item : Bool) (producers : ℕ → Option P)
      (sc : StreamConnection P) (pool : Pool P)
      → get sc.publishers (gen_publisher_key x.stream_name x.publisher_name confirm) ≡ some pool
      → pool.slots.items ≡ []
      → 0 < pool.slots.limit
      → sc.cancelled ≡ false
      → let (sc', closed) = put_publisher confirm take_item x sc in
        (closed ≡ false)
        × ((get_publisher x.stream_name x.publisher_name confirm producers take_item sc').1
            ≡ Alone.holds x)
  unfolding put_publisher take_from turned_away
  put_publisher-get_publisher x confirm take_item producers sc pool found nothing room live =
      let k = gen_publisher_key x.stream_name x.publisher_name confirm in
      let q : BlockingPool (StreamPublisher P) =
        with_items (x ∷ []) pool.slots.count pool.slots.limit in
      let idle_now : under sc pool ≡ with_items [] pool.slots.count pool.slots.limit =
        ground (arith, nothing, live) in
      let stored : put_alone x take_item (under sc pool) ≡ (q, Alone.finished Ending.put_ok) =
        ap (put_alone x take_item) idle_now
        ∙ put_alone-room x take_item pool.slots.count pool.slots.limit room in
      let sc' : StreamConnection P = put_back sc k pool q in
      let put : put_publisher confirm take_item x sc ≡ (sc', false) =
        ground (arith, found, stored) in
      let pool' : Pool P = record pool { slots = q } in
      let kept : get sc'.publishers k ≡ some pool' = get-add_self sc.publishers k pool' in
      let again : under sc' pool' ≡ q = ground (arith, live) in
      let made : ℕ → Option (StreamPublisher P) =
        made_by pool.stream pool.publisher pool.confirm sc producers in
      (
        ap (λ r. r.1) put,
        ap (λ r. (get_publisher x.stream_name x.publisher_name confirm producers take_item r.0).1)
              put
            ∙ ap (λ r. r.1)
                (later_use x.stream_name x.publisher_name confirm producers take_item sc' pool'
                  kept)
            ∙ ap (λ t. (tries 10 made take_item 0 t).1) again
            ∙ ap (λ r. r.1) (tries-item x made take_item pool.slots.count pool.slots.limit),
      )
