-- ===== src/Amqp/Streams/Prefetch.antt =====
-- What the prefetch slots of a subscription to a stream come to, in runs of streamSubscribe's handler and
-- the calls that settle, of internal/provider/connectors/amqp091/amqp091.go.
use arke.Common.{
  ap, sym, ◌∙◌, ℕ, ◌+◌, ◌-◌, ◌^◌, ◌≤◌, ◌<◌, String, ◌≡◌, refl, inl, inr, false, Option, none, some,
  List, [], ◌∷◌, arith,
}
use arke.ConcurrentMap.{get, delete, add, contains}
use arke.Api.{Error}
use arke.BlockingLatch.{BlockingLatch, new_blocking_latch, advance, decrement}
use arke.Amqp.Wire.{Broker}
use arke.Amqp.Client.{StreamMessage, Active, stream_message, Client}
use arke.Amqp.Settle.Streams.{slots_back, gives_back, settle-stream_message}
use arke.Amqp.Settle.Begun.{still, still-insert, still-begin, still-end}
use arke.Amqp.Settle.Once.{undeleted}
use arke.Amqp.Settle.Effects.{Settlement, settle}
use arke.Amqp.Streams.Handle.{
  Subscription, handle_message, give_back, keeps_slot, Run, start, Reach, here, next, handled,
  settles_one, deletes_one,
}

abbrev one : Active → ℕ
one m = 1

-- The messages in hand that no call has begun to settle.
abbrev pub unsettled : Run → ℕ
unsettled r = still one r.begun r.subscription.client.active_messages.items

-- Each message that is to be settled, and each slot that was kept, is counted by the latch.
record Counted (prefetch : ℕ) (r : Run) : Type 0 where
  slots : unsettled r + r.kept ≤ r.subscription.latch.count
  below : r.subscription.latch.count ≤ prefetch
  limit : r.subscription.latch.max ≡ prefetch

give_back-slot :
    (call : Settlement) (m : StreamMessage) (l : BlockingLatch)
    → 1 ≤ l.count
    → l.count < 2 ^ 64
    → let l' = give_back (gives_back call) l in
      (l.count + keeps_slot (some (stream_message m)) call ≤ l'.count + 1)
      × (l'.count ≤ l.count)
      × (l'.max ≡ l.max)
unfolding give_back decrement
give_back-slot Settlement.acknowledge m l h small = (ground arith, ground arith, refl)
give_back-slot Settlement.reject m l h small = (ground arith, ground arith, refl)
give_back-slot Settlement.bury m l h small = (omega arith, omega arith, refl)
give_back-slot (Settlement.postpone s delay) m l h small = (omega arith, omega arith, refl)

module _ (b : Broker) (max_acquired : ℕ) (prefetch : ℕ) (small : prefetch < 2 ^ 64) where
  handle_message-Counted :
      (uuid : String) (m : StreamMessage) (s t : Subscription) (n : ℕ) (begun : List String) (o : ℕ)
      → handle_message uuid m s ≡ some t
      → Counted prefetch (record { subscription = s; kept = n; begun = begun; overlaps = o })
      → Counted prefetch (record { subscription = t; kept = n; begun = begun; overlaps = o })
  unfolding handle_message advance add
  handle_message-Counted uuid m s t n begun o h i =
      let longer = still-insert one begun uuid (stream_message m) s.client.active_messages.items in
      record {
        slots = ground (arith, h, longer, i.slots, i.below, i.limit, small);
        below = ground (arith, h, i.below, i.limit, small);
        limit = ground (arith, h, i.limit);
      }

  -- A message whose settling begins, with its slot given back or kept.
  settles_one-Counted :
      (call : Settlement) (uuid : String) (m : StreamMessage) (e : Option Error) (c d : Client)
      (l : BlockingLatch) (n : ℕ) (begun : List String) (o : ℕ)
      → contains uuid begun ≡ false
      → get c.active_messages uuid ≡ some (stream_message m)
      → settle b max_acquired call uuid c ≡ some (e, d)
      → Counted prefetch (record {
        subscription = record { client = c; latch = l };
        kept = n;
        begun = begun;
        overlaps = o;
      })
      → Counted prefetch (record {
        subscription = record {
          client = undeleted c d;
          latch = give_back (slots_back d.log - slots_back c.log) l;
        };
        kept = n + keeps_slot (some (stream_message m)) call;
        begun = uuid ∷ begun;
        overlaps = o;
      })
  unfolding get
  settles_one-Counted call uuid m e c d l n begun o out found h i =
      elim (settle-stream_message b max_acquired call uuid m c found) [
        | inl (_, panics) ↦ absurd (ground (arith, panics, h))
        | inr (d', done, _, slots) ↦
            let same : d' ≡ d = ground (arith, done, h) in
            let grown = ap (λ x. slots_back x.log) (sym same) ∙ slots in
            let back : slots_back d.log - slots_back c.log ≡ gives_back call =
              omega (arith, grown) in
            let fewer =
              still-begin one uuid (stream_message m) begun c.active_messages.items out found in
            let (count, less, max) =
              give_back-slot call m l (omega (arith, fewer, i.slots)) (omega (arith, i.below)) in
            record {
              slots = ground (arith, back, fewer, count, i.slots);
              below = ground (arith, back, less, i.below);
              limit = ground (arith, back, max, i.limit);
            }
      ]

  runs-Counted :
      (c : Client)
      → c.active_messages.items ≡ []
      → {r : Run} → Reach b max_acquired (start prefetch c) r
      → r.overlaps ≡ 0
      → Counted prefetch r
  unfolding new_blocking_latch delete
  runs-Counted c empty here apart = record {
    slots = ground (arith, empty);
    below = omega arith;
    limit = refl;
  }
  runs-Counted c empty (next before (handled uuid m s t n begun o h)) apart =
      handle_message-Counted uuid m s t n begun o h (runs-Counted c empty before apart)
  runs-Counted c empty (next before (settles_one call uuid m e c' d l n begun o found h)) apart =
      let none_before : o ≡ 0 = omega (arith, apart) in
      let out : contains uuid begun ≡ false = ground (arith, apart) in
      let i =
        settles_one-Counted call uuid m e c' d l n begun o out found h
          (runs-Counted c empty before none_before) in
      record { slots = i.slots; below = i.below; limit = i.limit }
  runs-Counted c empty (next before (deletes_one uuid c' l n begun o)) apart =
      let i = runs-Counted c empty before apart in
      let fewer = still-end one uuid begun c'.active_messages.items in
      record { slots = omega (arith, fewer, i.slots); below = i.below; limit = i.limit }

  -- A client without messages in hand subscribes to a stream, with a prefetch count below 2 ^ 64. In every
  -- run of deliveries and of calls that settle them, of which none is on a message that another is
  -- settling, the messages in hand that no call has begun to settle, together with the retries of messages so
  -- far, are never more than the prefetch count. A retry gives no slot back: after as many of them as the
  -- prefetch count, no delivery is handled any more.
  pub handle_message_bounded :
      (c : Client)
      → c.active_messages.items ≡ []
      → {r : Run} → Reach b max_acquired (start prefetch c) r
      → r.overlaps ≡ 0
      → (unsettled r + r.kept ≤ prefetch)
        × ((uuid : String) (m : StreamMessage)
            → r.kept ≡ prefetch
            → handle_message uuid m r.subscription ≡ none)
  unfolding handle_message advance
  handle_message_bounded c empty {r} reach apart =
      let i = runs-Counted c empty reach apart in
      (
        omega (arith, i.slots, i.below),
        λ uuid m all_kept. ground (arith, all_kept, i.slots, i.below, i.limit),
      )
