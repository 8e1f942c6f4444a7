-- ===== src/Amqp/Streams/Handle.antt =====
-- The handler of streamSubscribe in internal/provider/connectors/amqp091/amqp091.go with the latch that
-- counts its prefetch slots, in runs of one subscription to a stream and of the calls that settle its
-- messages. A delivery that has to wait is no step until it gets its slot.
use arke.Common.{ℕ, zero, suc, ◌+◌, ◌-◌, String, ◌≡◌, Option, none, some, List, [], ◌∷◌}
use arke.ConcurrentMap.{get, add}
use arke.Amqp.Settle.Begun.{remove}
use arke.Amqp.Settle.Once.{undeleted, deleted, overlap}
use arke.Api.{Error}
use arke.BlockingLatch.{
  BlockingLatch, new_blocking_latch, advance, decrement, entering, ended, below_max, incremented,
}
use arke.Amqp.Wire.{Broker}
use arke.Amqp.Client.{StreamMessage, Active, queue_message, stream_message, Client}
use arke.Amqp.Settle.Streams.{slots_back}
use arke.Amqp.Settle.Effects.{Settlement, settle}

pub record Subscription : Type 0 where
  pub client : Client
  pub latch : BlockingLatch

-- A delivery takes a slot and is in hand before the client gets it. It is none while the delivery waits,
-- and if the context is done.
unfoldable pub handle_message : String → StreamMessage → Subscription → Option Subscription
handle_message uuid m s = elim (advance (entering below_max) s.latch) [
  | some (l, ended incremented) ↦ some (record {
    client = record s.client {
      active_messages = add s.client.active_messages uuid (stream_message m);
    };
    latch = l;
  })
  | _ ↦ none
]

-- The slots that the closures called since have given back.
unfoldable pub give_back : ℕ → BlockingLatch → BlockingLatch
give_back zero l = l
give_back (suc n) l = give_back n (decrement l)

-- A retry of a message of a stream, which gives no slot back.
abbrev pub keeps_slot : Option Active → Settlement → ℕ
keeps_slot none call = 0
keeps_slot (some (queue_message m)) call = 0
keeps_slot (some (stream_message m)) (Settlement.postpone s delay) = 1
keeps_slot (some (stream_message m)) _ = 0

-- A subscription; how many slots such retries have kept; and the ids of the messages that calls have
-- settled and have still to delete from the map; and how many calls were on a message that another call was
-- settling.
pub record Run : Type 0 where
  pub subscription : Subscription
  pub kept : ℕ
  pub begun : List String
  pub overlaps : ℕ

abbrev pub start : ℕ → Client → Run
start prefetch c = record {
  subscription = record { client = c; latch = new_blocking_latch prefetch };
  kept = 0;
  begun = [];
  overlaps = 0;
}

module _ (b : Broker) (max_acquired : ℕ) where
  -- A call looks a message up and calls its closure, which gives the slot back, and later deletes it; anything else may happen in between. Calls on messages that are
  -- not in hand change nothing.
  pub data Step : Run → Run → Type 0 where
    handled :
        (uuid : String) (m : StreamMessage) (s t : Subscription) (n : ℕ) (begun : List String)
        (o : ℕ)
        → handle_message uuid m s ≡ some t
        → Step
            (record { subscription = s; kept = n; begun = begun; overlaps = o })
            (record { subscription = t; kept = n; begun = begun; overlaps = o })
    settles_one :
        (call : Settlement) (uuid : String) (m : StreamMessage) (e : Option Error) (c d : Client)
        (l : BlockingLatch) (n : ℕ) (begun : List String) (o : ℕ)
        → get c.active_messages uuid ≡ some (stream_message m)
        → settle b max_acquired call uuid c ≡ some (e, d)
        → Step
            (record {
              subscription = record { client = c; latch = l };
              kept = n;
              begun = begun;
              overlaps = o;
            })
            (record {
              subscription = record {
                client = undeleted c d;
                latch = give_back (slots_back d.log - slots_back c.log) l;
              };
              kept = n + keeps_slot (some (stream_message m)) call;
              begun = uuid ∷ begun;
              overlaps = o + overlap uuid begun;
            })
    deletes_one :
        (uuid : String) (c : Client) (l : BlockingLatch) (n : ℕ) (begun : List String) (o : ℕ)
        → Step
            (record {
              subscription = record { client = c; latch = l };
              kept = n;
              begun = begun;
              overlaps = o;
            })
            (record {
              subscription = record { client = deleted uuid c; latch = l };
              kept = n;
              begun = remove uuid begun;
              overlaps = o;
            })

  pub data Reach (r : Run) : Run → Type 0 where
    here : Reach r r
    next : {t u : Run} → Reach r t → Step t u → Reach r u
