-- ===== src/Amqp/Settle/Once.antt =====
-- Runs of one connection's deliveries and of the calls of internal/provider/connectors/amqp091/amqp091.go
-- that settle them: subscribing puts a delivery in hand under a fresh message id, and each delivery of
-- the broker is a new one.
use arke.Common.{
  ℕ, suc, ◌+◌, ◌≤◌, String, ◌≡◌, refl, sym, ◌∙◌, ap, eq_refl, ◌⊎◌, inl, inr, false, Option, none,
  some, List, [], ◌∷◌, is_some, arith, ◌==◌, if◌then◌else◌,
}
use arke.ConcurrentMap.{new_concurrent_map, get, delete, add, contains, get-delete}
use arke.Amqp.Settle.Begun.{remove, still, still-insert, still-cons, still-begin, still-end}
use arke.Api.{Error}
use arke.Amqp.Wire.{Broker}
use arke.Amqp.Client.{AmqpMessage, StreamMessage, Active, queue_message, stream_message, Client}
use arke.Amqp.Settle.Defs.{ack, nack, dead_letter, stream_ack, stream_nack}
use arke.Amqp.Settle.Retry.{retry, drop_message}
use arke.Amqp.Settle.Quiet.{settles}
use arke.Amqp.Settle.Effects.{Settlement, settle, settle-queue_message}

-- A connection; how many deliveries the broker has made on it, where a delivery's tag is its number; and
-- the ids of the messages that calls have settled and have still to delete from the map; and how many
-- calls were on a message that another call was settling.
pub record Deliveries : Type 0 where
  pub client : Client
  pub made : ℕ
  pub begun : List String
  pub overlaps : ℕ

abbrev pub in_hand : String → Active → Client → Client
in_hand msgid m c = record c { active_messages = add c.active_messages msgid m }

-- What a call says to the broker, before it deletes the message: the map is that of c.
abbrev pub undeleted : Client → Client → Client
undeleted c d = record d { active_messages = c.active_messages }

abbrev pub deleted : String → Client → Client
deleted msgid c = record c { active_messages = delete c.active_messages msgid }

abbrev pub overlap : String → List String → ℕ
overlap msgid begun = if contains msgid begun then 1 else 0

module _ (b : Broker) (max_acquired : ℕ) where
  -- A call looks a message up and settles it, and later deletes it; anything else may happen in between.
  -- One that fails leaves the map as it is.
  pub data Step : Deliveries → Deliveries → Type 0 where
    delivered :
        (msgid : String) (m : AmqpMessage) (c : Client) (begun : List String) (o : ℕ)
        → is_some (get c.active_messages msgid) ≡ false
        → Step
            (record { client = c; made = m.delivery_tag; begun = begun; overlaps = o })
            (record {
              client = in_hand msgid (queue_message m) c;
              made = suc m.delivery_tag;
              begun = begun;
              overlaps = o;
            })
    streamed :
        (msgid : String) (m : StreamMessage) (c : Client) (n : ℕ) (begun : List String) (o : ℕ)
        → is_some (get c.active_messages msgid) ≡ false
        → Step
            (record { client = c; made = n; begun = begun; overlaps = o })
            (record {
              client = in_hand msgid (stream_message m) c;
              made = n;
              begun = begun;
              overlaps = o;
            })
    settles_one :
        (s : Settlement) (msgid : String) (e : Option Error) (c d : Client) (n : ℕ)
        (begun : List String) (o : ℕ)
        → settle b max_acquired s msgid c ≡ some (e, d)
        → d.active_messages ≡ delete c.active_messages msgid
        → Step
            (record { client = c; made = n; begun = begun; overlaps = o })
            (record {
              client = undeleted c d;
              made = n;
              begun = msgid ∷ begun;
              overlaps = o + overlap msgid begun;
            })
    deletes_one :
        (msgid : String) (c : Client) (n : ℕ) (begun : List String) (o : ℕ)
        → Step
            (record { client = c; made = n; begun = begun; overlaps = o })
            (record {
              client = deleted msgid c;
              made = n;
              begun = remove msgid begun;
              overlaps = o;
            })
    fails :
        (s : Settlement) (msgid : String) (e : Option Error) (c d : Client) (n : ℕ)
        (begun : List String) (o : ℕ)
        → settle b max_acquired s msgid c ≡ some (e, d)
        → d.active_messages ≡ c.active_messages
        → Step
            (record { client = c; made = n; begun = begun; overlaps = o })
            (record { client = d; made = n; begun = begun; overlaps = o + overlap msgid begun })

  pub data Reach (s : Deliveries) : Deliveries → Type 0 where
    here : Reach s s
    after : {t u : Deliveries} → Reach s t → Step t u → Reach s u

-- How often delivery t is in hand.
abbrev weight : ℕ → Active → ℕ
weight t (queue_message m) = if t == m.delivery_tag then 1 else 0
weight t (stream_message m) = 0

module _ (t : ℕ) where
  -- What is settled and what is still to be settled of delivery t are one delivery at most, and none
  -- before the broker has made it.
  total : Deliveries → ℕ
  total s = settles t s.client.log + still (weight t) s.begun s.client.active_messages.items

  record Inv (s : Deliveries) : Type 0 where
    once : total s ≤ 1
    none_yet : s.made ≤ t → total s ≡ 0

  module _ (b : Broker) (max_acquired : ℕ) where
    -- A call on a message that is not in hand, or on one of a stream, settles nothing.
    settles-other :
        (s : Settlement) (msgid : String) (c : Client)
        → ((get c.active_messages msgid ≡ none)
            ⊎ ((m : StreamMessage) × (get c.active_messages msgid ≡ some (stream_message m))))
        → (e : Option Error) (d : Client) → settle b max_acquired s msgid c ≡ some (e, d)
        → settles t d.log ≤ settles t c.log
    unfolding settle ack nack dead_letter retry drop_message stream_ack stream_nack
    settles-other Settlement.acknowledge msgid c h e d k = ground arith
    settles-other Settlement.reject msgid c h e d k = ground arith
    settles-other Settlement.bury msgid c h e d k = ground arith
    settles-other (Settlement.postpone s delay) msgid c h e d k = ground arith

    -- What a call settles that deletes the message, and one that does not.
    settles-deleting :
        (s : Settlement) (msgid : String) (m : AmqpMessage) (c d : Client) (e : Option Error)
        → get c.active_messages msgid ≡ some (queue_message m)
        → settle b max_acquired s msgid c ≡ some (e, d)
        → settles t d.log ≤ settles t c.log + weight t (queue_message m)
    settles-deleting s msgid m c d e h k =
        let (_, d', p, q) = settle-queue_message b max_acquired s msgid m c h in
        elim q [
          | inl (st, _) ↦ ground (arith, k, p, st.settled_log t)
          | inr (_, _, u) ↦ ground (arith, k, p, u.same_log t)
        ]

    settles-keeping :
        (s : Settlement) (msgid : String) (m : AmqpMessage) (c d : Client) (e : Option Error)
        → get c.active_messages msgid ≡ some (queue_message m)
        → settle b max_acquired s msgid c ≡ some (e, d)
        → d.active_messages ≡ c.active_messages
        → settles t d.log ≤ settles t c.log
    settles-keeping s msgid m c d e h k same =
        let (_, d', p, q) = settle-queue_message b max_acquired s msgid m c h in
        let gone = get-delete c.active_messages msgid msgid in
        elim q [
          | inl (st, _) ↦
              let same_client : d' ≡ d = ground (arith, k, p) in
              let kept : get c.active_messages msgid ≡ get (delete c.active_messages msgid) msgid =
                ap (λ a. get a msgid)
                  (sym same
                    ∙ (ap (λ x. x.active_messages) (sym same_client) ∙ st.settled_active)) in
              absurd (ground (arith, kept, h, gone, eq_refl msgid))
          | inr (_, _, u) ↦ ground (arith, k, p, u.same_log t)
        ]

    total-settles_one :
        (s : Settlement) (msgid : String) (e : Option Error) (c d : Client) (n : ℕ)
        (begun : List String) (o : ℕ)
        → contains msgid begun ≡ false
        → settle b max_acquired s msgid c ≡ some (e, d)
        → total (record { client = undeleted c d; made = n; begun = msgid ∷ begun; overlaps = o })
          ≤ total (record { client = c; made = n; begun = begun; overlaps = o })
    unfolding total get
    total-settles_one s msgid e c d n begun o out k = go (get c.active_messages msgid) refl
      where
        fewer :
            still (weight t) (msgid ∷ begun) c.active_messages.items
            ≤ still (weight t) begun c.active_messages.items
        fewer = still-cons (weight t) msgid begun c.active_messages.items

        go :
            (found : Option Active)
            → get c.active_messages msgid ≡ found
            → total
                (record { client = undeleted c d; made = n; begun = msgid ∷ begun; overlaps = o })
              ≤ total (record { client = c; made = n; begun = begun; overlaps = o })
        go none h = omega (arith, fewer, settles-other s msgid c (inl h) e d k)
        go (some (stream_message m)) h =
            omega (arith, fewer, settles-other s msgid c (inr (m, h)) e d k)
        go (some (queue_message m)) h = omega (
          arith,
          still-begin (weight t) msgid (queue_message m) begun c.active_messages.items out h,
          settles-deleting s msgid m c d e h k,
        )

    total-fails :
        (s : Settlement) (msgid : String) (e : Option Error) (c d : Client) (n : ℕ)
        (begun : List String) (o : ℕ)
        → settle b max_acquired s msgid c ≡ some (e, d)
        → d.active_messages ≡ c.active_messages
        → total (record { client = d; made = n; begun = begun; overlaps = o })
          ≤ total (record { client = c; made = n; begun = begun; overlaps = o })
    unfolding total
    total-fails s msgid e c d n begun o k same = go (get c.active_messages msgid) refl
      where
        go :
            (found : Option Active)
            → get c.active_messages msgid ≡ found
            → total (record { client = d; made = n; begun = begun; overlaps = o })
              ≤ total (record { client = c; made = n; begun = begun; overlaps = o })
        go none h = ground (arith, same, settles-other s msgid c (inl h) e d k)
        go (some (stream_message m)) h =
            ground (arith, same, settles-other s msgid c (inr (m, h)) e d k)
        go (some (queue_message m)) h =
            ground (arith, same, settles-keeping s msgid m c d e h k same)

    -- Once two calls have settled the same message at once, nothing is known.
    Kept : Deliveries → Type 0
    Kept s = s.overlaps ≡ 0 → Inv s

    Step-Kept : (s u : Deliveries) → Step b max_acquired s u → Kept s → Kept u
    unfolding total add delete Kept
    Step-Kept s u (Step.delivered msgid m c begun o fresh) v h =
        let i = v h in
        let grown = still-insert (weight t) begun msgid (queue_message m) c.active_messages.items in
        record {
          once = ground (arith, grown, i.once, i.none_yet);
          none_yet = ground (arith, grown, i.none_yet);
        }
    Step-Kept s u (Step.streamed msgid m c n begun o fresh) v h =
        let i = v h in
        let grown =
          still-insert (weight t) begun msgid (stream_message m) c.active_messages.items in
        record {
          once = ground (arith, grown, i.once);
          none_yet = ground (arith, grown, i.none_yet);
        }
    Step-Kept s u (Step.settles_one k msgid e c d n begun o h gone) v apart =
        let none_before : o ≡ 0 = omega (arith, apart) in
        let out : contains msgid begun ≡ false = ground (arith, apart) in
        let i = v none_before in
        let less = total-settles_one k msgid e c d n begun o out h in
        record { once = omega (arith, less, i.once); none_yet = ground (arith, less, i.none_yet) }
    Step-Kept s u (Step.deletes_one msgid c n begun o) v h =
        let i = v h in
        let less = still-end (weight t) msgid begun c.active_messages.items in
        record { once = omega (arith, less, i.once); none_yet = ground (arith, less, i.none_yet) }
    Step-Kept s u (Step.fails k msgid e c d n begun o h same) v apart =
        let none_before : o ≡ 0 = omega (arith, apart) in
        let i = v none_before in
        let less = total-fails k msgid e c d n begun o h same in
        record { once = omega (arith, less, i.once); none_yet = ground (arith, less, i.none_yet) }

    Reach-Kept : (s u : Deliveries) → Reach b max_acquired s u → Kept s → Kept u
    Reach-Kept s u Reach.here v = v
    Reach-Kept s u (Reach.after r st) v = Step-Kept _ u st (Reach-Kept s _ r v)

-- A connection that was just made: nothing in hand and nothing delivered.
abbrev pub fresh_deliveries : Client → Deliveries
fresh_deliveries c = record {
  client = record c { active_messages = new_concurrent_map; log = [] };
  made = 0;
  begun = [];
  overlaps = 0;
}

-- Deliveries, acknowledgements, rejections, retries and dead letters interleave on a connection: between
-- a call's settling a message and its deleting it from the map, other deliveries and calls go on. If
-- none of the calls was on a message that another was settling, no delivery is acknowledged or rejected
-- more than once.
pub settled_once :
    (b : Broker) (max_acquired : ℕ) (c : Client) (s : Deliveries) (t : ℕ)
    → Reach b max_acquired (fresh_deliveries c) s
    → s.overlaps ≡ 0
    → settles t s.client.log ≤ 1
unfolding new_concurrent_map total Kept
settled_once b max_acquired c s t r apart = omega (
  arith,
  (Reach-Kept t b max_acquired (fresh_deliveries c) s r
      (λ _. record { once = omega arith; none_yet = λ _. refl }) apart).once,
)
