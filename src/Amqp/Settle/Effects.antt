-- ===== src/Amqp/Settle/Effects.antt =====
-- The four calls that settle a message, as one operation, and what it does on every branch.
use arke.Common.{
  Bool, true, false, ℕ, ◌+◌, String, ◌≡◌, refl, ap, ◌⊎◌, inl, inr, true, false, Option, none, some,
  is_some, Fallible, ok, err, arith, ◌==◌, if◌then◌else◌,
}
use arke.Common.Int.{ℤ}
use arke.ConcurrentMap.{get, delete}
use arke.Api.{Error, error_text, Source}
use arke.Amqp.Wire.{Broker}
use arke.Amqp.Names.{source_name}
use arke.Amqp.Declare.{address_name}
use arke.Amqp.Client.{AmqpMessage, queue_message, Client}
use arke.Amqp.Settle.Defs.{to_error, ack, nack, dead_letter, message_ack, message_nack}
use arke.Amqp.Settle.Retry.{retry, retry_queue_message, retry_source, drop_message}
use arke.Amqp.Settle.Quiet.{settles}
use arke.Amqp.Settle.Laws.{Settling, Settles-retry_queue_message}

pub data Settlement : Type 0 where
  acknowledge reject bury : Settlement
  postpone : Source → ℤ → Settlement

abbrev pub answers : Settlement → Bool
answers Settlement.acknowledge = true
answers Settlement.reject = true
answers Settlement.bury = false
answers (Settlement.postpone _ _) = false

module _ (b : Broker) (max_acquired : ℕ) where
  -- The provider's operation that the server's acknowledgement loop calls.
  unfoldable pub settle : Settlement → String → Client → Option (Option Error × Client)
  settle Settlement.acknowledge msgid c = some (ack b max_acquired msgid c)
  settle Settlement.reject msgid c = some (nack b max_acquired msgid c)
  settle Settlement.bury msgid c = dead_letter b max_acquired msgid c
  settle (Settlement.postpone s delay) msgid c = retry b max_acquired (some s) msgid delay c

  -- From c to d, the delivery of m was settled once and no other, and only its message is gone.
  pub record Settled (msgid : String) (m : AmqpMessage) (c d : Client) : Type 0 where
    pub settled_log :
        (t : ℕ) → settles t d.log ≡ settles t c.log + (if t == m.delivery_tag then 1 else 0)
    pub settled_active : d.active_messages ≡ delete c.active_messages msgid

  -- From c to d, nothing was settled and the messages in hand are the same.
  pub record Unsettled (c d : Client) : Type 0 where
    pub same_log : (t : ℕ) → settles t d.log ≡ settles t c.log
    pub same_active : d.active_messages ≡ c.active_messages

  -- Settling returned the error e and led from c to d: the delivery was settled, and an error can only
  -- be the broker's answer to an acknowledgement or a rejection; or a retry failed and settled nothing.
  abbrev pub Outcome : Settlement → String → AmqpMessage → Client → Option Error → Client → Type 0
  Outcome s msgid m c e d =
      (Settled msgid m c d × (is_some e ≡ true → answers s ≡ true))
      ⊎ ((answers s ≡ false) × (is_some e ≡ true) × Unsettled c d)

  postpone-queue_message :
      (s : Source) (delay : ℤ) (msgid : String) (m : AmqpMessage) (c : Client)
      → get c.active_messages msgid ≡ some (queue_message m)
      → (e : Option Error) × (d : Client) × (settle (Settlement.postpone s delay) msgid c
          ≡ some (e, d))
        × Outcome (Settlement.postpone s delay) msgid m c e d
  unfolding settle retry drop_message
  postpone-queue_message s delay msgid m c h = go tried.0 refl
    where
      tried : Fallible (Unit {0}) × Client
      tried =
          retry_queue_message b max_acquired (retry_source (address_name s) delay) (source_name s) m
            c

      effect : (t : ℕ) → Settling t (if t == m.delivery_tag then 1 else 0) tried.0 c tried.1
      effect t =
          Settles-retry_queue_message t b max_acquired (retry_source (address_name s) delay)
            (source_name s) m c

      go :
          (r : Fallible (Unit {0}))
          → tried.0 ≡ r
          → (e : Option Error) × (d : Client) × (settle (Settlement.postpone s delay) msgid c
              ≡ some (e, d))
            × Outcome (Settlement.postpone s delay) msgid m c e d
      go (ok a) p = (
        none,
        drop_message b max_acquired msgid tried.1,
        ground (arith, p),
        inl (
          record {
            settled_log = λ t. ground (arith, (effect t).counted_log);
            settled_active = ap (λ a. delete a msgid) (effect 0).same_active;
          },
          λ h. ground arith,
        ),
      )
      go (err x) p = (
        some (error_text x),
        tried.1,
        ground (arith, p),
        inr (
          refl,
          refl,
          record {
            same_log = λ t. ground (arith, (effect t).counted_log);
            same_active = (effect 0).same_active;
          },
        ),
      )

  -- Settling a queue message in hand returns. It settles its delivery exactly once and no other
  -- delivery, and the message leaves the map, whether or not the broker's answer is an error; or it is
  -- a retry that returns an error, has settled nothing, and leaves every message in hand. A dead
  -- letter, and a retry that succeeds, return no error.
  pub settle-queue_message :
      (s : Settlement) (msgid : String) (m : AmqpMessage) (c : Client)
      → get c.active_messages msgid ≡ some (queue_message m)
      → (e : Option Error) × (d : Client) × (settle s msgid c ≡ some (e, d))
        × Outcome s msgid m c e d
  unfolding settle ack nack dead_letter message_ack message_nack
  settle-queue_message Settlement.acknowledge msgid m c h =
      let said = message_ack b max_acquired m c.log in
      let d = record c { active_messages = delete c.active_messages msgid; log = said.1 } in
      (
        to_error b max_acquired said.0,
        d,
        ground arith,
        inl (record { settled_log = λ t. omega arith; settled_active = refl }, λ h. refl),
      )
  settle-queue_message Settlement.reject msgid m c h =
      let said = message_nack b max_acquired false m c.log in
      let d = record c { active_messages = delete c.active_messages msgid; log = said.1 } in
      (
        to_error b max_acquired said.0,
        d,
        ground arith,
        inl (record { settled_log = λ t. omega arith; settled_active = refl }, λ h. refl),
      )
  settle-queue_message Settlement.bury msgid m c h =
      let said = (message_nack b max_acquired false m c.log).1 in
      let d = record c { active_messages = delete c.active_messages msgid; log = said } in
      (
        none,
        d,
        ground arith,
        inl (record { settled_log = λ t. omega arith; settled_active = refl }, λ h. ground arith),
      )
  settle-queue_message (Settlement.postpone s delay) msgid m c h =
      postpone-queue_message s delay msgid m c h
