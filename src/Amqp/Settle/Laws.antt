-- ===== src/Amqp/Settle/Laws.antt =====
-- What one retry of a queue message says: the steps before the publish settle nothing, and the last
-- step settles the message's own delivery.
use arke.Common.{
  ℕ, ◌+◌, String, ◌≡◌, refl, ◌∙◌, true, false, Option, none, some, Fallible, ok, err, arith, ◌==◌,
  if◌then◌else◌,
}
use arke.Api.{Address, Source}
use arke.Amqp.Wire.{Command, Broker}
use arke.Amqp.Declare.{declare_queue}
use arke.Amqp.Client.{AmqpMessage, Client, Done, ◌>>◌, ignoring, modify, say}
use arke.Amqp.Settle.Defs.{message_ack, message_nack}
use arke.Amqp.Settle.Retry.{
  retry_queue_message, send_retry, ensure_retry_channel, declare_retry_address, bind_retry, counted,
}
use arke.Amqp.Settle.Quiet.{
  settles, Keeps, Quiet, Quiet-then, Quiet-unless, Quiet-say, Quiet-declare_exchange,
  Quiet-declare_queue, Quiet-declare_binding,
}

abbrev pub if_ok : Fallible (Unit {0}) → ℕ → ℕ
if_ok (ok _) n = n
if_ok (err _) n = 0

module _ (t : ℕ) where
  -- An action that settles delivery t n times if it succeeds, and not at all if it fails.
  pub record Settling (n : ℕ) (r : Fallible (Unit {0})) (c d : Client) : Type 0 where
    pub counted_log : settles t d.log ≡ settles t c.log + if_ok r n
    pub same_active : d.active_messages ≡ c.active_messages

  abbrev pub Settles : ℕ → Done → Type 0
  Settles n m = (c : Client) → Settling n (m c).0 c (m c).1

  Settles-then : (n : ℕ) (m k : Done) → Quiet t m → Settles n k → Settles n (m >> k)
  Settles-then n m k q s c = go (m c).0 (m c).1 (q c)
    where
      go :
          (x : Fallible (Unit {0})) (c' : Client)
          → Keeps t c c'
          → Settling n (((λ _. (x, c')) >> k) c).0 c (((λ _. (x, c')) >> k) c).1
      go (ok a) c' kept =
          let settled = s c' in
          record {
            counted_log = omega (arith, settled.counted_log, kept.log_kept);
            same_active = settled.same_active ∙ kept.active_kept;
          }
      go (err e) c' kept = record {
        counted_log = omega (arith, kept.log_kept);
        same_active = kept.active_kept;
      }

  module _ (b : Broker) (max_acquired : ℕ) where
    Quiet-ensure_retry_channel : Quiet t (ensure_retry_channel b max_acquired)
    unfolding ensure_retry_channel
    Quiet-ensure_retry_channel c =
        Quiet-unless t c.retry_channel
          (say b (Command.new_channel true) >> modify (λ c'. record c' { retry_channel = true }))
          (Quiet-then t (say b (Command.new_channel true))
            (modify (λ c'. record c' { retry_channel = true }))
            (Quiet-say t b (Command.new_channel true) refl)
            (λ d. record { log_kept = refl; active_kept = refl }))
          c

    Quiet-declare_retry_address : (s : Source) → Quiet t (declare_retry_address b max_acquired s)
    unfolding declare_retry_address
    Quiet-declare_retry_address s c = go s.address refl
      where
        go :
            (o : Option Address)
            → s.address ≡ o
            → Keeps t c (declare_retry_address b max_acquired s c).1
        go none e = rw e (record { log_kept = refl; active_kept = refl })
        go (some a) e = rw e (Quiet-declare_exchange t b a.node a.ancestors c)

    Quiet-bind_retry : (s : Source) → Quiet t (bind_retry b max_acquired s)
    unfolding bind_retry
    Quiet-bind_retry s c =
        let k = Quiet-declare_binding t b s false c in
        record {
          log_kept = ground (arith, k.log_kept);
          active_kept = ground (arith, k.active_kept);
        }

    Settles-send_retry :
        (s : Source) (target : String) (m : AmqpMessage)
        → Settles
            (if t == m.delivery_tag then 1 else 0)
            (modify (send_retry b max_acquired s target m))
    unfolding send_retry message_ack message_nack
    Settles-send_retry s target m c = record {
      counted_log = ground arith;
      same_active = ground arith;
    }

    -- A retry that succeeds settles the message's delivery once, and one that fails settles nothing.
    pub Settles-retry_queue_message :
        (s : Source) (target : String) (m : AmqpMessage)
        → Settles
            (if t == m.delivery_tag then 1 else 0)
            (retry_queue_message b max_acquired s target m)
    unfolding retry_queue_message counted
    Settles-retry_queue_message s target m =
        let n = if t == m.delivery_tag then 1 else 0 in
        let channel : Done = ensure_retry_channel b max_acquired in
        let address : Done = ignoring (declare_retry_address b max_acquired s) in
        let queue : Done = ignoring (declare_queue b s false) in
        let binding : Done = bind_retry b max_acquired s in
        let sent : Done = modify (send_retry b max_acquired s target (counted b max_acquired m)) in
        Settles-then n channel (address >> (queue >> (binding >> sent))) Quiet-ensure_retry_channel
          (Settles-then n address (queue >> (binding >> sent)) (Quiet-declare_retry_address s) (
            Settles-then n queue (binding >> sent) (Quiet-declare_queue t b s false) (
              Settles-then n binding sent (Quiet-bind_retry s)
                (Settles-send_retry s target (counted b max_acquired m)))))
