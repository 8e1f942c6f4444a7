-- ===== src/Amqp/Subscribe/Laws.antt =====
-- What has been said to the broker when queueSubscribe of internal/provider/connectors/amqp091/amqp091.go
-- begins its loop.
use arke.Common.{
  ℕ, String, ◌≡◌, refl, sym, ap, ◌∙◌, true, false, Option, none, some, ◌∷◌, ok, arith,
}
use arke.Common.Int.{pos, ltb_ℤ}
use arke.ConcurrentMap.{lookup}
use arke.Api.{Address, Source}
use arke.Amqp.Wire.{Command, Log, Broker}
use arke.Amqp.Client.{Client, Done, ◌>>◌, ignoring, say}
use arke.Amqp.Declare.{declare_queue, declare_binding}
use arke.Amqp.Settle.Quiet.{
  Keeps, Quiet, Quiet-then, Quiet-say, Quiet-declare_exchange, Quiet-declare_queue,
  Quiet-declare_binding,
}
use arke.Amqp.Subscribe.Setup.{
  subscribed_source, dead_letter_source, declare_address, setup_dead_letter, start_consumer,
  declare_source, queue_setup,
}

module _ (b : Broker) where
  module _ (t : ℕ) where
    Quiet-declare_address : (s : Source) → Quiet t (declare_address b s)
    unfolding declare_address
    Quiet-declare_address s c = go s.address refl
      where
        go : (o : Option Address) → s.address ≡ o → Keeps t c (declare_address b s c).1
        go none e = rw e (record { log_kept = refl; active_kept = refl })
        go (some a) e = rw e (Quiet-declare_exchange t b a.node a.ancestors c)

    Quiet-setup_dead_letter : (s : Source) → Quiet t (setup_dead_letter b s)
    unfolding setup_dead_letter
    Quiet-setup_dead_letter s c = go (lookup "DeadLetterAddress" s.options) refl
      where
        go :
            (o : Option String)
            → lookup "DeadLetterAddress" s.options ≡ o
            → Keeps t c (setup_dead_letter b s c).1
        go none e = rw (setup_dead_letter, e) (record { log_kept = refl; active_kept = refl })
        go (some a) e =
            let letters = dead_letter_source s a in
            let address : Done = ignoring (declare_address b letters) in
            let queue : Done = ignoring (declare_queue b letters true) in
            let binding : Done = declare_binding b letters true in
            rw (setup_dead_letter, e)
              (Quiet-then t address (queue >> binding) (Quiet-declare_address letters)
                (Quiet-then t queue binding (Quiet-declare_queue t b letters true)
                  (Quiet-declare_binding t b letters true))
                c)

    Quiet-declare_source : (s : Source) → Quiet t (declare_source b s)
    unfolding declare_source
    Quiet-declare_source s =
        let channel : Done = say b (Command.new_channel false) in
        let address : Done = ignoring (declare_address b s) in
        let queue : Done = declare_queue b s true in
        let binding : Done = declare_binding b s true in
        let letters : Done = ignoring (setup_dead_letter b s) in
        Quiet-then t channel (address >> (queue >> (binding >> letters)))
          (Quiet-say t b (Command.new_channel false) refl)
          (Quiet-then t address (queue >> (binding >> letters)) (Quiet-declare_address s) (
            Quiet-then t queue (binding >> letters) (Quiet-declare_queue t b s true) (
              Quiet-then t binding letters (Quiet-declare_binding t b s true)
                (Quiet-setup_dead_letter s))))

  then_ok : (m k : Done) (c : Client) → ((m >> k) c).0 ≡ ok tt → (m >> k) c ≡ k (m c).1
  then_ok m k c done = ground arith

  -- What the broker has accepted when a consumer has started.
  record Started (s : Source) (c d : Client) : Type 0 where
    said :
        d.log ≡ Command.consume s.name s.exclusive ∷ Command.set_prefetch s.prefetch_count ∷ c.log
    limited : b.answer c.log (Command.set_prefetch s.prefetch_count) ≡ none
    consuming :
        b.answer
          (Command.set_prefetch s.prefetch_count ∷ c.log)
          (Command.consume s.name s.exclusive)
        ≡ none
    hand : d.active_messages ≡ c.active_messages

  start_consumer-Started :
      (s : Source) (c : Client)
      → (start_consumer b s c).0 ≡ ok tt
      → s.declare_only ≡ false
      → ltb_ℤ (pos 0) s.prefetch_count ≡ true
      → Started s c (start_consumer b s c).1
  unfolding start_consumer
  start_consumer-Started s c done both limit = record {
    said = ground arith;
    limited = ground arith;
    consuming = ground arith;
    hand = ground arith;
  }

  queue_setup-Started :
      (s : Source) (c : Client)
      → (queue_setup b false s c).0 ≡ ok tt
      → (subscribed_source s).declare_only ≡ false
      → ltb_ℤ (pos 0) (subscribed_source s).prefetch_count ≡ true
      → Started
          (subscribed_source s)
          (declare_source b (subscribed_source s) c).1
          (queue_setup b false s c).1
  unfolding queue_setup
  queue_setup-Started s c done both limit =
      let declares : Done = declare_source b (subscribed_source s) in
      let starts : Done = start_consumer b (subscribed_source s) in
      let second : (declares >> starts) c ≡ starts (declares c).1 =
        then_ok declares starts c done in
      rw second (
        start_consumer-Started (subscribed_source s) (declares c).1
          (ap (λ r. r.0) (sym second) ∙ done) both limit)

  -- If subscribing to a source with a positive prefetch gets as far as its loop, and the source is not
  -- only to be declared, then the last two commands, which the broker has accepted, limit the prefetch
  -- to that number and start the consumer under the source's queue name; the messages in hand are as
  -- before, and nothing has been acknowledged or rejected.
  queue_setup_lem :
      (s : Source) (c : Client)
      → (queue_setup b false s c).0 ≡ ok tt
      → s.declare_only ≡ false
      → ltb_ℤ (pos 0) s.prefetch_count ≡ true
      → let d = (queue_setup b false s c).1 in
        let limit = Command.set_prefetch s.prefetch_count in
        let consumer = Command.consume (subscribed_source s).name s.exclusive in
        ((t : ℕ) → Keeps t c d)
        × ((log : Log) × (d.log ≡ consumer ∷ limit ∷ log)
            × (b.answer log limit ≡ none)
            × (b.answer (limit ∷ log) consumer ≡ none))
  unfolding subscribed_source
  queue_setup_lem s c done both limited =
      let st = queue_setup-Started s c done (ground arith) (ground arith) in
      let before = (declare_source b (subscribed_source s) c).1 in
      (
        λ t.
            let q = Quiet-declare_source t (subscribed_source s) c in
            record {
              log_kept = ground (arith, q.log_kept, st.said);
              active_kept = st.hand ∙ q.active_kept;
            },
        (
          before.log,
          ground (arith, st.said),
          ground (arith, st.limited),
          ground (arith, st.consuming),
        ),
      )
