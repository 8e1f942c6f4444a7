-- ===== src/Amqp/Streams/Pooled.antt =====
-- The publishers of a stream connection in internal/provider/connectors/amqp091/streamshim.go:
-- newPublisher, GetPublisher, PutPublisher and Close, over the pools of internal/util/blocking_pool.go.
use arke.Common.{ℕ, zero, suc, String, Bool, true, false, Option, none, some, if◌then◌else◌}
use arke.ConcurrentMap.{ConcurrentMap, add, get}
use arke.BlockingPool.{BlockingPool, Ending, Pc, Choice, advance}
use arke.Amqp.Streams.Publishers.{StreamPublisher, Pool, gen_publisher_key, pool_for}

-- What a call of Get or Put comes to while no other goroutine uses the pool.
pub data Alone (A : Type 0) : Type 0 where
  holds : A → Alone A
  finished : Ending → Alone A
  blocks unfinished : Alone A

module _ {A : Type 0} where
  unfoldable pub run_alone : ℕ → Choice A → BlockingPool A → Pc A → BlockingPool A × Alone A
  run_alone zero c p pc = (p, Alone.unfinished)
  run_alone (suc n) c p (Pc.holding x) = (p, Alone.holds x)
  run_alone (suc n) c p (Pc.ended e) = (p, Alone.finished e)
  run_alone (suc n) c p pc = elim (advance p c pc) [
    | none ↦ (p, Alone.blocks)
    | some (q, pc', lost) ↦ run_alone n c q pc'
  ]

  -- No Validate is set. The way to an item or to the second select has at most five accesses.
  unfoldable pub get_alone : Option A → Bool → BlockingPool A → BlockingPool A × Alone A
  get_alone made take_item p =
      run_alone 6 (record { valid = true; made = made; take_item = take_item }) p Pc.get_select

  unfoldable pub put_alone : A → Bool → BlockingPool A → BlockingPool A × Alone A
  put_alone x take_item p =
      run_alone 3 (record { valid = true; made = none; take_item = take_item }) p (Pc.put_check x)

  -- The loop of GetPublisher from its i-th turn on, with what `New` returns in each turn.
  unfoldable pub tries : ℕ → (ℕ → Option A) → Bool → ℕ → BlockingPool A → BlockingPool A × Alone A
  tries zero made take_item i p = (p, Alone.finished Ending.got_nil)
  tries (suc n) made take_item i p =
      let (q, got) = get_alone (made i) take_item p in
      elim got [ Alone.finished e ↦ tries n made take_item (suc i) q | other ↦ (q, other) ]

pub record StreamConnection (P : Type 0) : Type 0 where
  pub client_disconnect : Bool
  pub cancelled : Bool  -- the context, which all the pools have as theirs, is done
  pub publishers : ConcurrentMap (Pool P)

module _ {P : Type 0} where
  -- `producer` is what the stream client makes, none for an error.
  unfoldable pub new_publisher :
      Bool → String → String → Bool → Option P → Option (StreamPublisher P)
  new_publisher client_disconnect stream publisher confirm none = none
  new_publisher client_disconnect stream publisher confirm (some p) =
      if client_disconnect
      then none
      else some (record {
        stream_name = stream;
        publisher_name = publisher;
        publisher = p;
        pc_channel = confirm;
      })

  -- The slots of a pool of the connection.
  abbrev pub under : StreamConnection P → Pool P → BlockingPool (StreamPublisher P)
  under sc pool = record pool.slots { cancelled = sc.cancelled }

  abbrev pub put_back :
      StreamConnection P → String → Pool P → BlockingPool (StreamPublisher P) → StreamConnection P
  put_back sc key pool q = record sc {
    publishers = add sc.publishers key (record pool { slots = q });
  }

  -- The pool makes publishers with the names that it was made for; `producers` is what the stream
  -- client makes in each turn of the loop.
  unfoldable pub take_from :
      String
      → Pool P
      → (ℕ → Option P)
      → Bool
      → StreamConnection P
      → StreamConnection P × Alone (StreamPublisher P)
  take_from key pool producers take_item sc =
      let made : ℕ → Option (StreamPublisher P) = λ i.
        new_publisher sc.client_disconnect pool.stream pool.publisher pool.confirm (producers i) in
      let (q, got) = tries 10 made take_item 0 (under sc pool) in (put_back sc key pool q, got)

  unfoldable pub get_publisher :
      String
      → String
      → Bool
      → (ℕ → Option P)
      → Bool
      → StreamConnection P
      → StreamConnection P × Alone (StreamPublisher P)
  get_publisher stream publisher confirm producers take_item sc =
      let (pool, pools) = pool_for stream publisher confirm sc.publishers in
      take_from (gen_publisher_key stream publisher confirm) pool producers take_item
        (record sc { publishers = pools })

  unfoldable pub turned_away : Alone (StreamPublisher P) → Bool
  turned_away (Alone.finished Ending.put_ok) = false
  turned_away _ = true

  -- The answer says that PutPublisher closed the publisher.
  unfoldable pub put_publisher :
      Bool → Bool → StreamPublisher P → StreamConnection P → StreamConnection P × Bool
  unfolding turned_away
  put_publisher confirm take_item publisher sc =
      let key = gen_publisher_key publisher.stream_name publisher.publisher_name confirm in
      elim (get sc.publishers key) [
        | none ↦ (sc, false)
        | some pool ↦
            let (q, got) = put_alone publisher take_item (under sc pool) in
            (put_back sc key pool q, turned_away got)
      ]

  -- Close, as far as the publishers go.
  unfoldable pub close_publishers : StreamConnection P → StreamConnection P
  close_publishers sc = record sc { client_disconnect = true; cancelled = true }
