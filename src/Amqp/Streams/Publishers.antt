-- ===== src/Amqp/Streams/Publishers.antt =====
-- GetPublisher and genPublisherKey of internal/provider/connectors/amqp091/streamshim.go: which pool a
-- publisher comes from. Pooled goes on with what GetPublisher does with the pool.
use Prim.Native.String.{◌++◌ as append}
use text.Mathlib.TextLemmas.{append_assoc}
use arke.Common.{ap, String, ◌≡◌, Bool, none, some, str_eq, arith, if◌then◌else◌}
use arke.BlockingPool.{BlockingPool, new_blocking_pool}
use arke.ConcurrentMap.{ConcurrentMap, add, get, get-add_self}

unfoldable pub gen_publisher_key : String → String → Bool → String
gen_publisher_key stream publisher confirm =
    let key = append stream (append "-" publisher) in
    if confirm then append key (append "-" "confirm") else key

-- `P` is the type of the stream client's producers.
pub record StreamPublisher (P : Type 0) : Type 0 where
  pub stream_name : String
  pub publisher_name : String
  pub publisher : P
  pub pc_channel : Bool  -- a channel was made for the confirmations

-- A pool with what its constructor `New` passes on to newPublisher.
pub record Pool (P : Type 0) : Type 0 where
  pub stream : String
  pub publisher : String
  pub confirm : Bool
  pub slots : BlockingPool (StreamPublisher P)

-- A named publisher can exist only once.
unfoldable pub new_pool : {P : Type 0} → String → String → Bool → Pool P
new_pool stream publisher confirm = record {
  stream = stream;
  publisher = publisher;
  confirm = confirm;
  slots = new_blocking_pool (if str_eq publisher "" then 10 else 1);
}

-- The pool that GetPublisher takes from.
unfoldable pub pool_for :
    {P : Type 0} → String → String → Bool → ConcurrentMap (Pool P) → Pool P × ConcurrentMap (Pool P)
pool_for stream publisher confirm pools =
    elim (get pools (gen_publisher_key stream publisher confirm)) [
      | some p ↦ (p, pools)
      | none ↦
          let p = new_pool stream publisher confirm in
          (p, add pools (gen_publisher_key stream publisher confirm) p)
    ]

gen_publisher_key_collides :
    (a b c : String) (confirm : Bool)
    → gen_publisher_key (append a (append "-" b)) c confirm
      ≡ gen_publisher_key a (append b (append "-" c)) confirm
unfolding gen_publisher_key
gen_publisher_key_collides a b c confirm =
    ap (λ key. if confirm then append key (append "-" "confirm") else key) dash
  where
    dash :
        append (append a (append "-" b)) (append "-" c)
        ≡ append a (append "-" (append b (append "-" c)))
    dash = rw (append_assoc, append_assoc)

-- The pool for a stream and a publisher is made on the first use, and is the same from then on. But
-- the key does not tell a dash inside a name from the dash between the names: after the first use of
-- publisher c on stream a-b, a client that asks for publisher b-c on stream a gets the pool of the
-- former, whose publishers send to stream a-b.
pool_for_collides :
    {P : Type 0} (a b c : String) (confirm : Bool) (pools : ConcurrentMap (Pool P))
    → get pools (gen_publisher_key (append a (append "-" b)) c confirm) ≡ none
    → let (p, pools') = pool_for (append a (append "-" b)) c confirm pools in
      (p.stream ≡ append a (append "-" b))
      × (pool_for (append a (append "-" b)) c confirm pools' ≡ (p, pools'))
      × (pool_for a (append b (append "-" c)) confirm pools' ≡ (p, pools'))
unfolding pool_for new_pool
pool_for_collides a b c confirm pools fresh =
    let same = gen_publisher_key_collides a b c confirm in
    ground (
      arith,
      fresh,
      same,
      get-add_self pools (gen_publisher_key (append a (append "-" b)) c confirm)
          (new_pool (append a (append "-" b)) c confirm),
    )
