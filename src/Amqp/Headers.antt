-- ===== src/Amqp/Headers.antt =====
-- The counters in message headers: updateRetryCountHeader of internal/provider/connectors/amqp091/
-- amqp091.go and maxAcquiredCountHit of amqp091shim.go. Integers are bit patterns.
use arke.Common.{
  ℕ, zero, suc, ◌+◌, ◌%◌, ◌^◌, ◌≡◌, refl, String, Bool, false, Option, none, some, List, arith,
  str_eq,
}
use arke.Common.Word.{add32, lt32}
use arke.ConcurrentMap.{lookup, insert, lookup-insert}

-- The dynamic types that the code tells apart in `amqp091Table`.
pub data HeaderValue : Type 0 where
  int32 : ℕ → HeaderValue
  int64 : ℕ → HeaderValue
  int : ℕ → HeaderValue
  text : String → HeaderValue
  bool : Bool → HeaderValue
  other : HeaderValue

abbrev pub Table : Type 0
Table = List (String × HeaderValue)

abbrev pub retry_count_header_name : String
retry_count_header_name = "x-retry-count"

-- `int32(v)` keeps the low 32 bits.
unfoldable pub retry_count : Option HeaderValue → ℕ
retry_count none = 0
retry_count (some (int32 v)) = v
retry_count (some (int64 v)) = v % 2 ^ 32
retry_count (some (int v)) = v % 2 ^ 32
retry_count (some (text _)) = 0
retry_count (some (bool _)) = 0
retry_count (some other) = 0

-- A nil table is an empty one.
unfoldable pub update_retry_count_header : Table → Table
unfolding retry_count
update_retry_count_header headers =
    insert retry_count_header_name
      (int32 (add32 (retry_count (lookup retry_count_header_name headers)) 1)) headers

unfoldable pub acquired_count : HeaderValue → ℕ
acquired_count (int32 n) = n
acquired_count (int64 n) = n % 2 ^ 32
acquired_count _ = 0

unfoldable pub max_acquired_count_hit : ℕ → Table → Bool
unfolding acquired_count
max_acquired_count_hit max_acquired headers = elim (lookup "x-acquired-count" headers) [
  | none ↦ false
  | some c ↦ lt32 max_acquired (acquired_count c)
]

-- `n` retries of one message.
abbrev pub retries : ℕ → Table → Table
retries zero headers = headers
retries (suc n) headers = update_retry_count_header (retries n headers)

-- Each retry adds one to the count in the header, whatever integer type the header had, up to the
-- wrap-around of 32 bits; the other headers stay.
retries-count :
    (n : ℕ) (headers : Table) (key : String)
    → (retry_count (lookup retry_count_header_name (retries n headers)) % 2 ^ 32
        ≡ (retry_count (lookup retry_count_header_name headers) + n) % 2 ^ 32)
      × (str_eq retry_count_header_name key ≡ false
          → lookup key (retries n headers) ≡ lookup key headers)
unfolding update_retry_count_header
retries-count zero headers key = (omega arith, λ h. refl)
retries-count (suc n) headers key =
    let before = retries-count n headers key in
    let now = retry_count (lookup retry_count_header_name (retries n headers)) in
    let self =
      lookup-insert retry_count_header_name retry_count_header_name (int32 (add32 now 1))
        (retries n headers) in
    let others =
      lookup-insert retry_count_header_name key (int32 (add32 now 1)) (retries n headers) in
    (rw self (omega arith), λ h. ground (arith, before.1 h))
