-- ===== src/Amqp/Streams/Compression.antt =====
-- compressMessage of internal/provider/connectors/amqp091/compression.go, Publish of a stream publisher
-- in streamshim.go, and the decompression of a delivery in streamSubscribe of amqp091.go. gzip is a
-- parameter: `compress` is none on an error, and so is `decompress` on what is not in its format.
use arke.Common.{
  ℕ, ◌^◌, String, ◌≡◌, Bool, false, ◌&&◌, not, Option, none, some, List, length, ◌⊎◌, inl, inr,
  Option-cases, str_eq, eq_iff, ltb, arith, if◌then◌else◌,
}
use arke.ConcurrentMap.{lookup, insert, erase, lookup-insert, lookup-erase}

abbrev pub Body : Type 0
Body = List ℕ

abbrev pub Headers : Type 0
Headers = List (String × String)

pub record StreamMessage : Type 0 where
  pub body : Body
  pub headers : Headers

abbrev pub encoding : String
encoding = "Transfer-Encoding"

abbrev pub offset_header : String
offset_header = "x-current-offset"

abbrev pub received_time : String
received_time = "x-opt-rabbitmq-received-time"

abbrev pub time_stamp : String
time_stamp = "timestamp_in_ms"

unfoldable pub add_time_stamp_header : Headers → Headers
add_time_stamp_header hs = elim (lookup received_time hs) [
  | none ↦ hs
  | some time ↦ insert time_stamp time hs
]

-- The headers that the consumer adds to those of a delivery at an offset.
unfoldable pub stamped : String → Headers → Headers
unfolding add_time_stamp_header
stamped offset hs = add_time_stamp_header (insert offset_header offset hs)

lookup-add_time_stamp_header :
    (hs : Headers) (name : String)
    → lookup name (add_time_stamp_header hs) ≡ (
        if str_eq time_stamp name
        then elim (lookup received_time hs) [ none ↦ lookup time_stamp hs | some time ↦ some time ]
        else lookup name hs)
unfolding add_time_stamp_header
lookup-add_time_stamp_header hs name = elim (Option-cases (lookup received_time hs)) [
  | inl none_there ↦ ground (arith, none_there, eq_iff time_stamp name)
  | inr (time, found) ↦
      ground (arith, found, eq_iff time_stamp name, lookup-insert time_stamp name time hs)
]

lookup-stamped :
    (offset : String) (hs : Headers) (name : String)
    → lookup name (stamped offset hs) ≡ (
        if str_eq time_stamp name
        then elim (lookup received_time hs) [ none ↦ lookup time_stamp hs | some time ↦ some time ]
        else if str_eq offset_header name
        then some offset
        else lookup name hs)
unfolding stamped
lookup-stamped offset hs name = ground (
  arith,
  lookup-add_time_stamp_header (insert offset_header offset hs) name,
  lookup-insert offset_header received_time offset hs,
  lookup-insert offset_header name offset hs,
  lookup-insert offset_header time_stamp offset hs,
  eq_iff time_stamp name,
  eq_iff offset_header name,
)

-- 1 MiB
unfoldable pub body_over_limit : Body → Bool
body_over_limit b = ltb (2 ^ 20) (length b)

module _ (compress : Body → Option Body) (decompress : Body → Option Body) where
  -- The error's text is only logged.
  unfoldable pub compress_message : StreamMessage → Option StreamMessage
  compress_message m =
      if body_over_limit m.body
      then (elim (compress m.body) [
        | none ↦ none
        | some c ↦
            if ltb (length c) (length m.body) && not (body_over_limit c)
            then some (record { body = c; headers = insert encoding "gzip" m.headers })
            else none
      ])
      else some m

  -- What a publisher sends.
  unfoldable pub sent_message : StreamMessage → StreamMessage
  unfolding compress_message
  sent_message m = elim (compress_message m) [ none ↦ m | some c ↦ c ]

  abbrev marked : Option String → Bool
  marked none = false
  marked (some value) = str_eq value "gzip"

  -- What a consumer's client gets of the body and the headers, for a delivery at an offset.
  unfoldable pub received_message : String → StreamMessage → StreamMessage
  unfolding stamped
  received_message offset m =
      let hs = stamped offset m.headers in
      if marked (lookup encoding hs)
      then (elim (decompress m.body) [
        | none ↦ record { body = m.body; headers = hs }
        | some d ↦ record { body = d; headers = erase encoding hs }
      ])
      else record { body = m.body; headers = hs }

  -- Where decompressing undoes compressing, and the publishing client has not set the header for the
  -- encoding itself: a consumer gets the body that was published, whether or not it was compressed on
  -- the way, and the headers that were published, with those for the offset and the time added. What
  -- is sent is the message itself, where compressing it fails or does not help, or else is within the limit.
  pub received-sent :
      (m : StreamMessage) (offset : String)
      → ((b c : Body) → compress b ≡ some c → decompress c ≡ some b)
      → lookup encoding m.headers ≡ none
      → let got = received_message offset (sent_message m) in
        (got.body ≡ m.body)
        × ((name : String) → lookup name got.headers ≡ lookup name (stamped offset m.headers))
        × ((compress_message m ≡ none × (sent_message m ≡ m))
            ⊎ (body_over_limit (sent_message m).body ≡ false))
  unfolding received_message sent_message compress_message
  received-sent m offset inverse unset =
      let hs = m.headers in
      let plain = lookup-stamped offset hs encoding in
      elim (Option-cases (compress m.body)) [
        | inl failed ↦ (
          ground (arith, failed, unset, plain),
          (λ name. ground (arith, failed, unset, plain)),
          ground (arith, failed, unset),
        )
        | inr (c, packed) ↦
            let hs' = insert encoding "gzip" hs in
            let back = inverse m.body c packed in
            let marking = lookup-insert encoding encoding "gzip" hs in
            let there = lookup-stamped offset hs' encoding in
            (
              ground (arith, packed, back, unset, plain, marking, there),
              (λ name. ground (
                arith,
                packed,
                back,
                unset,
                plain,
                marking,
                there,
                lookup-stamped offset hs' name,
                lookup-stamped offset hs name,
                lookup-erase encoding name (stamped offset hs'),
                lookup-insert encoding name "gzip" hs,
                lookup-insert encoding received_time "gzip" hs,
                lookup-insert encoding time_stamp "gzip" hs,
                eq_iff encoding name,
                eq_iff time_stamp name,
              )),
              ground (arith, packed),
            )
      ]
