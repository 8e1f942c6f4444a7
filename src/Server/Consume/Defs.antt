-- ===== src/Server/Consume/Defs.antt =====
-- The loop of Consume and SetSourceDefaults of internal/server/server.go, after the client and its
-- provider have been found. What the loop selects on is a list of events; what it starts or sends is
-- a list of effects, newest last. Messages that the provider delivers go straight to the client.
use Prim.Native.String.{◌++◌ as append}
use arke.Common.{
  String, Bool, true, false, ◌&&◌, not, Option, none, some, List, [], ◌∷◌, ◌++◌, is_some,
  if◌then◌else◌,
}
use arke.Common.Text.{join}
use arke.Common.Int.{pos, ltb_ℤ}
use arke.ConcurrentMap.{lookup, insert, contains}
use arke.Api.{Source, MessageConsumed}

with_prefetch : Source → Source
with_prefetch s = if ltb_ℤ s.prefetch_count (pos 1) then record s { prefetch_count = pos 1 } else s

with_expires : Source → Source
with_expires s =
    if s.auto_delete && not (is_some (lookup "Expires" s.options))
    then record s { options = insert "Expires" "300000" s.options }
    else s

unfoldable pub set_source_defaults : Source → Source
unfolding with_prefetch with_expires
set_source_defaults s = with_expires (with_prefetch s)

-- The options whose names the provider does not support.
unfoldable pub unsupported : List String → List (String × String) → List String
unsupported valid [] = []
unsupported valid ((option, value) ∷ options) =
    if contains option valid then unsupported valid options else option ∷ unsupported valid options

-- A message that is neither a source nor an acknowledgement counts as no message. `stopped` is a
-- goroutine that ends the stream, with the error that it has left.
pub data Event : Type 0 where
  client_gone no_message : Event
  recv_failed : String → Event
  recv_source : Source → Event
  recv_consumed : MessageConsumed → Event
  stopped : Option String → Event

-- `subscribes` starts the two goroutines of the subscription, and `handles` the one that settles a
-- message, which reads the source of the stream when it runs.
pub data Effect : Type 0 where
  sends_error : String → Effect
  subscribes : Source → Effect
  handles : MessageConsumed → Effect

-- `isSubscribing` is true exactly if `source` has been subscribed.
pub record Consumer : Type 0 where
  pub source : Option Source
  pub subscribing : Bool

-- Whether the loop goes on, or the error that Consume returns.
pub data Progress : Type 0 where
  goes_on : Consumer → Progress
  returns : Option String → Progress

abbrev pub unsupported_text : List String → String
unsupported_text options =
    append "provider does not support the following source options: ["
      (append (join " " options) "]")

abbrev pub one_source : String
one_source = "Only one source message allowed per subscribe"

subscribe_or_fail : Source → List String → Progress × List Effect
subscribe_or_fail s [] =
    (goes_on (record { source = some s; subscribing = true }), subscribes s ∷ [])
subscribe_or_fail s (o ∷ os) =
    (returns (some (unsupported_text (o ∷ os))), sends_error (unsupported_text (o ∷ os)) ∷ [])

unfoldable pub consume_event : List String → Event → Consumer → Progress × List Effect
unfolding subscribe_or_fail
consume_event valid client_gone c = (returns none, [])
consume_event valid no_message c = (goes_on c, [])
consume_event valid (recv_failed e) c = (returns (some e), [])
consume_event valid (recv_source s) c =
    if c.subscribing
    then (goes_on c, sends_error one_source ∷ [])
    else subscribe_or_fail (set_source_defaults s)
        (unsupported valid (set_source_defaults s).options)
consume_event valid (recv_consumed m) c = (goes_on c, handles m ∷ [])
consume_event valid (stopped e) c = (returns e, [])

-- The loop over the events of a stream.
unfoldable pub consume : List String → List Event → Consumer → Progress × List Effect
consume valid [] c = (goes_on c, [])
consume valid (e ∷ events) c =
    let (p, effects) = consume_event valid e c in
    elim p [
      | returns r ↦ (returns r, effects)
      | goes_on c' ↦ let (q, rest) = consume valid events c' in (q, effects ++ rest)
    ]

abbrev pub new_consumer : Consumer
new_consumer = record { source = none; subscribing = false }
