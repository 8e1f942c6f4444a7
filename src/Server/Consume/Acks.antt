-- ===== src/Server/Consume/Acks.antt =====
-- The goroutine of Consume in internal/server/server.go that settles one message.
use arke.Common.{
  String, Bool, ◌&&◌, not, Option, none, some, List, [], is_some, str_eq, if◌then◌else◌,
}
use arke.Common.Int.{pos, ltb_ℤ}
use arke.ConcurrentMap.{lookup}
use arke.Api.{Error, error_text, Source, MessageConsumed, MessageConsumedResponse}
use arke.Server.Backend.{Settling}

-- `source.GetOptions()` of a pointer that may be nil.
abbrev pub options_of : Option Source → List (String × String)
options_of none = []
options_of (some s) = s.options

abbrev pub has_dead_letter : Option Source → Bool
has_dead_letter s = is_some (lookup "DeadLetterAddress" (options_of s))

-- The response, by the error of settling.
abbrev pub consumed_response : String → Option Error → MessageConsumedResponse
consumed_response uuid e = record { uuid = uuid; success = not (is_some e); error = e }

abbrev pub no_uuid : Error
no_uuid = error_text "Uuid not set when acking/nacking"

module _ {P : Type 0} (v : Settling P) (client : String) where
  open v use {ack, nack, retry, dead_letter}

  -- A retry or a dead letter that fails becomes a Nack, whose error is then the answer.
  unfoldable pub nack_on_error : String → Option (Option Error × P) → Option (Option Error × P)
  nack_on_error uuid none = none
  nack_on_error uuid (some (none, p)) = some (none, p)
  nack_on_error uuid (some (some e, p)) = some (nack client uuid p)

  -- The error of settling, or `none` where the provider panics; no goroutine recovers from that.
  unfoldable pub settle_consumed : Option Source → MessageConsumed → P → Option (Option Error × P)
  unfolding nack_on_error
  settle_consumed source m p =
      if str_eq m.uuid ""
      then some (some no_uuid, p)
      else if m.nack && ltb_ℤ (pos 0) m.requeue_delay
      then nack_on_error m.uuid (retry client source m.uuid m.requeue_delay p)
      else if m.nack
      then (if has_dead_letter source
          then nack_on_error m.uuid (dead_letter client source m.uuid p)
          else some (nack client m.uuid p))
      else some (ack client m.uuid p)

  unfoldable pub handle_consumed :
      Option Source → MessageConsumed → P → Option (MessageConsumedResponse × P)
  handle_consumed source m p = elim (settle_consumed source m p) [
    | none ↦ none
    | some (e, p') ↦ some (consumed_response m.uuid e, p')
  ]
