-- ===== src/Amqp/Names.antt =====
-- Names and types of sources and addresses in internal/provider/connectors/amqp091/amqp091.go.
use Prim.Native.String.{◌++◌ as append}
use arke.Common.{
  String, ◌≡◌, ◌↔◌, Bool, true, false, ◌&&◌, not, Fallible, ok, err, arith, eq_iff, if◌then◌else◌,
}
use arke.Common.Text.{has_suffix, has_suffix-append}
use arke.Api.{
  AddressType, topic, queue, filter, stream, other_address, SourceType, quorum_queue, temporary,
  stream_source, other_source, Source,
}

unfoldable pub address_type_to_amqp_type : AddressType → Fallible String
address_type_to_amqp_type topic = ok "topic"
address_type_to_amqp_type filter = ok "headers"
address_type_to_amqp_type queue = ok "direct"
address_type_to_amqp_type stream = ok "stream"
address_type_to_amqp_type (other_address n) = err (append n " is not a valid address type")

queue_type : SourceType → Fallible String
queue_type quorum_queue = ok "quorum"
queue_type temporary = ok "classic"
queue_type stream_source = err "STREAM is not a valid source type"
queue_type (other_source n) = err (append n " is not a valid source type")

unfoldable pub source_type_to_amqp_type : Source → Fallible String
unfolding queue_type
source_type_to_amqp_type s = if s.auto_delete then ok "classic" else queue_type s.kind

abbrev is_queue_type : SourceType → Bool
is_queue_type quorum_queue = true
is_queue_type _ = false

unfoldable pub is_quorum : Source → Bool
is_quorum s = if s.auto_delete then false else is_queue_type s.kind

unfoldable pub source_name : Source → String
unfolding is_quorum
source_name s =
    if is_quorum s && not (has_suffix s.name ".quorum") then append s.name ".quorum" else s.name

-- Naming a source again does not change its name: a quorum source ends in ".quorum" once.
pub source_name_idem :
    (s : Source) → source_name (record s { name = source_name s }) ≡ source_name s
unfolding source_name
source_name_idem s = ground (arith, has_suffix-append s.name ".quorum")

-- A queue is named as a quorum queue exactly if it is declared as one.
pub is_quorum-type :
    (s : Source) → (is_quorum s ≡ true) ↔ (source_type_to_amqp_type s ≡ ok "quorum")
unfolding is_quorum source_type_to_amqp_type
is_quorum-type s = ground (arith, eq_iff "classic" "quorum")
