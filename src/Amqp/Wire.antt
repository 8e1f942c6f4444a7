-- ===== src/Amqp/Wire.antt =====
-- What the provider of internal/provider/connectors/amqp091 says to the broker, and the answers. The
-- client library and the broker are not part of the program: an answer is an unknown function of all
-- that was said before and of the command, `none` for success and else the text of the error.
use arke.Common.{ℕ, String, Bool, Option, List, ◌∷◌}
use arke.Common.Int.{ℤ}
use arke.Amqp.Headers.{Table}

pub record Properties : Type 0 where
  pub delivery_mode : ℕ
  pub content_type : String
  pub content_encoding : String

-- Where a consumer of a stream starts.
pub data Offset : Type 0 where
  first last next : Offset
  at : ℤ → Offset

-- The newest command stands first in a log. `decrement` is `latch.Decrement` of a stream's latch.
pub data Command : Type 0 where
  basic_ack : ℕ → Command
  basic_nack : ℕ → Bool → Command
  decrement : Command
  store_offset : String → String → ℕ → Command
  standby_channel : Command
  new_channel : Bool → Command
  exchange_declare : String → String → Bool → Command
  exchange_bind : String → String → String → Command
  queue_declare : String → Table → Command
  queue_bind : String → String → String → List (String × String) → Command
  set_prefetch : ℤ → Command
  consume : String → Bool → Command
  delete_binding : String → String → String → Command
  publish : String → String → Properties → Table → List ℕ → Command
  declare_stream : String → Option ℤ → Command
  stream_consume : String → String → Offset → Bool → Command
  stream_publish : String → String → List (String × String) → List ℕ → ℤ → Command

abbrev pub Log : Type 0
Log = List Command

-- A binding that the management API lists: its routing key and its properties key.
pub record Binding : Type 0 where
  pub routing_key : String
  pub properties_key : String

-- `current_offset` is what the client library's consumer of a stream answers to GetOffset.
pub record Broker : Type 0 where
  pub answer : Log → Command → Option String
  pub current_offset : Log → String → String → ℕ
  pub bindings : Log → String → String → List Binding

-- Say it: the answer, and the longer log.
abbrev pub perform : Broker → Command → Log → Option String × Log
perform b c log = (b.answer log c, c ∷ log)
