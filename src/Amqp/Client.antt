-- ===== src/Amqp/Client.antt =====
-- The part of BrokerDetails in internal/provider/connectors/amqp091/amqp091.go that declaring and
-- settling read and write, and the actions on it: a state that an error leaves as far as it came.
use arke.Common.{ℕ, String, Bool, Option, none, some, List, ◌∷◌, Fallible, ok, err}
use arke.ConcurrentMap.{ConcurrentMap}
use arke.Amqp.Headers.{Table}
use arke.Amqp.Wire.{Properties, Command, Log, Broker}

pub record AmqpMessage : Type 0 where
  pub delivery_tag : ℕ
  pub properties : Properties
  pub headers : Table
  pub body : List ℕ

-- A stream message as its closures `Ack` and `Nack` see it; `live` says that `ctx.Consumer` is set.
pub record StreamMessage : Type 0 where
  pub stream : String
  pub consumer_name : String
  pub live : Bool

pub data Active : Type 0 where
  queue_message : AmqpMessage → Active
  stream_message : StreamMessage → Active

-- The maps of known names hold only `true`; `retry_channel` says that RetryChannel is set. The log
-- stands for what was said to the broker.
pub record Client : Type 0 where
  pub active_messages : ConcurrentMap Active
  pub known_exchanges : ConcurrentMap Bool
  pub known_queues : ConcurrentMap Bool
  pub known_bindings : ConcurrentMap Bool
  pub retry_channel : Bool
  pub log : Log

abbrev pub Action : Type 0 → Type 0
Action A = Client → Fallible A × Client

abbrev pub Done : Type 0
Done = Action (Unit {0})

infixl 5 ◌>>=◌ ◌>>◌
abbrev pub ◌>>=◌ : {A B : Type 0} → Action A → (A → Action B) → Action B
◌>>=◌ m f c = let (r, c') = m c in elim r [ ok a ↦ f a c' | err e ↦ (err e, c') ]

abbrev pub ◌>>◌ : {A B : Type 0} → Action A → Action B → Action B
m >> k = m >>= λ _. k

abbrev pub pure : {A : Type 0} → A → Action A
pure a c = (ok a, c)

abbrev pub fail : {A : Type 0} → String → Action A
fail e c = (err e, c)

abbrev pub modify : (Client → Client) → Done
modify f c = (ok tt, f c)

abbrev pub of_fallible : {A : Type 0} → Fallible A → Action A
of_fallible r c = (r, c)

-- Run an action whose error is dropped, or only logged.
abbrev pub ignoring : Done → Done
ignoring m c = (ok tt, (m c).1)

abbrev pub answered : Option String → Fallible (Unit {0})
answered none = ok tt
answered (some e) = err e

-- Say a command to the broker and fail with its error.
abbrev pub say : Broker → Command → Done
say b c s = (answered (b.answer s.log c), record s { log = c ∷ s.log })
