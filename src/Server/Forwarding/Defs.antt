-- ===== src/Server/Forwarding/Defs.antt =====
-- Consume of internal/server/server.go once a source is subscribed, as steps of its goroutines: the loop and
-- the deferred functions that end it; the goroutine that sends the provider's messages to the client; and
-- the provider's side, which puts messages on the channel between them. That is the loop of queueSubscribe in
-- internal/provider/connectors/amqp091/amqp091.go, which recovers from a panic, or handleMessages of
-- streamSubscribe, which the client library calls in a goroutine of its own and which does not. Settling,
-- further messages of the client and the end of Subscribe are left out.
use arke.Common.{
  ℕ, String, Bool, true, false, Option, none, some, List, [], ◌∷◌, ◌++◌, length, ltb, if◌then◌else◌,
}
use arke.Api.{Address, Message}

-- The loop goes on; it has ended; its context is cancelled; the channel of messages is closed; the
-- channel that stops the loop is closed and forgotten, and Consume has returned.
pub data Loop : Type 0 where
  running leaving cancelled messages_closed returned : Loop

-- The goroutine waits for a message or the end of the context; is in Send; has failed to send and looks
-- whether the loop can still be stopped; is about to stop it; is over.
pub data Sender : Type 0 where
  waiting failing stopping over : Sender
  sending : Message → Sender

pub data Kind : Type 0 where
  queue_loop stream_handler : Kind

-- The provider's side has no message; has one to put on the channel; has panicked and recovered.
pub data Source : Type 0 where
  idle recovered : Source
  putting : Message → Source

-- `buffer` is the channel of messages, the oldest first; `put` are the messages that have been put on it and
-- `sent` those given to Send, both the oldest first. `crashed` is a panic that nobody recovers.
pub record Forwarding : Type 0 where
  pub loop : Loop
  pub sender : Sender
  pub source : Source
  pub buffer : List Message
  pub return_error : Option String
  pub put : List Message
  pub sent : List Message
  pub crashed : Bool

-- The capacity of the channel.
abbrev pub capacity : ℕ
capacity = 10

abbrev pub messages_open : Loop → Bool
messages_open running = true
messages_open leaving = true
messages_open cancelled = true
messages_open _ = false

-- The deferred functions have cancelled the loop's context.
abbrev pub is_cancelled : Loop → Bool
is_cancelled running = false
is_cancelled leaving = false
is_cancelled _ = true

-- What ends the loop: the client's context, an error of Recv, or the goroutine that sends.
pub data LoopMove : Type 0 where
  client_gone stopped cancels closes_messages returns : LoopMove
  recv_fails : String → LoopMove

-- The goroutine that sends gives its signal; the loop takes it.
unfoldable pub stop_by : Sender → Forwarding → Option Forwarding
stop_by stopping s = some (record s { loop = leaving; sender = over })
stop_by _ s = none

unfoldable pub loop_step : LoopMove → Loop → Forwarding → Option Forwarding
unfolding stop_by
loop_step client_gone running s = some (record s { loop = leaving })
loop_step (recv_fails e) running s = some (record s { loop = leaving; return_error = some e })
loop_step stopped running s = stop_by s.sender s
loop_step cancels leaving s = some (record s { loop = cancelled })
loop_step closes_messages cancelled s = some (record s { loop = messages_closed })
loop_step returns messages_closed s = some (record s { loop = returned })
loop_step _ _ s = none

pub data SenderMove : Type 0 where
  sees_done takes looks panics : SenderMove
  sends : Option String → SenderMove

unfoldable pub take_first : List Message → Forwarding → Option Forwarding
take_first [] s = if messages_open s.loop then none else some (record s { sender = over })
take_first (m ∷ ms) s = some (record s { sender = sending m; buffer = ms })

-- `*stopFor` is nil once Consume has returned.
unfoldable pub look : Loop → Forwarding → Option Forwarding
look returned s = some (record s { sender = over })
look _ s = some (record s { sender = stopping })

-- A send on the closed channel panics, and the goroutine recovers.
unfoldable pub panic : Loop → Forwarding → Option Forwarding
panic returned s = some (record s { sender = over })
panic _ s = none

-- A message without an address gets that of the source.
unfoldable pub addressed : Option Address → Message → Message
addressed a m = elim m.address [ none ↦ record m { address = a } | some b ↦ m ]

unfoldable pub sender_step : Option Address → SenderMove → Sender → Forwarding → Option Forwarding
unfolding take_first look panic addressed
sender_step a sees_done waiting s =
    if is_cancelled s.loop then some (record s { sender = over }) else none
sender_step a takes waiting s = take_first s.buffer s
sender_step a (sends none) (sending m) s =
    some (record s { sender = waiting; sent = s.sent ++ (addressed a m ∷ []) })
sender_step a (sends (some e)) (sending m) s =
    some
      (record s { sender = failing; sent = s.sent ++ (addressed a m ∷ []); return_error = some e })
sender_step a looks failing s = look s.loop s
sender_step a panics stopping s = panic s.loop s
sender_step a _ _ s = none

pub data SourceMove : Type 0 where
  has : Message → SourceMove
  puts : SourceMove

-- A message goes on the channel if there is room; on a closed channel it panics.
unfoldable pub put_message : Kind → Bool → Message → Forwarding → Option Forwarding
put_message kind true m s =
    if ltb (length s.buffer) capacity
    then some (record s { source = idle; buffer = s.buffer ++ (m ∷ []); put = s.put ++ (m ∷ []) })
    else none
put_message queue_loop false m s = some (record s { source = recovered })
put_message stream_handler false m s = some (record s { crashed = true })

-- The latch of a stream lets no message through once the context is done.
unfoldable pub has_message : Kind → Message → Forwarding → Option Forwarding
has_message queue_loop m s = some (record s { source = putting m })
has_message stream_handler m s =
    if is_cancelled s.loop then none else some (record s { source = putting m })

unfoldable pub source_step : Kind → SourceMove → Source → Forwarding → Option Forwarding
unfolding put_message has_message
source_step kind (has m) idle s = has_message kind m s
source_step kind puts (putting m) s = put_message kind (messages_open s.loop) m s
source_step kind _ _ s = none

pub data Move : Type 0 where
  loops : LoopMove → Move
  forwards : SenderMove → Move
  provides : SourceMove → Move

-- `a` is the address of the source. Nothing happens after a crash.
unfoldable pub step : Kind → Option Address → Move → Forwarding → Option Forwarding
step kind a m s = if s.crashed then none else (elim m [
  | loops x ↦ loop_step x s.loop s
  | forwards x ↦ sender_step a x s.sender s
  | provides x ↦ source_step kind x s.source s
])

unfoldable pub run : Kind → Option Address → List Move → Forwarding → Option Forwarding
run kind a [] s = some s
run kind a (m ∷ moves) s = elim (step kind a m s) [ none ↦ none | some s' ↦ run kind a moves s' ]

unfoldable pub new_forwarding : Forwarding
new_forwarding = record {
  loop = running;
  sender = waiting;
  source = idle;
  buffer = [];
  return_error = none;
  put = [];
  sent = [];
  crashed = false;
}
