-- ===== src/Server/Streaming/Defs.antt =====
-- Publish of internal/server/server.go with the provider's Publish of
-- internal/provider/connectors/amqp091/amqp091.go, as steps of the goroutine of the call, which is in the
-- provider most of the time, and of the goroutines that read the client's stream. Each round of the
-- call starts a reader with two new channels without buffers: one for messages, which the reader
-- closes when it ends, and one for errors. A reader and its channels have the same number. The
-- variables msg and err of the call, which all its readers share, are taken to be each reader's own: the
-- steps are the code's as long as one reader at a time is at work.
use arke.Common.{
  ℕ, suc, String, Bool, true, false, Option, none, some, List, [], ◌∷◌, length, ◌==◌, if◌then◌else◌,
}
use arke.Api.{Error, error_text, subjects_of, Message, MessageResponse}
use arke.Server.Requests.{published, one_subject}

-- Where a reader is: before it starts; in Recv; with a message, in the select; waiting for the error of
-- the message that it has handed over; in Send with the response to a message, after which it may stop;
-- over, with its channel of messages closed.
pub data Reader : Type 0 where
  absent receiving gone : Reader
  offering awaiting : Message → Reader
  replying : Message → MessageResponse → Bool → Reader

-- Where the call is: at the head of the loop; in the provider's select with the channels of a reader;
-- sending the error of a confirmation; in prepareAndSend; sending what that returned; sending the error
-- that the provider's Publish returned; waiting for a connection; at the end of the loop; over, when
-- the error to return is sent to the client, too.
pub data Main : Type 0 where
  looking reconnecting looping finished : Main
  serving : ℕ → Main
  complaining publishing : ℕ → Message → Main
  answering : ℕ → Option Error → Main
  failing : ℕ → Error → Main

-- `received` counts the messages of the client, `handled` are the messages that went to the broker with
-- what prepareAndSend returned, and `replies` the calls of Send for a message, the newest first.
pub record Streaming : Type 0 where
  pub main : Main
  pub readers : ℕ → Reader
  pub next : ℕ
  pub stop_publish : Bool
  pub return_error : Option String
  pub received : ℕ
  pub handled : List (Message × Option Error)
  pub replies : List (Message × MessageResponse)

-- What Recv returns.
pub data Received : Type 0 where
  message : Message → Received
  end_of_stream : Received
  broken : String → Received

-- What Send returns.
pub data Delivered : Type 0 where
  delivered stream_over : Delivered
  undelivered : String → Delivered

pub data Reading : Type 0 where
  receives : Received → Reading
  times_out : Reading
  sends : Delivered → Reading

abbrev pub refused : Option Error → MessageResponse
refused e = record { success = false; error = e }

abbrev pub no_confirmation : Error
no_confirmation = error_text "Unsupported: Publish does not support publish confirmation"

abbrev pub timed_out : Error
timed_out = error_text "failed to send message to provider for publishing"

abbrev pub set_reader : ℕ → Reader → (ℕ → Reader) → ℕ → Reader
set_reader k p readers j = if k == j then p else readers j

-- A message that has just been received.
abbrev pub taken : Message → Reader
taken m =
    if length (subjects_of m) == 1
    then offering m
    else replying m (refused (some one_subject)) false

-- The next step of reader k on its own, none where it cannot take it.
unfoldable pub read : ℕ → Reading → Reader → Streaming → Option Streaming
read k (receives (message m)) receiving s =
    some (record s { readers = set_reader k (taken m) s.readers; received = suc s.received })
read k (receives end_of_stream) receiving s =
    some
      (record s { readers = set_reader k gone s.readers; return_error = none; stop_publish = true })
read k (receives (broken t)) receiving s =
    some (record s {
      readers = set_reader k gone s.readers;
      return_error = some t;
      stop_publish = true;
    })
read k times_out (offering m) s =
    some
      (record s { readers = set_reader k (replying m (refused (some timed_out)) true) s.readers })
read k (sends delivered) (replying m r stops) s = some (record s {
  readers = set_reader k (if stops then gone else receiving) s.readers;
  replies = (m, r) ∷ s.replies;
})
read k (sends stream_over) (replying m r stops) s = some (record s {
  readers = set_reader k gone s.readers;
  replies = (m, r) ∷ s.replies;
  stop_publish = true;
})
read k (sends (undelivered t)) (replying m r stops) s = some (record s {
  readers = set_reader k gone s.readers;
  replies = (m, r) ∷ s.replies;
  return_error = some t;
  stop_publish = true;
})
read k _ _ s = none

-- The provider takes a message from reader k.
unfoldable pub hand : ℕ → Reader → Streaming → Option Streaming
hand k (offering m) s = some (record s {
  main = if m.confirm then complaining k m else publishing k m;
  readers = set_reader k (awaiting m) s.readers;
})
hand k _ s = none

-- Reader k takes an error, and the call goes on at `after`. An error that is there before the message
-- is handed over answers the message, and stops the reader.
unfoldable pub hear : ℕ → Option Error → Main → Reader → Streaming → Option Streaming
hear k e after (offering m) s =
    some (record s { main = after; readers = set_reader k (replying m (refused e) true) s.readers })
hear k e after (awaiting m) s =
    some (record s {
      main = after;
      readers = set_reader k (replying m (published e).0 false) s.readers;
    })
hear k e after _ s = none

-- The provider sees a nil message, since reader k has closed its channel.
unfoldable pub see_closed : Reader → Streaming → Option Streaming
see_closed gone s = some (record s { main = looping })
see_closed _ s = none

-- The next step of the call. `returns` is the provider's Publish returning from its select or before it,
-- since the context is done or the channel or the connection is closed; `connects` has what clientExists
-- and WaitForConnect say.
pub data Turn : Type 0 where
  looks : Bool → Turn
  hands answers sees_closed loops : Turn
  publishes returns : Option Error → Turn
  connects : Bool → Bool → Turn

unfoldable pub turn : Turn → Main → Streaming → Option Streaming
turn (looks true) looking s = some (record s {
  main = serving s.next;
  readers = set_reader s.next receiving s.readers;
  next = suc s.next;
})
turn (looks false) looking s = some (record s { main = finished })
turn hands (serving k) s = hand k (s.readers k) s
turn (returns none) (serving k) s = some (record s { main = looping })
turn (returns (some e)) (serving k) s = some (record s { main = failing k e })
turn sees_closed (serving k) s = see_closed (s.readers k) s
turn answers (complaining k m) s = hear k (some no_confirmation) (publishing k m) (s.readers k) s
turn (publishes r) (publishing k m) s =
    some (record s { main = answering k r; handled = (m, r) ∷ s.handled })
turn answers (answering k r) s = hear k r (serving k) (s.readers k) s
turn answers (failing k e) s = hear k (some e) reconnecting (s.readers k) s
turn (connects false c) reconnecting s = some (record s { main = looping; stop_publish = true })
turn (connects true true) reconnecting s = some (record s { main = looking })
turn (connects true false) reconnecting s = some (record s { main = looping })
turn loops looping s = some (record s { main = if s.stop_publish then finished else looking })
turn _ _ s = none

pub data Move : Type 0 where
  reads : ℕ → Reading → Move
  turns : Turn → Move

unfoldable pub step : Move → Streaming → Option Streaming
step (reads k a) s = read k a (s.readers k) s
step (turns t) s = turn t s.main s

unfoldable pub run : List Move → Streaming → Option Streaming
run [] s = some s
run (m ∷ moves) s = elim (step m s) [ none ↦ none | some s' ↦ run moves s' ]

unfoldable pub new_streaming : Streaming
new_streaming = record {
  main = looking;
  readers = λ _. absent;
  next = 0;
  stop_publish = false;
  return_error = none;
  received = 0;
  handled = [];
  replies = [];
}
