-- ===== src/Amqp/Channels/Notify.antt =====
-- NotifyClose of a connection and channelNotifyCloseLoop of internal/provider/connectors/amqp091/
-- amqp091shim.go: goroutines that wait for one event and then try to pass an error on.
use Prim.Native.String.{◌++◌ as append}
use arke.Common.{
  ℕ, zero, suc, ◌≤◌, ◌≡◌, refl, String, Bool, true, false, Option, none, some, List, [], ◌∷◌, ◌++◌,
  length, length-append, not, replicate, arith, ltb, if◌then◌else◌,
}

-- What a receiver is told; the empty error is "".
abbrev pub Notice : Type 0
Notice = String

-- The channel `rec`: what is in it, oldest first, and how much fits.
pub record Receiver : Type 0 where
  pub queue : List Notice
  pub capacity : ℕ

-- A send in a select with a default.
unfoldable pub try_send : Notice → Receiver → Receiver
try_send n r =
    if ltb (length r.queue) r.capacity then record r { queue = r.queue ++ (n ∷ []) } else r

-- A read by the goroutine itself, which takes what someone else has sent.
unfoldable pub take_notice : Receiver → Receiver
take_notice r = elim r.queue [ [] ↦ r | n ∷ rest ↦ record r { queue = rest } ]

-- What a select comes to. `cancels` carries the reason, "" if the library has closed that channel;
-- `closes` carries the text of the error, none if there is none; `ticks` is the timer with what the
-- channel then says to IsClosed.
pub data Event : Type 0 where
  cancels : String → Event
  closes : Option String → Event
  receives : Event
  ticks : Bool → Event

text_of : Option String → Notice
text_of none = ""
text_of (some t) = t

abbrev pub closed_text : String → Notice
closed_text client = append "Channel closed for client " client

-- Whether the goroutine has returned, and the receiver. What comes after is not read.
unfoldable pub channel_notify_close_loop : String → List Event → Receiver → Bool × Receiver
unfolding text_of
channel_notify_close_loop client [] r = (false, r)
channel_notify_close_loop client (cancels reason ∷ events) r = (true, try_send reason r)
channel_notify_close_loop client (closes e ∷ events) r = (true, try_send (text_of e) r)
channel_notify_close_loop client (receives ∷ events) r = (true, take_notice r)
channel_notify_close_loop client (ticks closed ∷ events) r =
    let rest = channel_notify_close_loop client events r in
    if closed then (true, try_send (closed_text client) r) else rest

-- The goroutine of a connection has no timer and no cancellation, and waits for the first event.
unfoldable pub connection_notify : Option String → Receiver → Receiver
unfolding text_of
connection_notify e r = try_send (text_of e) r

-- Ticks that find the channel open.
abbrev pub open_ticks : ℕ → List Event
open_ticks n = replicate n (ticks false)

abbrev pub is_open_tick : Event → Bool
is_open_tick (ticks closed) = not closed
is_open_tick _ = false

-- After any number of ticks at which the channel is still open, the first other event ends the goroutine,
-- with one notice more at most, and nothing that comes later is read or told. So a channel that closes
-- without a notification is found by the timer: if that event is a tick at which it is closed, a
-- receiver with room is told so.
pub channel_notify_close_loop_ends :
    (client : String) (n : ℕ) (e : Event) (later : List Event) (r : Receiver)
    → is_open_tick e ≡ false
    → let (ended, r') = channel_notify_close_loop client (open_ticks n ++ (e ∷ later)) r in
      (ended ≡ true)
      × (length r'.queue ≤ suc (length r.queue))
      × (r' ≡ (channel_notify_close_loop client (e ∷ []) r).1)
      × (e ≡ ticks true
          → ltb (length r.queue) r.capacity ≡ true
          → r'.queue ≡ r.queue ++ (closed_text client ∷ []))
unfolding channel_notify_close_loop try_send take_notice
channel_notify_close_loop_ends client (suc n) e later r other =
    channel_notify_close_loop_ends client n e later r other
channel_notify_close_loop_ends client zero (cancels reason) later r other =
    (refl, ground (arith, length-append r.queue (reason ∷ [])), refl, λ same. absurd (cc same))
channel_notify_close_loop_ends client zero (closes t) later r other =
    (refl, ground (arith, length-append r.queue (text_of t ∷ [])), refl, λ same. absurd (cc same))
channel_notify_close_loop_ends client zero receives later r other =
    (refl, ground arith, refl, λ same. absurd (cc same))
channel_notify_close_loop_ends client zero (ticks true) later r other = (
  refl,
  ground (arith, length-append r.queue (closed_text client ∷ [])),
  refl,
  λ same room. ground (arith, room),
)
channel_notify_close_loop_ends client zero (ticks false) later r other = absurd (cc other)
